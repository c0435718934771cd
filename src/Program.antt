-- ===== src/Program.antt =====
-- main.cpp, LoggerAdapter.cpp and libratel/InetUtils.cpp: the arguments of the program, the levels and
-- sinks of its log. What C, POSIX and spdlog give is a parameter.
pub mod Starting
use socks.Base.{
  ℕ, ◌==◌, ◌%◌, ◌^◌, List, [], ◌∷◌, Bool, true, false, Option, none, some, if◌then◌else◌,
}

-- The numbers that spdlog gives to its levels, which the macros of LoggerAdapter.h take over.
pub record SpdlogLevels : Type 0 where
  pub trace : ℕ
  pub debug : ℕ
  pub info : ℕ
  pub warn : ℕ
  pub err : ℕ
  pub critical : ℕ
  pub off : ℕ

unfoldable pub from_int_to_level : SpdlogLevels → ℕ → ℕ
from_int_to_level l level =
    if level == l.trace
    then l.trace
    else (if level == l.debug
        then l.debug
        else (if level == l.info
            then l.info
            else (if level == l.warn
                then l.warn
                else (if level == l.err
                    then l.err
                    else (if level == l.critical then l.critical else l.off)))))

-- The static sinks, each with its level.
pub record Sinks : Type 0 where
  pub file_sink : Option ℕ
  pub console_sink : Option ℕ

unfoldable pub make_sinks : Sinks → List ℕ
make_sinks sinks = elim sinks.file_sink [
  | none ↦ (elim sinks.console_sink [ none ↦ [] | some console ↦ console ∷ [] ])
  | some file ↦ (elim sinks.console_sink [ none ↦ file ∷ [] | some console ↦ file ∷ console ∷ [] ])
]

unfoldable pub global_init : SpdlogLevels → Bool → Sinks → Sinks
global_init l enable_con sinks = record {
  file_sink = some l.trace;
  console_sink = if enable_con then some l.trace else sinks.console_sink;
}

unfoldable pub global_init_console : SpdlogLevels → Sinks → Sinks
global_init_console l sinks = record { file_sink = none; console_sink = some l.trace }

unfoldable pub set_sink : ℕ → Option ℕ → Option ℕ
set_sink level none = none
set_sink level (some old) = some level

unfoldable pub global_set_level : SpdlogLevels → ℕ → Sinks → Sinks
unfolding from_int_to_level set_sink
global_set_level l level sinks = record {
  file_sink = set_sink (from_int_to_level l level) sinks.file_sink;
  console_sink = set_sink (from_int_to_level l level) sinks.console_sink;
}

-- libevent's severities are 0 to 3.
unfoldable pub event_log_level : SpdlogLevels → ℕ → ℕ
event_log_level l severity =
    if severity == 0
    then l.debug
    else (if severity == 1 then l.info else (if severity == 2 then l.warn else l.err))

-- `std::stoi` gives an int, here its 32 bits, or throws.
pub record System : Type 0 where
  pub is_help : List ℕ → Bool
  pub inet_addr : List ℕ → ℕ
  pub stoi : List ℕ → Option ℕ
  pub htons : ℕ → ℕ
  pub run : ℕ → ℕ → ℕ

pub data Exit : Type 0 where
  returned : ℕ → Exit
  threw : Exit

-- The port is cut to 16 bits where it becomes an argument of `htons`.
unfoldable pub host_port : System → List (List ℕ) → Option ℕ
host_port sys [] = some (sys.htons 35555)
host_port sys (port ∷ others) = elim (sys.stoi port) [
  | none ↦ none
  | some n ↦ some (sys.htons (n % 2 ^ 16))
]

-- Of the arguments after the program's name; `logging` is the result of initLogging.
unfoldable pub main : System → Bool → List (List ℕ) → Exit
unfolding host_port
main sys false args = returned 1
main sys true [] = returned 0
main sys true (host ∷ others) =
    if sys.is_help host then returned 0 else (elim (host_port sys others) [
      | none ↦ threw
      | some port ↦ returned (sys.run (sys.inet_addr host) port)
    ])
