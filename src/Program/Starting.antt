-- ===== src/Program/Starting.antt =====
-- The arguments of main.cpp, and the levels of the sinks of LoggerAdapter.cpp.
use socks.Base.{
  ℕ, ◌+◌, ◌*◌, ◌%◌, ◌^◌, List, [], ◌∷◌, true, Option, none, some, ◌≡◌, refl, All, arith,
}
use socks.Program.{
  SpdlogLevels, Sinks, System, from_int_to_level, make_sinks, global_set_level, set_sink, host_port,
  main,
}

-- Once the global level is set, whatever sinks there are, every sink that a new logger is made with
-- has that level.
pub make_sinks-global_set_level :
    (l : SpdlogLevels) (level : ℕ) (sinks : Sinks)
    → All (λ s. s ≡ from_int_to_level l level) (make_sinks (global_set_level l level sinks))
unfolding make_sinks global_set_level set_sink
make_sinks-global_set_level l level sinks = go sinks.file_sink sinks.console_sink
  where
    go :
        (file console : Option ℕ)
        → All
            (λ s. s ≡ from_int_to_level l level)
            (make_sinks (record {
              file_sink = set_sink (from_int_to_level l level) file;
              console_sink = set_sink (from_int_to_level l level) console;
            }))
    go none none = tt
    go none (some c) = (refl, tt)
    go (some f) none = (refl, tt)
    go (some f) (some c) = (refl, (refl, tt))

-- A port that is too large is not refused: the program runs on what is left of it in 16 bits, just as
-- if that had been asked for.
pub port_wraps :
    (sys : System) (host port small : List ℕ) (n k : ℕ)
    → sys.stoi port ≡ some (n + k * 2 ^ 16)
    → sys.stoi small ≡ some n
    → main sys true (host ∷ port ∷ []) ≡ main sys true (host ∷ small ∷ [])
unfolding main host_port
port_wraps sys host port small n k large fits =
    let e : (n + k * 2 ^ 16) % 2 ^ 16 ≡ n % 2 ^ 16 = omega arith in rw (large, fits, e) refl
