-- ===== src/Tests/Threads.antt =====
-- A handler of SignalHandler.cpp that is started, stopped and started again.
use socks.Base.{ℕ, ◌+◌, ◌≡◌, List, [], ◌∷◌, false, none, some}
use socks.Signals.Handler.{Outcome}
use socks.Signals.Handler.Threads.{
  Operation, run_called, stop_called, round_done, pushed, start, run, destroy_handler,
  started_terminates,
}

-- A signal is a number, which is added.
abbrev adding : ℕ → ℕ → Outcome ℕ ℕ
adding sig world = record { world = sig + world; pushed = []; stops = false }

abbrev restarted : List (Operation ℕ)
restarted = pushed 3 ∷ run_called ∷ round_done ∷ stop_called ∷ round_done ∷ run_called ∷ []

started_terminates_example : destroy_handler (run adding restarted (some (start 0))) ≡ none
started_terminates_example = started_terminates adding restarted 0 tt
