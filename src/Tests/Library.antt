-- ===== src/Tests/Library.antt =====
-- The queue and the signals at concrete inputs.
use socks.Base.{
  ℕ, zero, suc, ◌+◌, ◌*◌, ◌≤◌, ◌≡◌, ◌≢◌, ◌⊎◌, refl, List, [], ◌∷◌, ◌++◌, map, false, none, some,
  if◌then◌else◌, arith,
}
use socks.Maps.{find}
use socks.Queue
use socks.Queue.Fifo.{popped-append-queue}
use socks.Queue.Draining.{all_turns, drained}
use socks.Signals.{Hashing, make_hash, Callback, SignalPipe}
use socks.Signals.Meaning as Links
use socks.Signals.Links.{linked-run}
use socks.Signals.Meaning.{linked, meant, pipes_of}
use socks.Signals.Pipes.{unless}
use socks.Signals.Object.{
  NqObject, Signal, contains, unsubscribe_from_all, emit_all, on_signal_emitted, call,
}
use socks.Signals.Object.Gone.{unsubscribe_from_all-linked}
use socks.Signals.Object.Delivery.{emit_all-on_signal_emitted}
use socks.Signals.Handler.{Handler, Outcome, no_error}
use socks.Signals.Handler.Loop.{Ends, total, run_once-Ends}

-- One thread waits, one pushes, and does not notify yet.
abbrev sleeping : List (Queue.Action ℕ)
sleeping = Queue.pop ∷ Queue.push 7 ∷ []

-- One thread waits, one pushes twice.
abbrev turns : List (Queue.Action ℕ)
turns = Queue.pop ∷ Queue.push 7 ∷ Queue.push 8 ∷ Queue.notify_one ∷ Queue.woken ∷ []

popped-append-queue_example : let s = Queue.run turns Queue.start in s.popped ++ s.queue ≡ s.pushed
popped-append-queue_example = popped-append-queue turns

turns_popped : (Queue.run turns Queue.start).popped ≡ 7 ∷ []
unfolding Queue.run
turns_popped = refl

drained_example :
    let s = Queue.run sleeping Queue.start in
    let t = Queue.run (all_turns s) s in (t.asleep ≡ 0) ⊎ (t.queue ≡ [])
drained_example = drained sleeping

abbrev slot : Callback
slot = record { target = 1; function = 5; hash = 6 }

-- Connected, connected again for another object, and that object gone.
abbrev links : List Links.Operation
links = Links.connected 9 1 slot ∷ Links.connected 9 2 slot ∷ Links.object_gone 9 2 ∷ []

linked-run_example : linked 9 6 (Links.run links []) ≡ meant links 9 6 none
linked-run_example = linked-run links 9 6

meant-links : meant links 9 6 none ≡ some 1
unfolding meant
meant-links = refl

abbrev holder : NqObject
holder = record { this = 1; hashes = 9 ∷ []; waiting_signals = [] }

unsubscribe_from_all-linked_example :
    linked 9 6 (unsubscribe_from_all holder (Links.run links [])) ≡ (
      if contains 9 (9 ∷ [])
      then unless 1 (linked 9 6 (Links.run links []))
      else linked 9 6 (Links.run links []))
unsubscribe_from_all-linked_example = unsubscribe_from_all-linked links holder 9 6

abbrev plain_hashes : Hashing
plain_hashes = record { hash_bytes = λ n. n; hash_pointer = λ n. 10 * n }

slots_differ : make_hash plain_hashes 1 5 ≢ make_hash plain_hashes 1 6
unfolding make_hash
slots_differ = omega arith

abbrev pipe : SignalPipe
pipe = record { object = 1; callback = slot }

emit_all-on_signal_emitted_example :
    let (object', pushed) = emit_all plain_hashes 4 2 3 77 ((23, pipe ∷ []) ∷ []) holder in
    let sig : Signal = record { callback = 4; hash = make_hash plain_hashes 2 3; argument = 77 } in
    (pushed ≡ some sig)
    × (on_signal_emitted ((23, pipe ∷ pipe ∷ []) ∷ []) sig object' ≡ (
      holder,
      map (call 77) (pipes_of (find (make_hash plain_hashes 2 3) ((23, pipe ∷ pipe ∷ []) ∷ []))),
    ))
    × (on_signal_emitted ((23, pipe ∷ pipe ∷ []) ∷ []) sig holder ≡ (holder, []))
unfolding make_hash find contains
emit_all-on_signal_emitted_example =
    emit_all-on_signal_emitted plain_hashes 4 2 3 77 (pipe ∷ []) ((23, pipe ∷ []) ∷ [])
      ((23, pipe ∷ pipe ∷ []) ∷ []) holder refl refl

-- A signal pushes the number before it; the world is the sum of those called.
unfoldable count_down : ℕ → ℕ → Outcome ℕ ℕ
count_down zero w = record { world = w; pushed = []; stops = false }
count_down (suc n) w = record { world = w + suc n; pushed = n ∷ []; stops = false }

count_down-settles : (n w : ℕ) → total count_down (λ k. k) (map some (count_down n w).pushed) ≤ n
unfolding count_down
count_down-settles zero w = omega arith
count_down-settles (suc n) w = omega arith

abbrev two_signals : Handler ℕ ℕ
two_signals = record {
  run_flag = false;
  error = no_error;
  queue = some 2 ∷ none ∷ some 1 ∷ [];
  called = [];
  world = 0;
}

run_once-Ends_example : Ends count_down (λ k. k) 7 two_signals
run_once-Ends_example =
    run_once-Ends count_down (λ k. k) count_down-settles 7 two_signals (omega arith)
