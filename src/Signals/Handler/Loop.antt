-- ===== src/Signals/Handler/Loop.antt =====
-- The loops of SignalHandler.cpp.
use socks.Base.{
  ℕ, zero, suc, ◌+◌, ◌≤◌, ◌<◌, List, [], ◌∷◌, ◌++◌, map, Option, none, some, ◌≡◌, refl, sym, ◌∙◌,
  ap, append_assoc, append-nil, if_cases, arith,
}
use socks.Queue.{push_back, pop_front}
use socks.Signals.Handler.{
  Handler, Outcome, Ending, error_code, returned, push_signal, push_signals, execute_signal,
  run_once, get_error, stop,
}

module _ {ℓ} {S : Type ℓ} where
  -- The signals in a queue, without its null pointers.
  abbrev pub signals : List (Option S) → List S
  signals [] = []
  signals (none ∷ queue) = signals queue
  signals (some s ∷ queue) = s ∷ signals queue

  signals-append :
      (xs : List (Option S)) (sigs : List S) → signals (xs ++ map some sigs) ≡ signals xs ++ sigs
  signals-append [] [] = refl
  signals-append [] (s ∷ sigs) = ap (◌∷◌ s) (signals-append [] sigs)
  signals-append (none ∷ xs) sigs = signals-append xs sigs
  signals-append (some s ∷ xs) sigs = ap (◌∷◌ s) (signals-append xs sigs)

  -- A call, what was in the queue behind it, what it pushed and what came later, put in a line.
  in_line :
      (called : List S) (s : S) (queue : List (Option S)) (pushed later : List S)
      → (called ++ s ∷ []) ++ (signals (queue ++ map some pushed) ++ later)
        ≡ called ++ ((s ∷ signals queue) ++ (pushed ++ later))
  in_line called s queue pushed later =
      append_assoc called (s ∷ []) (signals (queue ++ map some pushed) ++ later)
      ∙ ap (λ l. called ++ s ∷ l)
          (ap (λ l. l ++ later) (signals-append queue pushed)
            ∙ append_assoc (signals queue) pushed later)

module _ {ℓ κ} {S : Type ℓ} {W : Type κ} where
  queue-push_signals :
      (sigs : List S) (h : Handler S W) → (push_signals sigs h).queue ≡ h.queue ++ map some sigs
  unfolding push_signals push_signal push_back
  queue-push_signals [] h = sym (append-nil h.queue)
  queue-push_signals (s ∷ sigs) h =
      queue-push_signals sigs (push_signal s h) ∙ append_assoc h.queue (some s ∷ []) (map some sigs)

  error-push_signals : (sigs : List S) (h : Handler S W) → (push_signals sigs h).error ≡ h.error
  unfolding push_signals push_signal
  error-push_signals [] h = refl
  error-push_signals (s ∷ sigs) h = error-push_signals sigs (push_signal s h)

  called-push_signals : (sigs : List S) (h : Handler S W) → (push_signals sigs h).called ≡ h.called
  unfolding push_signals push_signal
  called-push_signals [] h = refl
  called-push_signals (s ∷ sigs) h = called-push_signals sigs (push_signal s h)

  world-push_signals : (sigs : List S) (h : Handler S W) → (push_signals sigs h).world ≡ h.world
  unfolding push_signals push_signal
  world-push_signals [] h = refl
  world-push_signals (s ∷ sigs) h = world-push_signals sigs (push_signal s h)

  module _ (call : S → W → Outcome S W) (weight : S → ℕ) where
    -- What the signals in a queue lead to, themselves counted.
    abbrev pub total : List (Option S) → ℕ
    total [] = 0
    total (none ∷ queue) = suc (total queue)
    total (some s ∷ queue) = suc (weight s + total queue)

    total-append : (xs ys : List (Option S)) → total (xs ++ ys) ≡ total xs + total ys
    total-append [] ys = omega arith
    total-append (none ∷ xs) ys = omega (arith, total-append xs ys)
    total-append (some s ∷ xs) ys = omega (arith, total-append xs ys)

    executed :
        (s : S) (h : Handler S W)
        → ((execute_signal call (some s) h).queue ≡ h.queue ++ map some (call s h.world).pushed)
          × ((execute_signal call (some s) h).error ≡ h.error)
          × ((execute_signal call (some s) h).called ≡ h.called ++ s ∷ [])
          × ((execute_signal call (some s) h).world ≡ (call s h.world).world)
    unfolding execute_signal stop
    executed s h =
        let sigs = (call s h.world).pushed in
        let h' : Handler S W = record h {
          called = h.called ++ s ∷ [];
          world = (call s h.world).world;
        } in
        if_cases
          (λ (t : Handler S W).
            (t.queue ≡ h.queue ++ map some sigs)
            × (t.error ≡ h.error)
            × (t.called ≡ h'.called)
            × (t.world ≡ h'.world))
          (call s h.world).stops (stop (push_signals sigs h')) (push_signals sigs h')
          (λ e. (
            queue-push_signals sigs h',
            error-push_signals sigs h',
            called-push_signals sigs h',
            world-push_signals sigs h',
          ))
          (λ e. (
            queue-push_signals sigs h',
            error-push_signals sigs h',
            called-push_signals sigs h',
            world-push_signals sigs h',
          ))

    executed_null : (h : Handler S W) → execute_signal call none h ≡ h
    unfolding execute_signal
    executed_null h = refl

    -- A round of the loop, by the queue that it finds.
    abbrev round : ℕ → Handler S W → List (Option S) → Ending S W
    round fuel h [] = returned (error_code h.error) h
    round fuel h (sig ∷ queue) =
        run_once call fuel (execute_signal call sig (record h { queue = queue }))

    run_once-round :
        (fuel : ℕ) (h : Handler S W) → run_once call (suc fuel) h ≡ round fuel h h.queue
    unfolding run_once pop_front
    run_once-round fuel h = go h.queue
      where
        go :
            (q : List (Option S))
            → elim (pop_front q) [
              | none ↦ returned (error_code (get_error h)) h
              | some (sig, queue) ↦
                  run_once call fuel (execute_signal call sig (record h { queue = queue }))
            ]
              ≡ round fuel h q
        go [] = refl
        go (sig ∷ q) = refl

    -- What a list of calls pushes, one after the other, and the world that they leave.
    abbrev pub pushed_by : List S → W → List S
    pushed_by [] w = []
    pushed_by (s ∷ sigs) w = (call s w).pushed ++ pushed_by sigs (call s w).world

    abbrev pub world_after : List S → W → W
    world_after [] w = w
    world_after (s ∷ sigs) w = world_after sigs (call s w).world

    -- The loop returns, and what it leaves. The calls are the signals in the queue and those that all
    -- these calls push.
    abbrev pub Ends : ℕ → Handler S W → Type (ℓ ⊔ κ)
    Ends fuel h =
        (h' : Handler S W) × (later : List S) × (run_once call fuel h
          ≡ returned (error_code h.error) h')
        × (h'.queue ≡ [])
        × (h'.called ≡ h.called ++ (signals h.queue ++ later))
        × (later ≡ pushed_by (signals h.queue ++ later) h.world)
        × (h'.world ≡ world_after (signals h.queue ++ later) h.world)

    -- Where what a call pushes never leads to more than what is counted for the signal that is called,
    -- `runOnce` comes to an end: with more rounds than are counted for its queue it returns the code
    -- of the error that the handler had, with an empty queue, and it has called the signals that were
    -- in the queue, each once and in their order, and after them exactly those that all these calls
    -- pushed, each once and in the order of the pushes; and the world is what these calls in turn make
    -- of it.
    pub run_once-Ends :
        ((s : S) (w : W) → total (map some (call s w).pushed) ≤ weight s)
        → (fuel : ℕ) (h : Handler S W) → total h.queue < fuel
        → Ends fuel h
    run_once-Ends settles zero h enough = absurd (omega arith)
    run_once-Ends settles (suc fuel) h enough = go h.queue refl (run_once-Ends settles fuel)
      where
        go :
            (q : List (Option S))
            → h.queue ≡ q
            → ((h : Handler S W) → total h.queue < fuel → Ends fuel h)
            → Ends (suc fuel) h
        go [] e ends = (
          h,
          [],
          run_once-round fuel h ∙ ap (round fuel h) e,
          e,
          sym (ap (λ q. h.called ++ (signals q ++ [])) e ∙ append-nil h.called),
          sym (ap (λ q. pushed_by (signals q ++ []) h.world) e),
          sym (ap (λ q. world_after (signals q ++ []) h.world) e),
        )
        go (none ∷ q) e ends =
            let h1 : Handler S W = record h { queue = q } in
            let (h', later, ran, empty, line, pushes, world) =
              ends h1 (omega (arith, ap total e, enough)) in
            (
              h',
              later,
              run_once-round fuel h
                  ∙ ap (round fuel h) e
                  ∙ ap (run_once call fuel) (executed_null h1)
                  ∙ ran,
              empty,
              line ∙ sym (ap (λ q. h.called ++ (signals q ++ later)) e),
              pushes ∙ sym (ap (λ q. pushed_by (signals q ++ later) h.world) e),
              world ∙ sym (ap (λ q. world_after (signals q ++ later) h.world) e),
            )
        go (some s ∷ q) e ends =
            let h1 : Handler S W = record h { queue = q } in
            let h2 = execute_signal call (some s) h1 in
            let pushed = (call s h.world).pushed in
            let (queue, error, called, left) = executed s h1 in
            let (h', later, ran, empty, line, pushes, world) = ends h2 (
              omega (
                arith,
                ap total e,
                enough,
                ap total queue,
                total-append q (map some pushed),
                settles s h.world,
              )) in
            let behind : signals h2.queue ++ later ≡ signals q ++ (pushed ++ later) =
              ap (λ l. signals l ++ later) queue
              ∙ ap (λ l. l ++ later) (signals-append q pushed)
              ∙ append_assoc (signals q) pushed later in
            (
              h',
              pushed ++ later,
              run_once-round fuel h
                  ∙ ap (round fuel h) e
                  ∙ ran
                  ∙ ap (λ n. returned (error_code n) h') error,
              empty,
              line
                  ∙ ap (λ c. c ++ (signals h2.queue ++ later)) called
                  ∙ ap (λ l. (h.called ++ s ∷ []) ++ (signals l ++ later)) queue
                  ∙ in_line h.called s q pushed later
                  ∙ sym (ap (λ l. h.called ++ (signals l ++ (pushed ++ later))) e),
              ap (λ l. pushed ++ l)
                    (pushes
                      ∙ ap (λ w. pushed_by (signals h2.queue ++ later) w) left
                      ∙ ap (λ l. pushed_by l (call s h.world).world) behind)
                  ∙ sym (ap (λ l. pushed_by (signals l ++ (pushed ++ later)) h.world) e),
              world
                  ∙ ap (λ w. world_after (signals h2.queue ++ later) w) left
                  ∙ ap (λ l. world_after l (call s h.world).world) behind
                  ∙ sym (ap (λ l. world_after (signals l ++ (pushed ++ later)) h.world) e),
            )
