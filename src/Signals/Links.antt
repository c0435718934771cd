-- ===== src/Signals/Links.antt =====
-- SignalConnectionStorage.h, against the map from a signal's hash and a slot's hash to an object.
use socks.Base.{ℕ, List, [], ◌∷◌, none, ◌≡◌, refl, ◌∙◌, ap}
use socks.Maps.{find}
use socks.Signals.{SignalMap}
use socks.Signals.Meaning.{Operation, step, run, linked, meant, AllDistinct}
use socks.Signals.Steps.{step-Step}

pub run_meant :
    (ops : List Operation) (sig_map : SignalMap)
    → AllDistinct sig_map
    → (signal h : ℕ)
    → linked signal h (run ops sig_map) ≡ meant ops signal h (linked signal h sig_map)
unfolding run meant AllDistinct
run_meant [] sig_map d signal h = refl
run_meant (op ∷ ops) sig_map d signal h =
    let next = step-Step op sig_map d in
    run_meant ops (step op sig_map) (λ s. (next s).1) signal h
    ∙ ap (meant ops signal h) ((next signal).0 h)

pub run-AllDistinct :
    (ops : List Operation) (sig_map : SignalMap)
    → AllDistinct sig_map
    → AllDistinct (run ops sig_map)
unfolding run AllDistinct
run-AllDistinct [] sig_map d = d
run-AllDistinct (op ∷ ops) sig_map d =
    run-AllDistinct ops (step op sig_map) (λ s. (step-Step op sig_map d s).1)

pub empty-AllDistinct : AllDistinct []
unfolding AllDistinct find
empty-AllDistinct signal = tt

-- After any connections and disconnections, also of whole objects, from an empty storage: the slot
-- with a given hash is connected to the signal with a given hash, for a given object, exactly when
-- the operations on that signal, read in order as sets and resets of that one slot, say so. A slot
-- that is connected again stays with its first object.
pub linked-run :
    (ops : List Operation) (signal h : ℕ) → linked signal h (run ops []) ≡ meant ops signal h none
unfolding linked
linked-run ops signal h = run_meant ops [] empty-AllDistinct signal h
