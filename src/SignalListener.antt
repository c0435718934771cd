-- ===== src/SignalListener.antt =====
-- Event/EventSignalListener.cpp: the events of libevent by their signal numbers. Events are numbers.
pub mod Events
use socks.Base.{ℕ, ◌==◌, List, [], ◌∷◌, ◌++◌, Option, none, some, if◌then◌else◌}
use socks.Maps.{put, erase}

-- `freed` are the events that were given back, oldest first.
pub record Listener : Type 0 where
  pub events : List (ℕ × ℕ)
  pub freed : List ℕ

-- The events that go when a signal number is erased; each is given back by its pointer.
unfoldable pub held : ℕ → List (ℕ × ℕ) → List ℕ
held signum [] = []
held signum (entry ∷ entries) =
    let rest = held signum entries in if entry.0 == signum then entry.1 ∷ rest else rest

unfoldable pub del : ℕ → Listener → Listener
unfolding erase held
del signum listener = record {
  events = erase signum listener.events;
  freed = listener.freed ++ held signum listener.events;
}

-- `created` is the result of `evsignal_new`.
unfoldable pub add : ℕ → Option ℕ → Listener → Listener
unfolding del put
add signum none listener = del signum listener
add signum (some ev) listener =
    let without = del signum listener in record without { events = put signum ev without.events }

-- What the user is called with.
unfoldable pub on_signal_static : ℕ → ℕ
on_signal_static fd = fd
