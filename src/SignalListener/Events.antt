-- ===== src/SignalListener/Events.antt =====
-- The events that Event/EventSignalListener.cpp holds.
use socks.Base.{
  ℕ, ◌+◌, ◌==◌, List, [], ◌∷◌, ◌++◌, Option, none, some, if◌then◌else◌, ◌≡◌, ◌≢◌, refl, sym, ◌∙◌,
  ap, Bool-cases, ==_iff, arith, inl, inr,
}
use socks.Maps.{put, erase, find, find-put, find-put_other, find-erase, find-erase_other}
use socks.SignalListener.{Listener, held, add, del}

pub data Operation : Type 0 where
  added : ℕ → Option ℕ → Operation
  deleted : ℕ → Operation

unfoldable pub step : Operation → Listener → Listener
unfolding add del
step (added signum created) listener = add signum created listener
step (deleted signum) listener = del signum listener

unfoldable pub run : List Operation → Listener → Listener
unfolding step
run [] listener = listener
run (o ∷ os) listener = run os (step o listener)

abbrev pub start : Listener
start = record { events = []; freed = [] }

-- The event of a number, by the last operation on that number.
abbrev pub event_of : List Operation → ℕ → Option ℕ → Option ℕ
event_of [] signum ev = ev
event_of (added number created ∷ os) signum ev =
    event_of os signum (if number == signum then created else ev)
event_of (deleted number ∷ os) signum ev =
    event_of os signum (if number == signum then none else ev)

abbrev is_one : ℕ → ℕ → ℕ
is_one x ev = if x == ev then 1 else 0

-- How often an event is in a list, in the map, and was made.
abbrev pub occurrences : ℕ → List ℕ → ℕ
occurrences ev [] = 0
occurrences ev (x ∷ xs) = is_one x ev + occurrences ev xs

abbrev pub entries_with : ℕ → List (ℕ × ℕ) → ℕ
entries_with ev [] = 0
entries_with ev (entry ∷ entries) = is_one entry.1 ev + entries_with ev entries

abbrev pub made : ℕ → List Operation → ℕ
made ev [] = 0
made ev (added number none ∷ os) = made ev os
made ev (added number (some x) ∷ os) = is_one x ev + made ev os
made ev (deleted number ∷ os) = made ev os

find-del :
    (number signum : ℕ) (listener : Listener)
    → find signum (del number listener).events
      ≡ (if number == signum then none else find signum listener.events)
unfolding del
find-del number signum listener = elim (Bool-cases (number == signum)) [
  | inl e ↦ rw (e, sym ((==_iff number signum).0 e)) (find-erase number listener.events)
  | inr e ↦ rw e (find-erase_other number signum listener.events (ground (arith, e)))
]

find-add :
    (number signum : ℕ) (created : Option ℕ) (listener : Listener)
    → find signum (add number created listener).events
      ≡ (if number == signum then created else find signum listener.events)
unfolding add
find-add number signum none listener = find-del number signum listener
find-add number signum (some ev) listener = elim (Bool-cases (number == signum)) [
  | inl e ↦
      rw (e, sym ((==_iff number signum).0 e)) (find-put number ev (erase number listener.events))
  | inr e ↦
      (let ne : number ≢ signum = ground (arith, e) in
        rw e (
          find-put_other number signum ev (erase number listener.events) ne
          ∙ find-erase_other number signum listener.events ne))
]

find-run_from :
    (os : List Operation) (signum : ℕ) (listener : Listener)
    → find signum (run os listener).events ≡ event_of os signum (find signum listener.events)
unfolding run
find-run_from [] signum listener = refl
find-run_from (added number created ∷ os) signum listener =
    find-run_from os signum (add number created listener)
    ∙ ap (event_of os signum) (find-add number signum created listener)
find-run_from (deleted number ∷ os) signum listener =
    find-run_from os signum (del number listener)
    ∙ ap (event_of os signum) (find-del number signum listener)

occurrences-append :
    (ev : ℕ) (xs ys : List ℕ) → occurrences ev (xs ++ ys) ≡ occurrences ev xs + occurrences ev ys
occurrences-append ev [] ys = omega arith
occurrences-append ev (x ∷ xs) ys = omega (arith, occurrences-append ev xs ys)

entries_with-erase :
    (ev signum : ℕ) (entries : List (ℕ × ℕ))
    → entries_with ev (erase signum entries) + occurrences ev (held signum entries)
      ≡ entries_with ev entries
unfolding erase held
entries_with-erase ev signum [] = refl
entries_with-erase ev signum (entry ∷ entries) = elim (Bool-cases (entry.0 == signum)) [
  | inl e ↦ rw e (omega (arith, entries_with-erase ev signum entries))
  | inr e ↦ rw e (omega (arith, entries_with-erase ev signum entries))
]

entries_with-put_new :
    (ev signum x : ℕ) (entries : List (ℕ × ℕ))
    → entries_with ev (put signum x (erase signum entries))
      ≡ is_one x ev + entries_with ev (erase signum entries)
unfolding erase put
entries_with-put_new ev signum x [] = refl
entries_with-put_new ev signum x (entry ∷ entries) = elim (Bool-cases (entry.0 == signum)) [
  | inl e ↦ rw e (entries_with-put_new ev signum x entries)
  | inr e ↦ rw (e, e) (omega (arith, entries_with-put_new ev signum x entries))
]

abbrev count : ℕ → Listener → ℕ
count ev listener = entries_with ev listener.events + occurrences ev listener.freed

count-del :
    (ev signum : ℕ) (listener : Listener) → count ev (del signum listener) ≡ count ev listener
unfolding del
count-del ev signum listener = omega (
  arith,
  entries_with-erase ev signum listener.events,
  occurrences-append ev listener.freed (held signum listener.events),
)

count-run :
    (ev : ℕ) (os : List Operation) (listener : Listener)
    → count ev (run os listener) ≡ count ev listener + made ev os
unfolding run
count-run ev [] listener = omega arith
count-run ev (added number none ∷ os) listener =
    omega (arith, count-run ev os (add number none listener), count_none)
  where
    count_none : count ev (add number none listener) ≡ count ev listener
    count_none = count-del ev number listener
count-run ev (added number (some x) ∷ os) listener = omega (
  arith,
  count-run ev os (add number (some x) listener),
  count-del ev number listener,
  entries_with-put_new ev number x listener.events,
)
count-run ev (deleted number ∷ os) listener =
    omega (arith, count-run ev os (del number listener), count-del ev number listener)

-- After any additions and deletions, a signal number has the event of the last operation on it (none
-- where that deleted it, or could not make a new event), and every event was made as often as it is
-- held or was given back together: none is lost, and what is given back are the events that were made
-- and are held no longer, each as often as it was made.
pub find-run :
    (os : List Operation) (signum ev : ℕ)
    → (find signum (run os start).events ≡ event_of os signum none)
      × (entries_with ev (run os start).events + occurrences ev (run os start).freed ≡ made ev os)
unfolding find
find-run os signum ev = (find-run_from os signum start, omega (arith, count-run ev os start))
