-- ===== src/Manager/Ids.antt =====
-- The ids that SessionMng.cpp gives to sessions.
use socks.Base.{
  ℕ, ◌+◌, ◌%◌, ◌^◌, ◌<◌, ◌≤◌, ◌≡◌, refl, ◌==◌, List, [], ◌∷◌, Bool, Option, none, some, All,
  Bool-cases, Option-cases, if_cases, ==_iff, arith, inl, inr,
}
use socks.Session.{Session, Env, Event, new_session, handle}
use socks.Maps.{put, erase, find}
use socks.Manager.{
  Manager, Operation, connection_accepted, connection_wanted, connection_destroyed, session_called,
  signal_occured, stop, session_event, on_session_end, on_signal_occured, on_new_connection, step,
  run, new_manager,
}

abbrev pub accepted : List Operation → ℕ
accepted [] = 0
accepted (connection_accepted ∷ os) = 1 + accepted os
accepted (o ∷ os) = accepted os

accepted_cons :
    (o : Operation) (os : List Operation) → accepted (o ∷ os) ≡ accepted (o ∷ []) + accepted os
accepted_cons connection_accepted os = omega arith
accepted_cons (connection_wanted user created) os = omega arith
accepted_cons (connection_destroyed user) os = omega arith
accepted_cons (session_called env id e) os = omega arith
accepted_cons (signal_occured signum) os = omega arith

-- All keys are below `n`.
abbrev Below : ℕ → List (ℕ × Session) → Type 0
Below n = All (λ entry. entry.0 < n)

Below-mono : (n m : ℕ) (entries : List (ℕ × Session)) → n ≤ m → Below n entries → Below m entries
Below-mono n m [] le h = tt
Below-mono n m (entry ∷ entries) le h = (omega (arith, le, h.0), Below-mono n m entries le h.1)

Below-put :
    (n key : ℕ) (session : Session) (entries : List (ℕ × Session))
    → key < n
    → Below n entries
    → Below n (put key session entries)
unfolding put
Below-put n key session [] lt h = (lt, tt)
Below-put n key session (entry ∷ entries) lt h =
    if_cases (Below n) (entry.0 == key) _ _ (λ e. (lt, h.1))
      (λ e. (h.0, Below-put n key session entries lt h.1))

Below-erase :
    (n key : ℕ) (entries : List (ℕ × Session)) → Below n entries → Below n (erase key entries)
unfolding erase
Below-erase n key [] h = tt
Below-erase n key (entry ∷ entries) h =
    if_cases (Below n) (entry.0 == key) _ _ (λ e. Below-erase n key entries h.1)
      (λ e. (h.0, Below-erase n key entries h.1))

find-Below :
    (n key : ℕ) (entries : List (ℕ × Session)) → Below n entries → n ≤ key → find key entries ≡ none
unfolding find
find-Below n key [] h le = refl
find-Below n key (entry ∷ entries) h le =
    if_cases (λ (o : Option Session). o ≡ none) (entry.0 == key) _ _
      (λ e. absurd (omega (arith, (==_iff entry.0 key).0 e, h.0, le)))
      (λ e. find-Below n key entries h.1 le)

found-Below :
    (n key : ℕ) (session : Session) (entries : List (ℕ × Session))
    → Below n entries
    → find key entries ≡ some session
    → key < n
unfolding find
found-Below n key session [] h e = cc
found-Below n key session (entry ∷ entries) h e = elim (Bool-cases (entry.0 == key)) [
  | inl same ↦ omega (arith, (==_iff entry.0 key).0 same, h.0)
  | inr other ↦ found-Below n key session entries h.1 (rw other at e)
]

-- The counter has counted `n`, and the ids are below it.
abbrev Counted : ℕ → Manager → Type 0
Counted n mng = (mng.current_id ≡ n % 2 ^ 32) × (n ≤ 2 ^ 32 → Below n mng.sessions)

event-Counted :
    (n : ℕ) (env : Env) (id : ℕ) (e : Event) (mng : Manager)
    → Counted n mng
    → Counted n (session_event env id e mng)
unfolding session_event on_session_end
event-Counted n env id e mng h = elim (Option-cases (find id mng.sessions)) [
  | inl e0 ↦ rw (e0, session_event) h
  | inr (s, there) ↦
      rw (there, session_event)
        (if_cases (Counted n) (handle env e s).ended _ _
          (λ ended. (h.0, λ le. Below-erase n id mng.sessions (h.1 le)))
          (λ on. (
            h.0,
            λ le.
                Below-put n id (handle env e s) mng.sessions
                  (found-Below n id s mng.sessions (h.1 le) there) (h.1 le),
          )))
]

same-Counted : (n : ℕ) (mng : Manager) → Counted n mng → Counted (0 + n) mng
same-Counted n mng h = let e : 0 + n ≡ n = omega arith in rw e h

accepted-Counted : (n : ℕ) (mng : Manager) → Counted n mng → Counted (1 + n) (on_new_connection mng)
unfolding on_new_connection
accepted-Counted n mng h = (
  omega (arith, h.0),
  λ le.
      Below-put (1 + n) mng.current_id (new_session mng.current_id) mng.sessions
        (omega (arith, h.0, le))
        (Below-mono n (1 + n) mng.sessions (omega arith) (h.1 (omega (arith, le)))),
)

step-Counted :
    (n : ℕ) (o : Operation) (mng : Manager)
    → Counted n mng
    → Counted (accepted (o ∷ []) + n) (step o mng)
unfolding step
step-Counted n connection_accepted mng h = accepted-Counted n mng h
step-Counted n (connection_wanted user none) mng h =
    same-Counted n (step (connection_wanted user none) mng) h
step-Counted n (connection_wanted user (some conn)) mng h =
    same-Counted n (step (connection_wanted user (some conn)) mng) h
step-Counted n (connection_destroyed user) mng h =
    same-Counted n (step (connection_destroyed user) mng) h
step-Counted n (session_called env id e) mng h =
    same-Counted n (session_event env id e mng) (event-Counted n env id e mng h)
step-Counted n (signal_occured signum) mng h = same-Counted n (on_signal_occured signum mng) (
    if_cases (Counted n) (signum == 2) (record mng { server = stop mng.server }) mng (λ e. h)
      (λ e. h))

run-Counted :
    (n : ℕ) (os : List Operation) (mng : Manager)
    → Counted n mng
    → Counted (accepted os + n) (run os mng)
unfolding run
run-Counted n [] mng h = same-Counted n mng h
run-Counted n (o ∷ os) mng h =
    let e : accepted os + (accepted (o ∷ []) + n) ≡ accepted (o ∷ os) + n =
      omega (arith, accepted_cons o os) in
    rw⁻¹ e (run-Counted (accepted (o ∷ []) + n) os (step o mng) (step-Counted n o mng h))

-- After any operations the next id is the number of connections accepted, modulo 2 ^ 32; and as long
-- as fewer than 2 ^ 32 were, it is the id of no session in the map, so that the next connection
-- replaces none.
pub next_id_free :
    (os : List Operation) (listening : Bool)
    → let mng = run os (new_manager listening) in
      (mng.current_id ≡ accepted os % 2 ^ 32)
      × (accepted os < 2 ^ 32 → find mng.current_id mng.sessions ≡ none)
unfolding new_manager
next_id_free os listening =
    let mng = run os (new_manager listening) in
    let (count, below) = run-Counted 0 os (new_manager listening) (omega arith, λ le. tt) in
    let id : mng.current_id ≡ accepted os % 2 ^ 32 = omega (arith, count) in
    (
      id,
      λ lt.
          find-Below (accepted os + 0) mng.current_id mng.sessions (below (omega (arith, lt)))
            (omega (arith, id, lt)),
    )
