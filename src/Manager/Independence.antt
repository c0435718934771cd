-- ===== src/Manager/Independence.antt =====
-- The sessions of SessionMng.cpp, one by one.
use socks.Base.{
  ℕ, ◌+◌, ◌%◌, ◌^◌, ◌≡◌, refl, sym, ◌∙◌, ap, if◌then◌else◌, ◌==◌, List, [], ◌∷◌, Option, none, some,
  Bool-cases, if_cases, ==_iff, arith, inl, inr,
}
use socks.Maps.{put, erase, find, find-put, find-put_other, find-erase, find-erase_other}
use socks.Session.{Session, Env, Event, new_session, handle}
use socks.Manager.{
  Manager, Operation, connection_accepted, connection_wanted, connection_destroyed, session_called,
  signal_occured, step, run, session_event, on_session_end, stop, on_connection_destroyed,
}

-- What an event makes of a session: nothing is left of it once it has ended.
abbrev pub after_event : Env → Event → Option Session → Option Session
after_event env e none = none
after_event env e (some session) =
    if (handle env e session).ended then none else some (handle env e session)

-- What an operation makes of the session with one id, where `current` is the next id to give.
abbrev pub own : Operation → ℕ → ℕ → Option Session → Option Session
own connection_accepted current id session =
    if current == id then some (new_session current) else session
own (session_called env other e) current id session =
    if other == id then after_event env e session else session
own o current id session = session

abbrev pub next_id : Operation → ℕ → ℕ
next_id connection_accepted current = (current + 1) % 2 ^ 32
next_id o current = current

abbrev pub own_run : List Operation → ℕ → ℕ → Option Session → Option Session
own_run [] current id session = session
own_run (o ∷ os) current id session = own_run os (next_id o current) id (own o current id session)

-- The state after an operation: the next id, and the session with an id.
abbrev Own : Operation → Manager → Manager → Type 0
Own o mng mng' =
    (mng'.current_id ≡ next_id o mng.current_id)
    × ((id : ℕ) → find id mng'.sessions ≡ own o mng.current_id id (find id mng.sessions))

replaced :
    (key id : ℕ) (session : Session) (sessions : List (ℕ × Session))
    → find id (put key session sessions) ≡ (if key == id then some session else find id sessions)
replaced key id session sessions = elim (Bool-cases (key == id)) [
  | inl e ↦ rw (e, sym ((==_iff key id).0 e)) (find-put key session sessions)
  | inr e ↦ rw e (find-put_other key id session sessions (ground (arith, e)))
]

removed :
    (key id : ℕ) (sessions : List (ℕ × Session))
    → find id (erase key sessions) ≡ (if key == id then none else find id sessions)
removed key id sessions = elim (Bool-cases (key == id)) [
  | inl e ↦ rw (e, sym ((==_iff key id).0 e)) (find-erase key sessions)
  | inr e ↦ rw e (find-erase_other key id sessions (ground (arith, e)))
]

-- What became of the session that was called, said of every id.
agree :
    (env : Env) (key : ℕ) (e : Event) (sessions : List (ℕ × Session)) (left : Option Session)
    (id : ℕ)
    → left ≡ after_event env e (find key sessions)
    → (if key == id then left else find id sessions)
      ≡ (if key == id then after_event env e (find id sessions) else find id sessions)
agree env key e sessions left id h = elim (Bool-cases (key == id)) [
  | inl f ↦ rw (f, sym ((==_iff key id).0 f)) h
  | inr f ↦ rw f refl
]

event-Own :
    (env : Env) (key : ℕ) (e : Event) (mng : Manager)
    → Own (session_called env key e) mng (session_event env key e mng)
unfolding session_event on_session_end
event-Own env key e mng = go (find key mng.sessions) refl
  where
    missing : find key mng.sessions ≡ none → Own (session_called env key e) mng mng
    missing there = (
      refl,
      λ id. elim (Bool-cases (key == id)) [
        | inl f ↦ rw (f, sym ((==_iff key id).0 f), there) refl
        | inr f ↦ rw f refl
      ],
    )

    go :
        (s : Option Session)
        → find key mng.sessions ≡ s
        → Own (session_called env key e) mng (session_event env key e mng)
    go none there = rw (there, session_event) (missing there)
    go (some session) there =
        rw (there, session_event)
          (if_cases (Own (session_called env key e) mng) (handle env e session).ended _ _
            (λ ended. (
              refl,
              λ id.
                  removed key id mng.sessions
                  ∙ agree env key e mng.sessions none id (rw (there, ended) refl),
            ))
            (λ on. (
              refl,
              λ id.
                  replaced key id (handle env e session) mng.sessions
                  ∙ agree env key e mng.sessions (some (handle env e session)) id
                      (rw (there, on) refl),
            )))

closed-Own :
    (user : ℕ) (mng : Manager)
    → Own (connection_destroyed user) mng (on_connection_destroyed user mng)
unfolding on_connection_destroyed
closed-Own user mng = (refl, λ id. refl)

step-Own : (o : Operation) (mng : Manager) → Own o mng (step o mng)
unfolding step
step-Own connection_accepted mng =
    (refl, λ id. replaced mng.current_id id (new_session mng.current_id) mng.sessions)
step-Own (connection_wanted user created) mng = (refl, λ id. refl)
step-Own (connection_destroyed user) mng = closed-Own user mng
step-Own (session_called env key e) mng = event-Own env key e mng
step-Own (signal_occured signum) mng =
    if_cases (Own (signal_occured signum) mng) (signum == 2)
      (record mng { server = stop mng.server }) mng (λ e. (refl, λ id. refl))
      (λ e. (refl, λ id. refl))

-- The manager runs its sessions independently: whatever operations come, in whatever order, the
-- session with an id is what that session alone makes of them. It is new when its id is given (the
-- ids are given in turn, modulo 2^32), takes exactly the events that are addressed to it, and is gone
-- once it has ended; no other session's events, and no connection or signal, have a part in it.
pub find-own_run :
    (os : List Operation) (mng : Manager) (id : ℕ)
    → find id (run os mng).sessions ≡ own_run os mng.current_id id (find id mng.sessions)
unfolding run
find-own_run [] mng id = refl
find-own_run (o ∷ os) mng id =
    let (current, session) = step-Own o mng in
    find-own_run os (step o mng) id
    ∙ ap (λ n. own_run os n id (find id (step o mng).sessions)) current
    ∙ ap (own_run os (next_id o mng.current_id) id) (session id)
