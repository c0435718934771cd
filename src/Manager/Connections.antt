-- ===== src/Manager/Connections.antt =====
-- What the operations of SessionMng.cpp and EventTcpServer.cpp leave alone.
use socks.Base.{
  ℕ, ◌≡◌, ◌≢◌, refl, ◌==◌, List, [], ◌∷◌, none, some, Option-cases, if_cases, inl, inr,
}
use socks.Session.{Env, Event, handle}
use socks.Maps.{find, find-put, find-put_other, find-erase_other, put-keeps}
use socks.Manager.{
  Manager, Operation, connection_accepted, connection_wanted, connection_destroyed, session_called,
  signal_occured, step, run, session_event, on_session_end, stop, create_new_connection,
  on_connection_destroyed, close_connection,
}

-- An event of one session leaves every other session as it is, whatever the event, what the session
-- does about it, and whether it ends there.
pub session_event_other :
    (env : Env) (id other : ℕ) (e : Event) (mng : Manager)
    → id ≢ other
    → find other (session_event env id e mng).sessions ≡ find other mng.sessions
unfolding session_event on_session_end
session_event_other env id other e mng ne = elim (Option-cases (find id mng.sessions)) [
  | inl e0 ↦ rw (e0, session_event) refl
  | inr (s, there) ↦
      rw (there, session_event)
        (if_cases (λ (m : Manager). find other m.sessions ≡ find other mng.sessions)
          (handle env e s).ended _ _ (λ ended. find-erase_other id other mng.sessions ne)
          (λ on. find-put_other id other (handle env e s) mng.sessions ne))
]

-- `user` is a key of the server's map.
abbrev pub Known : ℕ → Manager → Type 0
Known user mng = find user mng.server.connections ≢ none

closed-Known :
    (user key : ℕ) (mng : Manager) → Known user mng → Known user (on_connection_destroyed key mng)
unfolding on_connection_destroyed close_connection
closed-Known user key mng h = elim (Option-cases (find key mng.server.connections)) [
  | inl e ↦ rw (e, close_connection) h
  | inr (c, e) ↦ rw (e, close_connection) (put-keeps key user none mng.server.connections h)
]

event-Known :
    (user : ℕ) (env : Env) (id : ℕ) (e : Event) (mng : Manager)
    → Known user mng
    → Known user (session_event env id e mng)
unfolding session_event on_session_end
event-Known user env id e mng h = elim (Option-cases (find id mng.sessions)) [
  | inl e0 ↦ rw (e0, session_event) h
  | inr (s, there) ↦
      rw (there, session_event)
        (if_cases (Known user) (handle env e s).ended
          (on_session_end id (on_connection_destroyed id mng)) _ (λ _. closed-Known user id mng h)
          (λ _. h))
]

step-Known : (user : ℕ) (o : Operation) (mng : Manager) → Known user mng → Known user (step o mng)
unfolding step
step-Known user connection_accepted mng h = h
step-Known user (connection_wanted key none) mng h = h
step-Known user (connection_wanted key (some c)) mng h =
    put-keeps key user (some c) mng.server.connections h
step-Known user (connection_destroyed key) mng h = closed-Known user key mng h
step-Known user (session_called env id e) mng h = event-Known user env id e mng h
step-Known user (signal_occured signum) mng h =
    if_cases (Known user) (signum == 2) (record mng { server = stop mng.server }) mng (λ e. h)
      (λ e. h)

run-Known :
    (user : ℕ) (os : List Operation) (mng : Manager) → Known user mng → Known user (run os mng)
unfolding run
run-Known user [] mng h = h
run-Known user (o ∷ os) mng h = run-Known user os (step o mng) (step-Known user o mng h)

-- Once a connection was made for a user, the server's map has an entry for that user for ever,
-- whatever happens later; so also when the connection is destroyed.
pub entry_kept :
    (user conn : ℕ) (mng : Manager) (os : List Operation)
    → find user (run os (create_new_connection user (some conn) mng).0).server.connections ≢ none
unfolding create_new_connection
entry_kept user conn mng os =
    run-Known user os (create_new_connection user (some conn) mng).0
      (λ n. cc (find-put user (some conn) mng.server.connections))
