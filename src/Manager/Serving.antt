-- ===== src/Manager/Serving.antt =====
-- A client of SessionMng.cpp among any others: from its connection to the bytes of its proxy.
use socks.Base.{
  sym, ℕ, ◌≡◌, ◌≢◌, refl, ◌∙◌, ap, if◌then◌else◌, ◌==◌, List, [], ◌∷◌, ◌++◌, map, true, false,
  Option, none, some, Bool, Bool-cases, ◌+◌, ◌%◌, ◌^◌, arith, inl, inr, ==_refl,
}
use socks.Base.Buffer.{ok, bytes_of_u16}
use socks.Types.{
  VariantAddress, GreetingMsg, UserPassAuthMsg, CommandMsg, fresh_greeting, fresh_user_pass,
  auth_login_pass, tcp_stream,
}
use socks.Decoder.{decode_greeting, decode_user_pass, decode_command}
use socks.Encoder.Command.{HasSize, written}
use socks.Encoder.Command.Resp.{fits}
use socks.Wire.{kind}
use socks.StateMachine.{offers}
use socks.Maps.{find}
use socks.Proxy.{main}
use socks.Session.Ended.{ended_stays}
use socks.Session as OneSession
use socks.Session.{
  Session, Effect, sent, checked, connecting, proxy_created, Env, Event, received, connected,
  new_session, handle,
}
use socks.Session.Established.{Chunk, arrival, relay, proxied, established}
use socks.Manager.{
  Manager, Operation, connection_accepted, session_called, run, connection_wanted,
  connection_destroyed, signal_occured,
}
use socks.Manager.Independence.{own_run, after_event, next_id, find-own_run}

-- The events that go to one session.
abbrev pub events_for : ℕ → List Operation → List (Env × Event)
events_for id [] = []
events_for id (session_called env other e ∷ os) =
    if other == id then (env, e) ∷ events_for id os else events_for id os
events_for id (o ∷ os) = events_for id os

-- The id is not given again: the ids are given in turn from `current`.
abbrev pub NotGiven : ℕ → ℕ → List Operation → Type 0
NotGiven id current [] = Unit
NotGiven id current (connection_accepted ∷ os) =
    (current ≢ id) × NotGiven id (next_id connection_accepted current) os
NotGiven id current (o ∷ os) = NotGiven id current os

abbrev after_events : List (Env × Event) → Option Session → Option Session
after_events [] session = session
after_events ((env, e) ∷ events) session = after_events events (after_event env e session)

own_run-after_events :
    (os : List Operation) (id current : ℕ) (session : Option Session)
    → NotGiven id current os
    → own_run os current id session ≡ after_events (events_for id os) session
own_run-after_events [] id current session h = refl
own_run-after_events (connection_accepted ∷ os) id current session (ne, h) =
    let e : (current == id) ≡ false = ground (arith, ne) in
    rw e (own_run-after_events os id (next_id connection_accepted current) session h)
own_run-after_events (session_called env other e ∷ os) id current session h =
    elim (Bool-cases (other == id)) [
      | inl f ↦ rw f (own_run-after_events os id current (after_event env e session) h)
      | inr f ↦ rw f (own_run-after_events os id current session h)
    ]
own_run-after_events (connection_wanted user created ∷ os) id current session h =
    own_run-after_events os id current session h
own_run-after_events (connection_destroyed user ∷ os) id current session h =
    own_run-after_events os id current session h
own_run-after_events (signal_occured signum ∷ os) id current session h =
    own_run-after_events os id current session h

after_events-none : (events : List (Env × Event)) → after_events events none ≡ none
after_events-none [] = refl
after_events-none ((env, e) ∷ events) = after_events-none events

-- What a manager holds of a session.
abbrev pub unless_ended : Session → Option Session
unless_ended s = if s.ended then none else some s

-- In one environment, a session is what its events make of it, until it ends.
after_events-run :
    (env : Env) (es : List Event) (s : Session)
    → s.ended ≡ false
    → after_events (map (λ e. (env, e)) es) (some s) ≡ unless_ended (OneSession.run env es s)
unfolding OneSession.run
after_events-run env [] s h = rw h refl
after_events-run env (e ∷ es) s h =
    let s' = handle env e s in
    let events : List (Env × Event) = map (λ e. (env, e)) es in
    elim (Bool-cases s'.ended) [
      | inl f ↦
          ap (λ (b : Bool). after_events events (if b then none else some s')) f
          ∙ after_events-none events
          ∙ sym (
              ap unless_ended (ended_stays env es s' f)
              ∙ ap (λ (b : Bool). if b then none else some s') f)
      | inr f ↦
          ap (λ (b : Bool). after_events events (if b then none else some s')) f
          ∙ after_events-run env es s' f
    ]

-- A client connects to a manager, in whatever state that is and whatever else happens there before,
-- between and after (to any other sessions, connections and signals), so long as the client's id is
-- not given again. Where its events come in one environment, the manager holds for it the session
-- that a session alone becomes by those events, and none if that one has ended.
pub session-run :
    (env : Env) (es : List Event) (os : List Operation) (mng : Manager)
    → NotGiven mng.current_id ((mng.current_id + 1) % 2 ^ 32) os
    → events_for mng.current_id os ≡ map (λ e. (env, e)) es
    → find mng.current_id (run (connection_accepted ∷ os) mng).sessions
      ≡ unless_ended (OneSession.run env es (new_session mng.current_id))
session-run env es os mng once same =
    let id = mng.current_id in
    find-own_run (connection_accepted ∷ os) mng id
    ∙ rw (==_refl id) (own_run-after_events os id ((id + 1) % 2 ^ 32) (some (new_session id)) once)
    ∙ ap (λ events. after_events events (some (new_session id))) same
    ∙ after_events-run env es (new_session id) refl

-- A client connects to a manager, in whatever state that is and whatever else happens there before,
-- between and after (to any other sessions, connections and signals), so long as the client's id is
-- not given again. Where everything sent goes out, a client that offers name and password, gives ones
-- that are accepted, and orders a stream to an address to which the connection is made, comes to have a session with a
-- proxy that answered it at every step and relayed every chunk of bytes from either side to the other,
-- in the order of arrival.
pub served :
    (env : Env) (mng : Manager) (os : List Operation) (b1 b2 b3 : List ℕ) (g : GreetingMsg)
    (u : UserPassAuthMsg) (m : CommandMsg) (c : ℕ) (addr : VariantAddress) (port : ℕ)
    (chunks : List Chunk)
    → NotGiven mng.current_id ((mng.current_id + 1) % 2 ^ 32) os
    → events_for mng.current_id os
      ≡ map
          (λ e. (env, e))
          (received main b1 ∷ received main b2 ∷ received main b3 ∷ connected ∷ map arrival chunks)
    → decode_greeting b1 fresh_greeting ≡ ok g
    → offers auth_login_pass g.auth_methods ≡ true
    → decode_user_pass b2 fresh_user_pass ≡ ok u
    → env.auth_user_password u.user u.password ≡ true
    → decode_command b3 ≡ ok m
    → m.command ≡ tcp_stream
    → ((t : List Effect)
        → env.create_new_connection t (record { kind = m.addr_type; addr = m.addr; port = m.port })
          ≡ some c)
    → ((t : List Effect)
        → env.get_local_address t c ≡ some (record { kind = kind addr; addr = addr; port = port }))
    → HasSize addr
    → fits addr ≡ true
    → ((t : List Effect) (reply : List ℕ) → env.send t reply ≡ true)
    → find mng.current_id (run (connection_accepted ∷ os) mng).sessions
      ≡ some (
          proxied mng.current_id c (
            relay chunks (
              proxy_created
              ∷ sent (5 ∷ 0 ∷ 0 ∷ kind addr ∷ (written addr ++ bytes_of_u16 port))
              ∷ connecting (record { kind = m.addr_type; addr = m.addr; port = m.port })
              ∷ sent (5 ∷ 0 ∷ [])
              ∷ checked u.user u.password true
              ∷ sent (5 ∷ 2 ∷ [])
              ∷ [])))
served env mng os b1 b2 b3 g u m c addr port chunks once same d1 o d2 l d3 t made local size f s =
    let es =
      received main b1 ∷ received main b2 ∷ received main b3 ∷ connected ∷ map arrival chunks in
    let done =
      established env mng.current_id b1 b2 b3 g u m c addr port chunks d1 o d2 l d3 t made local
        size f s in
    session-run env es os mng once same ∙ ap unless_ended done
