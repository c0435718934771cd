-- ===== src/Manager/Protection.antt =====
-- What holds of every session of SessionMng.cpp: Session/Trust, Session/Replies and Session/Origins
-- under the manager.
use socks.Base.{
  ℕ, ◌≡◌, ◌∙◌, sym, refl, ap, List, [], ◌∷◌, ◌++◌, Bool, false, Option, none, some, ◌==◌, All,
  All-append, All-map, All-Memᴰ, Memᴰ, Memᴰ-append, Memᴰ-last, if_cases, ==_iff,
}
use socks.Types.{Address}
use socks.SocketAddress.{Sockaddr, get_address}
use socks.SocketAddress.Sizes.{IsSockaddr}
use socks.Maps.{find}
use socks.Session.{Session, Effect, Env, Event, new_session, handle}
use socks.Session as OneSession
use socks.Session.Trust.{Trusted}
use socks.Session.Trust.Handlers.{run-Trusted}
use socks.Session.Replies.{Dialogue, to_client}
use socks.Session.Replies.Handlers.Conversation.{run-Dialogue}
use socks.Session.Origins.{Sourced, run-FromEvents}
use socks.Manager.{
  Operation, connection_accepted, connection_wanted, connection_destroyed, session_called,
  signal_occured, run, new_manager,
}
use socks.Manager.Independence.{own, own_run, next_id, after_event, find-own_run}

-- A session is called in the surroundings of its own connection.
abbrev pub Belongs : (ℕ → Env) → Operation → Type 0
Belongs envs (session_called env id e) = env ≡ envs id
Belongs envs o = Unit

-- The event came to the session with this id in one of the operations.
abbrev pub CameTo : (ℕ → Env) → ℕ → List Operation → Event → Type 0
CameTo envs id os e = Memᴰ (session_called (envs id) id e) os

run-append :
    (env : Env) (es : List Event) (e : Event) (s : Session)
    → OneSession.run env (es ++ e ∷ []) s ≡ handle env e (OneSession.run env es s)
unfolding OneSession.run
run-append env [] e s = refl
run-append env (x ∷ es) e s = run-append env es e (handle env x s)

module _ (envs : ℕ → Env) (id : ℕ) (all : List Operation) where
  -- The session is what some events that came to it make of a new one.
  abbrev pub Lived : Session → Type 0
  Lived s =
      (n : ℕ) × (es : List Event) × ((s ≡ OneSession.run (envs id) es (new_session n))
        × All (CameTo envs id all) es)

  -- The session, if there is one.
  abbrev LivedIf : Option Session → Type 0
  LivedIf none = Unit
  LivedIf (some s) = Lived s

  new_session-Lived : (n : ℕ) → Lived (new_session n)
  unfolding OneSession.run
  new_session-Lived n = (n, [], (refl, tt))

  handle-Lived :
      (e : Event) (s : Session) → CameTo envs id all e → Lived s → Lived (handle (envs id) e s)
  handle-Lived e s came (n, es, (same, h)) = (
    n,
    es ++ e ∷ [],
    (
      ap (handle (envs id) e) same ∙ sym (run-append (envs id) es e (new_session n)),
      All-append (CameTo envs id all) es (e ∷ []) h (came, tt),
    ),
  )

  event-Lived :
      (e : Event) (o : Option Session)
      → CameTo envs id all e
      → LivedIf o
      → LivedIf (after_event (envs id) e o)
  event-Lived e none came h = tt
  event-Lived e (some s) came h =
      if_cases LivedIf (handle (envs id) e s).ended none (some (handle (envs id) e s)) (λ f. tt)
        (λ f. handle-Lived e s came h)

  own-Lived :
      (o : Operation) (current : ℕ) (s : Option Session)
      → Belongs envs o
      → Memᴰ o all
      → LivedIf s
      → LivedIf (own o current id s)
  own-Lived connection_accepted current s b c h =
      if_cases LivedIf (current == id) (some (new_session current)) s
        (λ f. new_session-Lived current) (λ f. h)
  own-Lived (session_called env other e) current s b c h =
      if_cases LivedIf (other == id) (after_event env e s) s
        (λ f.
          let same : other ≡ id = (==_iff other id).0 f in
          let mine : env ≡ envs id = b ∙ ap envs same in
          let came : CameTo envs id all e = rw (mine, same) at c in
          rw mine (event-Lived e s came h))
        (λ f. h)
  own-Lived (connection_wanted user created) current s b c h = h
  own-Lived (connection_destroyed user) current s b c h = h
  own-Lived (signal_occured signum) current s b c h = h

  own_run-Lived :
      (os : List Operation) (current : ℕ) (s : Option Session)
      → All (Belongs envs) os
      → All (λ o. Memᴰ o all) os
      → LivedIf s
      → LivedIf (own_run os current id s)
  own_run-Lived [] current s b c h = h
  own_run-Lived (o ∷ os) current s b c h =
      own_run-Lived os (next_id o current) (own o current id s) b.1 c.1
        (own-Lived o current s b.0 c.0 h)

-- A session that the manager holds is what its own events, among the operations, make of a new one.
pub find-Lived :
    (envs : ℕ → Env) (os : List Operation) (listening : Bool) (id : ℕ) (s : Session)
    → All (Belongs envs) os
    → find id (run os (new_manager listening)).sessions ≡ some s
    → Lived envs id os s
unfolding new_manager find
find-Lived envs os listening id s b h =
    rw (sym (find-own_run os (new_manager listening) id) ∙ h) at
      (own_run-Lived envs id os os 0 none b (All-Memᴰ os) tt)

-- The local address of every connection is made of a socket address of its family's size.
abbrev pub IsLocal : Env → Type 0
IsLocal env =
    (t : List Effect) (c : ℕ) (a : Address)
    → env.get_local_address t c ≡ some a
    → (sockaddr : Sockaddr) × (IsSockaddr sockaddr × (get_address sockaddr ≡ some a))

-- Login before service, the answers in their order, no exception, and a cause for every effect.
abbrev pub Protected : Env → (Event → Type 0) → Session → Type 0
Protected env Came s =
    Trusted env s.trace
    × Dialogue (to_client s.trace)
    × (s.threw ≡ false)
    × All (Sourced env Came) s.trace

Lived-Protected :
    (env : Env) (Came : Event → Type 0) (n : ℕ) (es : List Event)
    → IsLocal env
    → All Came es
    → Protected env Came (OneSession.run env es (new_session n))
Lived-Protected env Came n es local came =
    let (said, calm) = run-Dialogue env local n es in
    (run-Trusted env n es, said, calm, run-FromEvents env Came es (new_session n) came tt)

-- From the start of the program, through any connections, events and signals in any order, where the
-- local address of a connection is made of a socket address of its family's size: for every session
-- that the manager holds and any event that comes to it next, these hold of the session before that
-- event and after all that it does about it, also when that ends it. Before every outgoing connection,
-- every proxy and every byte that a proxy moved, the authorizer accepted a name and a password. Every
-- pair it checked is that of a login message that came from the client under the session's id; every
-- connection was sought to the address and the port of a stream command that came so; and the bytes
-- that the proxy sent to one side are bytes that came from the other. What the client received is one
-- of these: nothing; 5, 255; 5, 2; then 5, 1, or 5, 0 and after it perhaps one answer 5, 0 with an
-- address and, only behind that, bytes of the proxy. And no handler ended by an exception.
pub sessions-Protected :
    (envs : ℕ → Env) (os : List Operation) (listening : Bool) (id : ℕ) (s : Session) (e : Event)
    → IsLocal (envs id)
    → All (Belongs envs) os
    → find id (run os (new_manager listening)).sessions ≡ some s
    → Protected (envs id) (CameTo envs id os) s
      × Protected
          (envs id)
          (CameTo envs id (os ++ session_called (envs id) id e ∷ []))
          (handle (envs id) e s)
sessions-Protected envs os listening id s e local b h =
    let (n, es, (same, came)) = find-Lived envs os listening id s b h in
    let last : List Operation = session_called (envs id) id e ∷ [] in
    let came' : All (CameTo envs id (os ++ last)) (es ++ e ∷ []) =
      All-append (CameTo envs id (os ++ last)) es (e ∷ [])
        (All-map (λ x m. Memᴰ-append (session_called (envs id) id x) os last m) es came)
        (Memᴰ-last (session_called (envs id) id e) os, tt) in
    let now = ap (handle (envs id) e) same ∙ sym (run-append (envs id) es e (new_session n)) in
    (
      rw same (Lived-Protected (envs id) (CameTo envs id os) n es local came),
      rw now (Lived-Protected (envs id) (CameTo envs id (os ++ last)) n (es ++ e ∷ []) local came'),
    )
