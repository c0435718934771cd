-- ===== src/Session/Established.antt =====
-- A whole conversation with the session of Session.cpp, from its greeting to the bytes of its proxy.
use socks.Base.{
  ℕ, ◌≡◌, refl, ◌∙◌, ap, List, [], ◌∷◌, ◌++◌, map, true, false, Bool, none, some, if◌then◌else◌,
}
use socks.Base.Buffer.{ok, bytes_of_u16}
use socks.Types.{
  VariantAddress, GreetingMsg, UserPassAuthMsg, CommandMsg, fresh_greeting, fresh_user_pass,
  auth_login_pass, tcp_stream,
}
use socks.Decoder.{decode_greeting, decode_user_pass, decode_command}
use socks.Encoder.Command.{HasSize, written}
use socks.Encoder.Command.Resp.{fits}
use socks.Wire.{kind}
use socks.StateMachine.{State, offers}
use socks.Proxy.{main, out}
use socks.Session.{
  Effect, sent, checked, connecting, proxy_created, relayed, Env, Session, Event, received,
  connected, handle, run, new_session,
}
use socks.Session.Answers.{
  alive, greeting_answered, login_answered, stream_ordered, connection_answered,
}

-- Bytes from the client (`true`) or from the server that it reached.
abbrev pub Chunk : Type 0
Chunk = Bool × List ℕ

abbrev pub arrival : Chunk → Event
arrival (from_client, buf) = received (if from_client then main else out) buf

-- The effects of relaying the chunks to the other sides, newest first, after those before.
abbrev pub relay : List Chunk → List Effect → List Effect
relay [] before = before
relay ((from_client, buf) ∷ chunks) before =
    relay chunks (relayed (if from_client then out else main) buf ∷ before)

-- A session with a proxy.
abbrev pub proxied : ℕ → ℕ → List Effect → Session
proxied id c trace = record (alive State.proxy_started id (some c) trace) {
  tcp_stream_proxy = true;
}

module _ (env : Env) (id : ℕ) where
  run_relay :
      (c : ℕ) (chunks : List Chunk) (trace : List Effect)
      → run env (map arrival chunks) (proxied id c trace) ≡ proxied id c (relay chunks trace)
  unfolding run handle
  run_relay c [] trace = refl
  run_relay c ((true, buf) ∷ chunks) trace = run_relay c chunks (relayed out buf ∷ trace)
  run_relay c ((false, buf) ∷ chunks) trace = run_relay c chunks (relayed main buf ∷ trace)

  -- Where everything sent goes out, a client that offers name and password, gives ones that are
  -- accepted, and orders a stream to an address to which the connection is made, is served: it is answered 5, 2, then
  -- 5, 0, then 5, 0 with the local address of the connection that its command asked for, and from
  -- then on every chunk of bytes that comes from either side is sent to the other, whole, once, and in
  -- the order of arrival. Nothing else happens.
  pub established :
      (b1 b2 b3 : List ℕ) (g : GreetingMsg) (u : UserPassAuthMsg) (m : CommandMsg) (c : ℕ)
      (addr : VariantAddress) (port : ℕ) (chunks : List Chunk)
      → decode_greeting b1 fresh_greeting ≡ ok g
      → offers auth_login_pass g.auth_methods ≡ true
      → decode_user_pass b2 fresh_user_pass ≡ ok u
      → env.auth_user_password u.user u.password ≡ true
      → decode_command b3 ≡ ok m
      → m.command ≡ tcp_stream
      → ((t : List Effect)
          → env.create_new_connection t
              (record { kind = m.addr_type; addr = m.addr; port = m.port })
            ≡ some c)
      → ((t : List Effect)
          → env.get_local_address t c
            ≡ some (record { kind = kind addr; addr = addr; port = port }))
      → HasSize addr
      → fits addr ≡ true
      → ((t : List Effect) (reply : List ℕ) → env.send t reply ≡ true)
      → run env
          (received main b1 ∷ received main b2 ∷ received main b3 ∷ connected ∷ map arrival chunks)
          (new_session id)
        ≡ proxied id c (
            relay chunks (
              proxy_created
              ∷ sent (5 ∷ 0 ∷ 0 ∷ kind addr ∷ (written addr ++ bytes_of_u16 port))
              ∷ connecting (record { kind = m.addr_type; addr = m.addr; port = m.port })
              ∷ sent (5 ∷ 0 ∷ [])
              ∷ checked u.user u.password true
              ∷ sent (5 ∷ 2 ∷ [])
              ∷ []))
  unfolding run
  established b1 b2 b3 g u m c addr port chunks d1 offer d2 login d3 stream made local size short
        s =
      let t1 : List Effect = sent (5 ∷ 2 ∷ []) ∷ [] in
      let t2 : List Effect = sent (5 ∷ 0 ∷ []) ∷ checked u.user u.password true ∷ t1 in
      let t3 : List Effect =
        connecting (record { kind = m.addr_type; addr = m.addr; port = m.port }) ∷ t2 in
      let e1 : handle env (received main b1) (new_session id)
          ≡ alive State.wait_for_pass_auth id none t1 =
        greeting_answered env id none [] b1 g d1 (s []) ∙ rw offer refl in
      let e2 : handle env (received main b2) (alive State.wait_for_pass_auth id none t1)
          ≡ alive State.wait_for_command id none t2 =
        login_answered env id none t1 b2 u d2 s ∙ rw login refl in
      let e3 = stream_ordered env id none t2 b3 m c d3 stream (made t2) in
      let e4 = connection_answered env id c t3 addr port size short (local t3) (s t3) in
      let incoming = map arrival chunks in
      ap (run env (received main b2 ∷ received main b3 ∷ connected ∷ incoming)) e1
      ∙ ap (run env (received main b3 ∷ connected ∷ incoming)) e2
      ∙ ap (run env (connected ∷ incoming)) e3
      ∙ ap (run env incoming) e4
      ∙ run_relay c chunks
          (proxy_created ∷ sent (5 ∷ 0 ∷ 0 ∷ kind addr ∷ (written addr ++ bytes_of_u16 port)) ∷ t3)
