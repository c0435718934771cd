-- ===== src/Session/Answers.antt =====
-- What the session of Session.cpp sends the client and does, step by step of a conversation.
use socks.Base.{
  ℕ, ◌≡◌, refl, ◌∙◌, List, [], ◌∷◌, ◌++◌, true, false, Option, some, arith, if◌then◌else◌,
}
use socks.Base.Buffer.{ok, bytes_of_u16}
use socks.Types.{
  VariantAddress, GreetingMsg, UserPassAuthMsg, CommandMsg, fresh_greeting, fresh_user_pass,
  version5, auth_login_pass, tcp_stream, is_auth_method_exist,
}
use socks.Decoder.{decode_greeting, decode_user_pass, decode_command}
use socks.Encoder.{encode_greeting_resp, encode_user_pass_resp, encodable_method}
use socks.Encoder.Greeting.{encode_greeting_resp_lem, encode_user_pass_resp_lem}
use socks.Encoder.Command.{HasSize, written}
use socks.Encoder.Command.Resp.{fits, encode_command_resp_lem}
use socks.Wire.{kind}
use socks.StateMachine.{State, offers, process_buffer}
use socks.Proxy.{main}
use socks.Session.{
  Effect, sent, checked, connecting, proxy_created, connection_destroyed, session_end, Env, Session,
  received, connected, handle,
}

-- A session that has neither ended nor come to a proxy.
abbrev pub alive : State → ℕ → Option ℕ → List Effect → Session
alive state id conn trace = record {
  id = id;
  machine = state;
  out_conn = conn;
  tcp_stream_proxy = false;
  trace = trace;
  ended = false;
  dangling = false;
  threw = false;
}

-- One that has been deleted in good order, after the effects `trace`.
abbrev pub deleted : State → ℕ → Option ℕ → List Effect → Session
deleted state id conn trace =
    record (alive state id conn (session_end id ∷ connection_destroyed ∷ trace)) { ended = true }

pub encoded_method :
    (m : ℕ)
    → encodable_method m ≡ true
    → encode_greeting_resp (record { version = version5; auth_method = m }) [] ≡ ok (5 ∷ m ∷ [])
encoded_method m h =
    encode_greeting_resp_lem (record { version = version5; auth_method = m }) [] ∙ rw h

pub encoded_status :
    (s : ℕ) → encode_user_pass_resp (record { version = version5; status = s }) [] ≡ ok (5 ∷ s ∷ [])
encoded_status s = encode_user_pass_resp_lem (record { version = version5; status = s }) []

module _ (env : Env) (id : ℕ) (conn : Option ℕ) (trace : List Effect) (buf : List ℕ) where
  -- In a session that waits for it, a greeting that offers name and password is answered 5, 2, and
  -- the session waits for them; any other greeting is answered 5, 255, and the session is deleted.
  -- (The answer goes out.)
  pub greeting_answered :
      (m : GreetingMsg)
      → decode_greeting buf fresh_greeting ≡ ok m
      → ((reply : List ℕ) → env.send trace reply ≡ true)
      → handle env (received main buf) (alive State.wait_for_greeting id conn trace) ≡ (
          if offers auth_login_pass m.auth_methods
          then alive State.wait_for_pass_auth id conn (sent (5 ∷ 2 ∷ []) ∷ trace)
          else deleted State.protocol_failed id conn (sent (5 ∷ 255 ∷ []) ∷ trace))
  unfolding handle offers encodable_method is_auth_method_exist
  greeting_answered m e s =
      rw (e, process_buffer)
        (ground
          (arith, s (5 ∷ 2 ∷ []), s (5 ∷ 255 ∷ []), encoded_method 2 refl, encoded_method 255 refl))

  -- In a session that waits for them, a name and a password go to the authorizer. If it accepts them
  -- the session answers 5, 0 and waits for a command; if not, it answers 5, 1 and is deleted. (The
  -- answer goes out.)
  pub login_answered :
      (m : UserPassAuthMsg)
      → decode_user_pass buf fresh_user_pass ≡ ok m
      → ((t : List Effect) (reply : List ℕ) → env.send t reply ≡ true)
      → handle env (received main buf) (alive State.wait_for_pass_auth id conn trace) ≡ (
          if env.auth_user_password m.user m.password
          then alive State.wait_for_command id conn
              (sent (5 ∷ 0 ∷ []) ∷ checked m.user m.password true ∷ trace)
          else deleted State.wait_for_pass_auth_result id conn
              (sent (5 ∷ 1 ∷ []) ∷ checked m.user m.password false ∷ trace))
  unfolding handle
  login_answered m e s =
      rw (e, process_buffer)
        (ground (
          arith,
          s (checked m.user m.password true ∷ trace) (5 ∷ 0 ∷ []),
          s (checked m.user m.password false ∷ trace) (5 ∷ 1 ∷ []),
          encoded_status 0,
          encoded_status 1,
        ))

  -- In a session that waits for it, a command to open a TCP stream, for which the manager gives a
  -- connection, leaves the session waiting for that connection: nothing is sent yet.
  pub stream_ordered :
      (m : CommandMsg) (c : ℕ)
      → decode_command buf ≡ ok m
      → m.command ≡ tcp_stream
      → env.create_new_connection trace
          (record { kind = m.addr_type; addr = m.addr; port = m.port })
        ≡ some c
      → handle env (received main buf) (alive State.wait_for_command id conn trace)
        ≡ alive State.wait_for_proxy_start id
            (some c)
            (connecting (record { kind = m.addr_type; addr = m.addr; port = m.port }) ∷ trace)
  unfolding handle
  stream_ordered m c e t made = rw (e, process_buffer) (ground (arith, t, made))

module _ (env : Env) (id c : ℕ) (trace : List Effect) where
  -- When the connection is made and has a local address of the right size, whose type is that of its
  -- alternative (and whose length is at most 255, if a domain), the client gets the answer 5, 0 with
  -- the address, and the proxy starts. (The answer goes out.)
  pub connection_answered :
      (addr : VariantAddress) (port : ℕ)
      → HasSize addr
      → fits addr ≡ true
      → env.get_local_address trace c ≡ some (record { kind = kind addr; addr = addr; port = port })
      → ((reply : List ℕ) → env.send trace reply ≡ true)
      → handle env connected (alive State.wait_for_proxy_start id (some c) trace)
        ≡ record (alive State.proxy_started id (some c) (
            proxy_created
            ∷ sent (5 ∷ 0 ∷ 0 ∷ kind addr ∷ (written addr ++ bytes_of_u16 port))
            ∷ trace)) { tcp_stream_proxy = true }
  unfolding handle
  connection_answered addr port size short local s = ground (
    arith,
    local,
    s (5 ∷ 0 ∷ 0 ∷ kind addr ∷ (written addr ++ bytes_of_u16 port)),
    encode_command_resp_lem 5 0 addr port [] size,
    short,
  )
