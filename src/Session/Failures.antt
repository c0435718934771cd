-- ===== src/Session/Failures.antt =====
-- The ways in which Session.cpp turns a command down, and what it does about an outgoing connection
-- that fails. `SocksAddress{}` has the type 0.
use socks.Base.{
  ◌∙◌, inl, inr, ◌⊎◌, false, ◌==◌, if◌then◌else◌, ℕ, ◌≡◌, refl, ◌≢◌, List, [], ◌∷◌, true, Option,
  none, some, arith,
}
use socks.Base.Buffer.{ok, refused}
use socks.Types.{Address, CommandMsg, tcp_stream, version5, is_address_type_exist}
use socks.Decoder.{decode_command}
use socks.Encoder.{encode_command_resp}
use socks.Encoder.Command.Resp.{encode_command_resp_unknown}
use socks.StateMachine.{State, process_buffer}
use socks.Proxy.{main}
use socks.Session.{
  Effect, connecting, connection_destroyed, session_end, Env, Session, received, connected, handle,
  no_address,
}
use socks.Session.Answers.{alive}

-- Deleted, used after that, and deleted again, with nothing sent since `trace`.
abbrev pub deleted_twice : ℕ → Option ℕ → List Effect → Session
deleted_twice id conn trace =
    record (alive State.proxy_start_failed id conn
      (session_end id ∷ connection_destroyed ∷ session_end id ∷ connection_destroyed ∷ trace)) {
        ended = true;
        dangling = true;
      }

pub refused_answer :
    (status : ℕ)
    → encode_command_resp
        (record {
          version = version5;
          status = status;
          addr_type = no_address.kind;
          addr = no_address.addr;
          port = no_address.port;
        })
        []
      ≡ refused
refused_answer status = encode_command_resp_unknown _ [] (unfold is_address_type_exist in refl)

-- Where a command asks for a connection.
abbrev pub address_of : CommandMsg → Address
address_of m = record { kind = m.addr_type; addr = m.addr; port = m.port }

module _ (env : Env) (id : ℕ) (trace : List Effect) where
  unsupported_command :
      (conn : Option ℕ) (buf : List ℕ) (m : CommandMsg)
      → decode_command buf ≡ ok m
      → m.command ≢ tcp_stream
      → handle env (received main buf) (alive State.wait_for_command id conn trace)
        ≡ deleted_twice id conn trace
  unfolding handle
  unsupported_command conn buf m e other =
      rw (e, process_buffer) (ground (arith, other, refused_answer 7))

  pub connection_refused :
      (conn : Option ℕ) (buf : List ℕ) (m : CommandMsg)
      → decode_command buf ≡ ok m
      → m.command ≡ tcp_stream
      → env.create_new_connection trace (address_of m) ≡ none
      → handle env (received main buf) (alive State.wait_for_command id conn trace)
        ≡ deleted_twice id none
            (connecting (record { kind = m.addr_type; addr = m.addr; port = m.port }) ∷ trace)
  unfolding handle
  connection_refused conn buf m e t fails =
      rw (e, process_buffer) (ground (arith, t, fails, refused_answer 1))

  no_local_address :
      (c : ℕ)
      → env.get_local_address trace c ≡ none
      → handle env connected (alive State.wait_for_proxy_start id (some c) trace)
        ≡ deleted_twice id (some c) trace
  unfolding handle
  no_local_address c h = ground (arith, h, refused_answer 4)

  -- A command other than a stream, or a stream for which the manager makes no connection to its
  -- address.
  abbrev pub Refuses : CommandMsg → Type 0
  Refuses m =
      (m.command ≢ tcp_stream)
      ⊎ ((m.command ≡ tcp_stream) × (env.create_new_connection trace (address_of m) ≡ none))

  -- A session that waits for a command and gets one other than TCP stream, or one to open a stream to
  -- an address to which the manager makes no connection, is deleted, used after that and deleted again,
  -- and sends nothing. In the second case it has sought the connection, and holds none.
  pub refusals_unanswered :
      (conn : Option ℕ) (buf : List ℕ) (m : CommandMsg)
      → decode_command buf ≡ ok m
      → Refuses m
      → handle env (received main buf) (alive State.wait_for_command id conn trace) ≡ (
          if m.command == tcp_stream
          then deleted_twice id none (connecting (address_of m) ∷ trace)
          else deleted_twice id conn trace)
  refusals_unanswered conn buf m e (inl other) =
      let no : (m.command == tcp_stream) ≡ false = ground (arith, other) in
      unsupported_command conn buf m e other ∙ rw no refl
  refusals_unanswered conn buf m e (inr (t, fails)) =
      let yes : (m.command == tcp_stream) ≡ true = rw t refl in
      connection_refused conn buf m e t fails ∙ rw yes refl
