-- ===== src/Session.antt =====
-- Session.h and Session.cpp, with its tracker and its machine inside. `onSessionEnd` makes the
-- manager delete the session; whatever then still runs in one of its methods works on freed memory,
-- and that is what `dangling` records.
pub mod Answers
pub mod Destruction
pub mod Ended
pub mod Established
pub mod Failures
pub mod Origins
pub mod Reaching
pub mod Fragments
pub mod Replies
pub mod Trust
use socks.Base.{
  ℕ, List, [], ◌∷◌, Bool, true, false, ◌||◌, Option, none, some, ◌==◌, not, if◌then◌else◌,
}
use socks.Types.{
  ipv4, Address, tcp_stream, request_granted, general_failure, host_unreachable,
  command_not_supported,
}
use socks.StateMachine.{State}
use socks.Proxy.{Direction, main, out, ProxyLinks, on_data_received, on_disconnected}
use socks.Tracker.{
  Links, Requests, on_proxy_started, on_auth_request_completed, on_receive, on_connection_closed,
}

-- What the session makes other objects do.
pub data Effect : Type 0 where
  sent : List ℕ → Effect
  checked : List ℕ → List ℕ → Bool → Effect
  connecting : Address → Effect
  proxy_created proxy_destroyed : Effect
  relayed : Direction → List ℕ → Effect
  disconnected : Direction → Effect
  connection_destroyed : Effect
  session_end : ℕ → Effect

-- The interfaces that the session is given: `send` of its connection, ISocksAuthorizer,
-- `createNewConnection` of ISocksSessionUser, and `getLocalAddress` of the connection made. All but
-- the authorizer may answer by what happened before. `createConnect`, with which the manager makes its
-- connections, is in Socket, and put in this place in Reaching.
pub record Env : Type 0 where
  pub send : List Effect → List ℕ → Bool
  pub auth_user_password : List ℕ → List ℕ → Bool
  pub create_new_connection : List Effect → Address → Option ℕ
  pub get_local_address : List Effect → ℕ → Option Address

-- The trace is newest first.
pub record Session : Type 0 where
  pub id : ℕ
  pub machine : State
  pub out_conn : Option ℕ
  pub tcp_stream_proxy : Bool
  pub trace : List Effect
  pub ended : Bool
  pub dangling : Bool
  pub threw : Bool

-- The constructor.
abbrev pub new_session : ℕ → Session
new_session id = record {
  id = id;
  machine = State.wait_for_greeting;
  out_conn = none;
  tcp_stream_proxy = false;
  trace = [];
  ended = false;
  dangling = false;
  threw = false;
}

-- A use of the session's fields.
touch : Session → Session
touch s = record s { dangling = s.dangling || s.ended }

note : Effect → Session → Session
note e s = record s { trace = e ∷ s.trace }

-- `SocksAddress{}`: the type is 0, the address the first alternative, of zeros.
abbrev pub no_address : Address
no_address = record { kind = 0; addr = ipv4 (0 ∷ 0 ∷ 0 ∷ 0 ∷ []); port = 0 }

-- `_tcpStreamProxy.reset()`
reset_proxy : Session → Session
unfolding note
reset_proxy s =
    if s.tcp_stream_proxy then note proxy_destroyed (record s { tcp_stream_proxy = false }) else s

unfoldable pub destroy_self : Session → Session
unfolding touch note reset_proxy
destroy_self s =
    let s1 = reset_proxy (touch s) in
    let s2 = note (session_end s1.id) (note connection_destroyed s1) in record s2 { ended = true }

-- Bytes or the end on the incoming (`main`) or the outgoing connection, which was made before.
pub data Event : Type 0 where
  received : Direction → List ℕ → Event
  closed : Direction → Event
  connected : Event

module _ (env : Env) where
  unfoldable pub links : Links Session
  unfolding touch note destroy_self
  links = record {
    cell = record { get = λ s. s.machine; put = λ m s. record (touch s) { machine = m } };
    send = λ buf s.
        let ok = env.send s.trace buf in (if ok then note (sent buf) (touch s) else touch s, ok);
    on_conn_tracker_destroy = destroy_self;
    thrown = λ s. record s { threw = true };
  }

  -- The new connection is stored also when it is null.
  unfoldable pub on_start_proxy : ℕ → Address → Session → Session
  unfolding links touch note destroy_self on_proxy_started
  on_start_proxy type address s =
      if not (type == tcp_stream)
      then destroy_self (on_proxy_started links command_not_supported no_address s)
      else (let conn = env.create_new_connection s.trace address in
          let s' = note (connecting address) (record (touch s) { out_conn = conn }) in
          elim conn [
            | none ↦ destroy_self (on_proxy_started links general_failure no_address s')
            | some c ↦ s'
          ])

  unfoldable pub on_request_pass_auth : List ℕ → List ℕ → Session → Session
  unfolding links touch note on_auth_request_completed
  on_request_pass_auth user password s =
      let success = env.auth_user_password user password in
      on_auth_request_completed links success (note (checked user password success) (touch s))

  unfoldable pub requests : Requests Session
  unfolding on_start_proxy on_request_pass_auth
  requests = record { on_start_proxy = on_start_proxy; on_request_pass_auth = on_request_pass_auth }

  -- ISocksConnectionUser of the outgoing connection. Without one `_outConn` is null.
  unfoldable pub on_connected : ℕ → Session → Session
  unfolding links touch note destroy_self on_proxy_started
  on_connected conn s = elim (env.get_local_address s.trace conn) [
    | none ↦ destroy_self (on_proxy_started links host_unreachable no_address s)
    | some a ↦
        (let s' = on_proxy_started links request_granted a s in
          note proxy_created (record (touch s') { tcp_stream_proxy = true }))
  ]

  unfoldable pub on_proxy_destroy : Session → Session
  unfolding destroy_self
  on_proxy_destroy s = destroy_self s

  unfoldable pub proxy_links : ProxyLinks Session
  unfolding touch note on_proxy_destroy
  proxy_links = record {
    main_send = λ buf s. note (relayed main buf) (touch s);
    out_send = λ buf s. note (relayed out buf) (touch s);
    main_disconnect = λ s. note (disconnected main) (touch s);
    out_disconnect = λ s. note (disconnected out) (touch s);
    on_proxy_destroy = on_proxy_destroy;
  }

  -- Until there is a proxy the tracker is the user of the incoming connection, and the session that
  -- of the outgoing one: it ignores its bytes and its end.
  unfoldable pub handle_alone : Event → Session → Session
  unfolding links requests on_receive on_connection_closed on_connected
  handle_alone (received main buf) s = on_receive links requests buf s
  handle_alone (closed main) s = on_connection_closed links s
  handle_alone connected s = elim s.out_conn [ none ↦ s | some conn ↦ on_connected conn s ]
  handle_alone e s = s

  -- The proxy makes itself the user of both connections, and ignores `onConnected`.
  unfoldable pub handle_proxy : Event → Session → Session
  unfolding proxy_links on_data_received on_disconnected
  handle_proxy (received d buf) s = on_data_received proxy_links d buf s
  handle_proxy (closed d) s = on_disconnected proxy_links d s
  handle_proxy connected s = s

  -- A session that has ended gets no events: its connections went with it.
  unfoldable pub handle : Event → Session → Session
  unfolding handle_alone handle_proxy
  handle e s =
      if s.ended then s else (if s.tcp_stream_proxy then handle_proxy e s else handle_alone e s)

  unfoldable pub run : List Event → Session → Session
  run [] s = s
  run (e ∷ es) s = run es (handle e s)
