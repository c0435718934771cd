-- ===== src/Tests/Sessions.antt =====
-- Sessions of Session.cpp in an environment that sends everything and knows one password.
use socks.Maps.{find}
use socks.Manager
use socks.Manager.Serving.{served, unless_ended, session-run}
use socks.Session.Established.{Chunk, proxied}
use socks.Session.{relayed}
use socks.Session.Answers.{alive}
use socks.Proxy.{main, out}
use socks.StateMachine.{offers, State}
use socks.Session.Trust.Listed.{with_logins, Guarded-LastGiven}
use socks.Accounts.Logins.{LastGiven}
use socks.Accounts.{auth_user_password, read_lines}
use socks.StateMachine.{process_buffer}
use socks.Encoder.{encodable_method, encode_greeting_resp, encode_user_pass_resp}
use socks.Base.Buffer.{store_range, resize}
use socks.Base.Buffer.{ok, load_range}
use socks.Decoder.{decode_command, decode_greeting, decode_user_pass}
use socks.Types.{
  UserPassAuthMsg, CommandMsg, fresh_user_pass, is_command_exist, Address, ipv4,
  is_auth_method_exist, GreetingMsg, fresh_greeting, is_address_type_exist, is_version_support,
}
use socks.Session.Failures.{deleted_twice, address_of, refusals_unanswered}
use socks.Session.{
  Effect, sent, new_session, connected, run, received, checked, handle, Env, Event, proxy_created,
  connecting,
}
use socks.Session.Origins.{Sourced, run-Sourced}
use socks.Session.Reaching.{sought, with_socket, command_reached}
use socks.SocketAddress.{inet, convert_addr_to_storage}
use socks.SocketAddress.Reply.{target as address_target}
use socks.Socket.{Socket, World, create_connect}
use socks.Wire.{command_wire}
use socks.Base.{
  All, Memᴰ, inr, if◌then◌else◌, ◌++◌, ◌≡◌, refl, some, none, true, false, [], ◌==◌, arith, ◌∷◌,
  Bool, ◌≢◌, List, ℕ,
}

abbrev is_seven : List ℕ → Bool
is_seven (x ∷ []) = x == 7
is_seven xs = false

abbrev local : Address
local = record { kind = 1; addr = ipv4 (10 ∷ 0 ∷ 0 ∷ 9 ∷ []); port = 258 }

abbrev open_env : Env
open_env = record {
  send = λ t buf. true;
  auth_user_password = λ u p. is_seven p;
  create_new_connection = λ t a. some 3;
  get_local_address = λ t c. some local;
}

-- Nothing can be reached.
abbrev closed_env : Env
closed_env = record {
  send = λ t buf. true;
  auth_user_password = λ u p. is_seven p;
  create_new_connection = λ t a. none;
  get_local_address = λ t c. none;
}

abbrev hello : GreetingMsg
hello = record { version = 5; auth_methods = 2 ∷ [] }

abbrev hello_bytes : List ℕ
hello_bytes = 5 ∷ 1 ∷ 2 ∷ []

hello_read : decode_greeting hello_bytes fresh_greeting ≡ ok hello
unfolding decode_greeting is_version_support is_auth_method_exist
hello_read = refl

abbrev login : UserPassAuthMsg
login = record { user = 1 ∷ []; password = 7 ∷ [] }

abbrev login_bytes : List ℕ
login_bytes = 1 ∷ 1 ∷ 1 ∷ 1 ∷ 7 ∷ []

login_read : decode_user_pass login_bytes fresh_user_pass ≡ ok login
unfolding decode_user_pass load_range
login_read = refl

abbrev stream : ℕ → CommandMsg
stream c = record {
  version = 5;
  command = c;
  addr_type = 1;
  addr = ipv4 (127 ∷ 0 ∷ 0 ∷ 1 ∷ []);
  port = 20480;
}

abbrev stream_bytes : ℕ → List ℕ
stream_bytes c = 5 ∷ c ∷ 0 ∷ 1 ∷ 127 ∷ 0 ∷ 0 ∷ 1 ∷ 0 ∷ 80 ∷ []

abbrev target : Address
target = record { kind = 1; addr = ipv4 (127 ∷ 0 ∷ 0 ∷ 1 ∷ []); port = 20480 }

stream_read : decode_command (stream_bytes 1) ≡ ok (stream 1)
unfolding decode_command load_range is_version_support is_command_exist is_address_type_exist
stream_read = refl

bind_read : decode_command (stream_bytes 2) ≡ ok (stream 2)
unfolding decode_command load_range is_version_support is_command_exist is_address_type_exist
bind_read = refl

two_ne_one : ◌≢◌ {A = ℕ} 2 1
two_ne_one = omega arith

-- The name 1 with the password 7.
abbrev lines : List (List ℕ)
lines = (1 ∷ 44 ∷ 7 ∷ []) ∷ []

abbrev after_login : List Effect
after_login = sent (5 ∷ 0 ∷ []) ∷ checked (1 ∷ []) (7 ∷ []) true ∷ sent (5 ∷ 2 ∷ []) ∷ []

abbrev logging_in : List Event
logging_in =
    received main hello_bytes ∷ received main login_bytes ∷ received main (stream_bytes 1) ∷ []

logged_in :
    (run (with_logins lines open_env) logging_in (new_session 4)).trace
    ≡ connecting target ∷ after_login
unfolding run handle process_buffer offers decode_greeting decode_user_pass decode_command
    load_range is_version_support is_auth_method_exist is_command_exist is_address_type_exist
    encode_greeting_resp encode_user_pass_resp store_range resize auth_user_password read_lines
    encodable_method
logged_in = refl

Guarded-LastGiven_example :
    (newer : List Effect) × (m : UserPassAuthMsg) × (older : List Effect) × (buf : List ℕ)
    × ((after_login ≡ newer ++ checked m.user m.password true ∷ older)
        × LastGiven m.user m.password lines
        × Memᴰ (received main buf) logging_in
        × (decode_user_pass buf fresh_user_pass ≡ ok m))
Guarded-LastGiven_example =
    Guarded-LastGiven lines open_env 4 logging_in [] (connecting target) after_login tt logged_in

run-Sourced_example :
    All (Sourced open_env (λ e. Memᴰ e logging_in)) (run open_env logging_in (new_session 4)).trace
run-Sourced_example = run-Sourced open_env 4 logging_in

refusals_unanswered_example :
    handle closed_env (received main (stream_bytes 1)) (alive State.wait_for_command 4 none [])
    ≡ deleted_twice 4 none (connecting target ∷ [])
refusals_unanswered_example =
    refusals_unanswered closed_env 4 [] none (stream_bytes 1) (stream 1) stream_read
      (inr (refl, refl))

-- One socket and nothing else; every connection begins.
abbrev one_socket : World Socket
one_socket = record {
  get = λ s. s;
  put = λ s w. s;
  on_receive = λ user buf w. w;
  on_connected = λ user w. w;
  on_connection_closed = λ user w. w;
  get_sock_name = λ w. inet [] 0;
  get_peer_name = λ w. inet [] 0;
  close_socket = λ w. w;
  add_output = λ buf w. (w, true);
  socket_connect = λ sa w. (w, true);
  assertion_failed = λ w. w;
}

abbrev unset : Address
unset = record { kind = 0; addr = ipv4 []; port = 0 }

abbrev first_socket : Socket
first_socket = record {
  user = none;
  remote_address = unset;
  local_address = unset;
  connected = false;
}

command_reached_example :
    let begun =
      sought one_socket
        (address_target (stream 1).addr (stream 1).port)
        (with_socket one_socket unset (address_of (stream 1)) 4 first_socket) in
    (stream_bytes 1 ≡ command_wire (stream 1))
    × (create_connect one_socket unset (address_of (stream 1)) 4 first_socket ≡ begun)
    × (handle open_env (received main (stream_bytes 1)) (alive State.wait_for_command 4 none []) ≡ (
        if begun.1
        then alive State.wait_for_proxy_start 4 (some 3) (connecting target ∷ [])
        else deleted_twice 4 none (connecting target ∷ [])))
unfolding create_connect convert_addr_to_storage
command_reached_example =
    command_reached one_socket open_env 4 [] none (stream_bytes 1) (stream 1) 3 unset 4 first_socket
      (λ s w. refl) (omega arith) stream_read refl refl

-- One byte each way.
abbrev chunks : List Chunk
chunks = (true, 103 ∷ []) ∷ (false, 104 ∷ []) ∷ []

abbrev called : Event → Manager.Operation
called e = Manager.session_called open_env 0 e

-- Another client comes and is refused, and a connection of its own goes, in the middle of it.
abbrev crowd : List Manager.Operation
crowd =
    called (received main hello_bytes)
    ∷ Manager.connection_accepted
    ∷ called (received main login_bytes)
    ∷ Manager.session_called closed_env 1 (received main (9 ∷ []))
    ∷ called (received main (stream_bytes 1))
    ∷ Manager.connection_destroyed 1
    ∷ called connected
    ∷ called (received main (103 ∷ []))
    ∷ called (received out (104 ∷ []))
    ∷ []

one_ne_zero : ◌≢◌ {A = ℕ} 1 0
one_ne_zero = omega arith

served_example :
    find 0 (Manager.run (Manager.connection_accepted ∷ crowd) (Manager.new_manager true)).sessions
    ≡ some (
        proxied 0 3 (
          relayed main (104 ∷ [])
          ∷ relayed out (103 ∷ [])
          ∷ proxy_created
          ∷ sent (5 ∷ 0 ∷ 0 ∷ 1 ∷ 10 ∷ 0 ∷ 0 ∷ 9 ∷ 2 ∷ 1 ∷ [])
          ∷ connecting target
          ∷ sent (5 ∷ 0 ∷ [])
          ∷ checked (1 ∷ []) (7 ∷ []) true
          ∷ sent (5 ∷ 2 ∷ [])
          ∷ []))
unfolding offers Manager.new_manager
served_example =
    served open_env (Manager.new_manager true) crowd hello_bytes login_bytes (stream_bytes 1) hello
      login (stream 1) 3 (ipv4 (10 ∷ 0 ∷ 0 ∷ 9 ∷ [])) 258 chunks (one_ne_zero, tt) refl hello_read
      refl login_read refl stream_read refl (λ t. refl) (λ t. refl) refl refl (λ t r. refl)

abbrev calls : List Event
calls =
    received main hello_bytes
    ∷ received main login_bytes
    ∷ received main (stream_bytes 1)
    ∷ connected
    ∷ received main (103 ∷ [])
    ∷ received out (104 ∷ [])
    ∷ []

session-run_example :
    find 0 (Manager.run (Manager.connection_accepted ∷ crowd) (Manager.new_manager true)).sessions
    ≡ unless_ended (run open_env calls (new_session 0))
unfolding Manager.new_manager
session-run_example =
    session-run open_env calls crowd (Manager.new_manager true) (one_ne_zero, tt) refl
