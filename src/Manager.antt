-- ===== src/Manager.antt =====
-- SessionMng.cpp and Event/EventTcpServer.cpp: the sessions by their ids, and the outgoing
-- connections by their users. Pointers are numbers; the loop of libevent is outside.
pub mod Ids
pub mod Connections
pub mod Independence
pub mod Serving
pub mod Protection
use socks.Base.{
  ℕ, ◌+◌, ◌%◌, ◌^◌, ◌==◌, List, [], ◌∷◌, Bool, true, false, Option, none, some, if◌then◌else◌,
}
use socks.Maps.{put, erase, find}
use socks.Session.{Session, Env, Event, new_session, handle}

-- EventTcpServer. A connection in the map is null (`none`) after `reset`.
pub record Server : Type 0 where
  pub listening : Bool
  pub connections : List (ℕ × Option ℕ)
  pub loop_broken : Bool

-- `dispatch_result` is what event_base_dispatch returns.
unfoldable pub run_server : ℕ → Server → ℕ
run_server dispatch_result server = if server.listening then dispatch_result else 1

unfoldable pub stop : Server → Server
stop server = record server { loop_broken = true }

-- `created` is the result of EventSocketConnected::createConnect.
unfoldable pub add_connection : ℕ → Option ℕ → Server → Server × Option ℕ
unfolding put
add_connection user none server = (server, none)
add_connection user (some conn) server =
    (record server { connections = put user (some conn) server.connections }, some conn)

unfoldable pub close_connection : ℕ → Server → Server
unfolding put find
close_connection user server = elim (find user server.connections) [
  | none ↦ server
  | some conn ↦ record server { connections = put user none server.connections }
]

-- SessionMng, with its 32-bit counter.
pub record Manager : Type 0 where
  pub server : Server
  pub current_id : ℕ
  pub sessions : List (ℕ × Session)

unfoldable pub new_manager : Bool → Manager
new_manager listening = record {
  server = record { listening = listening; connections = []; loop_broken = false };
  current_id = 0;
  sessions = [];
}

unfoldable pub run_manager : ℕ → Manager → ℕ
unfolding run_server
run_manager dispatch_result mng = run_server dispatch_result mng.server

unfoldable pub on_new_connection : Manager → Manager
unfolding put
on_new_connection mng =
    let id = mng.current_id in
    record mng {
      current_id = (mng.current_id + 1) % 2 ^ 32;
      sessions = put id (new_session id) mng.sessions;
    }

-- The server passes a new accepted socket on to the manager.
unfoldable pub on_accept_connection : Manager → Manager
unfolding on_new_connection
on_accept_connection mng = on_new_connection mng

unfoldable pub create_new_connection : ℕ → Option ℕ → Manager → Manager × Option ℕ
unfolding add_connection
create_new_connection user created mng =
    let (server, conn) = add_connection user created mng.server in
    (record mng { server = server }, conn)

unfoldable pub on_connection_destroyed : ℕ → Manager → Manager
unfolding close_connection
on_connection_destroyed user mng = record mng { server = close_connection user mng.server }

unfoldable pub on_session_end : ℕ → Manager → Manager
unfolding erase
on_session_end id mng = record mng { sessions = erase id mng.sessions }

-- SIGINT is 2.
unfoldable pub on_signal_occured : ℕ → Manager → Manager
unfolding stop
on_signal_occured signum mng = if signum == 2 then record mng { server = stop mng.server } else mng

-- An event of a session in the map, which ends there if the session then has: `Session::destroySelf`
-- calls `onConnectionDestroyed` with itself, which as a user has the name of its id here, and
-- `onSessionEnd` with its id, under which the manager has put it.
unfoldable pub session_event : Env → ℕ → Event → Manager → Manager
unfolding put find handle on_session_end on_connection_destroyed
session_event env id e mng = elim (find id mng.sessions) [
  | none ↦ mng
  | some session ↦
      (let session' = handle env e session in
        if session'.ended
        then on_session_end id (on_connection_destroyed id mng)
        else record mng { sessions = put id session' mng.sessions })
]

pub data Operation : Type 0 where
  connection_accepted : Operation
  connection_wanted : ℕ → Option ℕ → Operation
  connection_destroyed : ℕ → Operation
  session_called : Env → ℕ → Event → Operation
  signal_occured : ℕ → Operation

unfoldable pub step : Operation → Manager → Manager
unfolding on_accept_connection create_new_connection on_connection_destroyed session_event
    on_signal_occured
step connection_accepted mng = on_accept_connection mng
step (connection_wanted user created) mng = (create_new_connection user created mng).0
step (connection_destroyed user) mng = on_connection_destroyed user mng
step (session_called env id e) mng = session_event env id e mng
step (signal_occured signum) mng = on_signal_occured signum mng

unfoldable pub run : List Operation → Manager → Manager
unfolding step
run [] mng = mng
run (o ∷ os) mng = run os (step o mng)
