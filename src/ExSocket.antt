-- ===== src/ExSocket.antt =====
-- The classes ExSocket, FlipBuffer and ExSocketHandler of libratel/TcpServer.cpp. A socket is named by
-- its descriptor. The system is a parameter.
pub mod Closing
pub mod Destroying
pub mod Handler
use socks.Base.{
  ℕ, ◌-◌, ◌==◌, List, [], ◌∷◌, ◌++◌, length, take, drop, map, replicate, Bool, true, false, Option,
  none, some, if◌then◌else◌, ltb,
}
use socks.BaseSocket
use socks.BaseSocket.{Incoming, get_read_size, type_tcp_server, type_tcp_connected}

pub record ExSocket : Type 0 where
  pub type : ℕ
  pub connected : Bool
  pub recv_buffer : List (List ℕ)
  pub send_buffer : List (List ℕ)

unfoldable pub new_ex_socket : ℕ → ExSocket
new_ex_socket type = record { type = type; connected = false; recv_buffer = []; send_buffer = [] }

unfoldable pub accepted_socket : ExSocket
accepted_socket = record {
  type = type_tcp_connected;
  connected = true;
  recv_buffer = [];
  send_buffer = [];
}

-- What a socket does to others: the calls of its user and of its handler, and of the system.
pub data Call : Type 0 where
  on_new_connection : ℕ → Call
  on_message : Call
  on_connected : Call
  on_connection_closed : Call
  on_connection_failed : Call
  on_add_socket : ℕ → Call
  on_del_socket : Call
  shutdown : Call

-- What becomes of the handler and of the descriptor: `setSocket` with `onAddSocket` at the end of both
-- constructors, and the destructor, after which that of the member `_sock` runs.
pub data Fate : Type 0 where
  handler_called : Call → Fate
  system_called : BaseSocket.Call → Fate

unfoldable pub constructed : ℕ → List Fate
constructed fd = handler_called (on_add_socket fd) ∷ []

unfoldable pub destroy_ex_socket : BaseSocket.BaseSocket → List Fate
destroy_ex_socket sock =
    handler_called on_del_socket
    ∷ map system_called (BaseSocket.close sock ++ BaseSocket.destroy sock)

unfoldable pub shutdown_ex_socket : BaseSocket.BaseSocket → List Fate
shutdown_ex_socket sock = map system_called (BaseSocket.shutdown sock)

-- The results of `bind` and of `listen` go nowhere, but for a throw.
unfoldable pub bind_ex_socket : Bool → BaseSocket.BaseSocket → Option (Unit {0})
bind_ex_socket succeeded sock = some tt

unfoldable pub listen_ex_socket : Bool → BaseSocket.BaseSocket → Option (Unit {0})
unfolding BaseSocket.listen
listen_ex_socket succeeded sock = elim (BaseSocket.listen succeeded sock) [
  | none ↦ none
  | some listening ↦ some tt
]

-- The messages read go to the caller, whose own take their place.
unfoldable pub read_messages : List (List ℕ) → ExSocket → ExSocket × List (List ℕ)
read_messages buf s = (record s { recv_buffer = buf }, s.recv_buffer)

-- A buffer of the size with the bytes that were received at its front.
unfoldable pub filled : ℕ → List ℕ → List ℕ
filled size received = take size received ++ replicate (size - length received) 0

-- `accepted` is the result of `accept`, `incoming` what getReadSize asks for, and `received` what recv writes.
unfoldable pub on_read : Option ℕ → Incoming → List ℕ → ExSocket → ExSocket × List Call
unfolding filled get_read_size
on_read accepted incoming received s =
    let read_size = get_read_size incoming in
    if s.type == type_tcp_server
    then (elim accepted [
      | none ↦ (s, [])
      | some fd ↦ (s, on_add_socket fd ∷ on_new_connection fd ∷ [])
    ])
    else (if s.type == type_tcp_connected
        then (if ltb 0 read_size
            then (
              record s { recv_buffer = s.recv_buffer ++ filled read_size received ∷ [] },
              on_message ∷ [],
            )
            else (if s.connected
                then (
                  record s { connected = false },
                  shutdown ∷ on_connection_closed ∷ on_del_socket ∷ [],
                )
                else (s, [])))
        else (s, []))

-- What `send` of the first message leaves, where the system took `sent` of its bytes. Where `send`
-- fails it gives -1, and the code then erases up to before the beginning, which is undefined.
unfoldable pub after_send : ℕ → List (List ℕ) → List (List ℕ)
after_send sent [] = []
after_send sent (msg ∷ msgs) = if sent == length msg then msgs else drop sent msg ∷ msgs

unfoldable pub on_write : ℕ → ExSocket → ExSocket × List Call
unfolding after_send
on_write sent s =
    if s.type == type_tcp_connected
    then (if s.connected
        then (record s { send_buffer = after_send sent s.send_buffer }, [])
        else (record s { connected = true }, on_connected ∷ []))
    else (s, [])

unfoldable pub on_error : ExSocket → List Call
on_error s = if s.type == type_tcp_connected then on_connection_failed ∷ [] else []

-- What the system does for one socket in a round.
pub record Ready : Type 0 where
  pub readable : Bool
  pub writable : Bool
  pub failed : Bool
  pub accepted : Option ℕ
  pub incoming : Incoming
  pub received : List ℕ
  pub sent : ℕ

-- The three tests of the loop, one after the other.
unfoldable pub handle_socket : Ready → ExSocket → ExSocket × List Call
unfolding on_read on_write on_error
handle_socket r s =
    let (s1, calls1) = if r.readable then on_read r.accepted r.incoming r.received s else (s, []) in
    let (s2, calls2) = if r.writable then on_write r.sent s1 else (s1, []) in
    let calls3 = if r.failed then on_error s2 else [] in (s2, calls1 ++ (calls2 ++ calls3))
