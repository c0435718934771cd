-- ===== src/TcpServer.antt =====
-- The class TcpServer of libratel/TcpServer.cpp: its loop round `select`. A client is named by the
-- descriptor of its socket; a set of descriptors is its test. The system is a parameter.
pub mod Clients
pub mod Serving
pub mod Accounting
use socks.Base.{
  ℕ, ◌==◌, List, [], ◌∷◌, ◌++◌, Bool, true, false, ◌&&◌, Option, none, some, if◌then◌else◌,
}
use socks.BaseSocket.{Call, tcp_destroy}

abbrev pub Set : Type 0
Set = ℕ → Bool

unfoldable pub fd_zero : Set
fd_zero fd = false

unfoldable pub fd_set : ℕ → Set → Set
fd_set client set fd = if client == fd then true else set fd

unfoldable pub fd_clr : ℕ → Set → Set
fd_clr client set fd = if client == fd then false else set fd

-- What `recv` gives: a failure, which may be that it would block, or the end, or bytes.
pub data Received : Type 0 where
  failed : Bool → Received
  ended : Received
  bytes : List ℕ → Received

-- The calls of the user.
pub data Notice : Type 0 where
  new_connection : ℕ × ℕ → ℕ → Notice
  close_connection : ℕ → Notice
  data_received : ℕ → List ℕ → Notice
  data_can_be_send : ℕ → Notice

unfoldable pub remove_client : ℕ → Set → Set × List Notice
unfolding fd_clr
remove_client client socks_set = (fd_clr client socks_set, close_connection client ∷ [])

-- Whether the client stays, the set of readable sockets, and the calls of the user.
unfoldable pub handle_client_read : ℕ → Received → Set → Bool × (Set × List Notice)
unfolding remove_client
handle_client_read client (failed would_block) read_socks =
    (false, if would_block then (read_socks, []) else remove_client client read_socks)
handle_client_read client ended read_socks = (false, remove_client client read_socks)
handle_client_read client (bytes buf) read_socks =
    (true, (read_socks, data_received client buf ∷ []))

unfoldable pub writable : ℕ → Set → List Notice
writable client write_socks = if write_socks client then data_can_be_send client ∷ [] else []

unfoldable pub handle_clients : (ℕ → Received) → Set → Set → List ℕ → List ℕ × List Notice
unfolding handle_client_read writable
handle_clients recv read_socks write_socks [] = ([], [])
handle_clients recv read_socks write_socks (client ∷ clients) =
    let (stays, (left, notices)) = handle_client_read client (recv client) read_socks in
    let rest = handle_clients recv read_socks write_socks clients in
    let after = handle_clients recv left write_socks clients in
    if read_socks client
    then (if stays
        then (client ∷ after.0, notices ++ (writable client write_socks ++ after.1))
        else (after.0, notices ++ after.1))
    else (client ∷ rest.0, writable client write_socks ++ rest.1)

pub data Selected : Type 0 where
  timed_out : Selected
  error : Selected
  ready : Set → Set → Set → Selected

-- What the system does in one round of the loop: `select` of the descriptors below a number, `accept`
-- with the address of the client, and `recv`.
pub record Round : Type 0 where
  pub select : ℕ → Set → Set → Set → Selected
  pub accept : Option (ℕ × (ℕ × ℕ))
  pub recv : ℕ → Received

pub record Server : Type 0 where
  pub server_sock : ℕ
  pub clients : List ℕ
  pub notices : List Notice

unfoldable pub fd_sets : List ℕ → Set → Set
unfolding fd_set
fd_sets [] set = set
fd_sets (client ∷ clients) set = fd_sets clients (fd_set client set)

unfoldable pub accept_client : ℕ × (ℕ × ℕ) → Server → Server
accept_client (client, host) server = record server {
  clients = server.clients ++ client ∷ [];
  notices = server.notices ++ new_connection host client ∷ [];
}

unfoldable pub serve_clients : (ℕ → Received) → Set → Set → Server → Server
unfolding handle_clients
serve_clients recv read_socks write_socks server =
    let (clients, notices) = handle_clients recv read_socks write_socks server.clients in
    record server { clients = clients; notices = server.notices ++ notices }

unfoldable pub handle_ready : Round → Set → Set → Server → Server
unfolding accept_client serve_clients
handle_ready round read_socks write_socks server =
    if read_socks server.server_sock
    then (elim round.accept [
      | none ↦ server
      | some client ↦ serve_clients round.recv read_socks write_socks (accept_client client server)
    ])
    else serve_clients round.recv read_socks write_socks server

-- How the loop stands: still running after the rounds given, or ended.
pub data Ending : Type 0 where
  running : Server → Ending
  ended_by_error : Server → Ending

unfoldable pub selected : Round → Server → Selected
unfolding fd_zero fd_set fd_sets
selected round server =
    round.select 0 (fd_sets server.clients (fd_set server.server_sock fd_zero))
      (fd_sets server.clients fd_zero) fd_zero

unfoldable pub serve : List Round → Server → Ending
unfolding selected handle_ready
serve [] server = running server
serve (round ∷ rounds) server = elim (selected round server) [
  | timed_out ↦ serve rounds server
  | error ↦ ended_by_error server
  | ready read_socks write_socks except_socks ↦
      serve rounds (handle_ready round read_socks write_socks server)
]

-- `bound` and `listening` are the results of `bind` and `listen`.
unfoldable pub run_server_internal : Bool → Bool → List Round → Server → Ending
unfolding serve
run_server_internal bound listening rounds server =
    if bound && listening then serve rounds server else ended_by_error server

unfoldable pub run_in_this_thread : Bool → Bool → List Round → Server → Ending
unfolding run_server_internal
run_in_this_thread bound listening rounds server = run_server_internal bound listening rounds server

delete_clients : List ℕ → List Call
delete_clients [] = []
delete_clients (client ∷ clients) =
    tcp_destroy (record { sock = some client }) ++ delete_clients clients

-- The destructor, and that of the server's socket after it.
unfoldable pub destroy_server : Server → List Call
unfolding delete_clients
destroy_server server =
    delete_clients server.clients ++ tcp_destroy (record { sock = some server.server_sock })
