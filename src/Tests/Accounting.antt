-- ===== src/Tests/Accounting.antt =====
-- A server of TcpServer.cpp that accepts a client, reads it and sees it end.
use socks.Base.{◌+◌, ◌≡◌, refl, [], ◌∷◌, true, some}
use socks.TcpServer.{
  Set, ended, failed, ready, Round, Server, serve, selected, handle_ready, accept_client,
  serve_clients, handle_clients, handle_client_read, remove_client,
}
use socks.TcpServer.Serving.{server_of}
use socks.TcpServer.Accounting.{held, opened, closed, lost, clients_accounted}

abbrev everything : Set
everything fd = true

abbrev busy_round : Round
busy_round = record {
  select = λ nfds reads writes excepts. ready everything everything everything;
  accept = some (7, (1, 80));
  recv = λ fd. ended;
}

abbrev idle_server : Server
idle_server = record { server_sock = 3; clients = 5 ∷ []; notices = [] }

clients_accounted_example :
    held 7 (server_of (serve (busy_round ∷ []) idle_server)).clients
      + closed 7 (server_of (serve (busy_round ∷ []) idle_server)).notices
      + lost 7 (busy_round ∷ []) idle_server
    ≡ held 7 idle_server.clients
      + opened 7 (server_of (serve (busy_round ∷ []) idle_server)).notices
clients_accounted_example = clients_accounted 7 (busy_round ∷ []) idle_server refl

-- The same with a read that would block.
abbrev blocked_round : Round
blocked_round = record busy_round { recv = λ fd. failed true }

lost_once : lost 7 (blocked_round ∷ []) idle_server ≡ 1
unfolding lost handle_client_read accept_client selected
lost_once = refl

closed_once : closed 7 (server_of (serve (busy_round ∷ []) idle_server)).notices ≡ 1
unfolding serve handle_ready accept_client serve_clients handle_clients handle_client_read
    remove_client selected
closed_once = refl
