-- ===== src/Tests/Proxies.antt =====
-- A proxy between two sockets of Event/EventSocketConnected.cpp.
use socks.Base.{ℕ, [], Bool, true, false, some}
use socks.Types.{Address, ipv4}
use socks.SocketAddress.{inet}
use socks.Socket.{Socket, World}
use socks.Proxy.Ending.{Sockets}

abbrev unset : Address
unset = record { kind = 0; addr = ipv4 []; port = 0 }

abbrev in_use : ℕ → Bool → Socket
in_use name connected = record {
  user = some name;
  remote_address = unset;
  local_address = unset;
  connected = connected;
}

-- The client's socket was accepted, the other one was connected.
abbrev proxied : Sockets
proxied = record {
  main_socket = in_use 1 false;
  out_socket = in_use 2 true;
  main_closes = 0;
  out_closes = 0;
}

-- The system does nothing.
abbrev idle_system : World Sockets
idle_system = record {
  get = λ w. w.main_socket;
  put = λ s w. w;
  on_receive = λ user buf w. w;
  on_connected = λ user w. w;
  on_connection_closed = λ user w. w;
  get_sock_name = λ w. inet [] 0;
  get_peer_name = λ w. inet [] 0;
  close_socket = λ w. w;
  add_output = λ buf w. (w, true);
  socket_connect = λ sa w. (w, true);
  assertion_failed = λ w. w;
}
