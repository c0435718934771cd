-- ===== src/Proxy/Ending.antt =====
-- The end of a TcpStreamProxy between two sockets of Event/EventSocketConnected.cpp.
use socks.Base.{ℕ, ◌+◌, Bool, true, false, Option, none, some}
use socks.Socket.{Socket, World, set_user, close_connection, is_connected, send}
use socks.Proxy.{Direction, Connection, on_disconnected, proxy_between}

-- A user is named by a number.
abbrev user_named : ℕ → Bool → Option ℕ
user_named name true = some name
user_named name false = none

unfoldable pub socket_connection : {W : Type 0} → World W → ℕ → Connection W
unfolding set_user is_connected close_connection send
socket_connection world name = record {
  set_user = λ user w. set_user world (user_named name user) w;
  is_connected = λ w. is_connected world w;
  close_connection = λ w. close_connection world w;
  send = λ buf w. send world buf w;
}

-- The socket of the client and that of the server, and how often the descriptor of each was closed.
pub record Sockets : Type 0 where
  pub main_socket : Socket
  pub out_socket : Socket
  pub main_closes : ℕ
  pub out_closes : ℕ

-- Each of them in a system that does anything else as it likes.
abbrev pub main_world : World Sockets → World Sockets
main_world system = record system {
  get = λ w. w.main_socket;
  put = λ s w. record w { main_socket = s };
  close_socket = λ w. record w { main_closes = w.main_closes + 1 };
}

abbrev pub out_world : World Sockets → World Sockets
out_world system = record system {
  get = λ w. w.out_socket;
  put = λ s w. record w { out_socket = s };
  close_socket = λ w. record w { out_closes = w.out_closes + 1 };
}

abbrev pub proxy_ends : World Sockets → ℕ → ℕ → Direction → Sockets → Sockets
unfolding on_disconnected
proxy_ends system main_name out_name direction w =
    on_disconnected
      (proxy_between (socket_connection (main_world system) main_name)
        (socket_connection (out_world system) out_name))
      direction w

abbrev pub released : Socket → Socket
released s = record s { user = none; connected = false }
