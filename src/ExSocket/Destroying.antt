-- ===== src/ExSocket/Destroying.antt =====
-- The destructor of ExSocket in libratel/TcpServer.cpp, with that of its BaseSocket.
use socks.Base.{ℕ, suc, ◌≡◌, List, [], ◌∷◌, arith}
use socks.BaseSocket.{BaseSocket, close_sock, shutdown, close, destroy}
use socks.ExSocket.{Fate, system_called, destroy_ex_socket}

abbrev closes : List Fate → ℕ
closes [] = 0
closes (system_called (close_sock fd) ∷ fates) = suc (closes fates)
closes (fate ∷ fates) = closes fates

-- Every socket closes its descriptor twice when it is destroyed.
closed_twice : (sock : BaseSocket) → closes (destroy_ex_socket sock) ≡ 2
unfolding destroy_ex_socket destroy close shutdown
closed_twice sock = ground arith
