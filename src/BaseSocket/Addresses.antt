-- ===== src/BaseSocket/Addresses.antt =====
-- The addresses that BaseSocket of libratel/TcpServer.cpp and TcpSocket of libratel/TcpSocket.cpp
-- give to the system. A field is the number that its memory holds on a little-endian host.
use socks.Base.{ℕ, ◌+◌, ◌*◌, ◌/◌, ◌%◌, ◌<◌, ◌≡◌, refl, ap, Option, none, some, arith}
use socks.SocketAddress.{ntohs}

pub record SockaddrIn : Type 0 where
  pub sin_addr : ℕ
  pub sin_port : ℕ

-- `htonl`. `htons` is its own inverse `ntohs`.
unfoldable pub htonl : ℕ → ℕ
htonl n = n % 256 * 16777216 + n / 256 % 256 * 65536 + n / 65536 % 256 * 256 + n / 16777216 % 256

unfoldable pub connect_address : ℕ → ℕ → SockaddrIn
unfolding htonl ntohs
connect_address ip port = record { sin_addr = htonl ip; sin_port = ntohs port }

unfoldable pub bind_address : ℕ → ℕ → SockaddrIn
bind_address ip port = record { sin_addr = ip; sin_port = port }

unfoldable pub tcp_bind_address : ℕ → ℕ → SockaddrIn
tcp_bind_address ip port = record { sin_addr = ip; sin_port = port }

-- `parsed` is what `inet_pton` writes; nothing is written where the text is no address.
unfoldable pub convert_string_to_host : Option ℕ → ℕ → SockaddrIn → SockaddrIn
convert_string_to_host none port sa = record sa { sin_port = port }
convert_string_to_host (some addr) port sa = record { sin_addr = addr; sin_port = port }

unfoldable pub tcp_convert_string_to_host : Option ℕ → ℕ → SockaddrIn → SockaddrIn
tcp_convert_string_to_host none port sa = record sa { sin_port = port }
tcp_convert_string_to_host (some addr) port sa = record { sin_addr = addr; sin_port = port }

-- What `connect` asks for is what `bind` was given only where both numbers read the same from
-- either end.
connect-bind :
    (ip port : ℕ)
    → ip < 4294967296
    → port < 65536
    → connect_address ip port ≡ bind_address ip port
    → (port % 256 ≡ port / 256) × (ip % 256 ≡ ip / 16777216) × (ip / 256 % 256 ≡ ip / 65536 % 256)
unfolding connect_address bind_address htonl ntohs
connect-bind ip port hi hp h =
    let addr : htonl ip ≡ ip = ap (λ (s : SockaddrIn). s.sin_addr) h in
    let p : ntohs port ≡ port = ap (λ (s : SockaddrIn). s.sin_port) h in
    (omega (arith, p, hp), omega (arith, addr, hi), omega (arith, addr, hi))

-- `bind` of the turned numbers is what `connect` asks for.
bind-turned : (ip port : ℕ) → connect_address ip port ≡ bind_address (htonl ip) (ntohs port)
unfolding connect_address bind_address
bind-turned ip port = refl
