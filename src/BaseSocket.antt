-- ===== src/BaseSocket.antt =====
-- The classes BaseSocket of libratel/TcpServer.cpp and TcpSocket of libratel/TcpSocket.cpp, as POSIX
-- has them: thin wrappers of system calls, whose results are arguments.
pub mod Flags
pub mod Addresses
use socks.Base.{
  ℕ, ◌==◌, List, [], ◌∷◌, ◌++◌, Bool, not, ◌&&◌, ◌||◌, Option, none, some, if◌then◌else◌,
}

abbrev pub type_tcp : ℕ
type_tcp = 0

abbrev pub type_udp : ℕ
type_udp = 1

abbrev pub type_tcp_server : ℕ
type_tcp_server = 2

abbrev pub type_tcp_connected : ℕ
type_tcp_connected = 3

-- The descriptor is nothing where it is invalid.
pub record BaseSocket : Type 0 where
  pub type : ℕ
  pub sock : Option ℕ

-- The calls that give nothing back.
pub data Call : Type 0 where
  shutdown_sock : Option ℕ → Call
  close_sock : Option ℕ → Call

-- `stream` and `dgram` are what `socket` gives for each kind. Another type throws.
unfoldable pub new_socket : Option ℕ → Option ℕ → ℕ → Option BaseSocket
new_socket stream dgram type =
    if type == type_tcp || (type == type_tcp_server || type == type_tcp_connected)
    then some (record { type = type; sock = stream })
    else (if type == type_udp then some (record { type = type; sock = dgram }) else none)

-- The constructor that takes a descriptor.
unfoldable pub of_descriptor : ℕ → Option ℕ → BaseSocket
of_descriptor type sock = record { type = type; sock = sock }

unfoldable pub get_socket_fd : BaseSocket → Option ℕ
get_socket_fd s = s.sock

unfoldable pub shutdown : BaseSocket → List Call
shutdown s = if s.type == type_tcp then [] else shutdown_sock s.sock ∷ []

unfoldable pub close : BaseSocket → List Call
close s = close_sock s.sock ∷ []

unfoldable pub destroy : BaseSocket → List Call
unfolding shutdown close
destroy s = shutdown s ++ close s

-- The flags of a descriptor, by the places of their bits.
abbrev pub Flags : Type 0
Flags = ℕ → Bool

unfoldable pub bit_and : Flags → Flags → Flags
bit_and a b i = a i && b i

unfoldable pub bit_or : Flags → Flags → Flags
bit_or a b i = a i || b i

unfoldable pub bit_not : Flags → Flags
bit_not a i = not (a i)

-- The flag with its one bit at a place.
unfoldable pub bit : ℕ → Flags
bit n i = n == i

-- `n` is the place of O_NONBLOCK; `fcntl` gives the flags or fails. The result are the flags set.
unfoldable pub set_non_block : ℕ → Bool → Option Flags → Option Flags
unfolding bit_and bit_or bit_not bit
set_non_block n block none = none
set_non_block n block (some flags) =
    some (bit_and flags (if block then bit_and flags (bit_not (bit n)) else bit_or flags (bit n)))

-- Nothing where it throws; `succeeded` says whether the call of the system gave 0.
unfoldable pub connect : Bool → BaseSocket → Option Bool
connect succeeded s = if s.type == type_tcp_connected then some (not succeeded) else none

unfoldable pub bind : Bool → BaseSocket → Bool
bind succeeded s = succeeded

unfoldable pub listen : Bool → BaseSocket → Option Bool
listen succeeded s = if s.type == type_tcp_server then some succeeded else none

-- What the system knows of a socket: the value of SO_RCVBUF, and the number of the bytes that have
-- come in and were not yet taken.
pub record Incoming : Type 0 where
  pub receive_buffer : ℕ
  pub available : ℕ

unfoldable pub get_read_size : Incoming → ℕ
get_read_size incoming = incoming.receive_buffer

pub record TcpSocket : Type 0 where
  pub sock : Option ℕ

-- It throws where there is no descriptor.
unfoldable pub new_tcp_socket : Option ℕ → Option TcpSocket
new_tcp_socket none = none
new_tcp_socket (some fd) = some (record { sock = some fd })

unfoldable pub tcp_destroy : TcpSocket → List Call
tcp_destroy s = shutdown_sock s.sock ∷ close_sock s.sock ∷ []

unfoldable pub tcp_set_non_block : ℕ → Bool → Option Flags → Option Flags
unfolding bit_and bit_or bit_not bit
tcp_set_non_block n block none = none
tcp_set_non_block n block (some flags) =
    some (bit_and flags (if block then bit_and flags (bit_not (bit n)) else bit_or flags (bit n)))

unfoldable pub tcp_connect : Bool → TcpSocket → Bool
tcp_connect succeeded s = succeeded

unfoldable pub tcp_bind : Bool → TcpSocket → Bool
tcp_bind succeeded s = succeeded

unfoldable pub tcp_listen : Bool → TcpSocket → Bool
tcp_listen succeeded s = succeeded

unfoldable pub accept_sock : Option ℕ → TcpSocket → Option TcpSocket
accept_sock none s = none
accept_sock (some fd) s = some (record { sock = some fd })
