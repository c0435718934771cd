-- ===== src/SocketAddress.antt =====
-- Event/EventSocketCommon.cpp: addresses of the protocol to and from those of the sockets, on a
-- little-endian host, as everywhere in this library.
pub mod Reply
pub mod Sizes
use Prim.Native.String.{String}
use socks.Base.{
  Bool, true, false, ℕ, ◌+◌, ◌*◌, ◌/◌, ◌%◌, List, [], ◌∷◌, ◌++◌, if◌then◌else◌, ◌==◌, Option, none,
  some,
}
use socks.Base.Buffer.{Outcome, ok, refused, bad_variant}
use socks.Types.{VariantAddress, ipv4, domain, ipv6, Address, ipv4_addr, ipv6_addr}

-- `sockaddr_in` and `sockaddr_in6` by `sa_family`, and any other family. The address is the bytes in
-- memory, the port the number that the memory holds: both network order.
pub data Sockaddr : Type 0 where
  inet : List ℕ → ℕ → Sockaddr
  inet6 : List ℕ → ℕ → Sockaddr
  other_family : Sockaddr

-- `ntohs`, and `ntohl` on the bytes in memory: a little-endian host turns them round.
unfoldable pub ntohs : ℕ → ℕ
ntohs n = n % 256 * 256 + n / 256 % 256

unfoldable pub ntohl : List ℕ → List ℕ
ntohl [] = []
ntohl (x ∷ xs) = ntohl xs ++ x ∷ []

-- Another family fails the assertion (without assertions, the address would be one with no type set).
unfoldable pub get_address : Sockaddr → Option Address
unfolding ntohs ntohl
get_address (inet a port) =
    some (record { kind = ipv4_addr; addr = ipv4 (ntohl a); port = ntohs port })
get_address (inet6 a port) = some (record { kind = ipv6_addr; addr = ipv6 a; port = ntohs port })
get_address other_family = none

-- `std::get` of the address by the type.
as_inet : VariantAddress → ℕ → Outcome Sockaddr
as_inet (ipv4 a) port = ok (inet a port)
as_inet (domain d) port = bad_variant
as_inet (ipv6 a) port = bad_variant

as_inet6 : VariantAddress → ℕ → Outcome Sockaddr
as_inet6 (ipv4 a) port = bad_variant
as_inet6 (domain d) port = bad_variant
as_inet6 (ipv6 a) port = ok (inet6 a port)

-- `refused` is `false`.
unfoldable pub convert_addr_to_storage : Address → Outcome Sockaddr
unfolding as_inet as_inet6
convert_addr_to_storage a =
    if a.kind == ipv4_addr
    then as_inet a.addr a.port
    else if a.kind == ipv6_addr
    then as_inet6 a.addr a.port
    else refused

-- The port, in the host's order. Any other family is read as `sockaddr_in`, of bytes not known here.
unfoldable pub get_addr_port : Sockaddr → Option ℕ
unfolding ntohs
get_addr_port (inet a port) = some (ntohs port)
get_addr_port (inet6 a port) = some (ntohs port)
get_addr_port other_family = none

-- `evutil_inet_ntop` of either family writes the text.
unfoldable pub get_addr_str :
    (List ℕ → Option String) → (List ℕ → Option String) → Sockaddr → Option String
get_addr_str inet_text inet6_text (inet a port) = inet_text a
get_addr_str inet_text inet6_text (inet6 a port) = inet6_text a
get_addr_str inet_text inet6_text other_family = none

-- `getpeername` and `getsockname` of a descriptor. Where one fails, the structure stays zero, which
-- is no family.
told : (ℕ → Option Sockaddr) → ℕ → Sockaddr
told names fd = elim (names fd) [ none ↦ other_family | some sa ↦ sa ]

unfoldable pub get_remote_socket_address : (ℕ → Option Sockaddr) → ℕ → Option Address
unfolding told get_address
get_remote_socket_address get_peer_name fd = get_address (told get_peer_name fd)

unfoldable pub get_local_socket_address : (ℕ → Option Sockaddr) → ℕ → Option Address
unfolding told get_address
get_local_socket_address get_sock_name fd = get_address (told get_sock_name fd)

-- A pointer of libevent with what its `unique_ptr` calls at the end: the function that frees it, or
-- null beside a null pointer.
pub record Owned : Type 0 where
  pub pointer : Option ℕ
  pub frees : Bool

-- `made` is what `bufferevent_socket_new` and `evconnlistener_new_bind` return.
unfoldable pub make_buffer_event : Option ℕ → Owned
make_buffer_event none = record { pointer = none; frees = false }
make_buffer_event (some bev) = record { pointer = some bev; frees = true }

unfoldable pub make_listener : Option ℕ → Owned
make_listener none = record { pointer = none; frees = false }
make_listener (some listener) = record { pointer = some listener; frees = true }
