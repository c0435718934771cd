-- ===== src/SocketAddress/Sizes.antt =====
-- The addresses that EventSocketCommon.cpp makes of those of the system.
use socks.Base.{
  ℕ, ◌≡◌, refl, ◌∙◌, sym, List, [], ◌∷◌, some, some-injective, arith, length, length-append,
}
use socks.Types.{Address}
use socks.Encoder.Command.{HasSize}
use socks.Wire.{kind}
use socks.SocketAddress.{Sockaddr, inet, inet6, other_family, ntohl, get_address}

-- The size of the address in the structure of its family.
abbrev pub IsSockaddr : Sockaddr → Type 0
IsSockaddr (inet a port) = length a ≡ 4
IsSockaddr (inet6 a port) = length a ≡ 16
IsSockaddr other_family = Unit

length-ntohl : (a : List ℕ) → length (ntohl a) ≡ length a
unfolding ntohl
length-ntohl [] = refl
length-ntohl (x ∷ a) = omega (arith, length-append (ntohl a) (x ∷ []), length-ntohl a)

pub get_address-HasSize :
    (sockaddr : Sockaddr) (a : Address)
    → IsSockaddr sockaddr
    → get_address sockaddr ≡ some a
    → (a.kind ≡ kind a.addr) × HasSize a.addr
unfolding get_address
get_address-HasSize (inet b port) a size h =
    rw (sym (some-injective _ _ h)) (refl, length-ntohl b ∙ size)
get_address-HasSize (inet6 b port) a size h = rw (sym (some-injective _ _ h)) (refl, size)
get_address-HasSize other_family a size h = cc (h)
