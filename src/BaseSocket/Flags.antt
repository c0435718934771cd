-- ===== src/BaseSocket/Flags.antt =====
-- What setNonBlock of libratel/TcpServer.cpp and libratel/TcpSocket.cpp does to a descriptor's flags.
use socks.Base.{ℕ, ◌==◌, Bool, true, false, not, ◌&&◌, ◌||◌, some, ◌≡◌, refl, ap, fun_ext}
use socks.BaseSocket.{Flags, set_non_block, tcp_set_non_block}

and_self : (a b : Bool) → (a && (a && not b)) ≡ (a && not b)
and_self true b = refl
and_self false b = refl

and_or : (a b : Bool) → (a && (a || b)) ≡ a
and_or true b = refl
and_or false b = refl

-- Whatever flags a descriptor has, `setNonBlock` of either class sets no bit of them: asked for a
-- nonblocking socket it clears O_NONBLOCK and leaves the other bits, and asked for a blocking one it
-- leaves every bit, O_NONBLOCK too.
pub set_non_block_lem :
    (n : ℕ) (flags : Flags)
    → (set_non_block n true (some flags) ≡ some (λ i. flags i && not (n == i)))
      × (set_non_block n false (some flags) ≡ some flags)
      × (tcp_set_non_block n true (some flags) ≡ some (λ i. flags i && not (n == i)))
      × (tcp_set_non_block n false (some flags) ≡ some flags)
unfolding set_non_block tcp_set_non_block
set_non_block_lem n flags =
    let cleared = ap some (fun_ext (λ i. and_self (flags i) (n == i))) in
    let kept = ap some (fun_ext (λ i. and_or (flags i) (n == i))) in (cleared, kept, cleared, kept)
