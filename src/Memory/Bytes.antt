-- ===== src/Memory/Bytes.antt =====
-- Numbers as little-endian bytes.
use Prim.Native.Nat.{ℕ, zero, suc, ◌*◌, ◌/◌, ◌^◌, ◌<◌}
use native.Mathlib.Nat.{pow-succ'}
use socks.Base.{◌≡◌, refl, ap, length, arith}
use socks.Memory.{bytes_of, number_of}

pub length-bytes_of : (k n : ℕ) → length (bytes_of k n) ≡ k
length-bytes_of zero n = refl
length-bytes_of (suc k) n = ap suc (length-bytes_of k (n / 256))

pub number_of-bytes_of : (k n : ℕ) → n < 256 ^ k → number_of (bytes_of k n) ≡ n
number_of-bytes_of zero n h = omega arith
number_of-bytes_of (suc k) n h =
    let e : 256 ^ suc k ≡ 256 * 256 ^ k = pow-succ' 256 k in
    omega (arith, number_of-bytes_of k (n / 256) (omega (arith, h, e)))
