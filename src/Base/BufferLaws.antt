-- ===== src/Base/BufferLaws.antt =====
-- What the reads and writes of Base/Buffer do to a buffer that is known piece by piece.
use socks.Base.{
  nil_of_length, append-nil, ◌∙◌, ℕ, zero, suc, ◌+◌, ◌≤◌, ◌<◌, ◌≡◌, refl, ap, ◌∙◌, List, [], ◌∷◌,
  ◌++◌, arith, le→leb, length, take, drop, take-append, length-append, length-drop, append_assoc,
}
use socks.Base.Buffer.{
  Outcome, refused, bad_variant, out_of_bounds, ◌>>=◌, ok, load_range, store_range, resize,
}

pub bind-ok {ℓ κ} :
    {A : Type ℓ} {B : Type κ} {o : Outcome A} {a : A} (f : A → Outcome B)
    → o ≡ ok a
    → (o >>= f) ≡ f a
bind-ok f e = ap (λ o. o >>= f) e

pub bind_assoc {ℓ κ μ} :
    {A : Type ℓ} {B : Type κ} {C : Type μ} (o : Outcome A) (f : A → Outcome B) (g : B → Outcome C)
    → (o >>= f >>= g) ≡ (o >>= λ a. f a >>= g)
bind_assoc (ok a) f g = refl
bind_assoc refused f g = refl
bind_assoc bad_variant f g = refl
bind_assoc out_of_bounds f g = refl

pub length-resize : (n : ℕ) (buf : List ℕ) → length (resize n buf) ≡ n
unfolding resize
length-resize zero buf = refl
length-resize (suc n) [] = ap suc (length-resize n [])
length-resize (suc n) (b ∷ buf) = ap suc (length-resize n buf)

-- Making the buffer longer keeps its front.
pub resize-append :
    (p q : List ℕ) (n k : ℕ) → n ≡ length p + k → resize n (p ++ q) ≡ p ++ resize k q
unfolding resize
resize-append [] q n k h = ap (λ (j : ℕ). resize j q) {x = n} {y = k} (omega arith)
resize-append (b ∷ p) q zero k h = absurd (omega arith)
resize-append (b ∷ p) q (suc n) k h = ap (◌∷◌ b) (resize-append p q n k (omega arith))

drop_past : (p q : List ℕ) (n k : ℕ) → n ≡ length p + k → drop n (p ++ q) ≡ drop k q
drop_past [] q n k h = ap (λ (j : ℕ). drop j q) {x = n} {y = k} (omega arith)
drop_past (b ∷ p) q zero k h = absurd (omega arith)
drop_past (b ∷ p) q (suc n) k h = drop_past p q n k (omega arith)

take_front : (p q : List ℕ) (n : ℕ) → n ≡ length p → take n (p ++ q) ≡ p
take_front p q n h = ap (λ (j : ℕ). take j (p ++ q)) h ∙ take-append p q

-- A write behind a written front extends the front, and leaves the bytes after it.
pub store_range-append :
    (p src q : List ℕ) (i : ℕ)
    → i ≡ length p
    → length src ≤ length q
    → store_range i src (p ++ q) ≡ ok ((p ++ src) ++ drop (length src) q)
unfolding store_range
store_range-append p src q i h fits = rw (
  le→leb (i + length src) (length (p ++ q)) (omega (arith, length-append p q)),
  take_front p q i h,
  drop_past p q (i + length src) (length src) (omega arith),
  append_assoc p src (drop (length src) q),
)

-- A write that fills the rest of the buffer.
pub store_range_last :
    (p src q : List ℕ) (i : ℕ)
    → i ≡ length p
    → length src ≡ length q
    → store_range i src (p ++ q) ≡ ok (p ++ src)
store_range_last p src q i h fits =
    store_range-append p src q i h (omega arith)
    ∙ rw (
      nil_of_length (drop (length src) q) (omega (arith, length-drop (length src) q)),
      append-nil,
    )

-- A read behind a known front.
pub load_range-append :
    (p a q : List ℕ) (i n : ℕ) → i ≡ length p → n ≡ length a → load_range (p ++ (a ++ q)) i n ≡ ok a
unfolding load_range
load_range-append p a q i n h k = rw (
  le→leb (i + n) (length (p ++ (a ++ q)))
      (omega (arith, length-append p (a ++ q), length-append a q)),
  drop_past p (a ++ q) i 0 (omega arith),
  take_front a q n k,
)

-- A list longer than `n` is `n` elements, one more, and the rest.
pub split_at :
    (n : ℕ) (t : List ℕ)
    → n < length t
    → (u : List ℕ) × (x : ℕ) × (r : List ℕ) × (t ≡ u ++ x ∷ r) × (length u ≡ n)
split_at n [] h = absurd (omega arith)
split_at zero (x ∷ t) h = ([], x, t, refl, refl)
split_at (suc n) (x ∷ t) h =
    let (u, y, r, e, l) = split_at n t (omega arith) in (x ∷ u, y, r, ap (◌∷◌ x) e, ap suc l)
