-- ===== src/Encoder/Greeting.antt =====
-- `encode` of a greeting and of the two short answers (SocksEncoder.cpp), whatever the buffer held.
use socks.Base.{
  ℕ, ◌+◌, ◌%◌, ◌≤◌, ◌≡◌, refl, ap, ◌∙◌, List, [], ◌∷◌, ◌++◌, not, ◌&&◌, arith, ◌==◌, if◌then◌else◌,
  length, drop, append_assoc, length-append, length-drop,
}
use socks.Base.Buffer.{Outcome, ok, refused, resize, store, ◌>>=◌}
use socks.Base.BufferLaws.{length-resize, store_range-append, store_range_last}
use socks.Types.{GreetingMsg, GreetingMsgResp, UserPassAuthMsgResp, is_version_support, version5}
use socks.Encoder.{
  encodable_method, encodable_methods, write_methods, is_empty, encode_greeting,
  encode_greeting_resp, encode_user_pass_resp,
}

-- The loop fills what is left behind the written front `p` with the methods.
write_methods-append :
    (ms p q : List ℕ) (i : ℕ)
    → i + 2 ≡ length p
    → length ms ≡ length q
    → write_methods i ms (p ++ q) ≡ ok (p ++ ms)
unfolding write_methods
write_methods-append [] p [] i hi hl = refl
write_methods-append [] p (y ∷ q) i hi hl = absurd (omega arith)
write_methods-append (m ∷ ms) p q i hi hl =
    rw (store_range-append p (m ∷ []) q (i + 2) hi (omega arith)) (
      write_methods-append ms (p ++ m ∷ []) (drop 1 q) (i + 1)
        (omega (arith, length-append p (m ∷ []))) (omega (arith, length-drop 1 q))
      ∙ ap ok (append_assoc p (m ∷ []) ms))

module _ (v n : ℕ) (q : List ℕ) where
  -- The version and the count, behind which `q` had at least two bytes.
  store_head :
      {A : Type 0} (f : List ℕ → Outcome A)
      → 2 ≤ length q
      → ((do buf ← store 0 v q; buf ← store 1 n buf; f buf) ≡ f (v ∷ n ∷ drop 1 (drop 1 q)))
  store_head f h = rw (
    store_range-append [] (v ∷ []) q 0 refl (omega arith),
    store_range-append (v ∷ []) (n ∷ []) (drop 1 q) 1 refl (omega (arith, length-drop 1 q)),
  )

-- The greeting is refused, or is the version, the number of methods as one byte, and the methods.
pub encode_greeting_lem :
    (m : GreetingMsg) (buf : List ℕ)
    → encode_greeting m buf ≡ (
        if (m.version == version5)
          && (not (is_empty m.auth_methods) && encodable_methods m.auth_methods)
        then ok (m.version ∷ length m.auth_methods % 256 ∷ m.auth_methods)
        else refused)
unfolding encode_greeting is_version_support
encode_greeting_lem m buf =
    let q : List ℕ = resize (2 + length m.auth_methods) buf in
    let size : length q ≡ 2 + length m.auth_methods =
      length-resize (2 + length m.auth_methods) buf in
    rw
      (
        store_head m.version (length m.auth_methods % 256) q (write_methods 0 m.auth_methods)
            (omega arith),
        write_methods-append m.auth_methods (m.version ∷ length m.auth_methods % 256 ∷ [])
            (drop 1 (drop 1 q)) 0 refl (omega (arith, length-drop 1 (drop 1 q), length-drop 1 q)),
      )
      (ground arith)

-- Two written bytes, whatever the buffer held.
two_bytes :
    (a b : ℕ) (buf : List ℕ) → (do buf ← store 0 a (resize 2 buf); store 1 b buf) ≡ ok (a ∷ b ∷ [])
two_bytes a b buf =
    let size : length (resize 2 buf) ≡ 2 = length-resize 2 buf in
    rw (
      store_range-append [] (a ∷ []) (resize 2 buf) 0 refl (omega arith),
      store_range_last (a ∷ []) (b ∷ []) (drop 1 (resize 2 buf)) 1 refl
          (omega (arith, length-drop 1 (resize 2 buf))),
    )

pub encode_greeting_resp_lem :
    (m : GreetingMsgResp) (buf : List ℕ)
    → encode_greeting_resp m buf ≡ (
        if (m.version == version5) && encodable_method m.auth_method
        then ok (m.version ∷ m.auth_method ∷ [])
        else refused)
unfolding encode_greeting_resp is_version_support
encode_greeting_resp_lem m buf = rw (two_bytes m.version m.auth_method buf) (ground arith)

pub encode_user_pass_resp_lem :
    (m : UserPassAuthMsgResp) (buf : List ℕ)
    → encode_user_pass_resp m buf
      ≡ (if m.version == version5 then ok (m.version ∷ m.status ∷ []) else refused)
unfolding encode_user_pass_resp is_version_support
encode_user_pass_resp_lem m buf = rw (two_bytes m.version m.status buf) (ground arith)
