-- ===== src/Decoder/Greeting.antt =====
-- `decode` of a greeting (SocksDecoder.cpp), for every buffer.
use socks.Base.{
  ℕ, zero, suc, ◌+◌, ◌-◌, ◌≡◌, refl, ◌∙◌, inl, inr, List, [], ◌∷◌, ◌++◌, ◌&&◌, arith, ◌==◌,
  if◌then◌else◌, Bool-cases, length, get_elem?, append_assoc, append-nil, get_elem?-append,
  length-append,
}
use socks.Base.Buffer.{ok, refused}
use socks.Types.{GreetingMsg, is_version_support, is_auth_method_exist}
use socks.Wire.{exist_all}
use socks.Decoder.{read_methods, decode_greeting}

-- The loop, started behind `xs`, checks and appends what follows.
read_methods_lem :
    (ys xs acc : List ℕ) (k i : ℕ)
    → k ≡ length ys
    → i ≡ length xs
    → read_methods k i (xs ++ ys) acc ≡ (if exist_all ys then ok (acc ++ ys) else refused)
unfolding read_methods
read_methods_lem [] xs acc zero i hk hi = rw append-nil
read_methods_lem [] xs acc (suc k) i hk hi = absurd (omega arith)
read_methods_lem (y ∷ ys) xs acc zero i hk hi = absurd (omega arith)
read_methods_lem (y ∷ ys) xs acc (suc k) i hk hi =
    let found : get_elem? (xs ++ y ∷ ys) i ≡ get_elem? (y ∷ ys) 0 =
      get_elem?-append xs (y ∷ ys) 0 i (omega arith) in
    let rest : read_methods k (i + 1) ((xs ++ y ∷ []) ++ ys) (acc ++ y ∷ [])
        ≡ (if exist_all ys then ok ((acc ++ y ∷ []) ++ ys) else refused) =
      read_methods_lem ys (xs ++ y ∷ []) (acc ++ y ∷ []) k (i + 1) (omega arith)
        (omega (arith, length-append xs (y ∷ []))) in
    elim (Bool-cases (is_auth_method_exist y)) [
      | inl good ↦
          rw (found, good)
            (rw (← append_assoc xs (y ∷ []) ys) (rest ∙ rw (append_assoc acc (y ∷ []) ys)))
      | inr bad ↦ rw (found, bad)
    ]

-- A greeting of two bytes and more, whatever they are.
pub decode_greeting_lem :
    (v n : ℕ) (rest : List ℕ) (m : GreetingMsg)
    → decode_greeting (v ∷ n ∷ rest) m ≡ (
        if is_version_support v && ((length rest == n) && exist_all rest)
        then ok (record { version = v; auth_methods = m.auth_methods ++ rest })
        else refused)
unfolding decode_greeting
decode_greeting_lem v n rest m = ground (
  arith,
  read_methods_lem rest (v ∷ n ∷ []) m.auth_methods (length (v ∷ n ∷ rest) - 2) 2 (omega arith)
      refl,
)
