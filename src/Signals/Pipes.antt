-- ===== src/Signals/Pipes.antt =====
-- The lists of pipes of SignalConnectionStorage.h, seen as maps from the hash of a slot to its object.
use socks.Base.{
  ℕ, ◌==◌, List, [], ◌∷◌, Bool, true, false, Option, none, some, if◌then◌else◌, ◌≡◌, ◌≢◌, refl, sym,
  ◌∙◌, ap, Bool-cases, ==_iff, arith, inl, inr,
}
use socks.Queue.{push_back}
use socks.Signals.{Callback, SignalPipe, reconnect, erase_pipe, remove_object}

-- The object of the first pipe with the hash.
unfoldable pub receiver_of : ℕ → List SignalPipe → Option ℕ
receiver_of h [] = none
receiver_of h (pipe ∷ conn) =
    let rest = receiver_of h conn in if pipe.callback.hash == h then some pipe.object else rest

-- No two pipes have one hash.
abbrev pub IsDistinct : List SignalPipe → Type 0
IsDistinct [] = Unit
IsDistinct (pipe ∷ conn) = (receiver_of pipe.callback.hash conn ≡ none) × IsDistinct conn

-- What a search for the callback's hash makes of the pipes: nothing where there is none, and else
-- pipes with the same objects.
abbrev pub Reconnected : Callback → List SignalPipe → Option (List SignalPipe) → Type 0
Reconnected cb conn none = receiver_of cb.hash conn ≡ none
Reconnected cb conn (some conn') =
    ((o : ℕ) × (receiver_of cb.hash conn ≡ some o))
    × ((h : ℕ) → receiver_of h conn' ≡ receiver_of h conn)
    × (IsDistinct conn → IsDistinct conn')

reconnect_cons :
    (cb : Callback) (pipe : SignalPipe) (conn : List SignalPipe) (found : Bool)
    (rest : Option (List SignalPipe))
    → (pipe.callback.hash == cb.hash) ≡ found
    → Reconnected cb conn rest
    → Reconnected cb (pipe ∷ conn) (
        if found
        then some (record pipe { callback = cb } ∷ conn)
        else (elim rest [ none ↦ none | some conn ↦ some (pipe ∷ conn) ]))
unfolding receiver_of
reconnect_cons cb pipe conn true rest e h =
    let p : pipe.callback.hash ≡ cb.hash = (==_iff pipe.callback.hash cb.hash).0 e in
    (
      (pipe.object, rw e refl),
      (λ k. ap (λ n. if n == k then some pipe.object else receiver_of k conn) (sym p)),
      λ d. (ap (λ n. receiver_of n conn) (sym p) ∙ d.0, d.1),
    )
reconnect_cons cb pipe conn false none e h = rw e h
reconnect_cons cb pipe conn false (some conn') e ((o, there), same, kept) = (
  (o, rw e there),
  (λ k. ap (λ t. if pipe.callback.hash == k then some pipe.object else t) (same k)),
  λ d. (same pipe.callback.hash ∙ d.0, kept d.1),
)

pub reconnect-Reconnected :
    (cb : Callback) (conn : List SignalPipe) → Reconnected cb conn (reconnect cb conn)
unfolding reconnect receiver_of
reconnect-Reconnected cb [] = refl
reconnect-Reconnected cb (pipe ∷ conn) =
    reconnect_cons cb pipe conn (pipe.callback.hash == cb.hash) (reconnect cb conn) refl
      (reconnect-Reconnected cb conn)

-- What taking out the first pipe with the hash leaves.
abbrev pub Erased : ℕ → List SignalPipe → Option (List SignalPipe) → Type 0
Erased h conn none = receiver_of h conn ≡ none
Erased h conn (some conn') =
    ((o : ℕ) × (receiver_of h conn ≡ some o))
    × ((k : ℕ) → h ≢ k → receiver_of k conn' ≡ receiver_of k conn)
    × (IsDistinct conn → (receiver_of h conn' ≡ none) × IsDistinct conn')

erase_pipe_cons :
    (h : ℕ) (pipe : SignalPipe) (conn : List SignalPipe) (found : Bool)
    (rest : Option (List SignalPipe))
    → (pipe.callback.hash == h) ≡ found
    → Erased h conn rest
    → Erased h
        (pipe ∷ conn)
        (if found then some conn else (elim rest [ none ↦ none | some conn ↦ some (pipe ∷ conn) ]))
unfolding receiver_of
erase_pipe_cons h pipe conn true rest e t =
    let p : pipe.callback.hash ≡ h = (==_iff pipe.callback.hash h).0 e in
    (
      (pipe.object, rw e refl),
      (λ k ne. let f : (pipe.callback.hash == k) ≡ false = ground (arith, p, ne) in rw f refl),
      λ d. (ap (λ n. receiver_of n conn) (sym p) ∙ d.0, d.1),
    )
erase_pipe_cons h pipe conn false none e t = rw e t
erase_pipe_cons h pipe conn false (some conn') e ((o, there), same, kept) =
    let ne : h ≢ pipe.callback.hash = ground (arith, e) in
    (
      (o, rw e there),
      (λ k ne. ap (λ t. if pipe.callback.hash == k then some pipe.object else t) (same k ne)),
      λ d. (rw e (kept d.1).0, (same pipe.callback.hash ne ∙ d.0, (kept d.1).1)),
    )

pub erase_pipe-Erased : (h : ℕ) (conn : List SignalPipe) → Erased h conn (erase_pipe h conn)
unfolding erase_pipe receiver_of
erase_pipe-Erased h [] = refl
erase_pipe-Erased h (pipe ∷ conn) =
    erase_pipe_cons h pipe conn (pipe.callback.hash == h) (erase_pipe h conn) refl
      (erase_pipe-Erased h conn)

-- What is left of an object's link when the object is removed.
abbrev pub unless : ℕ → Option ℕ → Option ℕ
unless ptr none = none
unless ptr (some o) = if o == ptr then none else some o

pub remove_object_lem :
    (ptr : ℕ) (conn : List SignalPipe)
    → IsDistinct conn
    → ((h : ℕ) → receiver_of h (remove_object ptr conn) ≡ unless ptr (receiver_of h conn))
      × IsDistinct (remove_object ptr conn)
unfolding remove_object receiver_of
remove_object_lem ptr [] d = (λ h. refl, tt)
remove_object_lem ptr (pipe ∷ conn) (fresh, d) =
    let (same, kept) = remove_object_lem ptr conn d in
    elim (Bool-cases (pipe.object == ptr)) [
      | inl e ↦ rw e (
        λ h. elim (Bool-cases (pipe.callback.hash == h)) [
          | inl f ↦
              (let p : pipe.callback.hash ≡ h = (==_iff pipe.callback.hash h).0 f in
                rw (f, e) (same h ∙ ap (unless ptr) (ap (λ n. receiver_of n conn) (sym p) ∙ fresh)))
          | inr f ↦ rw f (same h)
        ],
        kept,
      )
      | inr e ↦ rw e (
        λ h. elim (Bool-cases (pipe.callback.hash == h)) [
          | inl f ↦ rw (f, e) refl
          | inr f ↦ rw f (same h)
        ],
        (same pipe.callback.hash ∙ ap (unless ptr) fresh, kept),
      )
    ]

-- The object of a new pipe, where there was none.
abbrev pub otherwise : Option ℕ → Option ℕ → Option ℕ
otherwise rest none = rest
otherwise rest (some o) = some o

pub receiver_of-push_back :
    (pipe : SignalPipe) (conn : List SignalPipe) (h : ℕ)
    → receiver_of h (push_back pipe conn)
      ≡ otherwise (if pipe.callback.hash == h then some pipe.object else none) (receiver_of h conn)
unfolding receiver_of push_back
receiver_of-push_back pipe [] h = refl
receiver_of-push_back pipe (first ∷ conn) h = elim (Bool-cases (first.callback.hash == h)) [
  | inl e ↦ rw e refl
  | inr e ↦ rw e (receiver_of-push_back pipe conn h)
]

missed :
    (b : Bool) (o : ℕ) (rest : Option ℕ)
    → (if b then some o else rest) ≡ none
    → (b ≡ false) × (rest ≡ none)
missed true o rest e = absurd (cc (e))
missed false o rest e = (refl, e)

pub push_back-IsDistinct :
    (pipe : SignalPipe) (conn : List SignalPipe)
    → receiver_of pipe.callback.hash conn ≡ none
    → IsDistinct conn
    → IsDistinct (push_back pipe conn)
unfolding receiver_of push_back
push_back-IsDistinct pipe [] e d = (refl, tt)
push_back-IsDistinct pipe (first ∷ conn) e (fresh, d) =
    let (other, new) =
      missed (first.callback.hash == pipe.callback.hash) first.object
        (receiver_of pipe.callback.hash conn) e in
    let f : (pipe.callback.hash == first.callback.hash) ≡ false = ground (arith, other) in
    (
      receiver_of-push_back pipe conn first.callback.hash ∙ rw (f, fresh) refl,
      push_back-IsDistinct pipe conn new d,
    )
