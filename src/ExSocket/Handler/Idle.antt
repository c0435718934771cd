-- ===== src/ExSocket/Handler/Idle.antt =====
-- The loop of ExSocketHandler over a `select` that looks at no descriptor.
use socks.Base.{
  ℕ, ◌==◌, List, [], ◌∷◌, Bool, true, false, some, some-injective, if◌then◌else◌, ◌≡◌, refl, sym,
  ◌∙◌, ap, All, append-nil, Option-cases, ==_iff, inl, inr,
}
use socks.Maps.{put, find}
use socks.TcpServer.{Set, Selected, timed_out, error, ready}
use socks.TcpServer.Serving.{IsSelect, none_below}
use socks.ExSocket.{Ready, handle_socket}
use socks.ExSocket.Handler.{
  Handler, HandlerRound, handler_selected, perform, handle_one, handle_all, run_handler, flip_read,
}

put_found {ℓ} :
    {A : Type ℓ} (key k : ℕ) (value v : A) (entries : List (ℕ × A)) (b : Bool)
    → (k == key) ≡ b
    → (if b then some v else find key entries) ≡ some value
    → (find key entries ≡ some value → put key value entries ≡ entries)
    → (if b then (key, value) ∷ entries else (k, v) ∷ put key value entries) ≡ (k, v) ∷ entries
put_found key k value v entries true e f same =
    ap (λ n. (n, value) ∷ entries) (sym ((==_iff k key).0 e))
    ∙ ap (λ a. (k, a) ∷ entries) (sym (some-injective v value f))
put_found key k value v entries false e f same = ap (◌∷◌ (k, v)) (same f)

put_same {ℓ} :
    {A : Type ℓ} (key : ℕ) (value : A) (entries : List (ℕ × A))
    → find key entries ≡ some value
    → put key value entries ≡ entries
unfolding find put
put_same key value [] e = absurd (cc (e))
put_same key value ((k, v) ∷ entries) e =
    put_found key k value v entries (k == key) refl e (put_same key value entries)

abbrev Silent : Set → Type 0
Silent set = (fd : ℕ) → set fd ≡ false

module _ (system : ℕ → Ready) (reads writes errs : Set) (r : Silent reads) (w : Silent writes)
    (x : Silent errs) where
  handle_one_silent :
      (sock : ℕ) (handler : Handler) → handle_one system reads writes errs sock handler ≡ handler
  unfolding handle_one handle_socket perform
  handle_one_silent sock handler = elim (Option-cases (find sock handler.sockets)) [
    | inl e ↦ rw (e, handle_one) refl
    | inr (s, e) ↦
        (let a : reads sock ≡ false = r sock in
          let b : writes sock ≡ false = w sock in
          let c : errs sock ≡ false = x sock in
          rw (e, handle_one, a, b, c, put_same sock s handler.sockets e)
            (ap (λ calls. record handler { calls = calls }) (append-nil handler.calls)))
  ]

  handle_all_silent :
      (socks : List ℕ) (handler : Handler)
      → handle_all system reads writes errs socks handler ≡ handler
  unfolding handle_all
  handle_all_silent [] handler = refl
  handle_all_silent (sock ∷ socks) handler =
      ap (handle_all system reads writes errs socks) (handle_one_silent sock handler)
      ∙ handle_all_silent socks handler

-- What the loop leaves as it was: the sockets, what they called, and the set of them.
abbrev pub Untouched : Handler → Handler → Type 0
Untouched h h' =
    (h'.sockets ≡ h.sockets) × (h'.calls ≡ h.calls) × (h'.buffer.write_set ≡ h.buffer.write_set)

-- Here too `select` is asked about the descriptors below 0: where it keeps to POSIX, no socket of the
-- handler is ever read, written or told of an error, however long its loop runs.
pub run_handler-Untouched :
    (rounds : List HandlerRound) (h : Handler)
    → All (λ round. IsSelect round.select) rounds
    → Untouched h (run_handler rounds h)
unfolding run_handler flip_read
run_handler-Untouched [] h p = (refl, refl, refl)
run_handler-Untouched (round ∷ rounds) h (p, ps) =
    go (handler_selected round h.buffer.write_set) refl (λ h'. run_handler-Untouched rounds h' ps)
  where
    flipped : Handler
    flipped = record h { buffer = record h.buffer { read_set = h.buffer.write_set } }

    go :
        (s : Selected)
        → handler_selected round h.buffer.write_set ≡ s
        → ((h' : Handler) → Untouched h' (run_handler rounds h'))
        → Untouched h (run_handler (round ∷ rounds) h)
    go timed_out e rest = rw (e, run_handler) (rest flipped)
    go error e rest = rw (e, run_handler) (refl, refl, refl)
    go (ready reads writes errs) e rest =
        let asked = p 0 _ _ _ reads writes errs e in
        let quiet =
          handle_all_silent round.system reads writes errs
            (λ fd. none_below fd (reads fd) (asked fd).0)
            (λ fd. none_below fd (writes fd) (asked fd).1)
            (λ fd. none_below fd (errs fd) (asked fd).2) h.buffer.write_set flipped in
        rw (e, run_handler, quiet) (rest flipped)
