-- ===== src/Signals/Steps.antt =====
-- The operations of SignalConnectionStorage.h one by one.
use socks.Base.{
  ℕ, ◌==◌, List, [], ◌∷◌, Option, none, some, ◌≡◌, refl, sym, ◌∙◌, ap, Bool-cases, Option-cases,
  ==_iff, arith, inl, inr,
}
use socks.Maps.{find}
use socks.Queue.{push_back}
use socks.Signals.{
  Callback, SignalPipe, SignalMap, reconnect, erase_pipe, remove_object, connect, disconnect,
  disconnect_by_hash,
}
use socks.Signals.Pipes.{
  receiver_of, IsDistinct, Reconnected, reconnect-Reconnected, Erased, erase_pipe-Erased,
  remove_object_lem, otherwise, receiver_of-push_back, push_back-IsDistinct,
}
use socks.Signals.Meaning.{
  Operation, connected, disconnected, object_gone, step, pipes_of, AllDistinct, Meant, Step,
  put-Step, erase-Step, same-Step,
}

appended :
    (signal receiver : ℕ) (cb : Callback) (conn : List SignalPipe)
    → receiver_of cb.hash conn ≡ none
    → IsDistinct conn
    → Meant
        (connected signal receiver cb)
        conn
        (push_back (record { object = receiver; callback = cb }) conn)
appended signal receiver cb conn fresh d =
    let pipe : SignalPipe = record { object = receiver; callback = cb } in
    (receiver_of-push_back pipe conn, push_back-IsDistinct pipe conn fresh d)

reconnected :
    (signal receiver : ℕ) (cb : Callback) (conn conn' : List SignalPipe)
    → Reconnected cb conn (some conn')
    → IsDistinct conn
    → Meant (connected signal receiver cb) conn conn'
reconnected signal receiver cb conn conn' ((o, there), same, kept) d = (
  λ h. same h ∙ elim (Bool-cases (cb.hash == h)) [
    | inl e ↦
        (let t : receiver_of h conn ≡ some o =
            ap (λ n. receiver_of n conn) (sym ((==_iff cb.hash h).0 e)) ∙ there in
          rw t refl)
    | inr e ↦ rw e (no_other (receiver_of h conn))
  ],
  kept d,
)
  where
    no_other : (o : Option ℕ) → o ≡ otherwise none o
    no_other none = refl
    no_other (some o) = refl

find-IsDistinct :
    (signal : ℕ) (sig_map : SignalMap) (conn : List SignalPipe)
    → AllDistinct sig_map
    → find signal sig_map ≡ some conn
    → IsDistinct conn
unfolding AllDistinct
find-IsDistinct signal sig_map conn d e = go (find signal sig_map) e (d signal)
  where
    go : (o : Option (List SignalPipe)) → o ≡ some conn → IsDistinct (pipes_of o) → IsDistinct conn
    go none f d = absurd (cc (f))
    go (some c) f d = rw (sym (ap pipes_of f)) d

connect-Step :
    (signal receiver : ℕ) (cb : Callback) (sig_map : SignalMap)
    → AllDistinct sig_map
    → Step (connected signal receiver cb) sig_map (connect signal receiver cb sig_map).0
unfolding connect receiver_of
connect-Step signal receiver cb sig_map d = elim (Option-cases (find signal sig_map)) [
  | inl e ↦
      rw (e, connect)
        (put-Step op (pipe ∷ []) sig_map d (rw e (appended signal receiver cb [] refl tt)))
  | inr (conn, e) ↦
      go conn e (find-IsDistinct signal sig_map conn d e) (reconnect cb conn) refl
        (reconnect-Reconnected cb conn)
]
  where
    op : Operation
    op = connected signal receiver cb

    pipe : SignalPipe
    pipe = record { object = receiver; callback = cb }

    go :
        (conn : List SignalPipe)
        → find signal sig_map ≡ some conn
        → IsDistinct conn
        → (r : Option (List SignalPipe)) → reconnect cb conn ≡ r
        → Reconnected cb conn r
        → Step op sig_map (connect signal receiver cb sig_map).0
    go conn e dc none f fresh =
        rw (e, f, connect)
          (put-Step op (push_back pipe conn) sig_map d
            (rw e (appended signal receiver cb conn fresh dc)))
    go conn e dc (some conn') f h =
        rw (e, f, connect)
          (put-Step op conn' sig_map d (rw e (reconnected signal receiver cb conn conn' h dc)))

erased :
    (signal h : ℕ) (conn conn' : List SignalPipe)
    → Erased h conn (some conn')
    → IsDistinct conn
    → Meant (disconnected signal h) conn conn'
erased signal h conn conn' (there, same, kept) d = (
  λ k. elim (Bool-cases (h == k)) [
    | inl e ↦ rw (e, sym ((==_iff h k).0 e)) (kept d).0
    | inr e ↦ rw e (same k (ground (arith, e)))
  ],
  (kept d).1,
)

-- Where no pipe has the hash, there is nothing to disconnect.
unmoved :
    (signal h : ℕ) (conn : List SignalPipe)
    → receiver_of h conn ≡ none
    → IsDistinct conn
    → Meant (disconnected signal h) conn conn
unmoved signal h conn absent d = (
  λ k. elim (Bool-cases (h == k)) [
    | inl e ↦ rw (e, sym ((==_iff h k).0 e)) absent
    | inr e ↦ rw e refl
  ],
  d,
)

disconnect-Step :
    (signal h : ℕ) (sig_map : SignalMap)
    → AllDistinct sig_map
    → Step (disconnected signal h) sig_map (disconnect signal h sig_map).0
unfolding disconnect receiver_of
disconnect-Step signal h sig_map d = elim (Option-cases (find signal sig_map)) [
  | inl e ↦ rw (e, disconnect) (same-Step op sig_map d (rw e (unmoved signal h [] refl tt)))
  | inr (conn, e) ↦
      go conn e (find-IsDistinct signal sig_map conn d e) (erase_pipe h conn) refl
        (erase_pipe-Erased h conn)
]
  where
    op : Operation
    op = disconnected signal h

    go :
        (conn : List SignalPipe)
        → find signal sig_map ≡ some conn
        → IsDistinct conn
        → (r : Option (List SignalPipe)) → erase_pipe h conn ≡ r
        → Erased h conn r
        → Step op sig_map (disconnect signal h sig_map).0
    go conn e dc none f absent =
        rw (e, f, disconnect) (same-Step op sig_map d (rw e (unmoved signal h conn absent dc)))
    go conn e dc (some []) f t =
        rw (e, f, disconnect) (erase-Step op sig_map d (rw e (erased signal h conn [] t dc)))
    go conn e dc (some (pipe ∷ conn')) f t =
        rw (e, f, disconnect)
          (put-Step op (pipe ∷ conn') sig_map d (rw e (erased signal h conn (pipe ∷ conn') t dc)))

disconnect_by_hash-Step :
    (signal ptr : ℕ) (sig_map : SignalMap)
    → AllDistinct sig_map
    → Step (object_gone signal ptr) sig_map (disconnect_by_hash signal ptr sig_map).0
unfolding disconnect_by_hash receiver_of
disconnect_by_hash-Step signal ptr sig_map d = elim (Option-cases (find signal sig_map)) [
  | inl e ↦ rw (e, disconnect_by_hash) (same-Step op sig_map d (rw e (λ h. refl, tt)))
  | inr (conn, e) ↦
      rw (e, disconnect_by_hash)
        (put-Step op (remove_object ptr conn) sig_map d
          (rw e (remove_object_lem ptr conn (find-IsDistinct signal sig_map conn d e))))
]
  where
    op : Operation
    op = object_gone signal ptr

pub step-Step :
    (op : Operation) (sig_map : SignalMap) → AllDistinct sig_map → Step op sig_map (step op sig_map)
unfolding step
step-Step (connected signal receiver cb) sig_map d = connect-Step signal receiver cb sig_map d
step-Step (disconnected signal h) sig_map d = disconnect-Step signal h sig_map d
step-Step (object_gone signal ptr) sig_map d = disconnect_by_hash-Step signal ptr sig_map d
