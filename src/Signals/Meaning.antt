-- ===== src/Signals/Meaning.antt =====
-- The operations of SignalConnectionStorage.h, and what each means for the links between signals and
-- slots.
use socks.Base.{
  ℕ, ◌==◌, List, [], ◌∷◌, Option, none, some, if◌then◌else◌, ◌≡◌, ◌≢◌, refl, sym, Bool-cases,
  ==_iff, arith, inl, inr,
}
use socks.Maps.{put, erase, find, find-put, find-put_other, find-erase, find-erase_other}
use socks.Signals.{Callback, SignalPipe, SignalMap, connect, disconnect, disconnect_by_hash}
use socks.Signals.Pipes.{receiver_of, IsDistinct, unless, otherwise}

-- The operations of the storage, with the hash of the signal first.
pub data Operation : Type 0 where
  connected : ℕ → ℕ → Callback → Operation
  disconnected : ℕ → ℕ → Operation
  object_gone : ℕ → ℕ → Operation

unfoldable pub step : Operation → SignalMap → SignalMap
unfolding connect disconnect disconnect_by_hash
step (connected signal receiver cb) sig_map = (connect signal receiver cb sig_map).0
step (disconnected signal h) sig_map = (disconnect signal h sig_map).0
step (object_gone signal ptr) sig_map = (disconnect_by_hash signal ptr sig_map).0

unfoldable pub run : List Operation → SignalMap → SignalMap
unfolding step
run [] sig_map = sig_map
run (o ∷ os) sig_map = run os (step o sig_map)

-- The pipes of a signal, none where the map has no entry.
abbrev pub pipes_of : Option (List SignalPipe) → List SignalPipe
pipes_of none = []
pipes_of (some conn) = conn

-- The object that the slot with hash `h` of the signal belongs to, where it is connected.
unfoldable pub linked : ℕ → ℕ → SignalMap → Option ℕ
unfolding find receiver_of
linked signal h sig_map = receiver_of h (pipes_of (find signal sig_map))

-- What an operation on a signal means for one slot of it, and for one slot of any signal.
abbrev pub meant_here : Operation → ℕ → Option ℕ → Option ℕ
meant_here (connected signal receiver cb) h o =
    otherwise (if cb.hash == h then some receiver else none) o
meant_here (disconnected signal h') h o = if h' == h then none else o
meant_here (object_gone signal ptr) h o = unless ptr o

abbrev pub signal_of : Operation → ℕ
signal_of (connected signal receiver cb) = signal
signal_of (disconnected signal h) = signal
signal_of (object_gone signal ptr) = signal

unfoldable pub meant : List Operation → ℕ → ℕ → Option ℕ → Option ℕ
meant [] signal h o = o
meant (op ∷ ops) signal h o =
    meant ops signal h (if signal_of op == signal then meant_here op h o else o)

unfoldable pub AllDistinct : SignalMap → Type 0
unfolding find
AllDistinct sig_map = (signal : ℕ) → IsDistinct (pipes_of (find signal sig_map))

-- What an operation makes of the pipes of its own signal.
abbrev pub Meant : Operation → List SignalPipe → List SignalPipe → Type 0
Meant op conn conn' =
    ((h : ℕ) → receiver_of h conn' ≡ meant_here op h (receiver_of h conn)) × IsDistinct conn'

-- What an operation makes of a map.
abbrev pub Step : Operation → SignalMap → SignalMap → Type 0
Step op sig_map sig_map' =
    (signal : ℕ)
    → ((h : ℕ)
        → linked signal h sig_map' ≡ (
            if signal_of op == signal
            then meant_here op h (linked signal h sig_map)
            else linked signal h sig_map))
      × IsDistinct (pipes_of (find signal sig_map'))

abbrev pub here : Operation → SignalMap → List SignalPipe
here op sig_map = pipes_of (find (signal_of op) sig_map)

pipes-Step :
    (op : Operation) (sig_map sig_map' : SignalMap)
    → AllDistinct sig_map
    → Meant op (here op sig_map) (here op sig_map')
    → ((signal : ℕ) → signal_of op ≢ signal → find signal sig_map' ≡ find signal sig_map)
    → Step op sig_map sig_map'
unfolding linked AllDistinct
pipes-Step op sig_map sig_map' d (same, kept) others signal =
    elim (Bool-cases (signal_of op == signal)) [
      | inl e ↦ rw (e, sym ((==_iff (signal_of op) signal).0 e)) ((λ h. same h), kept)
      | inr e ↦
          (let same : find signal sig_map' ≡ find signal sig_map =
              others signal (ground (arith, e)) in
            rw (e, same) ((λ h. refl), d signal))
    ]

pub put-Step :
    (op : Operation) (conn' : List SignalPipe) (sig_map : SignalMap)
    → AllDistinct sig_map
    → Meant op (here op sig_map) conn'
    → Step op sig_map (put (signal_of op) conn' sig_map)
put-Step op conn' sig_map d m =
    pipes-Step op sig_map (put (signal_of op) conn' sig_map) d
      (rw (find-put (signal_of op) conn' sig_map) m)
      (λ signal ne. find-put_other (signal_of op) signal conn' sig_map ne)

pub erase-Step :
    (op : Operation) (sig_map : SignalMap)
    → AllDistinct sig_map
    → Meant op (here op sig_map) []
    → Step op sig_map (erase (signal_of op) sig_map)
erase-Step op sig_map d m =
    pipes-Step op sig_map (erase (signal_of op) sig_map) d
      (rw (find-erase (signal_of op) sig_map) m)
      (λ signal ne. find-erase_other (signal_of op) signal sig_map ne)

pub same-Step :
    (op : Operation) (sig_map : SignalMap)
    → AllDistinct sig_map
    → Meant op (here op sig_map) (here op sig_map)
    → Step op sig_map sig_map
same-Step op sig_map d m = pipes-Step op sig_map sig_map d m (λ signal ne. refl)
