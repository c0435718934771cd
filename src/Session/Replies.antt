-- ===== src/Session/Replies.antt =====
-- What the client of a session of Session.cpp receives: the answers, then the bytes of its proxy.
pub mod Handlers
use Prim.Native.String.{String}
use socks.Base.{
  ℕ, ◌≡◌, refl, ◌∙◌, ◌⊎◌, inl, inr, List, [], ◌∷◌, ◌++◌, true, false, arith, Bool-cases,
}
use socks.Base.Buffer.{Outcome, ok, refused, bytes_of_u16}
use socks.Types.{VariantAddress}
use socks.Encoder.Command.{HasSize, written}
use socks.Encoder.Command.Resp.{fits}
use socks.Wire.{kind}
use socks.StateMachine.{State, protocol_error}
use socks.Tracker.{send_msg, replies}
use socks.Proxy.{main}
use socks.Session.{Effect, sent, relayed, Env, Session, links, touch, note, destroy_self}

-- The buffers that go out on the incoming connection, newest first.
abbrev pub to_client : List Effect → List (List ℕ)
to_client [] = []
to_client (sent buf ∷ es) = buf ∷ to_client es
to_client (relayed main buf ∷ es) = buf ∷ to_client es
to_client (e ∷ es) = to_client es

abbrev pub granted_answer : VariantAddress → ℕ → List ℕ
granted_answer addr port = 5 ∷ 0 ∷ 0 ∷ kind addr ∷ (written addr ++ bytes_of_u16 port)

-- The method chosen, and then the login accepted.
abbrev pub chosen : List (List ℕ)
chosen = (5 ∷ 2 ∷ []) ∷ []

abbrev pub logged_in : List (List ℕ)
logged_in = (5 ∷ 0 ∷ []) ∷ chosen

-- The request granted, and behind it the bytes of the proxy.
pub data Opened : List (List ℕ) → Type 0 where
  opened :
      (addr : VariantAddress) (port : ℕ) (chunks : List (List ℕ))
      → HasSize addr
      → fits addr ≡ true
      → Opened (chunks ++ granted_answer addr port ∷ logged_in)

-- What the server may have sent, newest first. (The answers to a login have the version 5, where
-- RFC 1929 has 1.)
pub data Dialogue : List (List ℕ) → Type 0 where
  silent : Dialogue []
  turned_away : Dialogue ((5 ∷ 255 ∷ []) ∷ [])
  offered : Dialogue chosen
  denied : Dialogue ((5 ∷ 1 ∷ []) ∷ chosen)
  accepted : Dialogue logged_in
  granted : {said : List (List ℕ)} → Opened said → Dialogue said

-- What a machine that still takes messages has let its client know.
abbrev pub Waits : State → List (List ℕ) → Type 0
Waits State.wait_for_greeting said = said ≡ []
Waits State.wait_for_pass_auth said = said ≡ chosen
Waits State.wait_for_pass_auth_result said = said ≡ chosen
Waits State.wait_for_command said = said ≡ logged_in
Waits State.wait_for_proxy_start said = said ≡ logged_in
Waits s said = Unit

pub record Sound (s : Session) : Type 0 where
  pub dialogue : Dialogue (to_client s.trace)
  pub calm : s.threw ≡ false

-- Deleted, in a conversation with the tracker, or with a proxy.
abbrev pub Stage : Session → Type 0
Stage s =
    (s.ended ≡ true)
    ⊎ (((s.tcp_stream_proxy ≡ false) × Waits s.machine (to_client s.trace))
        ⊎ ((s.tcp_stream_proxy ≡ true) × Opened (to_client s.trace)))

abbrev pub Inv : Session → Type 0
Inv s = Sound s × Stage s

-- Nothing said, nothing thrown since `s`.
record Quiet (s t : Session) : Type 0 where
  said : to_client t.trace ≡ to_client s.trace
  threw : t.threw ≡ s.threw

Quiet-Sound : (s t : Session) → Quiet s t → Sound s → Sound t
Quiet-Sound s t q h = record { dialogue = rw q.said h.dialogue; calm = q.threw ∙ h.calm }

Quiet-destroy_self : (s : Session) → Quiet s (destroy_self s)
unfolding destroy_self
Quiet-destroy_self s = ground arith

Quiet-destroy_touched : (s : Session) → Quiet s (destroy_self (touch s))
unfolding destroy_self
Quiet-destroy_touched s = ground arith

destroyed : (s : Session) → Sound s → Inv (destroy_self s)
unfolding destroy_self
destroyed s h = (Quiet-Sound s (destroy_self s) (Quiet-destroy_self s) h, inl refl)

module _ (env : Env) where
  -- A message that an encoder makes goes out, or the session is deleted, as for one it refuses.
  send_msg_cases :
      (P : Session → Type 0) (o : Outcome (List ℕ)) (buf : List ℕ) (s : Session)
      → o ≡ ok buf
      → ((t : Session) → t.ended ≡ true → Quiet s t → P t)
      → P (note (sent buf) (touch s))
      → P (send_msg (links env) o s)
  unfolding send_msg links destroy_self
  send_msg_cases P o buf s e over out = elim (Bool-cases (env.send s.trace buf)) [
    | inl f ↦ rw (e, f, send_msg, links) out
    | inr f ↦
        rw (e, f, send_msg, links) (over (destroy_self (touch s)) refl (Quiet-destroy_touched s))
  ]

  send_refused :
      (P : Session → Type 0) (o : Outcome (List ℕ)) (s : Session)
      → o ≡ refused
      → ((t : Session) → t.ended ≡ true → Quiet s t → P t)
      → P (send_msg (links env) o s)
  unfolding send_msg links destroy_self
  send_refused P o s e over = rw (e, send_msg) (over (destroy_self s) refl (Quiet-destroy_self s))

  protocol_error-Inv :
      (reason : String) (s : Session)
      → Sound s
      → Inv (protocol_error (links env).cell (replies (links env)) reason s)
  unfolding protocol_error replies links
  protocol_error-Inv reason s h =
      destroyed ((links env).cell.put State.protocol_failed s)
        (record { dialogue = h.dialogue; calm = h.calm })
