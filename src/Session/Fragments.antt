-- ===== src/Session/Fragments.antt =====
-- `onReceive` of SocksConnectionTracker.cpp gives the machine the bytes of one read of the socket, and
-- StateMachine.cpp decodes them as one message: what TCP does with the borders of messages.
use socks.Base.{ℕ, ◌≡◌, ◌≢◌, refl, ◌∙◌, ◌⊎◌, inl, inr, List, [], ◌∷◌, ◌++◌, Option, All, ap}
use socks.Base.Buffer.{refused, IsByte}
use socks.Types.{GreetingMsg, UserPassAuthMsg, CommandMsg, fresh_greeting, fresh_user_pass}
use socks.Decoder.{decode_greeting, decode_user_pass, decode_command}
use socks.Decoder.Exact.{
  decode_greeting_exact, decode_user_pass_exact, decode_command_exact, decode-Returns,
}
use socks.Wire.{IsGreeting, greeting_wire, IsUserPass, user_pass_wire, IsCommand, command_wire}
use socks.Wire.Prefixes.{greeting_ends, user_pass_ends, command_ends}
use socks.StateMachine.{State, process_buffer}
use socks.Proxy.{main}
use socks.Session.{Effect, Env, Event, received, handle, run}
use socks.Session.Answers.{alive, deleted}
use socks.Session.Ended.{ended_stays}

-- The message that the machine waits for, as it stands on the wire.
abbrev pub Awaited : State → List ℕ → Type 0
Awaited State.wait_for_greeting whole =
    (m : GreetingMsg) × (IsGreeting m × (whole ≡ greeting_wire m))
Awaited State.wait_for_pass_auth whole =
    (m : UserPassAuthMsg) × (IsUserPass m × (whole ≡ user_pass_wire m))
Awaited State.wait_for_command whole = (m : CommandMsg) × (IsCommand m × (whole ≡ command_wire m))
Awaited s whole = ⊥

-- A part of the whole, or the whole with something after it.
abbrev pub Misread : List ℕ → List ℕ → List ℕ → Type 0
Misread whole more read = (read ++ more ≡ whole) ⊎ (whole ++ more ≡ read)

module _ (read more : List ℕ) (bytes : All IsByte read) (ne : more ≢ []) where
  greeting-Misread :
      (whole : List ℕ)
      → Awaited State.wait_for_greeting whole
      → Misread whole more read
      → decode_greeting read fresh_greeting ≡ refused
  greeting-Misread whole (m, (g, w)) misread =
      elim (decode-Returns read fresh_greeting fresh_user_pass).0 [
        | inl e ↦ e
        | inr (m', e) ↦
            (let (g', w') = (decode_greeting_exact read m' bytes).0 e in
              absurd (
                ne (elim misread [
                  | inl h ↦ greeting_ends m' m more (cc (h, w, w'))
                  | inr h ↦ greeting_ends m m' more (cc (h, w, w'))
                ])))
      ]

  user_pass-Misread :
      (whole : List ℕ)
      → Awaited State.wait_for_pass_auth whole
      → Misread whole more read
      → decode_user_pass read fresh_user_pass ≡ refused
  user_pass-Misread whole (m, (g, w)) misread =
      elim (decode-Returns read fresh_greeting fresh_user_pass).1 [
        | inl e ↦ e
        | inr (m', e) ↦
            (let (g', w') = (decode_user_pass_exact read m' bytes).0 e in
              absurd (
                ne (elim misread [
                  | inl h ↦ user_pass_ends m' m more (cc (h, w, w'))
                  | inr h ↦ user_pass_ends m m' more (cc (h, w, w'))
                ])))
      ]

  command-Misread :
      (whole : List ℕ)
      → Awaited State.wait_for_command whole
      → Misread whole more read
      → decode_command read ≡ refused
  command-Misread whole (m, (g, w)) misread =
      elim (decode-Returns read fresh_greeting fresh_user_pass).2 [
        | inl e ↦ e
        | inr (m', e) ↦
            (let (g', w') = (decode_command_exact read m' bytes).0 e in
              absurd (
                ne (elim misread [
                  | inl h ↦ command_ends m' m more g' g (cc (h, w, w'))
                  | inr h ↦ command_ends m m' more g g' (cc (h, w, w'))
                ])))
      ]

  Misread-handle :
      (env : Env) (id : ℕ) (conn : Option ℕ) (trace : List Effect) (state : State) (whole : List ℕ)
      → Awaited state whole
      → Misread whole more read
      → handle env (received main read) (alive state id conn trace)
        ≡ deleted State.protocol_failed id conn trace
  unfolding handle
  Misread-handle env id conn trace State.wait_for_greeting whole a h =
      rw (greeting-Misread whole a h, process_buffer) refl
  Misread-handle env id conn trace State.wait_for_pass_auth whole a h =
      rw (user_pass-Misread whole a h, process_buffer) refl
  Misread-handle env id conn trace State.wait_for_command whole a h =
      rw (command-Misread whole a h, process_buffer) refl
  Misread-handle env id conn trace _ whole a h = absurd a

-- A client that sends the very message that the session waits for is refused when the bytes do not
-- come in one read of their own: if the session reads a part of the message, or the message with
-- bytes after it, it is deleted with nothing sent, and what comes later changes nothing.
pub fragments_refused :
    (env : Env) (id : ℕ) (conn : Option ℕ) (trace : List Effect) (state : State)
    (whole read more : List ℕ) (later : List Event)
    → Awaited state whole
    → All IsByte read
    → more ≢ []
    → Misread whole more read
    → run env (received main read ∷ later) (alive state id conn trace)
      ≡ deleted State.protocol_failed id conn trace
unfolding run
fragments_refused env id conn trace state whole read more later a bytes ne h =
    ap (run env later) (Misread-handle read more bytes ne env id conn trace state whole a h)
    ∙ ended_stays env later (deleted State.protocol_failed id conn trace) refl
