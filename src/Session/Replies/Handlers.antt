-- ===== src/Session/Replies/Handlers.antt =====
-- The handlers of Session.cpp before there is a proxy, and what they send.
pub mod Conversation
use socks.Base.{
  ap, ℕ, ◌≡◌, refl, inl, inr, List, [], ◌∷◌, Bool, true, false, Bool-cases, Option-cases, not, ◌==◌,
  Option,
}
use socks.Types.{is_auth_method_exist, Address, tcp_stream, command_not_supported, general_failure}
use socks.Encoder.{encodable_method}
use socks.StateMachine.{State}
use socks.StateMachine.Cases.{pass_auth_result_cases, start_proxy_result_cases}
use socks.Tracker.{replies, on_proxy_started, on_auth_request_completed}
use socks.Session.{
  sent, checked, connecting, Env, Session, links, touch, note, no_address, on_start_proxy,
  on_request_pass_auth,
}
use socks.Session.Answers.{encoded_method, encoded_status}
use socks.Session.Failures.{refused_answer}
use socks.Session.Replies.{
  to_client, Dialogue, turned_away, offered, denied, accepted, chosen, logged_in, Sound, Inv,
  Quiet-Sound, destroyed, send_msg_cases, send_refused, protocol_error-Inv,
}

module _ (env : Env) where
  -- A change of fields that `Sound` does not speak of.
  put-Sound : (m : State) (s : Session) → Sound s → Sound ((links env).cell.put m s)
  unfolding links
  put-Sound m s h = record { dialogue = h.dialogue; calm = h.calm }

  said-Sound :
      (buf : List ℕ) (s : Session)
      → s.threw ≡ false
      → Dialogue (buf ∷ to_client s.trace)
      → Sound (note (sent buf) (touch s))
  unfolding note touch
  said-Sound buf s h d = record { dialogue = d; calm = h }

  greeting_offered :
      (s : Session)
      → Sound s
      → s.tcp_stream_proxy ≡ false
      → to_client s.trace ≡ []
      → Inv (
          (links env).cell.put State.wait_for_pass_auth
            ((replies (links env)).send_greeting_response 2 s))
  unfolding replies links encodable_method is_auth_method_exist
  greeting_offered s h alone said =
      send_msg_cases env (λ t. Inv ((links env).cell.put State.wait_for_pass_auth t)) _ _ s
        (encoded_method 2 refl)
        (λ t over q. (put-Sound State.wait_for_pass_auth t (Quiet-Sound s t q h), inl over))
        (
          put-Sound State.wait_for_pass_auth (note (sent (5 ∷ 2 ∷ [])) (touch s))
              (said-Sound (5 ∷ 2 ∷ []) s h.calm (rw said offered)),
          inr (inl (alone, ap (λ l. (5 ∷ 2 ∷ []) ∷ l) said)),
        )

  greeting_declined :
      (s : Session)
      → Sound s
      → to_client s.trace ≡ []
      → Sound ((replies (links env)).send_greeting_response 255 s)
  unfolding replies encodable_method is_auth_method_exist
  greeting_declined s h said =
      send_msg_cases env Sound _ _ s (encoded_method 255 refl) (λ t over q. Quiet-Sound s t q h)
        (said-Sound (5 ∷ 255 ∷ []) s h.calm (rw said turned_away))

  login_accepted :
      (s : Session)
      → Sound s
      → s.tcp_stream_proxy ≡ false
      → to_client s.trace ≡ chosen
      → s.machine ≡ State.wait_for_pass_auth_result
      → Inv (on_auth_request_completed (links env) true s)
  unfolding on_auth_request_completed links
  login_accepted s h alone said waits =
      pass_auth_result_cases Inv (links env).cell (replies (links env)) s true
        (λ reason. protocol_error-Inv env reason s h)
        (λ e f.
          unfold replies in
          send_msg_cases env Inv _ _ ((links env).cell.put State.wait_for_command s)
            (encoded_status 0)
            (λ t over q. (Quiet-Sound _ t q (put-Sound State.wait_for_command s h), inl over))
            (
              said-Sound (5 ∷ 0 ∷ []) ((links env).cell.put State.wait_for_command s) h.calm
                  (rw said accepted),
              inr (inl (alone, ap (λ l. (5 ∷ 0 ∷ []) ∷ l) said)),
            ))
        (λ e f. cc (e))

  login_denied :
      (s : Session)
      → Sound s
      → to_client s.trace ≡ chosen
      → Inv (on_auth_request_completed (links env) false s)
  unfolding on_auth_request_completed links
  login_denied s h said = destroyed _ (
      pass_auth_result_cases Sound (links env).cell (replies (links env)) s false
        (λ reason. (protocol_error-Inv env reason s h).0) (λ e f. cc (e))
        (λ e f.
          unfold replies in
          send_msg_cases env Sound _ _ s (encoded_status 1) (λ t over q. Quiet-Sound s t q h)
            (said-Sound (5 ∷ 1 ∷ []) s h.calm (rw said denied))))

  checked_Sound :
      (user password : List ℕ) (b : Bool) (s : Session)
      → Sound s
      → Sound (note (checked user password b) (touch s))
  unfolding note touch
  checked_Sound user password b s h = record { dialogue = h.dialogue; calm = h.calm }

  login-Inv :
      (user password : List ℕ) (s : Session)
      → Sound s
      → s.tcp_stream_proxy ≡ false
      → to_client s.trace ≡ chosen
      → s.machine ≡ State.wait_for_pass_auth_result
      → Inv (on_request_pass_auth env user password s)
  unfolding on_request_pass_auth
  login-Inv user password s h alone said waits =
      elim (Bool-cases (env.auth_user_password user password)) [
        | inl e ↦
            rw (e, on_request_pass_auth)
              (login_accepted (note (checked user password true) (touch s))
                (checked_Sound user password true s h) alone said waits)
        | inr e ↦
            rw (e, on_request_pass_auth)
              (login_denied (note (checked user password false) (touch s))
                (checked_Sound user password false s h) said)
      ]

  -- An answer that carries `SocksAddress{}` is never sent.
  unaddressed :
      (status : ℕ) (s : Session)
      → Sound s
      → Sound (on_proxy_started (links env) status no_address s)
  unfolding on_proxy_started
  unaddressed status s h =
      start_proxy_result_cases Sound (links env).cell (replies (links env)) s status no_address
        (λ reason. (protocol_error-Inv env reason s h).0)
        (λ e m. put-Sound m _ (
          unfold replies in
          send_refused env Sound _ s (refused_answer status) (λ t over q. Quiet-Sound s t q h)))

  stored_Sound :
      (a : Address) (conn : Option ℕ) (s : Session)
      → Sound s
      → Sound (note (connecting a) (record (touch s) { out_conn = conn }))
  unfolding note touch
  stored_Sound a conn s h = record { dialogue = h.dialogue; calm = h.calm }

  command-Inv :
      (type : ℕ) (a : Address) (s : Session)
      → Sound s
      → s.tcp_stream_proxy ≡ false
      → to_client s.trace ≡ logged_in
      → s.machine ≡ State.wait_for_proxy_start
      → Inv (on_start_proxy env type a s)
  unfolding on_start_proxy
  command-Inv type a s h alone said waits = elim (Bool-cases (not (type == tcp_stream))) [
    | inl e ↦ rw (e, on_start_proxy) (destroyed _ (unaddressed command_not_supported s h))
    | inr e ↦ elim (Option-cases (env.create_new_connection s.trace a)) [
      | inl f ↦
          rw (e, f, on_start_proxy)
            (destroyed _ (unaddressed general_failure _ (stored_Sound a _ s h)))
      | inr (c, f) ↦
          rw (e, f, on_start_proxy) (stored_Sound a _ s h, inr (inl (alone, rw waits said)))
    ]
  ]
