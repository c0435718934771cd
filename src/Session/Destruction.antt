-- ===== src/Session/Destruction.antt =====
-- How often Session.cpp deletes a session, and what touches it before.
pub mod Handlers
use Prim.Native.String.{String}
use socks.Base.{
  ℕ, suc, ◌≤◌, ◌≡◌, ◌∙◌, ◌⊎◌, inl, inr, refl, List, [], ◌∷◌, Bool, true, false, Option, arith,
  Bool-cases, Option-cases, not, ◌==◌,
}
use socks.Base.Buffer.{Outcome, ok, refused, bad_variant, out_of_bounds}
use socks.Types.{Address, tcp_stream, command_not_supported, general_failure}
use socks.StateMachine.{State, protocol_error, process_pass_auth_result}
use socks.StateMachine.Cases.{pass_auth_result_cases, start_proxy_result_cases}
use socks.Tracker.{send_msg, replies, on_proxy_started, on_auth_request_completed}
use socks.Session.{
  Effect, sent, checked, connecting, session_end, Env, Session, links, touch, note, destroy_self,
  no_address, on_start_proxy, on_request_pass_auth,
}

-- How often the manager was told to delete the session.
abbrev pub deletions : List Effect → ℕ
deletions [] = 0
deletions (session_end id ∷ es) = suc (deletions es)
deletions (e ∷ es) = deletions es

-- Not ended, not deleted, and not used after that.
pub record Whole (s : Session) : Type 0 where
  pub on : s.ended ≡ false
  pub kept : deletions s.trace ≡ 0
  pub safe : s.dangling ≡ false

-- At most `k` times, and never if it has not ended.
abbrev Within : ℕ → Session → Type 0
Within k s = (deletions s.trace ≤ k) × ((s.ended ≡ true) ⊎ Whole s)

deletions-destroy_self : (s : Session) → deletions (destroy_self s).trace ≡ suc (deletions s.trace)
unfolding destroy_self
deletions-destroy_self s = ground arith

destroyed : (k : ℕ) (s : Session) → Within k s → Within (suc k) (destroy_self s)
unfolding destroy_self
destroyed k s h = (omega (arith, deletions-destroy_self s, h.0), inl refl)

touched : (k : ℕ) (s : Session) → Within k s → Within k (touch s)
unfolding touch
touched k s (n, inl over) = (n, inl over)
touched k s (n, inr w) =
    (n, inr (record { on = w.on; kept = w.kept; safe = ground (arith, w.safe, w.on) }))

-- A change of other fields, or an effect that is no deletion.
abbrev IsQuiet : Effect → Type 0
IsQuiet e = (es : List Effect) → deletions (e ∷ es) ≡ deletions es

noted : (k : ℕ) (e : Effect) (s : Session) → IsQuiet e → Within k s → Within k (note e s)
unfolding note
noted k e s q (n, inl over) = (omega (arith, q s.trace, n), inl over)
noted k e s q (n, inr w) = (
  omega (arith, q s.trace, n),
  inr (record { on = w.on; kept = q s.trace ∙ w.kept; safe = w.safe }),
)

same_trace :
    (k : ℕ) (s t : Session)
    → t.trace ≡ s.trace
    → t.ended ≡ s.ended
    → t.dangling ≡ s.dangling
    → Within k s
    → Within k t
same_trace k s t e f g (n, inl over) = (rw e n, inl (f ∙ over))
same_trace k s t e f g (n, inr w) =
    (rw e n, inr (record { on = f ∙ w.on; kept = rw e w.kept; safe = g ∙ w.safe }))

weaker : (k : ℕ) (s : Session) → Within k s → Within (suc k) s
weaker k s h = (omega (arith, h.0), h.1)

module _ (env : Env) where
  put-Within : (k : ℕ) (m : State) (s : Session) → Within k s → Within k ((links env).cell.put m s)
  unfolding links
  put-Within k m s h = same_trace k (touch s) _ refl refl refl (touched k s h)

  send_msg-Within :
      (k : ℕ) (o : Outcome (List ℕ)) (s : Session)
      → Within k s
      → Within (suc k) (send_msg (links env) o s)
  unfolding send_msg links
  send_msg-Within k (ok buf) s h = elim (Bool-cases (env.send s.trace buf)) [
    | inl e ↦
        rw (e, send_msg, links)
          (weaker k _ (noted k (sent buf) (touch s) (λ es. refl) (touched k s h)))
    | inr e ↦ rw (e, send_msg, links) (destroyed k (touch s) (touched k s h))
  ]
  send_msg-Within k refused s h = destroyed k s h
  send_msg-Within k bad_variant s h =
      weaker k _ (same_trace k s (record s { threw = true }) refl refl refl h)
  send_msg-Within k out_of_bounds s h =
      weaker k _ (same_trace k s (record s { threw = true }) refl refl refl h)

  protocol_error-Within :
      (k : ℕ) (reason : String) (s : Session)
      → Within k s
      → Within (suc k) (protocol_error (links env).cell (replies (links env)) reason s)
  unfolding protocol_error replies links
  protocol_error-Within k reason s h = destroyed k _ (put-Within k State.protocol_failed s h)

  auth_result-Within :
      (k : ℕ) (success : Bool) (s : Session)
      → Within k s
      → Within (suc k) (process_pass_auth_result (links env).cell (replies (links env)) success s)
  auth_result-Within k success s h =
      pass_auth_result_cases (Within (suc k)) (links env).cell (replies (links env)) s success
        (λ reason. protocol_error-Within k reason s h)
        (λ e f. unfold replies in send_msg-Within k _ _ (put-Within k State.wait_for_command s h))
        (λ e f. unfold replies in send_msg-Within k _ s h)

  on_proxy_started-Within :
      (k status : ℕ) (a : Address) (s : Session)
      → Within k s
      → Within (suc k) (on_proxy_started (links env) status a s)
  unfolding on_proxy_started
  on_proxy_started-Within k status a s h =
      start_proxy_result_cases (Within (suc k)) (links env).cell (replies (links env)) s status a
        (λ reason. protocol_error-Within k reason s h)
        (λ e m. put-Within (suc k) m _ (unfold replies in send_msg-Within k _ s h))

  login-Within :
      (user password : List ℕ) (s : Session)
      → Within 0 s
      → Within 2 (on_request_pass_auth env user password s)
  unfolding on_request_pass_auth on_auth_request_completed
  login-Within user password s h =
      let success : Bool = env.auth_user_password user password in
      let asked : Within 0 (note (checked user password success) (touch s)) =
        noted 0 (checked user password success) (touch s) (λ es. refl) (touched 0 s h) in
      elim (Bool-cases success) [
        | inl e ↦
            rw (e, on_request_pass_auth, on_auth_request_completed)
              (weaker 1 _ (auth_result-Within 0 true _ (rw e at asked)))
        | inr e ↦
            rw (e, on_request_pass_auth, on_auth_request_completed)
              (destroyed 1 _ (auth_result-Within 0 false _ (rw e at asked)))
      ]

  stored_Within :
      (a : Address) (conn : Option ℕ) (s : Session)
      → Within 0 s
      → Within 0 (note (connecting a) (record (touch s) { out_conn = conn }))
  stored_Within a conn s h =
      noted 0 (connecting a) _ (λ es. refl)
        (same_trace 0 (touch s) _ refl refl refl (touched 0 s h))

  command-Within :
      (type : ℕ) (a : Address) (s : Session) → Within 0 s → Within 2 (on_start_proxy env type a s)
  unfolding on_start_proxy
  command-Within type a s h = elim (Bool-cases (not (type == tcp_stream))) [
    | inl e ↦
        rw (e, on_start_proxy)
          (destroyed 1 _ (on_proxy_started-Within 0 command_not_supported no_address s h))
    | inr e ↦ elim (Option-cases (env.create_new_connection s.trace a)) [
      | inl f ↦
          rw (e, f, on_start_proxy)
            (destroyed 1 _
              (on_proxy_started-Within 0 general_failure no_address _ (stored_Within a _ s h)))
      | inr (c, f) ↦ rw (e, f, on_start_proxy) (weaker 1 _ (weaker 0 _ (stored_Within a _ s h)))
    ]
  ]
