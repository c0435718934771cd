-- ===== src/Session/Trust.antt =====
-- What stands in the trace of Session.cpp before and after a login.
pub mod Handlers
pub mod Listed
use Prim.Native.String.{String}
use socks.Base.{ℕ, ◌≡◌, ◌⊎◌, inr, List, [], ◌∷◌, Bool, true, false, none, arith}
use socks.Base.Buffer.{Outcome, ok, refused, bad_variant, out_of_bounds}
use socks.Types.{Address}
use socks.StateMachine.{process_pass_auth_result, State, protocol_error}
use socks.StateMachine.Cases.{pass_auth_result_cases, start_proxy_result_cases}
use socks.Tracker.{send_msg, replies, on_proxy_started, on_auth_request_completed}
use socks.Tracker
use socks.Session.{
  Effect, sent, checked, connecting, proxy_created, proxy_destroyed, relayed, disconnected,
  connection_destroyed, session_end, Env, Session, links, note, destroy_self,
}

module _ (env : Env) where
  -- The authorizer has accepted a name and a password.
  abbrev pub Logged : List Effect → Type 0
  Logged [] = ⊥
  Logged (checked user password accepted ∷ es) =
      ((accepted ≡ true) × (env.auth_user_password user password ≡ true)) ⊎ Logged es
  Logged (e ∷ es) = Logged es

  -- Before every outgoing connection, every proxy and every byte that a proxy moves.
  abbrev pub Trusted : List Effect → Type 0
  Trusted [] = Unit
  Trusted (connecting a ∷ es) = Logged es × Trusted es
  Trusted (proxy_created ∷ es) = Logged es × Trusted es
  Trusted (relayed d buf ∷ es) = Logged es × Trusted es
  Trusted (e ∷ es) = Trusted es

  abbrev pub Early : State → Type 0
  Early State.wait_for_command = ⊥
  Early State.wait_for_proxy_start = ⊥
  Early State.proxy_started = ⊥
  Early State.proxy_start_failed = ⊥
  Early s = Unit

  -- Before and after the login.
  pub record Before (s : Session) : Type 0 where
    pub trusted : Trusted s.trace
    pub early : Early s.machine
    pub alone : s.out_conn ≡ none
    pub direct : s.tcp_stream_proxy ≡ false

  pub record After (s : Session) : Type 0 where
    pub trusted : Trusted s.trace
    pub logged : Logged s.trace

  After-cons :
      (e : Effect) (es : List Effect) → Trusted es → Logged es → Trusted (e ∷ es) × Logged (e ∷ es)
  After-cons (sent buf) es t l = (t, l)
  After-cons (checked u p accepted) es t l = (t, inr l)
  After-cons (connecting a) es t l = ((l, t), l)
  After-cons proxy_created es t l = ((l, t), l)
  After-cons proxy_destroyed es t l = (t, l)
  After-cons (relayed d buf) es t l = ((l, t), l)
  After-cons (disconnected d) es t l = (t, l)
  After-cons connection_destroyed es t l = (t, l)
  After-cons (session_end id) es t l = (t, l)

  After-note : (e : Effect) (s : Session) → After s → After (note e s)
  unfolding note
  After-note e s h =
      let (t, l) = After-cons e s.trace h.trusted h.logged in record { trusted = t; logged = l }

  After-destroy_self : (s : Session) → After s → After (destroy_self s)
  unfolding destroy_self
  After-destroy_self s h = ground arith

  Before-destroy_self : (s : Session) → Before s → Before (destroy_self s)
  unfolding destroy_self
  Before-destroy_self s h = ground arith

  After-send_msg : (o : Outcome (List ℕ)) (s : Session) → After s → After (send_msg (links env) o s)
  unfolding links
  After-send_msg (ok buf) s h = unfold send_msg in ground arith
  After-send_msg refused s h = unfold send_msg in After-destroy_self s h
  After-send_msg bad_variant s h =
      unfold send_msg in record { trusted = h.trusted; logged = h.logged }
  After-send_msg out_of_bounds s h =
      unfold send_msg in record { trusted = h.trusted; logged = h.logged }

  Before-send_msg :
      (o : Outcome (List ℕ)) (s : Session) → Before s → Before (send_msg (links env) o s)
  unfolding links
  Before-send_msg (ok buf) s h = unfold send_msg in ground arith
  Before-send_msg refused s h = unfold send_msg in Before-destroy_self s h
  Before-send_msg bad_variant s h = unfold send_msg in ground arith
  Before-send_msg out_of_bounds s h = unfold send_msg in ground arith

  After-put : (m : State) (s : Session) → After s → After ((links env).cell.put m s)
  unfolding links
  After-put m s h = record { trusted = h.trusted; logged = h.logged }

  Before-put : (m : State) (s : Session) → Early m → Before s → Before ((links env).cell.put m s)
  unfolding links
  Before-put m s e h = record { trusted = h.trusted; early = e; alone = h.alone; direct = h.direct }

  After-protocol_error :
      (reason : String) (s : Session)
      → After s
      → After (protocol_error (links env).cell (replies (links env)) reason s)
  unfolding protocol_error replies links
  After-protocol_error reason s h = After-destroy_self _ (After-put State.protocol_failed s h)

  Before-protocol_error :
      (reason : String) (s : Session)
      → Before s
      → Before (protocol_error (links env).cell (replies (links env)) reason s)
  unfolding protocol_error replies links
  Before-protocol_error reason s h = Before-destroy_self _ (Before-put State.protocol_failed s tt h)

  After-on_proxy_started :
      (status : ℕ) (a : Address) (s : Session)
      → After s
      → After (on_proxy_started (links env) status a s)
  unfolding on_proxy_started
  After-on_proxy_started status a s h =
      start_proxy_result_cases After (links env).cell (replies (links env)) s status a
        (λ reason. After-protocol_error reason s h) (λ e m. After-put m _ (After-send_msg _ s h))

  After-auth_result :
      (success : Bool) (s : Session)
      → After s
      → After (process_pass_auth_result (links env).cell (replies (links env)) success s)
  After-auth_result success s h =
      pass_auth_result_cases After (links env).cell (replies (links env)) s success
        (λ reason. After-protocol_error reason s h)
        (λ e f. unfold replies in After-send_msg _ _ (After-put _ s h))
        (λ e f. unfold replies in After-send_msg _ s h)

  After-on_auth_request_completed :
      (success : Bool) (s : Session)
      → After s
      → After (on_auth_request_completed (links env) success s)
  unfolding on_auth_request_completed links
  After-on_auth_request_completed true s h = After-auth_result true s h
  After-on_auth_request_completed false s h = After-destroy_self _ (After-auth_result false s h)

  Before-on_auth_request_completed :
      (s : Session) → Before s → Before (on_auth_request_completed (links env) false s)
  unfolding on_auth_request_completed links
  Before-on_auth_request_completed s h = Before-destroy_self _ (
      pass_auth_result_cases Before (links env).cell (replies (links env)) s false
        (λ reason. Before-protocol_error reason s h) (λ e f. cc)
        (λ e f. unfold replies in Before-send_msg _ s h))
