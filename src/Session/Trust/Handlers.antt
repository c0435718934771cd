-- ===== src/Session/Trust/Handlers.antt =====
-- The handlers of Session.cpp and the order of Trust: first a login, then what needs one.
use socks.StateMachine.{State}
use socks.Base.{
  if_cases, [], ◌∷◌, arith, true, false, ◌⊎◌, ℕ, ◌≡◌, refl, inl, inr, List, ◌==◌, Bool-cases,
  Option-cases, not,
}
use socks.Types.{
  Address, tcp_stream, command_not_supported, general_failure, host_unreachable, request_granted,
}
use socks.StateMachine.Cases.{buffer_cases}
use socks.Tracker.{on_connection_closed, on_proxy_started, replies, machine_owner, on_receive}
use socks.Proxy.{main, out, inner}
use socks.Session.{
  Effect, handle_alone, handle_proxy, handle, run, new_session, on_proxy_destroy, touch, note,
  checked, connecting, proxy_created, Env, Session, Event, handle, no_address, links, requests,
  on_start_proxy, on_request_pass_auth, on_connected,
}
use socks.Session.Trust.{
  Before-destroy_self, Early, Before-send_msg, Before-put, Before-protocol_error,
  Before-on_auth_request_completed, Trusted, Before, Before, After, After-note, After-destroy_self,
  After-put, After-send_msg, After-protocol_error, After-on_proxy_started,
  After-on_auth_request_completed,
}
use socks.Session.{Event, received, closed, connected, relayed, disconnected}

module _ (env : Env) where
  -- `After` speaks of the trace alone.
  After-same : (s t : Session) → t.trace ≡ s.trace → After env s → After env t
  After-same s t e h = record { trusted = rw e h.trusted; logged = rw e h.logged }

  stored : Address → Session → Session
  stored a s = record (touch s) { out_conn = env.create_new_connection s.trace a }

  After-stored :
      (a : Address) (s : Session) → After env s → After env (note (connecting a) (stored a s))
  unfolding stored touch
  After-stored a s h = After-note env (connecting a) (stored a s) (After-same s (stored a s) refl h)

  After-on_start_proxy :
      (type : ℕ) (a : Address) (s : Session) → After env s → After env (on_start_proxy env type a s)
  unfolding on_start_proxy stored
  After-on_start_proxy type a s h = elim (Bool-cases (not (type == tcp_stream))) [
    | inl e ↦
        rw e (
          After-destroy_self env _
            (After-on_proxy_started env command_not_supported no_address s h))
    | inr e ↦ elim (Option-cases (env.create_new_connection s.trace a)) [
      | inl f ↦
          rw (e, f, on_start_proxy)
            (After-destroy_self env _
              (After-on_proxy_started env general_failure no_address _ (After-stored a s h)))
      | inr (c, f) ↦ rw (e, f, on_start_proxy) (After-stored a s h)
    ]
  ]

  After-on_request_pass_auth :
      (user password : List ℕ) (s : Session)
      → After env s
      → After env (on_request_pass_auth env user password s)
  unfolding on_request_pass_auth
  After-on_request_pass_auth user password s h =
      After-on_auth_request_completed env (env.auth_user_password user password) _ (
        After-note env (checked user password (env.auth_user_password user password)) _
          (After-same s (touch s) refl h))

  proxied : (s : Session) → After env s → After env (record (touch s) { tcp_stream_proxy = true })
  unfolding touch
  proxied s h = record { trusted = h.trusted; logged = h.logged }

  After-on_connected : (c : ℕ) (s : Session) → After env s → After env (on_connected env c s)
  unfolding on_connected
  After-on_connected c s h = elim (Option-cases (env.get_local_address s.trace c)) [
    | inl e ↦
        rw (e, on_connected)
          (After-destroy_self env _ (After-on_proxy_started env host_unreachable no_address s h))
    | inr (a, e) ↦
        rw (e, on_connected)
          (After-note env proxy_created _ (
            proxied (on_proxy_started (links env) request_granted a s)
              (After-on_proxy_started env request_granted a s h)))
  ]

  After-on_receive :
      (buf : List ℕ) (s : Session)
      → After env s
      → After env (on_receive (links env) (requests env) buf s)
  unfolding on_receive machine_owner requests replies
  After-on_receive buf s h =
      buffer_cases (After env) (links env).cell (machine_owner (links env) (requests env)) s buf
        (λ reason. After-protocol_error env reason s h)
        (λ e. After-put env _ _ (After-send_msg env _ s h))
        (λ e reason. After-protocol_error env reason _ (After-send_msg env _ s h))
        (λ e u p.
          After-on_request_pass_auth u p ((links env).cell.put State.wait_for_pass_auth_result s)
            (After-put env State.wait_for_pass_auth_result s h))
        (λ e c a.
          After-on_start_proxy c a ((links env).cell.put State.wait_for_proxy_start s)
            (After-put env State.wait_for_proxy_start s h))

  After-handle_alone : (e : Event) (s : Session) → After env s → After env (handle_alone env e s)
  unfolding handle_alone
  After-handle_alone (received main buf) s h = After-on_receive buf s h
  After-handle_alone (closed main) s h =
      unfold on_connection_closed links in After-destroy_self env s h
  After-handle_alone connected s h = elim (Option-cases s.out_conn) [
    | inl e ↦ rw (e, handle_alone) h
    | inr (c, e) ↦ rw (e, handle_alone) (After-on_connected c s h)
  ]
  After-handle_alone _ s h = h

  After-effect : (e : Effect) (s : Session) → After env s → After env (note e (touch s))
  unfolding touch
  After-effect e s h = After-note env e (touch s) (After-same s (touch s) refl h)

  After-handle_proxy : (e : Event) (s : Session) → After env s → After env (handle_proxy env e s)
  unfolding handle_proxy on_proxy_destroy
  After-handle_proxy (received main buf) s h = After-effect (relayed out buf) s h
  After-handle_proxy (received out buf) s h = After-effect (relayed main buf) s h
  After-handle_proxy (received inner buf) s h = h
  After-handle_proxy (closed main) s h =
      After-destroy_self env _ (After-effect (disconnected out) s h)
  After-handle_proxy (closed out) s h =
      After-destroy_self env _ (After-effect (disconnected main) s h)
  After-handle_proxy (closed inner) s h = After-destroy_self env s h
  After-handle_proxy connected s h = h

  After-handle : (e : Event) (s : Session) → After env s → After env (handle env e s)
  unfolding handle
  After-handle e s h = ground (arith, After-handle_alone e s h, After-handle_proxy e s h)

  abbrev pub Inv : Session → Type 0
  Inv s = Before env s ⊎ After env s

  -- The login: what the authorizer says decides on which side the session comes out.
  login-Inv :
      (user password : List ℕ) (s : Session)
      → Before env s
      → Inv (on_request_pass_auth env user password s)
  unfolding on_request_pass_auth
  login-Inv user password s h = elim (Bool-cases (env.auth_user_password user password)) [
    | inl e ↦ inr (
        rw e (
          After-on_auth_request_completed env true (note (checked user password true) (touch s))
            (record { trusted = h.trusted; logged = inl (refl, e) })))
    | inr e ↦ inl (
        rw e (
          Before-on_auth_request_completed env (note (checked user password false) (touch s))
            (record { trusted = h.trusted; early = h.early; alone = h.alone; direct = h.direct })))
  ]

  late : (m : State) → Early env m → m ≡ State.wait_for_command → ⊥
  late m h e = rw e at h

  receive-Inv :
      (buf : List ℕ) (s : Session)
      → Before env s
      → Inv (on_receive (links env) (requests env) buf s)
  unfolding on_receive machine_owner requests replies
  receive-Inv buf s h =
      buffer_cases Inv (links env).cell (machine_owner (links env) (requests env)) s buf
        (λ reason. inl (Before-protocol_error env reason s h))
        (λ e. inl (Before-put env State.wait_for_pass_auth _ tt (Before-send_msg env _ s h)))
        (λ e reason. inl (Before-protocol_error env reason _ (Before-send_msg env _ s h)))
        (λ e u p.
          login-Inv u p ((links env).cell.put State.wait_for_pass_auth_result s)
            (Before-put env State.wait_for_pass_auth_result s tt h))
        (λ e c a. absurd (late s.machine h.early (unfold links in e)))

  handle_alone-Inv : (e : Event) (s : Session) → Before env s → Inv (handle_alone env e s)
  unfolding handle_alone
  handle_alone-Inv (received main buf) s h = receive-Inv buf s h
  handle_alone-Inv (closed main) s h =
      inl (unfold on_connection_closed links in Before-destroy_self env s h)
  handle_alone-Inv connected s h = rw (h.alone, handle_alone) (inl h)
  handle_alone-Inv _ s h = inl h

  pub handle-Inv : (e : Event) (s : Session) → Inv s → Inv (handle env e s)
  unfolding handle
  handle-Inv e s (inr h) = inr (After-handle e s h)
  handle-Inv e s (inl h) =
      if_cases Inv s.ended s _ (λ over. inl h)
        (λ on.
          if_cases Inv s.tcp_stream_proxy (handle_proxy env e s) (handle_alone env e s)
            (λ through. cc h.direct) (λ direct. handle_alone-Inv e s h))

  pub Inv-Trusted : (s : Session) → Inv s → Trusted env s.trace
  Inv-Trusted s (inl h) = h.trusted
  Inv-Trusted s (inr h) = h.trusted

  pub new_session-Inv : (id : ℕ) → Inv (new_session id)
  new_session-Inv id = inl (record { trusted = tt; early = tt; alone = refl; direct = refl })

  run-Inv : (es : List Event) (s : Session) → Inv s → Inv (run env es s)
  unfolding run
  run-Inv [] s h = h
  run-Inv (e ∷ es) s h = run-Inv es (handle env e s) (handle-Inv e s h)

  -- Whatever happens to a new session, whatever the clients send and the environment answers: before
  -- every outgoing connection, before every proxy and before every byte that a proxy moves, the
  -- authorizer has accepted a name and a password in this session.
  pub run-Trusted : (id : ℕ) (es : List Event) → Trusted env (run env es (new_session id)).trace
  run-Trusted id es = Inv-Trusted _ (run-Inv es (new_session id) (new_session-Inv id))
