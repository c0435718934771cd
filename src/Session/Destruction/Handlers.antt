-- ===== src/Session/Destruction/Handlers.antt =====
-- All the handlers of Session.cpp, and how often they delete the session.
use socks.Base.{
  ℕ, ◌≤◌, ◌≡◌, ◌⊎◌, inl, inr, refl, List, [], ◌∷◌, true, arith, Option-cases, if_cases,
}
use socks.Types.{host_unreachable, request_granted}
use socks.StateMachine.{State}
use socks.StateMachine.Cases.{buffer_cases}
use socks.Tracker.{replies, machine_owner, on_proxy_started, on_receive, on_connection_closed}
use socks.Proxy.{main, out, inner}
use socks.Session.{
  Effect, proxy_created, relayed, disconnected, Env, Session, Event, received, closed, connected,
  links, requests, touch, note, no_address, new_session, on_connected, on_proxy_destroy,
  handle_alone, handle_proxy, handle, run,
}
use socks.Session.Destruction.{
  deletions, Whole, Within, destroyed, touched, IsQuiet, noted, same_trace, weaker, put-Within,
  send_msg-Within, protocol_error-Within, on_proxy_started-Within, login-Within, command-Within,
}

module _ (env : Env) where
  connected-Within : (c : ℕ) (s : Session) → Within 0 s → Within 2 (on_connected env c s)
  unfolding on_connected
  connected-Within c s h = elim (Option-cases (env.get_local_address s.trace c)) [
    | inl e ↦
        rw (e, on_connected)
          (destroyed 1 _ (on_proxy_started-Within env 0 host_unreachable no_address s h))
    | inr (a, e) ↦
        rw (e, on_connected)
          (noted 2 proxy_created _ (λ es. refl)
            (same_trace 2 (touch (on_proxy_started (links env) request_granted a s)) _ refl refl
              refl
              (touched 2 _ (weaker 1 _ (on_proxy_started-Within env 0 request_granted a s h)))))
  ]

  receive-Within :
      (buf : List ℕ) (s : Session)
      → Within 0 s
      → Within 2 (on_receive (links env) (requests env) buf s)
  unfolding on_receive machine_owner requests replies
  receive-Within buf s h =
      buffer_cases (Within 2) (links env).cell (machine_owner (links env) (requests env)) s buf
        (λ reason. weaker 1 _ (protocol_error-Within env 0 reason s h))
        (λ e.
          weaker 1 _ (put-Within env 1 State.wait_for_pass_auth _ (send_msg-Within env 0 _ s h)))
        (λ e reason. protocol_error-Within env 1 reason _ (send_msg-Within env 0 _ s h))
        (λ e u p.
          login-Within env u p ((links env).cell.put State.wait_for_pass_auth_result s)
            (put-Within env 0 State.wait_for_pass_auth_result s h))
        (λ e c a.
          command-Within env c a ((links env).cell.put State.wait_for_proxy_start s)
            (put-Within env 0 State.wait_for_proxy_start s h))

  unchanged : (s : Session) → Within 0 s → Within 2 s
  unchanged s h = weaker 1 s (weaker 0 s h)

  handle_alone-Within : (e : Event) (s : Session) → Within 0 s → Within 2 (handle_alone env e s)
  unfolding handle_alone
  handle_alone-Within (received main buf) s h = receive-Within buf s h
  handle_alone-Within (closed main) s h =
      unfold on_connection_closed links in weaker 1 _ (destroyed 0 s h)
  handle_alone-Within connected s h = elim (Option-cases s.out_conn) [
    | inl e ↦ rw (e, handle_alone) (unchanged s h)
    | inr (c, e) ↦ rw (e, handle_alone) (connected-Within c s h)
  ]
  handle_alone-Within _ s h = unchanged s h

  effect-Within : (e : Effect) (s : Session) → IsQuiet e → Within 0 s → Within 0 (note e (touch s))
  effect-Within e s q h = noted 0 e (touch s) q (touched 0 s h)

  handle_proxy-Within : (e : Event) (s : Session) → Within 0 s → Within 2 (handle_proxy env e s)
  unfolding handle_proxy on_proxy_destroy
  handle_proxy-Within (received main buf) s h =
      unchanged _ (effect-Within (relayed out buf) s (λ es. refl) h)
  handle_proxy-Within (received out buf) s h =
      unchanged _ (effect-Within (relayed main buf) s (λ es. refl) h)
  handle_proxy-Within (received inner buf) s h = unchanged s h
  handle_proxy-Within (closed main) s h =
      weaker 1 _ (destroyed 0 _ (effect-Within (disconnected out) s (λ es. refl) h))
  handle_proxy-Within (closed out) s h =
      weaker 1 _ (destroyed 0 _ (effect-Within (disconnected main) s (λ es. refl) h))
  handle_proxy-Within (closed inner) s h = weaker 1 _ (destroyed 0 s h)
  handle_proxy-Within connected s h = unchanged s h

  handle-Within : (e : Event) (s : Session) → Within 2 s → Within 2 (handle env e s)
  unfolding handle
  handle-Within e s (n, inl over) =
      if_cases (Within 2) s.ended s _ (λ o. (n, inl over)) (λ on. cc (over, on))
  handle-Within e s (n, inr w) =
      let h : Within 0 s = (omega (arith, w.kept), inr w) in
      if_cases (Within 2) s.ended s _ (λ o. cc (o, w.on))
        (λ on.
          if_cases (Within 2) s.tcp_stream_proxy (handle_proxy env e s) (handle_alone env e s)
            (λ through. handle_proxy-Within e s h) (λ direct. handle_alone-Within e s h))

  run-Within : (es : List Event) (s : Session) → Within 2 s → Within 2 (run env es s)
  unfolding run
  run-Within [] s h = h
  run-Within (e ∷ es) s h = run-Within es (handle env e s) (handle-Within e s h)

  -- Whatever happens to a new session, the manager is told at most twice to delete it; and while it
  -- has not ended, it has never been told so, and nothing has used the session after its deletion.
  pub deletions_bounded :
      (id : ℕ) (es : List Event)
      → (deletions (run env es (new_session id)).trace ≤ 2)
        × (((run env es (new_session id)).ended ≡ true) ⊎ Whole (run env es (new_session id)))
  deletions_bounded id es =
      run-Within es (new_session id)
        (omega arith, inr (record { on = refl; kept = refl; safe = refl }))
