-- ===== src/Session/Origins.antt =====
-- Where the effects of a session of Session.cpp come from: the events that reached it.
use Prim.Native.String.{String}
use socks.Base.{
  ℕ, ◌≡◌, refl, List, [], ◌∷◌, Bool, Bool-cases, Option-cases, true, false, All, All-Memᴰ, Memᴰ,
  if_cases, inl, inr, ◌==◌, ==_iff, arith,
}
use socks.Base.Buffer.{Outcome, ok, refused, bad_variant, out_of_bounds}
use socks.Types.{
  Address, UserPassAuthMsg, CommandMsg, fresh_user_pass, no_available_method, version5, tcp_stream,
  command_not_supported, general_failure, host_unreachable, request_granted,
}
use socks.Encoder.{encode_greeting_resp}
use socks.Decoder.{decode_user_pass, decode_command}
use socks.StateMachine.{State, protocol_error, process_pass_auth_result}
use socks.StateMachine.Cases.{pass_auth_result_cases, start_proxy_result_cases, message_cases}
use socks.Tracker.{
  send_msg, replies, on_proxy_started, on_auth_request_completed, on_connection_closed,
  machine_owner, on_receive,
}
use socks.Proxy.{main, out, inner}
use socks.Session.{
  Effect, checked, connecting, relayed, disconnected, Env, Session, Event, received, closed,
  connected, links, requests, touch, note, destroy_self, no_address, on_start_proxy,
  on_request_pass_auth, on_connected, on_proxy_destroy, handle_alone, handle_proxy, handle, run,
  new_session,
}

module _ (env : Env) (Came : Event → Type 0) where
  -- A check is of the name and the password of a login message that came from the client, with the
  -- authorizer's answer; a connection is sought where a stream command from the client asks for it; and
  -- what goes to one side came from the other.
  abbrev pub Sourced : Effect → Type 0
  Sourced (checked user password accepted) =
      (buf : List ℕ) × (m : UserPassAuthMsg) × (Came (received main buf)
        × (decode_user_pass buf fresh_user_pass ≡ ok m)
        × (user ≡ m.user)
        × (password ≡ m.password)
        × (accepted ≡ env.auth_user_password user password))
  Sourced (connecting a) =
      (buf : List ℕ) × (m : CommandMsg) × (Came (received main buf)
        × (decode_command buf ≡ ok m)
        × (m.command ≡ tcp_stream)
        × (a ≡ record { kind = m.addr_type; addr = m.addr; port = m.port }))
  Sourced (relayed main buf) = Came (received out buf)
  Sourced (relayed out buf) = Came (received main buf)
  Sourced (relayed inner buf) = ⊥
  Sourced e = Unit

  abbrev pub FromEvents : Session → Type 0
  FromEvents s = All Sourced s.trace

  destroyed : (s : Session) → FromEvents s → FromEvents (destroy_self s)
  unfolding destroy_self
  destroyed s h = ground arith

  msg_sent :
      (o : Outcome (List ℕ)) (s : Session) → FromEvents s → FromEvents (send_msg (links env) o s)
  unfolding links
  msg_sent (ok buf) s h = unfold send_msg in ground arith
  msg_sent refused s h = unfold send_msg in destroyed s h
  msg_sent bad_variant s h = unfold send_msg in h
  msg_sent out_of_bounds s h = unfold send_msg in h

  errored :
      (reason : String) (s : Session)
      → FromEvents s
      → FromEvents (protocol_error (links env).cell (replies (links env)) reason s)
  unfolding protocol_error replies links
  errored reason s h = destroyed _ h

  proxy_told :
      (status : ℕ) (a : Address) (s : Session)
      → FromEvents s
      → FromEvents (on_proxy_started (links env) status a s)
  unfolding on_proxy_started links
  proxy_told status a s h =
      start_proxy_result_cases FromEvents (links env).cell (replies (links env)) s status a
        (λ reason. errored reason s h) (λ e m. msg_sent _ s h)

  auth_told :
      (success : Bool) (s : Session)
      → FromEvents s
      → FromEvents (process_pass_auth_result (links env).cell (replies (links env)) success s)
  unfolding links
  auth_told success s h =
      pass_auth_result_cases FromEvents (links env).cell (replies (links env)) s success
        (λ reason. errored reason s h)
        (λ e f. unfold replies in msg_sent _ ((links env).cell.put State.wait_for_command s) h)
        (λ e f. unfold replies in msg_sent _ s h)

  auth_completed :
      (success : Bool) (s : Session)
      → FromEvents s
      → FromEvents (on_auth_request_completed (links env) success s)
  unfolding on_auth_request_completed links
  auth_completed true s h = auth_told true s h
  auth_completed false s h = destroyed _ (auth_told false s h)

  asked :
      (buf : List ℕ) (m : UserPassAuthMsg) (s : Session)
      → Came (received main buf)
      → decode_user_pass buf fresh_user_pass ≡ ok m
      → FromEvents s
      → FromEvents (on_request_pass_auth env m.user m.password s)
  unfolding on_request_pass_auth
  asked buf m s came d h =
      auth_completed (env.auth_user_password m.user m.password)
        (note (checked m.user m.password (env.auth_user_password m.user m.password)) (touch s))
        ((buf, m, (came, d, refl, refl, refl)), h)

  ordered :
      (buf : List ℕ) (m : CommandMsg) (s : Session)
      → Came (received main buf)
      → decode_command buf ≡ ok m
      → FromEvents s
      → FromEvents (
          on_start_proxy env m.command
            (record { kind = m.addr_type; addr = m.addr; port = m.port })
            s)
  unfolding on_start_proxy
  ordered buf m s came d h =
      let a : Address = record { kind = m.addr_type; addr = m.addr; port = m.port } in
      let made = env.create_new_connection s.trace a in
      elim (Bool-cases (m.command == tcp_stream)) [
        | inl e ↦
            (let source : Sourced (connecting a) =
                (buf, m, (came, d, (==_iff m.command tcp_stream).0 e, refl)) in
              elim (Option-cases made) [
                | inl f ↦
                    rw (e, f, on_start_proxy)
                      (destroyed _ (
                        proxy_told general_failure no_address
                          (note (connecting a) (record (touch s) { out_conn = made })) (source, h)))
                | inr (c, f) ↦ rw (e, f, on_start_proxy) (source, h)
              ])
        | inr e ↦
            rw (e, on_start_proxy) (destroyed _ (proxy_told command_not_supported no_address s h))
      ]

  reached : (c : ℕ) (s : Session) → FromEvents s → FromEvents (on_connected env c s)
  unfolding on_connected
  reached c s h = elim (Option-cases (env.get_local_address s.trace c)) [
    | inl e ↦ rw (e, on_connected) (destroyed _ (proxy_told host_unreachable no_address s h))
    | inr (a, e) ↦ rw (e, on_connected) (tt, proxy_told request_granted a s h)
  ]

  message_taken :
      (buf : List ℕ) (s : Session)
      → Came (received main buf)
      → FromEvents s
      → FromEvents (on_receive (links env) (requests env) buf s)
  unfolding on_receive machine_owner requests replies links
  message_taken buf s came h =
      message_cases FromEvents (links env).cell (machine_owner (links env) (requests env)) s buf
        (λ reason. errored reason s h) (λ e. msg_sent _ s h)
        (λ e reason.
          errored reason ((replies (links env)).send_greeting_response no_available_method s) (
            msg_sent
              (encode_greeting_resp
                (record { version = version5; auth_method = no_available_method }) [])
              s h))
        (λ e m d. asked buf m ((links env).cell.put State.wait_for_pass_auth_result s) came d h)
        (λ e m d. ordered buf m ((links env).cell.put State.wait_for_proxy_start s) came d h)

  alone-FromEvents :
      (e : Event) (s : Session) → Came e → FromEvents s → FromEvents (handle_alone env e s)
  unfolding handle_alone
  alone-FromEvents (received main buf) s came h = message_taken buf s came h
  alone-FromEvents (closed main) s came h = unfold on_connection_closed links in destroyed s h
  alone-FromEvents connected s came h = elim (Option-cases s.out_conn) [
    | inl e ↦ rw (e, handle_alone) h
    | inr (c, e) ↦ rw (e, handle_alone) (reached c s h)
  ]
  alone-FromEvents _ s came h = h

  proxy-FromEvents :
      (e : Event) (s : Session) → Came e → FromEvents s → FromEvents (handle_proxy env e s)
  unfolding handle_proxy on_proxy_destroy
  proxy-FromEvents (received main buf) s came h = (came, h)
  proxy-FromEvents (received out buf) s came h = (came, h)
  proxy-FromEvents (received inner buf) s came h = h
  proxy-FromEvents (closed main) s came h = destroyed (note (disconnected out) (touch s)) (tt, h)
  proxy-FromEvents (closed out) s came h = destroyed (note (disconnected main) (touch s)) (tt, h)
  proxy-FromEvents (closed inner) s came h = destroyed s h
  proxy-FromEvents connected s came h = h

  pub handle-FromEvents :
      (e : Event) (s : Session) → Came e → FromEvents s → FromEvents (handle env e s)
  unfolding handle
  handle-FromEvents e s came h =
      if_cases FromEvents s.ended s _ (λ over. h)
        (λ on.
          if_cases FromEvents s.tcp_stream_proxy (handle_proxy env e s) (handle_alone env e s)
            (λ through. proxy-FromEvents e s came h) (λ direct. alone-FromEvents e s came h))

  pub run-FromEvents :
      (es : List Event) (s : Session) → All Came es → FromEvents s → FromEvents (run env es s)
  unfolding run
  run-FromEvents [] s came h = h
  run-FromEvents (e ∷ es) s came h =
      run-FromEvents es (handle env e s) came.1 (handle-FromEvents e s came.0 h)

-- Whatever reaches a new session, every effect has its cause among those events: a check is of the
-- name and the password of a login message that the client sent, with the authorizer's answer; a
-- connection is sought to the address and the port of a stream command that the client sent; and the
-- bytes that a proxy sends to one side are bytes that came from the other.
pub run-Sourced :
    (env : Env) (id : ℕ) (es : List Event)
    → All (Sourced env (λ e. Memᴰ e es)) (run env es (new_session id)).trace
run-Sourced env id es = run-FromEvents env (λ e. Memᴰ e es) es (new_session id) (All-Memᴰ es) tt
