-- ===== src/Session/Replies/Handlers/Conversation.antt =====
-- All the handlers of Session.cpp, and what a whole run sends the client.
use Prim.Native.String.{String}
use socks.Base.{
  if◌then◌else◌, ℕ, ◌≡◌, refl, ◌∙◌, ◌⊎◌, inl, inr, List, [], ◌∷◌, true, false, Bool-cases,
  Option-cases, if_cases, some,
}
use socks.Base.Buffer.{ok, refused}
use socks.Types.{Address, version5, host_unreachable, request_granted}
use socks.Encoder.{encode_command_resp}
use socks.Encoder.Command.{HasSize}
use socks.Encoder.Command.Resp.{fits, encode_command_resp_lem}
use socks.Wire.{kind}
use socks.StateMachine.{State, protocol_error}
use socks.StateMachine.Cases.{start_proxy_result_cases, buffer_cases}
use socks.Tracker.{replies, on_proxy_started, on_receive, machine_owner, on_connection_closed}
use socks.Proxy.{Direction, main, out, inner}
use socks.Session.{
  Effect, proxy_created, disconnected, Env, Session, Event, received, closed, connected, links,
  requests, touch, note, destroy_self, on_proxy_destroy, new_session, on_connected, handle_alone,
  handle_proxy, handle, run,
}
use socks.Session.Replies.{
  to_client, Opened, opened, Dialogue, silent, granted, logged_in, Waits, Sound, Inv, Quiet-Sound,
  destroyed, send_msg_cases, send_refused, protocol_error-Inv, granted_answer,
}
use socks.SocketAddress.{Sockaddr, get_address}
use socks.SocketAddress.Sizes.{IsSockaddr, get_address-HasSize}
use socks.Session.Replies.Handlers.{
  put-Sound, said-Sound, greeting_offered, greeting_declined, login-Inv, unaddressed, command-Inv,
}

pub new_session-Inv : (id : ℕ) → Inv (new_session id)
new_session-Inv id = (record { dialogue = silent; calm = refl }, inr (inl (refl, refl)))

module _ (env : Env) where
  answer_made :
      (a : Address)
      → a.kind ≡ kind a.addr
      → HasSize a.addr
      → encode_command_resp
          (record {
            version = version5;
            status = request_granted;
            addr_type = a.kind;
            addr = a.addr;
            port = a.port;
          })
          []
        ≡ (if fits a.addr then ok (granted_answer a.addr a.port) else refused)
  answer_made a k size = rw k (encode_command_resp_lem 5 0 a.addr a.port [] size)

  -- Deleted, or with the answer out.
  abbrev Answered : Session → Type 0
  Answered t = Sound t × ((t.ended ≡ true) ⊎ Opened (to_client t.trace))

  Answered-put : (m : State) (t : Session) → Answered t → Answered ((links env).cell.put m t)
  unfolding links
  Answered-put m t (h, o) = (record { dialogue = h.dialogue; calm = h.calm }, o)

  answer-Answered :
      (a : Address) (s : Session)
      → a.kind ≡ kind a.addr
      → HasSize a.addr
      → Sound s
      → to_client s.trace ≡ logged_in
      → Answered ((replies (links env)).send_command_response request_granted a s)
  unfolding replies note touch
  answer-Answered a s k size h said = elim (Bool-cases (fits a.addr)) [
    | inl f ↦
        (let o : Opened (granted_answer a.addr a.port ∷ to_client s.trace) =
            rw said (opened a.addr a.port [] size f) in
          send_msg_cases env Answered _ (granted_answer a.addr a.port) s
            (answer_made a k size ∙ rw f refl) (λ t over q. (Quiet-Sound s t q h, inl over))
            (said-Sound env (granted_answer a.addr a.port) s h.calm (granted o), inr o))
    | inr f ↦
        send_refused env Answered _ s (answer_made a k size ∙ rw f refl)
          (λ t over q. (Quiet-Sound s t q h, inl over))
  ]

  failed_Answered :
      (reason : String) (s : Session)
      → Sound s
      → Answered (protocol_error (links env).cell (replies (links env)) reason s)
  unfolding protocol_error replies links destroy_self
  failed_Answered reason s h = ((protocol_error-Inv env reason s h).0, inl refl)

  with_proxy :
      (s : Session)
      → Answered s
      → Inv (note proxy_created (record (touch s) { tcp_stream_proxy = true }))
  unfolding note touch
  with_proxy s (h, inl over) = (record { dialogue = h.dialogue; calm = h.calm }, inl over)
  with_proxy s (h, inr o) = (record { dialogue = h.dialogue; calm = h.calm }, inr (inr (refl, o)))

  waiting_said :
      (s : Session) (m : State)
      → Waits s.machine (to_client s.trace)
      → s.machine ≡ m
      → Waits m (to_client s.trace)
  waiting_said s m w e = rw e at w

  module _
      (local : (t : List Effect) (c : ℕ) (a : Address)
        → env.get_local_address t c ≡ some a
        → (sockaddr : Sockaddr) × (IsSockaddr sockaddr × (get_address sockaddr ≡ some a))) where
    connected-Inv :
        (c : ℕ) (s : Session)
        → Sound s
        → Waits s.machine (to_client s.trace)
        → Inv (on_connected env c s)
    unfolding on_connected on_proxy_started
    connected-Inv c s h w = elim (Option-cases (env.get_local_address s.trace c)) [
      | inl e ↦ rw (e, on_connected) (destroyed _ (unaddressed env host_unreachable s h))
      | inr (a, e) ↦
          rw (e, on_connected)
            (with_proxy (on_proxy_started (links env) request_granted a s) (
              start_proxy_result_cases Answered (links env).cell (replies (links env)) s
                request_granted a (λ reason. failed_Answered reason s h)
                (λ f m.
                  let (sockaddr, (size, told)) = local s.trace c a e in
                  let (k, sized) = get_address-HasSize sockaddr a size told in
                  Answered-put m _ (
                    answer-Answered a s k sized h
                      (waiting_said s State.wait_for_proxy_start w f)))))
    ]

    receive-Inv :
        (buf : List ℕ) (s : Session)
        → Sound s
        → s.tcp_stream_proxy ≡ false
        → Waits s.machine (to_client s.trace)
        → Inv (on_receive (links env) (requests env) buf s)
    unfolding on_receive machine_owner requests
    receive-Inv buf s h alone w =
        buffer_cases Inv (links env).cell (machine_owner (links env) (requests env)) s buf
          (λ reason. protocol_error-Inv env reason s h)
          (λ e. greeting_offered env s h alone (waiting_said s State.wait_for_greeting w e))
          (λ e reason.
            protocol_error-Inv env reason _
              (greeting_declined env s h (waiting_said s State.wait_for_greeting w e)))
          (λ e u p.
            login-Inv env u p ((links env).cell.put State.wait_for_pass_auth_result s)
              (put-Sound env State.wait_for_pass_auth_result s h) alone
              (waiting_said s State.wait_for_pass_auth w e) refl)
          (λ e c a.
            command-Inv env c a ((links env).cell.put State.wait_for_proxy_start s)
              (put-Sound env State.wait_for_proxy_start s h) alone
              (waiting_said s State.wait_for_command w e) refl)

    handle_alone-Inv :
        (e : Event) (s : Session)
        → Sound s
        → s.tcp_stream_proxy ≡ false
        → Waits s.machine (to_client s.trace)
        → Inv (handle_alone env e s)
    unfolding handle_alone
    handle_alone-Inv (received main buf) s h alone w = receive-Inv buf s h alone w
    handle_alone-Inv (closed main) s h alone w = unfold on_connection_closed links in destroyed s h
    handle_alone-Inv connected s h alone w = elim (Option-cases s.out_conn) [
      | inl e ↦ rw (e, handle_alone) (h, inr (inl (alone, w)))
      | inr (c, e) ↦ rw (e, handle_alone) (connected-Inv c s h w)
    ]
    handle_alone-Inv _ s h alone w = (h, inr (inl (alone, w)))

    Opened-cons : (buf : List ℕ) (said : List (List ℕ)) → Opened said → Opened (buf ∷ said)
    Opened-cons buf said (opened addr port chunks size f) = opened addr port (buf ∷ chunks) size f

    quiet_effect : (d : Direction) (s : Session) → Sound s → Sound (note (disconnected d) (touch s))
    unfolding note touch
    quiet_effect d s h = record { dialogue = h.dialogue; calm = h.calm }

    handle_proxy-Inv :
        (e : Event) (s : Session)
        → Sound s
        → s.tcp_stream_proxy ≡ true
        → Opened (to_client s.trace)
        → Inv (handle_proxy env e s)
    unfolding handle_proxy on_proxy_destroy
    handle_proxy-Inv (received main buf) s h on o =
        (record { dialogue = h.dialogue; calm = h.calm }, inr (inr (on, o)))
    handle_proxy-Inv (received out buf) s h on o =
        let o' : Opened (buf ∷ to_client s.trace) = Opened-cons buf _ o in
        (record { dialogue = granted o'; calm = h.calm }, inr (inr (on, o')))
    handle_proxy-Inv (received inner buf) s h on o = (h, inr (inr (on, o)))
    handle_proxy-Inv (closed main) s h on o = destroyed _ (quiet_effect out s h)
    handle_proxy-Inv (closed out) s h on o = destroyed _ (quiet_effect main s h)
    handle_proxy-Inv (closed inner) s h on o = destroyed s h
    handle_proxy-Inv connected s h on o = (h, inr (inr (on, o)))

    pub handle-Inv : (e : Event) (s : Session) → Inv s → Inv (handle env e s)
    unfolding handle
    handle-Inv e s (h, inl over) =
        if_cases Inv s.ended s _ (λ o. (h, inl over)) (λ on. cc (over, on))
    handle-Inv e s (h, inr stage) =
        if_cases Inv s.ended s _ (λ over. (h, inl over))
          (λ on.
            if_cases Inv s.tcp_stream_proxy (handle_proxy env e s) (handle_alone env e s)
              (λ through. elim stage [
                | inl (alone, w) ↦ cc (alone, through)
                | inr (on, o) ↦ handle_proxy-Inv e s h on o
              ])
              (λ direct. elim stage [
                | inl (alone, w) ↦ handle_alone-Inv e s h alone w
                | inr (on, o) ↦ cc (on, direct)
              ]))

    run-Inv : (es : List Event) (s : Session) → Inv s → Inv (run env es s)
    unfolding run
    run-Inv [] s h = h
    run-Inv (e ∷ es) s h = run-Inv es (handle env e s) (handle-Inv e s h)

    -- Where the local address of every connection is made of a socket address of its family's size: whatever happens to a
    -- new session, what its client has received is one of these, and no handler ends by an exception:
    -- nothing; 5, 255; 5, 2; then 5, 1, or 5, 0 and after it perhaps one answer 5, 0 with an address
    -- and, only behind that answer, the bytes of the proxy.
    pub run-Dialogue :
        (id : ℕ) (es : List Event)
        → Dialogue (to_client (run env es (new_session id)).trace)
          × ((run env es (new_session id)).threw ≡ false)
    run-Dialogue id es =
        let h : Inv (run env es (new_session id)) =
          run-Inv es (new_session id) (new_session-Inv id) in
        (h.0.dialogue, h.0.calm)
