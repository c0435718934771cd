-- ===== src/StateMachine/Cases.antt =====
-- The ways through the methods of StateMachine.cpp, for a property of the world that they leave.
use Prim.Native.String.{String}
use socks.Base.{ℕ, ◌≡◌, refl, inl, inr, List, Bool, true, false, ◌==◌, Bool-cases}
use socks.Base.Buffer.{ok}
use socks.Decoder.{decode_user_pass, decode_command}
use socks.Types.{
  Address, UserPassAuthMsg, CommandMsg, fresh_greeting, fresh_user_pass, auth_login_pass,
  no_available_method, request_granted,
}
use socks.Decoder.Exact.{decode-Returns}
use socks.StateMachine.{
  State, Cell, Replies, Owner, offers, protocol_error, process_buffer, process_greeting_msg,
  process_pass_auth_msg, process_command_msg, process_pass_auth_result, process_start_proxy_result,
}

module _ {ℓ} {W : Type 0} (P : W → Type ℓ) (cell : Cell W) where
  module _ (owner : Replies W) (w : W) where
    pub pass_auth_result_cases :
        (success : Bool)
        → ((reason : String) → P (protocol_error cell owner reason w))
        → (success ≡ true
            → cell.get w ≡ State.wait_for_pass_auth_result
            → P (owner.send_pass_auth_response 0x00 (cell.put State.wait_for_command w)))
        → (success ≡ false
            → cell.get w ≡ State.wait_for_pass_auth_result
            → P (owner.send_pass_auth_response 0x01 w))
        → P (process_pass_auth_result cell owner success w)
    unfolding process_pass_auth_result
    pass_auth_result_cases success bad good denied = go (cell.get w) refl success refl
      where
        go :
            (s : State)
            → cell.get w ≡ s
            → (b : Bool) → success ≡ b
            → P (process_pass_auth_result cell owner success w)
        go State.wait_for_pass_auth_result e true f = rw (e, f, process_pass_auth_result) (good f e)
        go State.wait_for_pass_auth_result e false f =
            rw (e, f, process_pass_auth_result) (denied f e)
        go _ e b f = rw (e, process_pass_auth_result) (bad _)

    pub start_proxy_result_cases :
        (status : ℕ) (a : Address)
        → ((reason : String) → P (protocol_error cell owner reason w))
        → (cell.get w ≡ State.wait_for_proxy_start
            → (s : State) → P (cell.put s (owner.send_command_response status a w)))
        → P (process_start_proxy_result cell owner status a w)
    unfolding process_start_proxy_result
    start_proxy_result_cases status a bad good =
        go (cell.get w) refl (status == request_granted) refl
      where
        go :
            (s : State)
            → cell.get w ≡ s
            → (b : Bool) → (status == request_granted) ≡ b
            → P (process_start_proxy_result cell owner status a w)
        go State.wait_for_proxy_start e true f =
            rw (e, f, process_start_proxy_result) (good e State.proxy_started)
        go State.wait_for_proxy_start e false f =
            rw (e, f, process_start_proxy_result) (good e State.proxy_start_failed)
        go _ e b f = rw (e, process_start_proxy_result) (bad _)

  module _ (owner : Owner W) (w : W) where
    pub message_cases :
        (buf : List ℕ)
        → ((reason : String) → P (protocol_error cell owner.replies reason w))
        → (cell.get w ≡ State.wait_for_greeting
            → P (
                cell.put State.wait_for_pass_auth (owner.send_greeting_response auth_login_pass w)))
        → (cell.get w ≡ State.wait_for_greeting
            → (reason : String)
            → P (
                protocol_error cell owner.replies reason
                  (owner.send_greeting_response no_available_method w)))
        → (cell.get w ≡ State.wait_for_pass_auth
            → (m : UserPassAuthMsg) → decode_user_pass buf fresh_user_pass ≡ ok m
            → P (
                owner.request_pass_auth m.user m.password
                  (cell.put State.wait_for_pass_auth_result w)))
        → (cell.get w ≡ State.wait_for_command
            → (m : CommandMsg) → decode_command buf ≡ ok m
            → P (
                owner.start_proxy m.command
                  (record { kind = m.addr_type; addr = m.addr; port = m.port })
                  (cell.put State.wait_for_proxy_start w)))
        → P (process_buffer cell owner buf w)
    unfolding process_buffer
    message_cases buf bad offered away asked ordered = go (cell.get w) refl
      where
        go : (s : State) → cell.get w ≡ s → P (process_buffer cell owner buf w)
        go State.wait_for_greeting e = elim (decode-Returns buf fresh_greeting fresh_user_pass).0 [
          | inl d ↦ rw (e, d, process_buffer) (bad _)
          | inr (m, d) ↦ elim (Bool-cases (offers auth_login_pass m.auth_methods)) [
            | inl o ↦ rw (e, d, process_buffer) (rw (e, o, process_greeting_msg) (offered e))
            | inr o ↦ rw (e, d, process_buffer) (rw (e, o, process_greeting_msg) (away e _))
          ]
        ]
        go State.wait_for_pass_auth e = elim (decode-Returns buf fresh_greeting fresh_user_pass).1 [
          | inl d ↦ rw (e, d, process_buffer) (bad _)
          | inr (m, d) ↦ rw (e, d, process_buffer) (rw (e, process_pass_auth_msg) (asked e m d))
        ]
        go State.wait_for_command e = elim (decode-Returns buf fresh_greeting fresh_user_pass).2 [
          | inl d ↦ rw (e, d, process_buffer) (bad _)
          | inr (m, d) ↦ rw (e, d, process_buffer) (rw (e, process_command_msg) (ordered e m d))
        ]
        go _ e = rw (e, process_buffer) (bad _)

    pub buffer_cases :
        (buf : List ℕ)
        → ((reason : String) → P (protocol_error cell owner.replies reason w))
        → (cell.get w ≡ State.wait_for_greeting
            → P (
                cell.put State.wait_for_pass_auth (owner.send_greeting_response auth_login_pass w)))
        → (cell.get w ≡ State.wait_for_greeting
            → (reason : String)
            → P (
                protocol_error cell owner.replies reason
                  (owner.send_greeting_response no_available_method w)))
        → (cell.get w ≡ State.wait_for_pass_auth
            → (user password : List ℕ)
            → P (
                owner.request_pass_auth user password (cell.put State.wait_for_pass_auth_result w)))
        → (cell.get w ≡ State.wait_for_command
            → (command : ℕ) (a : Address)
            → P (owner.start_proxy command a (cell.put State.wait_for_proxy_start w)))
        → P (process_buffer cell owner buf w)
    buffer_cases buf bad offered away asked ordered =
        message_cases buf bad offered away (λ e m d. asked e m.user m.password)
          (λ e m d. ordered e m.command _)
