-- ===== src/StateMachine.antt =====
-- StateMachine.h and StateMachine.cpp. The machine calls its owner (IStateMachineOwner) in the
-- middle of its methods, and the owner may call it back, so a method is a function on the whole
-- world `W`, in which a `Cell` finds the machine's `_state`. Logging is left out.
pub mod Recorder
pub mod Conversation
pub mod Order
pub mod Cases
pub mod ErrorText
use Prim.Native.String.{String, ◌++◌}
use socks.Base.{ℕ, List, [], ◌∷◌, Bool, true, false, ◌==◌, if◌then◌else◌}
use socks.Base.Buffer.{ok}
use socks.Types.{
  Address, GreetingMsg, UserPassAuthMsg, CommandMsg, fresh_greeting, fresh_user_pass,
  auth_login_pass, no_available_method, request_granted,
}
use socks.Decoder.{decode_greeting, decode_user_pass, decode_command}

pub data State : Type 0 where
  wait_for_greeting wait_for_pass_auth wait_for_pass_auth_result wait_for_command : State
  wait_for_proxy_start proxy_started proxy_start_failed protocol_failed : State

unfoldable pub state_to_str : State → String
state_to_str State.wait_for_greeting = "State::WaitForGreeting"
state_to_str State.wait_for_pass_auth = "State::WaitForPassAuth"
state_to_str State.wait_for_pass_auth_result = "State::WaitForPassAuthResult"
state_to_str State.wait_for_command = "State::WaitForCommand"
state_to_str State.wait_for_proxy_start = "State::WaitForProxyStart"
state_to_str State.proxy_started = "State::ProxyStarted"
state_to_str State.proxy_start_failed = "State::ProxyStartFailed"
state_to_str State.protocol_failed = "State::ProtocolError"

-- Where the machine's state stands in the world.
pub record Cell (W : Type 0) : Type 0 where
  pub get : W → State
  pub put : State → W → W

-- IStateMachineOwner: the calls that answer the client, and those that ask the session.
pub record Replies (W : Type 0) : Type 0 where
  pub send_greeting_response : ℕ → W → W
  pub send_pass_auth_response : ℕ → W → W
  pub send_command_response : ℕ → Address → W → W
  pub on_protocol_error : String → W → W

pub record Owner (W : Type 0) : Type 0 where
  pub replies : Replies W
  pub open replies use *
  pub request_pass_auth : List ℕ → List ℕ → W → W
  pub start_proxy : ℕ → Address → W → W

-- `std::find(authMethods.begin(), authMethods.end(), m) != authMethods.end()`
unfoldable pub offers : ℕ → List ℕ → Bool
offers m [] = false
offers m (x ∷ xs) = if x == m then true else offers m xs

module _ {W : Type 0} (cell : Cell W) (owner : Replies W) where
  set_state : State → W → W
  set_state s w = cell.put s w

  -- The state is set before the text names it.
  unfoldable pub error_text : String → W → String
  error_text reason w =
      "Protocol error in state: " ++ (state_to_str (cell.get w) ++ (", reason: " ++ reason))

  unfoldable pub protocol_error : String → W → W
  unfolding set_state
  protocol_error reason w =
      let w' = set_state State.protocol_failed w in
      owner.on_protocol_error (error_text reason w') w'

  unfoldable pub process_pass_auth_result : Bool → W → W
  unfolding protocol_error set_state
  process_pass_auth_result success w = elim (cell.get w) [
    | State.wait_for_pass_auth_result ↦
        (if success
          then owner.send_pass_auth_response 0x00 (set_state State.wait_for_command w)
          else owner.send_pass_auth_response 0x01 w)
    | _ ↦ protocol_error "Password authentication result is not expected" w
  ]

  unfoldable pub process_start_proxy_result : ℕ → Address → W → W
  unfolding protocol_error set_state
  process_start_proxy_result status local_address w = elim (cell.get w) [
    | State.wait_for_proxy_start ↦
        (let w' = owner.send_command_response status local_address w in
          if status == request_granted
          then set_state State.proxy_started w'
          else set_state State.proxy_start_failed w')
    | _ ↦ protocol_error "Start proxy is not expected" w
  ]

module _ {W : Type 0} (cell : Cell W) (owner : Owner W) where
  chosen_method : List ℕ → ℕ
  chosen_method methods =
      if offers auth_login_pass methods then auth_login_pass else no_available_method

  unfoldable pub process_greeting_msg : GreetingMsg → W → W
  unfolding chosen_method protocol_error set_state
  process_greeting_msg msg w = elim (cell.get w) [
    | State.wait_for_greeting ↦
        (let res = chosen_method msg.auth_methods in
          let w' = owner.send_greeting_response res w in
          if res == auth_login_pass
          then set_state cell owner.replies State.wait_for_pass_auth w'
          else protocol_error cell owner.replies "Unsupported auth method" w')
    | _ ↦ protocol_error cell owner.replies "Greeting is not expected" w
  ]

  unfoldable pub process_pass_auth_msg : UserPassAuthMsg → W → W
  unfolding protocol_error set_state
  process_pass_auth_msg msg w = elim (cell.get w) [
    | State.wait_for_pass_auth ↦
        owner.request_pass_auth msg.user msg.password
          (set_state cell owner.replies State.wait_for_pass_auth_result w)
    | _ ↦ protocol_error cell owner.replies "Password auth is not expected" w
  ]

  unfoldable pub process_command_msg : CommandMsg → W → W
  unfolding protocol_error set_state
  process_command_msg msg w = elim (cell.get w) [
    | State.wait_for_command ↦
        owner.start_proxy msg.command
          (record { kind = msg.addr_type; addr = msg.addr; port = msg.port })
          (set_state cell owner.replies State.wait_for_proxy_start w)
    | _ ↦ protocol_error cell owner.replies "Command is not expected" w
  ]

  -- An outcome other than `ok` is the decoder's `false`.
  unfoldable pub process_buffer : List ℕ → W → W
  unfolding process_greeting_msg process_pass_auth_msg process_command_msg
  process_buffer buf w = elim (cell.get w) [
    | State.wait_for_greeting ↦ (elim (decode_greeting buf fresh_greeting) [
      | ok msg ↦ process_greeting_msg msg w
      | _ ↦ protocol_error cell owner.replies "Greeting decode error" w
    ])
    | State.wait_for_pass_auth ↦ (elim (decode_user_pass buf fresh_user_pass) [
      | ok msg ↦ process_pass_auth_msg msg w
      | _ ↦ protocol_error cell owner.replies "User/Password authentication decode error" w
    ])
    | State.wait_for_command ↦ (elim (decode_command buf) [
      | ok msg ↦ process_command_msg msg w
      | _ ↦ protocol_error cell owner.replies "Command decode error" w
    ])
    | _ ↦ protocol_error cell owner.replies "Message in wrong state" w
  ]
