-- ===== src/Tests/Machine.antt =====
-- The machine of StateMachine.cpp in conversations of a few events.
use socks.Base.Buffer.{load_range}
use socks.StateMachine.Conversation.{Conversation, run-Conversation}
use socks.StateMachine.{process_pass_auth_result, offers, process_buffer}
use socks.Decoder.{decode_greeting, decode_user_pass, decode_command}
use socks.StateMachine.Recorder.{
  buffer, pass_auth_response, Event, greeting_response, proxy_request, init, pass_auth_request, run,
  pass_auth_result, Call,
}
use socks.StateMachine.Order.{asking, proxy_after_login}
use socks.Types.{
  is_command_exist, ipv4, is_address_type_exist, is_auth_method_exist, Address, is_version_support,
}
use socks.Base.{refl, true, false, [], ◌≡◌, ◌∷◌, List, ℕ}

abbrev hello_bytes : List ℕ
hello_bytes = 5 ∷ 1 ∷ 2 ∷ []

abbrev login_bytes : List ℕ
login_bytes = 1 ∷ 1 ∷ 1 ∷ 2 ∷ 7 ∷ 8 ∷ []

abbrev ping_bytes : List ℕ
ping_bytes = 5 ∷ 1 ∷ 0 ∷ 1 ∷ 127 ∷ 0 ∷ 0 ∷ 1 ∷ 0 ∷ 80 ∷ []

abbrev ping_address : Address
ping_address = record { kind = 1; addr = ipv4 (127 ∷ 0 ∷ 0 ∷ 1 ∷ []); port = 20480 }

-- A login that is denied once and then accepted, and a command.
abbrev script : List Event
script =
    buffer hello_bytes
    ∷ buffer login_bytes
    ∷ pass_auth_result false
    ∷ pass_auth_result true
    ∷ buffer ping_bytes
    ∷ []

abbrev before_command : List Call
before_command =
    pass_auth_response 0
    ∷ pass_auth_response 1
    ∷ pass_auth_request (1 ∷ []) (7 ∷ 8 ∷ [])
    ∷ greeting_response 2
    ∷ []

script_calls : (run script init).calls ≡ proxy_request 1 ping_address ∷ before_command
unfolding run process_buffer process_pass_auth_result offers decode_greeting decode_user_pass
    decode_command load_range is_version_support is_auth_method_exist is_command_exist
    is_address_type_exist
script_calls = refl

run-Conversation_example : Conversation (run script init).state (run script init).calls
run-Conversation_example = run-Conversation script

proxy_after_login_example :
    (n : ℕ) × (user : List ℕ) × (password : List ℕ) × (before_command
      ≡ pass_auth_response 0x00 ∷ asking n user password)
proxy_after_login_example = proxy_after_login script [] before_command 1 ping_address script_calls
