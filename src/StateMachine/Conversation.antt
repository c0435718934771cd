-- ===== src/StateMachine/Conversation.antt =====
-- What the machine of StateMachine.cpp can have said to its owner, state by state.
use Prim.Native.String.{String}
use socks.Base.{ℕ, ◌≢◌, inl, inr, List, [], ◌∷◌, Bool, true, false, arith, ◌==◌, ==_iff, Bool-cases}
use socks.Types.{
  Address, GreetingMsg, fresh_greeting, fresh_user_pass, auth_login_pass, no_available_method,
  request_granted,
}
use socks.Decoder.Exact.{decode-Returns}
use socks.StateMachine.{
  State, offers, protocol_error, process_buffer, process_greeting_msg, process_pass_auth_result,
  process_start_proxy_result,
}
use socks.StateMachine.Recorder.{
  Call, greeting_response, pass_auth_request, pass_auth_response, proxy_request, command_response,
  error, Recorder, recorder, recorder_cell, Event, buffer, pass_auth_result, start_proxy_result,
  step, init, run,
}

-- The calls, newest first, that can have led to a state. A denied password leaves the machine
-- waiting for another result; anything unexpected is an error, from which nothing but errors follow.
pub data Conversation : State → List Call → Type 0 where
  opened : Conversation State.wait_for_greeting []
  offered :
      {cs : List Call}
      → Conversation State.wait_for_greeting cs
      → Conversation State.wait_for_pass_auth (greeting_response auth_login_pass ∷ cs)
  turned_away :
      {cs : List Call} (t : String)
      → Conversation State.wait_for_greeting cs
      → Conversation State.protocol_failed (error t ∷ greeting_response no_available_method ∷ cs)
  asked :
      {cs : List Call} (user password : List ℕ)
      → Conversation State.wait_for_pass_auth cs
      → Conversation State.wait_for_pass_auth_result (pass_auth_request user password ∷ cs)
  denied :
      {cs : List Call}
      → Conversation State.wait_for_pass_auth_result cs
      → Conversation State.wait_for_pass_auth_result (pass_auth_response 0x01 ∷ cs)
  admitted :
      {cs : List Call}
      → Conversation State.wait_for_pass_auth_result cs
      → Conversation State.wait_for_command (pass_auth_response 0x00 ∷ cs)
  ordered :
      {cs : List Call} (command : ℕ) (address : Address)
      → Conversation State.wait_for_command cs
      → Conversation State.wait_for_proxy_start (proxy_request command address ∷ cs)
  started :
      {cs : List Call} (local_address : Address)
      → Conversation State.wait_for_proxy_start cs
      → Conversation State.proxy_started (command_response request_granted local_address ∷ cs)
  failed :
      {cs : List Call} (status : ℕ) (local_address : Address)
      → status ≢ request_granted
      → Conversation State.wait_for_proxy_start cs
      → Conversation State.proxy_start_failed (command_response status local_address ∷ cs)
  broken :
      {s : State} {cs : List Call} (t : String)
      → Conversation s cs
      → Conversation State.protocol_failed (error t ∷ cs)

abbrev pub Holds : Recorder → Type 0
Holds r = Conversation r.state r.calls

abbrev at : State → List Call → Recorder
at s cs = record { state = s; calls = cs }

protocol_error-Holds :
    (reason : String) (s : State) (cs : List Call)
    → Conversation s cs
    → Holds (protocol_error recorder_cell recorder.replies reason (at s cs))
unfolding protocol_error
protocol_error-Holds reason s cs h = broken _ h

pass_auth_result-Holds :
    (success : Bool) (s : State) (cs : List Call)
    → Conversation s cs
    → Holds (step (pass_auth_result success) (at s cs))
unfolding step process_pass_auth_result
pass_auth_result-Holds true State.wait_for_pass_auth_result cs h = admitted h
pass_auth_result-Holds false State.wait_for_pass_auth_result cs h = denied h
pass_auth_result-Holds success _ cs h = broken _ h

start_proxy_result-Holds :
    (status : ℕ) (a : Address) (s : State) (cs : List Call)
    → Conversation s cs
    → Holds (step (start_proxy_result status a) (at s cs))
unfolding step process_start_proxy_result
start_proxy_result-Holds status a State.wait_for_proxy_start cs h =
    elim (Bool-cases (status == request_granted)) [
      | inl granted ↦ rw (granted, (==_iff status request_granted).0 granted) (started a h)
      | inr other ↦ rw other (failed status a (ground arith) h)
    ]
start_proxy_result-Holds status a _ cs h = broken _ h

greeting-Holds :
    (m : GreetingMsg) (cs : List Call)
    → Conversation State.wait_for_greeting cs
    → Holds (process_greeting_msg recorder_cell recorder m (at State.wait_for_greeting cs))
unfolding process_greeting_msg
greeting-Holds m cs h = elim (Bool-cases (offers auth_login_pass m.auth_methods)) [
  | inl offer ↦ rw offer (offered h)
  | inr none ↦ rw none (turned_away _ h)
]

buffer-Holds :
    (buf : List ℕ) (s : State) (cs : List Call)
    → Conversation s cs
    → Holds (step (buffer buf) (at s cs))
unfolding step process_buffer
buffer-Holds buf State.wait_for_greeting cs h =
    elim (decode-Returns buf fresh_greeting fresh_user_pass).0 [
      | inl e ↦ rw (e, process_buffer) (broken _ h)
      | inr (m, e) ↦ rw (e, process_buffer) (greeting-Holds m cs h)
    ]
buffer-Holds buf State.wait_for_pass_auth cs h =
    elim (decode-Returns buf fresh_greeting fresh_user_pass).1 [
      | inl e ↦ rw (e, process_buffer) (broken _ h)
      | inr (m, e) ↦ rw (e, process_buffer) (asked m.user m.password h)
    ]
buffer-Holds buf State.wait_for_command cs h =
    elim (decode-Returns buf fresh_greeting fresh_user_pass).2 [
      | inl e ↦ rw (e, process_buffer) (broken _ h)
      | inr (m, e) ↦ rw (e, process_buffer) (ordered m.command _ h)
    ]
buffer-Holds buf _ cs h = broken _ h

step-Holds : (e : Event) (r : Recorder) → Holds r → Holds (step e r)
step-Holds (buffer buf) r h = buffer-Holds buf r.state r.calls h
step-Holds (pass_auth_result success) r h = pass_auth_result-Holds success r.state r.calls h
step-Holds (start_proxy_result status a) r h = start_proxy_result-Holds status a r.state r.calls h

run-Holds : (es : List Event) (r : Recorder) → Holds r → Holds (run es r)
unfolding run
run-Holds [] r h = h
run-Holds (e ∷ es) r h = run-Holds es (step e r) (step-Holds e r h)

-- Whatever buffers and results reach a new machine, in whatever order, the calls that it has made
-- and the state that it is in are those of a conversation: a greeting answered, one request for
-- authentication, its results, one proxy request after a success, one command response, or an error.
pub run-Conversation : (es : List Event) → Conversation (run es init).state (run es init).calls
run-Conversation es = run-Holds es init opened
