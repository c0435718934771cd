-- ===== src/StateMachine/ErrorText.antt =====
-- The text of `protocolError` of StateMachine.cpp.
use Prim.Native.String
use Prim.Native.String.{String}
use socks.Base.{◌≡◌, refl, List, [], ◌∷◌, All}
use socks.StateMachine.{error_text, protocol_error, state_to_str}
use socks.StateMachine.Cases.{buffer_cases, pass_auth_result_cases, start_proxy_result_cases}
use socks.StateMachine.Recorder.{
  Call, greeting_response, error, Recorder, recorder, recorder_cell, Event, buffer,
  pass_auth_result, start_proxy_result, step, init, run,
}

-- An error's text says that the machine was in State::ProtocolError.
abbrev pub NamesFailed : Call → Type 0
NamesFailed (error t) =
    (reason : String) × (t
      ≡ String.◌++◌ "Protocol error in state: "
          (String.◌++◌ "State::ProtocolError" (String.◌++◌ ", reason: " reason)))
NamesFailed c = Unit

abbrev Named : Recorder → Type 0
Named r = All NamesFailed r.calls

failed-Named :
    (reason : String) (r : Recorder)
    → Named r
    → Named (protocol_error recorder_cell recorder.replies reason r)
unfolding protocol_error error_text state_to_str
failed-Named reason r h = ((reason, refl), h)

step-Named : (e : Event) (r : Recorder) → Named r → Named (step e r)
unfolding step
step-Named (buffer buf) r h =
    buffer_cases Named recorder_cell recorder r buf (λ t. failed-Named t r h) (λ e. (tt, h))
      (λ e t. failed-Named t (record r { calls = greeting_response 0xff ∷ r.calls }) (tt, h))
      (λ e u p. (tt, h)) (λ e c a. (tt, h))
step-Named (pass_auth_result success) r h =
    pass_auth_result_cases Named recorder_cell recorder.replies r success (λ t. failed-Named t r h)
      (λ good e. (tt, h)) (λ e f. (tt, h))
step-Named (start_proxy_result status a) r h =
    start_proxy_result_cases Named recorder_cell recorder.replies r status a
      (λ t. failed-Named t r h) (λ e s. (tt, h))

run-Named : (es : List Event) (r : Recorder) → Named r → Named (run es r)
unfolding run
run-Named [] r h = h
run-Named (e ∷ es) r h = run-Named es (step e r) (step-Named e r h)

-- Whatever events reach a new machine, every error it reports says that it happened in
-- State::ProtocolError, so no text tells the state in which the error arose.
pub errors_name_failed : (es : List Event) → All NamesFailed (run es init).calls
errors_name_failed es = run-Named es init tt
