-- ===== src/StateMachine/Recorder.antt =====
-- The machine of StateMachine.cpp beside an owner that records every call, newest first. Results
-- come as events of their own, in any order, as IStateMachineOwner leaves open.
use Prim.Native.String.{String}
use socks.Base.{ℕ, List, [], ◌∷◌, Bool}
use socks.Types.{Address}
use socks.StateMachine.{
  State, Cell, Owner, process_buffer, process_pass_auth_result, process_start_proxy_result,
}

pub data Call : Type 0 where
  greeting_response : ℕ → Call
  pass_auth_request : List ℕ → List ℕ → Call
  pass_auth_response : ℕ → Call
  proxy_request : ℕ → Address → Call
  command_response : ℕ → Address → Call
  error : String → Call

pub record Recorder : Type 0 where
  pub state : State
  pub calls : List Call

abbrev pub recorder_cell : Cell Recorder
recorder_cell = record { get = λ r. r.state; put = λ s r. record r { state = s } }

abbrev note : Call → Recorder → Recorder
note c r = record r { calls = c ∷ r.calls }

abbrev pub recorder : Owner Recorder
recorder = record {
  replies = record {
    send_greeting_response = λ m. note (greeting_response m);
    send_pass_auth_response = λ s. note (pass_auth_response s);
    send_command_response = λ s a. note (command_response s a);
    on_protocol_error = λ t. note (error t);
  };
  request_pass_auth = λ u p. note (pass_auth_request u p);
  start_proxy = λ c a. note (proxy_request c a);
}

-- The three public methods of the machine.
pub data Event : Type 0 where
  buffer : List ℕ → Event
  pass_auth_result : Bool → Event
  start_proxy_result : ℕ → Address → Event

unfoldable pub step : Event → Recorder → Recorder
step (buffer buf) r = process_buffer recorder_cell recorder buf r
step (pass_auth_result success) r =
    process_pass_auth_result recorder_cell recorder.replies success r
step (start_proxy_result status a) r =
    process_start_proxy_result recorder_cell recorder.replies status a r

-- The constructor of StateMachine.
abbrev pub init : Recorder
init = record { state = State.wait_for_greeting; calls = [] }

unfoldable pub run : List Event → Recorder → Recorder
unfolding step
run [] r = r
run (e ∷ es) r = run es (step e r)
