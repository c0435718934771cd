-- ===== src/Tracker.antt =====
-- InConnTracker.h and InConnTracker.cpp: the machine's owner. It encodes the answers, sends them on
-- the incoming connection, and passes requests on to its own owner (IConnTrackerOwner), which may
-- call it back; so its methods too are functions on the whole world.
use socks.Base.{ℕ, List, [], Bool, if◌then◌else◌}
use socks.Base.Buffer.{Outcome, ok, refused, bad_variant, out_of_bounds}
use socks.Types.{Address, version5}
use socks.Encoder.{encode_greeting_resp, encode_user_pass_resp, encode_command_resp}
use socks.StateMachine.{
  Cell, Replies, Owner, process_buffer, process_pass_auth_result, process_start_proxy_result,
}

-- What the tracker reaches: its machine, its connection's `send` with the result, the owner's
-- `onConnTrackerDestroy`, and what an exception out of an encoder leaves. (The exception also leaves the
-- rest of the handler undone, which runs on here.)
pub record Links (W : Type 0) : Type 0 where
  pub cell : Cell W
  pub send : List ℕ → W → W × Bool
  pub on_conn_tracker_destroy : W → W
  pub thrown : W → W

-- The two requests of IConnTrackerOwner.
pub record Requests (W : Type 0) : Type 0 where
  pub on_start_proxy : ℕ → Address → W → W
  pub on_request_pass_auth : List ℕ → List ℕ → W → W

module _ {W : Type 0} (links : Links W) where
  unfoldable pub destroy_self : W → W
  destroy_self w = links.on_conn_tracker_destroy w

  unfoldable pub send_msg : Outcome (List ℕ) → W → W
  unfolding destroy_self
  send_msg (ok buf) w = let (w', sent) = links.send buf w in if sent then w' else destroy_self w'
  send_msg refused w = destroy_self w
  send_msg bad_variant w = links.thrown w
  send_msg out_of_bounds w = links.thrown w

  send_greeting_response : ℕ → W → W
  unfolding send_msg
  send_greeting_response method w =
      send_msg (encode_greeting_resp (record { version = version5; auth_method = method }) []) w

  send_pass_auth_response : ℕ → W → W
  unfolding send_msg
  send_pass_auth_response status w =
      send_msg (encode_user_pass_resp (record { version = version5; status = status }) []) w

  send_command_response : ℕ → Address → W → W
  unfolding send_msg
  send_command_response status a w =
      send_msg
        (encode_command_resp
          (record {
            version = version5;
            status = status;
            addr_type = a.kind;
            addr = a.addr;
            port = a.port;
          })
          [])
        w

  unfoldable pub replies : Replies W
  unfolding send_greeting_response send_pass_auth_response send_command_response destroy_self
  replies = record {
    send_greeting_response = send_greeting_response;
    send_pass_auth_response = send_pass_auth_response;
    send_command_response = send_command_response;
    on_protocol_error = λ reason w. destroy_self w;
  }

  unfoldable pub on_proxy_started : ℕ → Address → W → W
  unfolding replies process_start_proxy_result
  on_proxy_started status local_address w =
      process_start_proxy_result links.cell replies status local_address w

  unfoldable pub on_auth_request_completed : Bool → W → W
  unfolding replies destroy_self process_pass_auth_result
  on_auth_request_completed success w =
      let w' = process_pass_auth_result links.cell replies success w in
      if success then w' else destroy_self w'

  unfoldable pub on_connection_closed : W → W
  unfolding destroy_self
  on_connection_closed w = destroy_self w

  module _ (requests : Requests W) where
    unfoldable pub machine_owner : Owner W
    unfolding replies
    machine_owner = record {
      replies = replies;
      request_pass_auth = requests.on_request_pass_auth;
      start_proxy = requests.on_start_proxy;
    }

    unfoldable pub on_receive : List ℕ → W → W
    unfolding machine_owner process_buffer
    on_receive buf w = process_buffer links.cell machine_owner buf w
