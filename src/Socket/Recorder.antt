-- ===== src/Socket/Recorder.antt =====
-- The socket of EventSocketConnected.cpp beside a user and a system that record the calls they get,
-- newest first. What the user does in answer comes as operations of their own.
use socks.Base.{ℕ, List, [], ◌∷◌, Bool, true, Option}
use socks.SocketAddress.{Sockaddr, other_family}
use socks.Socket.{
  Socket, World, Events, set_user, on_read, close_connection, on_event, connect, send,
}

pub data Call : Type 0 where
  user_received : ℕ → List ℕ → Call
  user_connected user_closed : ℕ → Call
  socket_closed : Call
  output_added : List ℕ → Call
  connecting_to : Sockaddr → Call
  aborted : Call

pub record Recorder : Type 0 where
  pub socket : Socket
  pub calls : List Call

abbrev note : Call → Recorder → Recorder
note c r = record r { calls = c ∷ r.calls }

-- `sock_name` and `peer_name` are the addresses that the system tells; every request succeeds as
-- `success` says.
abbrev pub recorder : Sockaddr → Sockaddr → Bool → World Recorder
recorder sock_name peer_name success = record {
  get = λ r. r.socket;
  put = λ s r. record r { socket = s };
  on_receive = λ u buf. note (user_received u buf);
  on_connected = λ u. note (user_connected u);
  on_connection_closed = λ u. note (user_closed u);
  get_sock_name = λ r. sock_name;
  get_peer_name = λ r. peer_name;
  close_socket = note socket_closed;
  add_output = λ buf r. (note (output_added buf) r, success);
  socket_connect = λ sa r. (note (connecting_to sa) r, success);
  assertion_failed = note aborted;
}

pub data Operation : Type 0 where
  user_set : Option ℕ → Operation
  read : Option (List ℕ) → ℕ → Operation
  event : Sockaddr → Sockaddr → Events → Operation
  connection_begun : Bool → Operation
  bytes_sent : List ℕ → Bool → Operation
  connection_closed : Operation

unfoldable pub step : Operation → Recorder → Recorder
step (user_set u) r = set_user (recorder other_family other_family true) u r
step (read input copied) r = on_read (recorder other_family other_family true) input copied r
step (event sock_name peer_name e) r = on_event (recorder sock_name peer_name true) e r
step (connection_begun success) r = (connect (recorder other_family other_family success) r).0
step (bytes_sent buf success) r = (send (recorder other_family other_family success) buf r).0
step (connection_closed) r = close_connection (recorder other_family other_family true) r

unfoldable pub run : List Operation → Recorder → Recorder
unfolding step
run [] r = r
run (o ∷ os) r = run os (step o r)
