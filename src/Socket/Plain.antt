-- ===== src/Socket/Plain.antt =====
-- Event/EventSocket.cpp: a socket that is connected from the start. Its bodies are those of
-- EventSocketConnected.cpp, but for the ones below that say otherwise.
use socks.Base.{
  ℕ, ◌+◌, ◌≡◌, refl, List, [], ◌∷◌, Bool, true, false, Option, none, some, Option-cases, inl, inr,
  if_cases, length, ◌==◌, arith,
}
use socks.Types.{Address}
use socks.SocketAddress.{other_family}
use socks.Socket.{
  Socket, World, Events, set_user, on_read, close_connection, end_reported, call_user, send,
  is_connected,
}
use socks.Socket.Recorder.{Recorder, recorder}
use socks.Socket.Closing.{number, times_closed}

-- It has no addresses.
unfoldable pub plain_socket : Address → Socket
plain_socket unset = record {
  user = none;
  remote_address = unset;
  local_address = unset;
  connected = true;
}

module _ {W : Type 0} (world : World W) where
  unfoldable pub plain_set_user : Option ℕ → W → W
  unfolding set_user
  plain_set_user user w = set_user world user w

  unfoldable pub plain_on_read : Option (List ℕ) → ℕ → W → W
  unfolding on_read
  plain_on_read input copied w = on_read world input copied w

  unfoldable pub plain_close_connection : W → W
  unfolding close_connection
  plain_close_connection w = close_connection world w

  -- BEV_EVENT_CONNECTED is not looked at.
  unfoldable pub plain_on_event : Events → W → W
  unfolding end_reported
  plain_on_event events w = end_reported world events.error (end_reported world events.eof w)

  -- Not implemented there.
  unfoldable pub plain_connect : W → W × Bool
  plain_connect w = (w, false)

  unfoldable pub plain_send : List ℕ → W → W × Bool
  unfolding send
  plain_send buf w = send world buf w

  unfoldable pub plain_get_local_address : W → Option Address
  plain_get_local_address w = none

pub data Operation : Type 0 where
  user_set : Option ℕ → Operation
  read : Option (List ℕ) → ℕ → Operation
  event : Events → Operation
  bytes_sent : List ℕ → Operation
  connection_begun connection_closed : Operation

abbrev pub system : World Recorder
system = recorder other_family other_family true

unfoldable pub step : Operation → Recorder → Recorder
unfolding plain_set_user plain_on_read plain_on_event plain_send plain_connect
    plain_close_connection
step (user_set u) r = plain_set_user system u r
step (read input copied) r = plain_on_read system input copied r
step (event e) r = plain_on_event system e r
step (bytes_sent buf) r = (plain_send system buf r).0
step connection_begun r = (plain_connect system r).0
step connection_closed r = plain_close_connection system r

unfoldable pub run : List Operation → Recorder → Recorder
unfolding step
run [] r = r
run (o ∷ os) r = run os (step o r)

-- The descriptor was closed once if the socket is not connected, and else never.
abbrev Exact : Recorder → Type 0
Exact r = times_closed r.calls + number r.socket.connected ≡ 1

user-Exact :
    (call : ℕ → Recorder → Recorder) (r : Recorder)
    → ((u : ℕ) → Exact (call u r))
    → Exact r
    → Exact (call_user system call r)
unfolding call_user
user-Exact call r called h = elim (Option-cases r.socket.user) [
  | inl e ↦ rw (e, call_user) h
  | inr (u, e) ↦ rw (e, call_user) (called u)
]

closed-Exact : (r : Recorder) → Exact r → Exact (close_connection system r)
unfolding close_connection
closed-Exact r h =
    if_cases Exact r.socket.connected _ r (λ e. let g = rw e at h in omega (arith, g)) (λ e. h)

end-Exact : (b : Bool) (r : Recorder) → Exact r → Exact (end_reported system b r)
unfolding end_reported
end-Exact false r h = h
end-Exact true r h =
    let g = closed-Exact r h in
    user-Exact system.on_connection_closed (close_connection system r) (λ u. g) g

read-Exact :
    (input : Option (List ℕ)) (copied : ℕ) (r : Recorder)
    → Exact r
    → Exact (on_read system input copied r)
unfolding on_read
read-Exact none copied r h = h
read-Exact (some buf) copied r h =
    let receive : ℕ → Recorder → Recorder = λ user w. system.on_receive user buf w in
    if_cases Exact (copied == length buf) (call_user system receive r) r
      (λ e. user-Exact receive r (λ u. h) h) (λ e. h)

step-Exact : (o : Operation) (r : Recorder) → Exact r → Exact (step o r)
unfolding step set_user send
step-Exact (user_set u) r h = h
step-Exact (read input copied) r h = read-Exact input copied r h
step-Exact (event e) r h = end-Exact e.error (end_reported system e.eof r) (end-Exact e.eof r h)
step-Exact (bytes_sent buf) r h = h
step-Exact connection_begun r h = h
step-Exact connection_closed r h = closed-Exact r h

run-Exact : (os : List Operation) (r : Recorder) → Exact r → Exact (run os r)
unfolding run
run-Exact [] r h = h
run-Exact (o ∷ os) r h = run-Exact os (step o r) (step-Exact o r h)

-- Whatever is done with a socket that starts connected, in whatever order: its descriptor was closed
-- exactly once if the socket is no longer connected, and else never.
pub plain_socket_closed :
    (os : List Operation) (unset : Address)
    → let r = run os (record { socket = plain_socket unset; calls = [] }) in
      times_closed r.calls + number (is_connected system r) ≡ 1
unfolding plain_socket is_connected
plain_socket_closed os unset =
    run-Exact os (record { socket = plain_socket unset; calls = [] }) refl
