-- ===== src/Socket/Closing.antt =====
-- How often EventSocketConnected.cpp closes its descriptor.
use socks.Base.{
  ℕ, ◌+◌, ◌≤◌, ◌≡◌, refl, List, [], ◌∷◌, Bool, true, false, none, some, arith, Option-cases, inl,
  inr, if_cases, length, ◌==◌,
}
use socks.Base.Buffer.{Outcome, ok, refused, bad_variant, out_of_bounds}
use socks.Types.{Address}
use socks.SocketAddress.{Sockaddr, other_family, get_address, convert_addr_to_storage}
use socks.Socket.{
  call_user, end_reported, update_local_address, update_remote_address, connection_made, World,
  Events, accepted_socket, set_user, on_read, close_connection, on_event, connect, send,
}
use socks.Socket.Recorder.{
  Call, socket_closed, Recorder, recorder, Operation, user_set, read, event, connection_begun,
  bytes_sent, connection_closed, step, run,
}

abbrev pub number : Bool → ℕ
number true = 1
number false = 0

abbrev pub times_closed : List Call → ℕ
times_closed [] = 0
times_closed (socket_closed ∷ cs) = 1 + times_closed cs
times_closed (c ∷ cs) = times_closed cs

-- The operations in which the event loop says that the connection is made.
abbrev pub times_made : List Operation → ℕ
times_made [] = 0
times_made (event sock_name peer_name e ∷ os) = number e.connected + times_made os
times_made (o ∷ os) = times_made os

abbrev Bounded : ℕ → Recorder → Type 0
Bounded n r = times_closed r.calls + number r.socket.connected ≤ n

module _ (sock_name peer_name : Sockaddr) (success : Bool) where
  abbrev here : World Recorder
  here = recorder sock_name peer_name success

  user-Bounded :
      (n : ℕ) (call : ℕ → Recorder → Recorder) (r : Recorder)
      → ((u : ℕ) → Bounded n (call u r))
      → Bounded n r
      → Bounded n (call_user here call r)
  unfolding call_user
  user-Bounded n call r called h = elim (Option-cases r.socket.user) [
    | inl e ↦ rw (e, call_user) h
    | inr (u, e) ↦ rw (e, call_user) (called u)
  ]

  closed-Bounded : (n : ℕ) (r : Recorder) → Bounded n r → Bounded n (close_connection here r)
  unfolding close_connection
  closed-Bounded n r h =
      if_cases (Bounded n) r.socket.connected _ r (λ e. let g = rw e at h in omega arith) (λ e. h)

  end-Bounded : (n : ℕ) (b : Bool) (r : Recorder) → Bounded n r → Bounded n (end_reported here b r)
  unfolding end_reported
  end-Bounded n false r h = h
  end-Bounded n true r h =
      let g = closed-Bounded n r h in
      user-Bounded n here.on_connection_closed (close_connection here r) (λ u. g) g

  local-Bounded : (n : ℕ) (r : Recorder) → Bounded n r → Bounded n (update_local_address here r)
  unfolding update_local_address
  local-Bounded n r h = elim (Option-cases (get_address sock_name)) [
    | inl e ↦ rw (e, update_local_address) h
    | inr (a, e) ↦ rw (e, update_local_address) h
  ]

  remote-Bounded : (n : ℕ) (r : Recorder) → Bounded n r → Bounded n (update_remote_address here r)
  unfolding update_remote_address
  remote-Bounded n r h = elim (Option-cases (get_address peer_name)) [
    | inl e ↦ rw (e, update_remote_address) h
    | inr (a, e) ↦ rw (e, update_remote_address) h
  ]

  made-Bounded :
      (n : ℕ) (b : Bool) (r : Recorder)
      → Bounded n r
      → Bounded (number b + n) (connection_made here b r)
  unfolding connection_made
  made-Bounded n false r h = omega (arith, h)
  made-Bounded n true r h =
      let w = update_remote_address here (update_local_address here r) in
      let g : Bounded n w = remote-Bounded n (update_local_address here r) (local-Bounded n r h) in
      let s : Recorder = record w { socket = record (w.socket) { connected = true } } in
      let k : Bounded (1 + n) s = omega (arith, g) in
      user-Bounded (1 + n) here.on_connected s (λ u. k) k

  event-Bounded :
      (n : ℕ) (e : Events) (r : Recorder)
      → Bounded n r
      → Bounded (number e.connected + n) (on_event here e r)
  unfolding on_event
  event-Bounded n e r h =
      made-Bounded n e.connected (end_reported here e.error (end_reported here e.eof r))
        (end-Bounded n e.error (end_reported here e.eof r) (end-Bounded n e.eof r h))

connect-Bounded :
    (n : ℕ) (success : Bool) (r : Recorder)
    → Bounded n r
    → Bounded n (connect (recorder other_family other_family success) r).0
unfolding connect
connect-Bounded n success r h = go (convert_addr_to_storage r.socket.remote_address) refl
  where
    go :
        (o : Outcome Sockaddr)
        → convert_addr_to_storage r.socket.remote_address ≡ o
        → Bounded n (connect (recorder other_family other_family success) r).0
    go (ok sa) e = rw (e, connect) h
    go refused e = rw (e, connect) h
    go bad_variant e = rw (e, connect) h
    go out_of_bounds e = rw (e, connect) h

read-Bounded :
    (n : ℕ) (buf : List ℕ) (copied : ℕ) (r : Recorder)
    → Bounded n r
    → Bounded n (on_read (recorder other_family other_family true) (some buf) copied r)
unfolding on_read
read-Bounded n buf copied r h =
    let idle : World Recorder = recorder other_family other_family true in
    let receive : ℕ → Recorder → Recorder = λ user w. idle.on_receive user buf w in
    if_cases (Bounded n) (copied == length buf) (call_user idle receive r) r
      (λ e. user-Bounded other_family other_family true n receive r (λ u. h) h) (λ e. h)

same-Bounded : (n : ℕ) (r : Recorder) → Bounded n r → Bounded (0 + n) r
same-Bounded n r h = omega (arith, h)

step-Bounded :
    (n : ℕ) (o : Operation) (r : Recorder)
    → Bounded n r
    → Bounded (times_made (o ∷ []) + n) (step o r)
unfolding step set_user on_read connect send
step-Bounded n (user_set u) r h = omega (arith, h)
step-Bounded n (read none copied) r h = omega (arith, h)
step-Bounded n (read (some buf) copied) r h =
    same-Bounded n (step (read (some buf) copied) r) (read-Bounded n buf copied r h)
step-Bounded n (event sock_name peer_name e) r h =
    (let g = event-Bounded sock_name peer_name true n e r h in omega (arith, g))
step-Bounded n (connection_begun success) r h =
    same-Bounded n (step (connection_begun success) r) (connect-Bounded n success r h)
step-Bounded n (bytes_sent buf success) r h = omega (arith, h)
step-Bounded n connection_closed r h =
    same-Bounded n (step connection_closed r) (closed-Bounded other_family other_family true n r h)

times_made_cons :
    (o : Operation) (os : List Operation)
    → times_made (o ∷ os) ≡ times_made (o ∷ []) + times_made os
times_made_cons (event sock_name peer_name e) os = omega arith
times_made_cons (user_set u) os = omega arith
times_made_cons (read input copied) os = omega arith
times_made_cons (connection_begun success) os = omega arith
times_made_cons (bytes_sent buf success) os = omega arith
times_made_cons connection_closed os = omega arith

run-Bounded :
    (n : ℕ) (os : List Operation) (r : Recorder)
    → Bounded n r
    → Bounded (times_made os + n) (run os r)
unfolding run
run-Bounded n [] r h = omega (arith, h)
run-Bounded n (o ∷ os) r h =
    let g = run-Bounded (times_made (o ∷ []) + n) os (step o r) (step-Bounded n o r h) in
    omega (arith, g, times_made_cons o os)

-- Whatever is done with an accepted socket, in whatever order: its descriptor is closed at most as
-- often as the event loop says that it was connected.
pub times_closed_bounded :
    (os : List Operation) (unset : Address)
    → times_closed (run os (record { socket = accepted_socket unset; calls = [] })).calls
      ≤ times_made os
unfolding accepted_socket
times_closed_bounded os unset =
    omega (
      arith,
      run-Bounded 0 os (record { socket = accepted_socket unset; calls = [] }) (omega arith),
    )
