-- ===== src/Socket/Reporting.antt =====
-- How often EventSocketConnected.cpp reports the end of a connection.
use socks.Base.{
  ℕ, ◌+◌, ◌≡◌, refl, List, [], ◌∷◌, Bool, true, false, some, arith, Option-cases, inl, inr,
  if_cases,
}
use socks.SocketAddress.{Sockaddr, get_address}
use socks.Socket.{
  call_user, end_reported, update_local_address, update_remote_address, connection_made, World,
  Events, close_connection, on_event,
}
use socks.Socket.Closing.{number}
use socks.Socket.Recorder.{Call, user_closed, Recorder, recorder}

abbrev pub ends_reported : List Call → ℕ
ends_reported [] = 0
ends_reported (user_closed u ∷ cs) = 1 + ends_reported cs
ends_reported (c ∷ cs) = ends_reported cs

-- The user is the same, and has been told of `n` ends.
abbrev Told : ℕ → ℕ → Recorder → Type 0
Told u n r = (r.socket.user ≡ some u) × (ends_reported r.calls ≡ n)

module _ (sock_name peer_name : Sockaddr) (u : ℕ) where
  abbrev there : World Recorder
  there = recorder sock_name peer_name true

  user-Told :
      (n : ℕ) (call : ℕ → Recorder → Recorder) (r : Recorder)
      → r.socket.user ≡ some u
      → Told u n (call u r)
      → Told u n (call_user there call r)
  unfolding call_user
  user-Told n call r e h = rw (e, call_user) h

  closed-Told : (n : ℕ) (r : Recorder) → Told u n r → Told u n (close_connection there r)
  unfolding close_connection
  closed-Told n r h = if_cases (Told u n) r.socket.connected _ r (λ e. h) (λ e. h)

  end-Told :
      (n : ℕ) (b : Bool) (r : Recorder)
      → Told u n r
      → Told u (number b + n) (end_reported there b r)
  unfolding end_reported
  end-Told n false r h = (h.0, omega (arith, h.1))
  end-Told n true r h =
      let g = closed-Told n r h in
      user-Told (1 + n) there.on_connection_closed (close_connection there r) g.0
        (g.0, omega (arith, g.1))

  local-Told : (n : ℕ) (r : Recorder) → Told u n r → Told u n (update_local_address there r)
  unfolding update_local_address
  local-Told n r h = elim (Option-cases (get_address sock_name)) [
    | inl e ↦ rw (e, update_local_address) h
    | inr (a, e) ↦ rw (e, update_local_address) h
  ]

  remote-Told : (n : ℕ) (r : Recorder) → Told u n r → Told u n (update_remote_address there r)
  unfolding update_remote_address
  remote-Told n r h = elim (Option-cases (get_address peer_name)) [
    | inl e ↦ rw (e, update_remote_address) h
    | inr (a, e) ↦ rw (e, update_remote_address) h
  ]

  made-Told : (n : ℕ) (b : Bool) (r : Recorder) → Told u n r → Told u n (connection_made there b r)
  unfolding connection_made
  made-Told n false r h = h
  made-Told n true r h =
      let w = update_remote_address there (update_local_address there r) in
      let g : Told u n w = remote-Told n (update_local_address there r) (local-Told n r h) in
      let s : Recorder = record w { socket = record (w.socket) { connected = true } } in
      user-Told n there.on_connected s g.0 g

  -- For one event a user that is set, and stays so, is told of the end once for EOF and once for an
  -- error: twice, when both come together.
  pub ends_reported_lem :
      (e : Events) (r : Recorder)
      → r.socket.user ≡ some u
      → ends_reported (on_event (recorder sock_name peer_name true) e r).calls
        ≡ number e.error + (number e.eof + ends_reported r.calls)
  unfolding on_event
  ends_reported_lem e r h =
      (made-Told (number e.error + (number e.eof + ends_reported r.calls)) e.connected
        (end_reported there e.error (end_reported there e.eof r))
        (end-Told (number e.eof + ends_reported r.calls) e.error (end_reported there e.eof r)
          (end-Told (ends_reported r.calls) e.eof r (h, refl)))).1
