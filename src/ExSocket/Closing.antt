-- ===== src/ExSocket/Closing.antt =====
-- How an ExSocket of libratel/TcpServer.cpp learns that its peer is gone.
use socks.Base.{
  ℕ, ◌<◌, ◌==◌, List, [], ◌∷◌, ◌++◌, Bool, true, false, Option, none, some, if◌then◌else◌, ◌≡◌, ◌≢◌,
  refl, ap, All, All-append, lt→ltb, ltb, if_cases,
}
use socks.BaseSocket.{Incoming, get_read_size, type_tcp_connected, type_tcp_server}
use socks.ExSocket.{
  ExSocket, Call, on_connection_closed, on_read, on_write, on_error, Ready, handle_socket,
  on_new_connection, on_add_socket, on_connection_failed,
}

-- The rounds of one socket, with all that it calls in them.
unfoldable pub rounds : List Ready → ExSocket → ExSocket × List Call
unfolding handle_socket
rounds [] s = (s, [])
rounds (r ∷ rs) s =
    let (s', calls) = handle_socket r s in let (last, more) = rounds rs s' in (last, calls ++ more)

abbrev is_closed : Call → Bool
is_closed on_connection_closed = true
is_closed c = false

abbrev Open : List Call → Type 0
Open calls = All (λ c. is_closed c ≡ false) calls

abbrev OpenAfter : ExSocket × List Call → Type 0
OpenAfter x = Open x.1

on_read-Open :
    (accepted : Option ℕ) (incoming : Incoming) (received : List ℕ) (s : ExSocket)
    → 0 < incoming.receive_buffer
    → Open (on_read accepted incoming received s).1
unfolding on_read get_read_size
on_read-Open accepted incoming received s h =
    if_cases OpenAfter (s.type == type_tcp_server) _ _ (λ _. accepts accepted)
      (λ _.
        if_cases OpenAfter (s.type == type_tcp_connected) _ _
          (λ _.
            if_cases OpenAfter (ltb 0 incoming.receive_buffer) _ _ (λ _. (refl, tt))
              (λ e. absurd (cc (e, lt→ltb 0 incoming.receive_buffer h))))
          (λ _. tt))
  where
    accepts :
        (accepted : Option ℕ)
        → OpenAfter (elim accepted [
          | none ↦ (s, [])
          | some fd ↦ (s, on_add_socket fd ∷ on_new_connection fd ∷ [])
        ])
    accepts none = tt
    accepts (some fd) = (refl, (refl, tt))

on_write-Open : (sent : ℕ) (s : ExSocket) → Open (on_write sent s).1
unfolding on_write
on_write-Open sent s =
    if_cases OpenAfter (s.type == type_tcp_connected) _ _
      (λ _. if_cases OpenAfter s.connected _ _ (λ _. tt) (λ _. (refl, tt))) (λ _. tt)

on_error-Open : (s : ExSocket) → Open (on_error s)
unfolding on_error
on_error-Open s =
    if_cases Open (s.type == type_tcp_connected) (on_connection_failed ∷ []) [] (λ _. (refl, tt))
      (λ _. tt)

handle_socket-Open :
    (r : Ready) (s : ExSocket) → 0 < r.incoming.receive_buffer → OpenAfter (handle_socket r s)
unfolding handle_socket
handle_socket-Open r s h =
    let x = if r.readable then on_read r.accepted r.incoming r.received s else (s, []) in
    let y = if r.writable then on_write r.sent x.0 else (x.0, []) in
    All-append (λ c. is_closed c ≡ false) x.1 _
      (if_cases OpenAfter r.readable (on_read r.accepted r.incoming r.received s) (s, [])
        (λ _. on_read-Open r.accepted r.incoming r.received s h) (λ _. tt))
      (All-append (λ c. is_closed c ≡ false) y.1 _
        (if_cases OpenAfter r.writable (on_write r.sent x.0) (x.0, [])
          (λ _. on_write-Open r.sent x.0) (λ _. tt))
        (if_cases Open r.failed (on_error y.0) [] (λ _. on_error-Open y.0) (λ _. tt)))

rounds-is_closed :
    (rs : List Ready) (s : ExSocket)
    → All (λ r. 0 < r.incoming.receive_buffer) rs
    → OpenAfter (rounds rs s)
unfolding rounds
rounds-is_closed [] s h = tt
rounds-is_closed (r ∷ rs) s (size, sizes) =
    All-append (λ c. is_closed c ≡ false) (handle_socket r s).1 _ (handle_socket-Open r s size)
      (rounds-is_closed rs (handle_socket r s).0 sizes)

calls-Open : (calls : List Call) → Open calls → All (λ c. c ≢ on_connection_closed) calls
calls-Open [] h = tt
calls-Open (c ∷ calls) (o, os) = (λ e. cc (o, ap is_closed e), calls-Open calls os)

-- So long as the receive buffers of the system (SO_RCVBUF) do not have the size 0, no socket ever
-- tells its user that its connection was closed, whatever happens in however many rounds and however
-- many bytes have come in, also when there are none because the peer is gone.
pub rounds-Open :
    (rs : List Ready) (s : ExSocket)
    → All (λ r. 0 < r.incoming.receive_buffer) rs
    → All (λ c. c ≢ on_connection_closed) (rounds rs s).1
rounds-Open rs s h = calls-Open (rounds rs s).1 (rounds-is_closed rs s h)
