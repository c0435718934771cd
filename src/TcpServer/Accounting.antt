-- ===== src/TcpServer/Accounting.antt =====
-- What becomes of the clients that the loop of libratel/TcpServer.cpp accepts.
use socks.Base.{
  none, some, ℕ, ◌+◌, ◌==◌, ◌≡◌, refl, ap, List, [], ◌∷◌, ◌++◌, true, false, if◌then◌else◌, arith,
  Bool-cases, Option-cases, inl, inr, if_cases,
}
use socks.TcpServer.{
  Set, Received, failed, ended, bytes, Notice, new_connection, close_connection, data_received,
  data_can_be_send, handle_client_read, remove_client, handle_clients, writable, Round, Server,
  Selected, timed_out, error, ready, accept_client, serve_clients, handle_ready, selected, serve,
}
use socks.TcpServer.Serving.{server_of}

abbrev pub is_one : ℕ → ℕ → ℕ
is_one client fd = if client == fd then 1 else 0

-- How often a descriptor is among the clients, was told as new, and was told as closed.
abbrev pub held : ℕ → List ℕ → ℕ
held fd [] = 0
held fd (client ∷ clients) = is_one client fd + held fd clients

abbrev pub opened : ℕ → List Notice → ℕ
opened fd [] = 0
opened fd (new_connection host client ∷ notices) = is_one client fd + opened fd notices
opened fd (notice ∷ notices) = opened fd notices

abbrev pub closed : ℕ → List Notice → ℕ
closed fd [] = 0
closed fd (close_connection client ∷ notices) = is_one client fd + closed fd notices
closed fd (notice ∷ notices) = closed fd notices

held-append : (fd : ℕ) (xs ys : List ℕ) → held fd (xs ++ ys) ≡ held fd xs + held fd ys
held-append fd [] ys = omega arith
held-append fd (x ∷ xs) ys = omega (arith, held-append fd xs ys)

opened-append : (fd : ℕ) (xs ys : List Notice) → opened fd (xs ++ ys) ≡ opened fd xs + opened fd ys
opened-append fd [] ys = omega arith
opened-append fd (new_connection host client ∷ xs) ys = omega (arith, opened-append fd xs ys)
opened-append fd (close_connection client ∷ xs) ys = opened-append fd xs ys
opened-append fd (data_received client buf ∷ xs) ys = opened-append fd xs ys
opened-append fd (data_can_be_send client ∷ xs) ys = opened-append fd xs ys

closed-append : (fd : ℕ) (xs ys : List Notice) → closed fd (xs ++ ys) ≡ closed fd xs + closed fd ys
closed-append fd [] ys = omega arith
closed-append fd (new_connection host client ∷ xs) ys = closed-append fd xs ys
closed-append fd (close_connection client ∷ xs) ys = omega (arith, closed-append fd xs ys)
closed-append fd (data_received client buf ∷ xs) ys = closed-append fd xs ys
closed-append fd (data_can_be_send client ∷ xs) ys = closed-append fd xs ys

-- One that goes when a read would block: `recv` of a client that failed so.
abbrev pub is_blocked : ℕ → ℕ → Received → ℕ
is_blocked fd client (failed true) = is_one client fd
is_blocked fd client r = 0

-- How often a descriptor is in the way of that: it is readable when its turn comes, and `recv` then
-- would block.
abbrev pub blocked : ℕ → (ℕ → Received) → Set → List ℕ → ℕ
blocked fd recv reads [] = 0
blocked fd recv reads (client ∷ clients) =
    let left : Set = (handle_client_read client (recv client) reads).1.0 in
    let rest = blocked fd recv reads clients in
    let after = blocked fd recv left clients in
    if reads client then is_blocked fd client (recv client) + after else rest

-- The same over a round whose `select` found these sets, and over rounds.
abbrev pub blocked_ready : ℕ → Round → Set → Server → ℕ
blocked_ready fd round reads server =
    if reads server.server_sock
    then (elim round.accept [
      | none ↦ 0
      | some client ↦ blocked fd round.recv reads (accept_client client server).clients
    ])
    else blocked fd round.recv reads server.clients

unfoldable pub lost : ℕ → List Round → Server → ℕ
unfolding selected handle_ready
lost fd [] server = 0
lost fd (round ∷ rounds) server = elim (selected round server) [
  | timed_out ↦ lost fd rounds server
  | error ↦ 0
  | ready reads writes excepts ↦
      blocked_ready fd round reads server + lost fd rounds (handle_ready round reads writes server)
]

-- Nothing else in the notices but ends, and each end of a client that is dropped and not `gone`
-- untold.
record Balance (fd before after gone : ℕ) (notices : List Notice) : Type 0 where
  kept : after + closed fd notices + gone ≡ before
  none_new : opened fd notices ≡ 0

writable-Balance :
    (fd client : ℕ) (writes : Set) (n : ℕ) → Balance fd n n 0 (writable client writes)
unfolding writable
writable-Balance fd client writes n = elim (Bool-cases (writes client)) [
  | inl e ↦ rw e (record { kept = omega arith; none_new = refl })
  | inr e ↦ rw e (record { kept = omega arith; none_new = refl })
]

read-Balance :
    (fd client : ℕ) (r : Received) (reads : Set)
    → let (stay, (left, notices)) = handle_client_read client r reads in
      Balance fd
        (is_one client fd)
        (if stay then is_one client fd else 0)
        (is_blocked fd client r)
        notices
unfolding handle_client_read remove_client
read-Balance fd client (failed true) reads = record { kept = omega arith; none_new = refl }
read-Balance fd client (failed false) reads = record { kept = omega arith; none_new = refl }
read-Balance fd client ended reads = record { kept = omega arith; none_new = refl }
read-Balance fd client (bytes buf) reads = record { kept = omega arith; none_new = refl }

-- Two lots of notices, for one client and for the rest.
joined :
    (fd a b a' b' g h : ℕ) (xs ys : List Notice)
    → Balance fd a a' g xs
    → Balance fd b b' h ys
    → Balance fd (a + b) (a' + b') (g + h) (xs ++ ys)
joined fd a b a' b' g h xs ys p q = record {
  kept = omega (arith, closed-append fd xs ys, p.kept, q.kept);
  none_new = omega (arith, opened-append fd xs ys, p.none_new, q.none_new);
}

-- Notices of a client that stays, before those of the rest.
with_writable :
    (fd client b b' h : ℕ) (writes : Set) (ys : List Notice)
    → Balance fd b b' h ys
    → Balance fd b b' h (writable client writes ++ ys)
with_writable fd client b b' h writes ys q =
    let w = writable-Balance fd client writes 0 in
    record {
      kept = omega (arith, closed-append fd (writable client writes) ys, w.kept, q.kept);
      none_new =
          omega (arith, opened-append fd (writable client writes) ys, w.none_new, q.none_new);
    }

clients-Balance :
    (fd : ℕ) (recv : ℕ → Received) (writes : Set) (clients : List ℕ) (reads : Set)
    → let (clients', notices) = handle_clients recv reads writes clients in
      Balance fd (held fd clients) (held fd clients') (blocked fd recv reads clients) notices
unfolding handle_clients
clients-Balance fd recv writes [] reads = record { kept = omega arith; none_new = refl }
clients-Balance fd recv writes (client ∷ clients) reads =
    let got = handle_client_read client (recv client) reads in
    let left : Set = got.1.0 in
    let read = read-Balance fd client (recv client) reads in
    let rest = clients-Balance fd recv writes clients reads in
    let after = clients-Balance fd recv writes clients left in
    let after' = handle_clients recv left writes clients in
    let rest' = handle_clients recv reads writes clients in
    let here = is_blocked fd client (recv client) in
    let behind = blocked fd recv left clients in
    let untold = blocked fd recv reads clients in
    let P : List ℕ × List Notice → Type 0 = λ p.
      Balance fd (held fd (client ∷ clients)) (held fd p.0)
        (if reads client then here + behind else untold) p.1 in
    if_cases P (reads client) _ (client ∷ rest'.0, writable client writes ++ rest'.1)
      (λ readable.
        if_cases P got.0 (client ∷ after'.0, got.1.1 ++ (writable client writes ++ after'.1))
          (after'.0, got.1.1 ++ after'.1)
          (λ e. rw readable (
            joined fd (is_one client fd) (held fd clients) (is_one client fd) (held fd after'.0)
              here behind got.1.1 (writable client writes ++ after'.1) (rw e at read)
              (with_writable fd client (held fd clients) (held fd after'.0) behind writes after'.1
                after)))
          (λ e.
            let j =
              joined fd (is_one client fd) (held fd clients) 0 (held fd after'.0) here behind
                got.1.1 after'.1 (rw e at read) after in
            rw readable (record { kept = omega (arith, j.kept); none_new = j.none_new })))
      (λ quiet.
        let w =
          with_writable fd client (held fd clients) (held fd rest'.0) untold writes rest'.1 rest in
        rw quiet (record { kept = omega (arith, w.kept); none_new = w.none_new }))

-- The clients held, those told as closed and those gone untold are those held before and those told as
-- new.
abbrev Accounted : ℕ → ℕ → Server → Server → Type 0
Accounted fd gone before after =
    held fd after.clients + closed fd after.notices + gone + opened fd before.notices
    ≡ held fd before.clients + closed fd before.notices + opened fd after.notices

served-Accounted :
    (fd : ℕ) (recv : ℕ → Received) (reads writes : Set) (server : Server)
    → Accounted fd
        (blocked fd recv reads server.clients)
        server
        (serve_clients recv reads writes server)
unfolding serve_clients
served-Accounted fd recv reads writes server =
    let b = clients-Balance fd recv writes server.clients reads in
    let told = (handle_clients recv reads writes server.clients).1 in
    omega (
      arith,
      b.kept,
      b.none_new,
      closed-append fd server.notices told,
      opened-append fd server.notices told,
    )

accepted-Accounted :
    (fd : ℕ) (client : ℕ × (ℕ × ℕ)) (server : Server)
    → Accounted fd 0 server (accept_client client server)
unfolding accept_client
accepted-Accounted fd (client, host) server = omega (
  arith,
  held-append fd server.clients (client ∷ []),
  closed-append fd server.notices (new_connection host client ∷ []),
  opened-append fd server.notices (new_connection host client ∷ []),
)

ready-Accounted :
    (fd : ℕ) (round : Round) (reads writes : Set) (server : Server)
    → Accounted fd
        (blocked_ready fd round reads server)
        server
        (handle_ready round reads writes server)
unfolding handle_ready
ready-Accounted fd round reads writes server = elim (Bool-cases (reads server.server_sock)) [
  | inl e ↦ elim (Option-cases round.accept) [
    | inl f ↦ rw (e, f) (omega arith)
    | inr (client, f) ↦
        rw (e, f)
          (let accepted = accept_client client server in
            let a = accepted-Accounted fd client server in
            let b = served-Accounted fd round.recv reads writes accepted in omega (arith, a, b))
  ]
  | inr e ↦ rw e (served-Accounted fd round.recv reads writes server)
]

serve-Accounted :
    (fd : ℕ) (rounds : List Round) (server : Server)
    → Accounted fd (lost fd rounds server) server (server_of (serve rounds server))
unfolding serve lost
serve-Accounted fd [] server = omega arith
serve-Accounted fd (round ∷ rounds) server =
    go (selected round server) refl (λ s. serve-Accounted fd rounds s)
  where
    go :
        (chosen : Selected)
        → selected round server ≡ chosen
        → ((s : Server) → Accounted fd (lost fd rounds s) s (server_of (serve rounds s)))
        → Accounted fd
            (lost fd (round ∷ rounds) server)
            server
            (server_of (serve (round ∷ rounds) server))
    go timed_out e next = rw (e, serve, lost) (next server)
    go error e next = rw (e, serve, lost) (omega arith)
    go (ready reads writes excepts) e next =
        rw (e, serve, lost)
          (let a = ready-Accounted fd round reads writes server in
            let b = next (handle_ready round reads writes server) in omega (arith, a, b))

-- Through any number of rounds of the loop, whatever `select`, `accept` and `recv` give: from a server
-- that has told its user nothing, each descriptor is now held as often as it was held at first or told
-- as a new connection, less the times it was told as closed and less the times that it was found
-- readable and its read would then have blocked. So a client is dropped untold exactly when its read
-- would block, and none is told as closed more often than it came.
pub clients_accounted :
    (fd : ℕ) (rounds : List Round) (server : Server)
    → server.notices ≡ []
    → let after = server_of (serve rounds server) in
      held fd after.clients + closed fd after.notices + lost fd rounds server
      ≡ held fd server.clients + opened fd after.notices
clients_accounted fd rounds server silent =
    let a = serve-Accounted fd rounds server in
    let o : opened fd server.notices ≡ 0 = ap (opened fd) silent in
    let c : closed fd server.notices ≡ 0 = ap (closed fd) silent in omega (arith, a, o, c)
