-- ===== src/TcpServer/Serving.antt =====
-- The loop of libratel/TcpServer.cpp over a `select` that looks at no descriptor.
use socks.Base.{
  ℕ, ◌<◌, List, [], ◌∷◌, Bool, true, false, ◌≡◌, refl, ◌∙◌, ap, All, append-nil, arith,
}
use socks.TcpServer.{
  Set, Received, Round, Selected, timed_out, error, ready, Server, Ending, running, ended_by_error,
  serve, selected, handle_ready, handle_clients, serve_clients, run_server_internal, writable,
}

-- As POSIX has it: `select` of `nfds` reports only descriptors below `nfds` that were asked for.
abbrev pub IsSelect : (ℕ → Set → Set → Set → Selected) → Type 0
IsSelect select =
    (nfds : ℕ) (reads writes excepts reads' writes' excepts' : Set)
    → select nfds reads writes excepts ≡ ready reads' writes' excepts'
    → (fd : ℕ)
    → (reads' fd ≡ true → (fd < nfds) × (reads fd ≡ true))
      × (writes' fd ≡ true → (fd < nfds) × (writes fd ≡ true))
      × (excepts' fd ≡ true → (fd < nfds) × (excepts fd ≡ true))

-- The server in which a loop stands or ended.
abbrev pub server_of : Ending → Server
server_of (running server) = server
server_of (ended_by_error server) = server

nobody :
    (recv : ℕ → Received) (reads writes : Set) (clients : List ℕ)
    → ((fd : ℕ) → reads fd ≡ false)
    → ((fd : ℕ) → writes fd ≡ false)
    → handle_clients recv reads writes clients ≡ (clients, [])
unfolding handle_clients writable
nobody recv reads writes [] r w = refl
nobody recv reads writes (client ∷ clients) r w =
    let rest = nobody recv reads writes clients r w in
    let a : reads client ≡ false = r client in
    let b : writes client ≡ false = w client in rw (a, b, rest) refl

pub none_below : (fd : ℕ) (b : Bool) {P : Type 0} → (b ≡ true → (fd < 0) × P) → b ≡ false
none_below fd true h = absurd (omega (arith, (h refl).0))
none_below fd false h = refl

untouched :
    (round : Round) (reads writes : Set) (server : Server)
    → ((fd : ℕ) → reads fd ≡ false)
    → ((fd : ℕ) → writes fd ≡ false)
    → handle_ready round reads writes server ≡ server
unfolding handle_ready serve_clients
untouched round reads writes server r w =
    let a : reads server.server_sock ≡ false = r server.server_sock in
    let b = nobody round.recv reads writes server.clients r w in
    rw (a, b) (ap (λ notices. record server { notices = notices }) (append-nil server.notices))

serve_untouched :
    (rounds : List Round) (server : Server)
    → All (λ round. IsSelect round.select) rounds
    → server_of (serve rounds server) ≡ server
unfolding serve selected
serve_untouched [] server h = refl
serve_untouched (round ∷ rounds) server (h, hs) =
    go (selected round server) refl (serve_untouched rounds server hs)
  where
    go :
        (s : Selected)
        → selected round server ≡ s
        → server_of (serve rounds server) ≡ server
        → server_of (serve (round ∷ rounds) server) ≡ server
    go timed_out e same = rw (e, serve) same
    go error e same = rw (e, serve) refl
    go (ready reads writes excepts) e same =
        let asked = h 0 _ _ _ reads writes excepts e in
        rw (e, serve)
          (ap (λ s. server_of (serve rounds s))
              (untouched round reads writes server (λ fd. none_below fd (reads fd) (asked fd).0)
                (λ fd. none_below fd (writes fd) (asked fd).1))
            ∙ same)

-- `select` is asked about the descriptors below 0. So where it keeps to POSIX, the server serves
-- nobody: however long its loop runs, and whatever clients come and send, it accepts no connection,
-- keeps the clients it had, and tells its user nothing.
pub run_server_internal_untouched :
    (bound listening : Bool) (rounds : List Round) (server : Server)
    → All (λ round. IsSelect round.select) rounds
    → server_of (run_server_internal bound listening rounds server) ≡ server
unfolding run_server_internal
run_server_internal_untouched true true rounds server h = serve_untouched rounds server h
run_server_internal_untouched true false rounds server h = refl
run_server_internal_untouched false listening rounds server h = refl
