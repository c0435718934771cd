-- ===== src/TcpServer/Clients.antt =====
-- handleClients of libratel/TcpServer.cpp, against a client-by-client account.
use socks.Base.{
  ℕ, ◌==◌, List, [], ◌∷◌, ◌++◌, Bool, true, false, if◌then◌else◌, ◌≡◌, ◌≢◌, refl, sym, ◌∙◌, ap,
  Bool-cases, arith, inl, inr, All, append_assoc,
}
use socks.TcpServer.{
  Set, fd_clr, Received, failed, ended, bytes, Notice, close_connection, data_received,
  handle_client_read, handle_clients, writable,
}

-- What is told to the user of a client that is read, and whether it is kept.
abbrev pub read_notices : ℕ → Received → List Notice
read_notices client (failed would_block) = if would_block then [] else close_connection client ∷ []
read_notices client ended = close_connection client ∷ []
read_notices client (bytes buf) = data_received client buf ∷ []

abbrev pub keeps : Received → Bool
keeps (failed would_block) = false
keeps ended = false
keeps (bytes buf) = true

abbrev pub told : (ℕ → Received) → Set → Set → ℕ → List Notice
told recv reads writes client =
    if reads client
    then (if keeps (recv client)
        then read_notices client (recv client) ++ writable client writes
        else read_notices client (recv client))
    else writable client writes

abbrev pub stays : (ℕ → Received) → Set → ℕ → Bool
stays recv reads client = if reads client then keeps (recv client) else true

abbrev pub kept : (ℕ → Bool) → List ℕ → List ℕ
kept test [] = []
kept test (client ∷ clients) = if test client then client ∷ kept test clients else kept test clients

abbrev pub all_told : (ℕ → List Notice) → List ℕ → List Notice
all_told tell [] = []
all_told tell (client ∷ clients) = tell client ++ all_told tell clients

abbrev pub IsDistinct : List ℕ → Type 0
IsDistinct [] = Unit
IsDistinct (client ∷ clients) = All (λ other. client ≢ other) clients × IsDistinct clients

abbrev Same : Set → Set → List ℕ → Type 0
Same reads reads' clients = All (λ client. reads' client ≡ reads client) clients

-- Clearing a client leaves the others in the set.
fd_clr-Same :
    (client : ℕ) (reads : Set) (clients : List ℕ)
    → All (λ other. client ≢ other) clients
    → Same reads (fd_clr client reads) clients
unfolding fd_clr
fd_clr-Same client reads [] h = tt
fd_clr-Same client reads (other ∷ clients) (ne, h) =
    let e : (client == other) ≡ false = ground (arith, ne) in
    (rw e refl, fd_clr-Same client reads clients h)

Same-refl : (reads : Set) (clients : List ℕ) → Same reads reads clients
Same-refl reads [] = tt
Same-refl reads (client ∷ clients) = (refl, Same-refl reads clients)

Same-trans :
    (reads reads' left : Set) (clients : List ℕ)
    → Same reads reads' clients
    → Same reads' left clients
    → Same reads left clients
Same-trans reads reads' left [] a b = tt
Same-trans reads reads' left (client ∷ clients) (a, same) (b, cleared) =
    (b ∙ a, Same-trans reads reads' left clients same cleared)

handle_client_read_lem :
    (client : ℕ) (r : Received) (reads : Set) (clients : List ℕ)
    → All (λ other. client ≢ other) clients
    → let (stay, (left, notices)) = handle_client_read client r reads in
      (stay ≡ keeps r) × (notices ≡ read_notices client r) × Same reads left clients
unfolding handle_client_read
handle_client_read_lem client (failed true) reads clients h = (refl, refl, Same-refl reads clients)
handle_client_read_lem client (failed false) reads clients h =
    (refl, refl, fd_clr-Same client reads clients h)
handle_client_read_lem client ended reads clients h =
    (refl, refl, fd_clr-Same client reads clients h)
handle_client_read_lem client (bytes buf) reads clients h = (refl, refl, Same-refl reads clients)

module _ (recv : ℕ → Received) (writes : Set) where
  handle_clients-Same :
      (clients : List ℕ) (reads reads' : Set)
      → IsDistinct clients
      → Same reads reads' clients
      → handle_clients recv reads' writes clients
        ≡ (kept (stays recv reads) clients, all_told (told recv reads writes) clients)
  unfolding handle_clients
  handle_clients-Same [] reads reads' d same = refl
  handle_clients-Same (client ∷ clients) reads reads' (fresh, d) (same, sames) =
      let left = (handle_client_read client (recv client) reads').1.0 in
      let (stay, notices, cleared) =
        handle_client_read_lem client (recv client) reads' clients fresh in
      let rest = handle_clients-Same clients reads reads' d sames in
      let after =
        handle_clients-Same clients reads left d
          (Same-trans reads reads' left clients sames cleared) in
      elim (Bool-cases (reads client)) [
        | inl e ↦ (elim (Bool-cases (keeps (recv client))) [
          | inl f ↦
              rw (same, e, stay, f, notices, after)
                (ap (λ l. (client ∷ kept (stays recv reads) clients, l))
                  (sym (
                    append_assoc (read_notices client (recv client)) (writable client writes)
                      (all_told (told recv reads writes) clients))))
          | inr f ↦ rw (same, e, stay, f, notices, after) refl
        ])
        | inr e ↦ rw (same, e, rest) refl
      ]

  -- For clients with different sockets, one pass of the loop does with each client what that client
  -- alone calls for, whatever is cleared from the set on the way: it keeps exactly the clients that
  -- cannot be read or that sent bytes, in their order, and tells the user, client by client, of the
  -- bytes of one that sent some, of the end of one that ended or failed (but not of one whose read
  -- would have blocked, which it drops all the same), and of every kept one that can be written.
  pub handle_clients_lem :
      (clients : List ℕ) (reads : Set)
      → IsDistinct clients
      → handle_clients recv reads writes clients
        ≡ (kept (stays recv reads) clients, all_told (told recv reads writes) clients)
  handle_clients_lem clients reads d =
      handle_clients-Same clients reads reads d (Same-refl reads clients)
