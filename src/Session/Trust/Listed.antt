-- ===== src/Session/Trust/Listed.antt =====
-- Session.cpp with the authorizer of SocksLoginPassAuthorizer.cpp.
use socks.Base.Buffer.{ok}
use socks.Types.{UserPassAuthMsg, fresh_user_pass}
use socks.Decoder.{decode_user_pass}
use socks.Proxy.{main}
use socks.Session.Origins.{Sourced, run-Sourced}
use socks.Base.{All, All-at, All-after, Memᴰ, ℕ, ◌≡◌, inl, inr, ap, List, [], ◌∷◌, ◌++◌, true}
use socks.Accounts.{auth_user_password, read_lines}
use socks.Accounts.Logins.{LastGiven, auth_user_password_lem}
use socks.Session.{
  Effect, sent, checked, connecting, proxy_created, proxy_destroyed, relayed, disconnected,
  connection_destroyed, session_end, Env, Event, received, new_session, run,
}
use socks.Session.Trust.{Trusted, Logged}
use socks.Session.Trust.Handlers.{run-Trusted}

-- What a session only does for a client that has logged in.
abbrev pub Guarded : Effect → Type 0
Guarded (connecting a) = Unit
Guarded proxy_created = Unit
Guarded (relayed d buf) = Unit
Guarded e = ⊥

module _ (env : Env) where
  Trusted-tail : (e : Effect) (es : List Effect) → Trusted env (e ∷ es) → Trusted env es
  Trusted-tail (connecting a) es h = h.1
  Trusted-tail proxy_created es h = h.1
  Trusted-tail (relayed d buf) es h = h.1
  Trusted-tail _ es h = h

  Trusted-Logged :
      (e : Effect) (es : List Effect) → Guarded e → Trusted env (e ∷ es) → Logged env es
  Trusted-Logged (connecting a) es g h = h.0
  Trusted-Logged proxy_created es g h = h.0
  Trusted-Logged (relayed d buf) es g h = h.0
  Trusted-Logged _ es g h = absurd g

  Trusted-append :
      (later : List Effect) (e : Effect) (earlier : List Effect)
      → Guarded e
      → Trusted env (later ++ e ∷ earlier)
      → Logged env earlier
  Trusted-append [] e earlier g h = Trusted-Logged e earlier g h
  Trusted-append (x ∷ later) e earlier g h =
      Trusted-append later e earlier g (Trusted-tail x (later ++ e ∷ earlier) h)

  -- A check that the authorizer passed, somewhere in the trace.
  abbrev Passed : List Effect → Type 0
  Passed es =
      (newer : List Effect) × (user : List ℕ) × (password : List ℕ) × (older : List Effect) × ((es
          ≡ newer ++ checked user password true ∷ older)
        × (env.auth_user_password user password ≡ true))

  Passed-cons : (e : Effect) (es : List Effect) → Passed es → Passed (e ∷ es)
  Passed-cons e es (newer, user, password, older, (w, a)) =
      (e ∷ newer, user, password, older, (ap (◌∷◌ e) w, a))

  Logged-Passed : (es : List Effect) → Logged env es → Passed es
  Logged-Passed [] h = absurd h
  Logged-Passed (checked user password b ∷ es) (inl h) =
      ([], user, password, es, (ap (λ c. checked user password c ∷ es) h.0, h.1))
  Logged-Passed (checked user password b ∷ es) (inr h) =
      Passed-cons (checked user password b) es (Logged-Passed es h)
  Logged-Passed (sent buf ∷ es) h = Passed-cons (sent buf) es (Logged-Passed es h)
  Logged-Passed (connecting a ∷ es) h = Passed-cons (connecting a) es (Logged-Passed es h)
  Logged-Passed (proxy_created ∷ es) h = Passed-cons proxy_created es (Logged-Passed es h)
  Logged-Passed (proxy_destroyed ∷ es) h = Passed-cons proxy_destroyed es (Logged-Passed es h)
  Logged-Passed (relayed d buf ∷ es) h = Passed-cons (relayed d buf) es (Logged-Passed es h)
  Logged-Passed (disconnected d ∷ es) h = Passed-cons (disconnected d) es (Logged-Passed es h)
  Logged-Passed (connection_destroyed ∷ es) h =
      Passed-cons connection_destroyed es (Logged-Passed es h)
  Logged-Passed (session_end id ∷ es) h = Passed-cons (session_end id) es (Logged-Passed es h)

-- The session's surroundings with the authorizer that has read these lines.
abbrev pub with_logins : List (List ℕ) → Env → Env
with_logins lines env = record env { auth_user_password = auth_user_password (read_lines lines []) }

-- Whatever reaches a new session whose authorizer has read these lines: before any outgoing
-- connection, proxy or byte that a proxy moves, the authorizer passed a name and a password such that
-- the last line for that name gives that password; and the name and the password are those of a login
-- message that the client sent.
pub Guarded-LastGiven :
    (lines : List (List ℕ)) (env : Env) (id : ℕ) (es : List Event) (later : List Effect)
    (e : Effect) (earlier : List Effect)
    → Guarded e
    → (run (with_logins lines env) es (new_session id)).trace ≡ later ++ e ∷ earlier
    → (newer : List Effect) × (m : UserPassAuthMsg) × (older : List Effect) × (buf : List ℕ)
      × ((earlier ≡ newer ++ checked m.user m.password true ∷ older)
          × LastGiven m.user m.password lines
          × Memᴰ (received main buf) es
          × (decode_user_pass buf fresh_user_pass ≡ ok m))
Guarded-LastGiven lines env id es later e earlier g h =
    let env' : Env = with_logins lines env in
    let logged : Logged env' earlier =
      Trusted-append env' later e earlier g (rw h at (run-Trusted env' id es)) in
    let (newer, user, password, older, (w, a)) = Logged-Passed env' earlier logged in
    let Cause : Effect → Type 0 = Sourced env' (λ event. Memᴰ event es) in
    let causes : All Cause (later ++ e ∷ earlier) = rw h at (run-Sourced env' id es) in
    let (buf, m, (came, d, u, p, _)) =
      All-at Cause newer (checked user password true) older
        (rw w at ((All-after Cause later (e ∷ earlier) causes).1)) in
    (
      newer,
      m,
      older,
      buf,
      (rw (u, p) at w, rw (u, p) at ((auth_user_password_lem lines user password).0 a), came, d),
    )
