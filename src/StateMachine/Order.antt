-- ===== src/StateMachine/Order.antt =====
-- The order of the calls that the machine of StateMachine.cpp makes.
use Prim.Native.String.{String}
use socks.Base.{
  ◌∙◌, append_assoc, All-append, length-append, length, All, sym, arith, ℕ, suc, ◌≡◌, refl, ap,
  List, [], ◌∷◌, ◌++◌, replicate,
}
use socks.Types.{Address, auth_login_pass}
use socks.StateMachine.{
  State, protocol_error, process_buffer, process_pass_auth_result, process_start_proxy_result,
}
use socks.StateMachine.Recorder.{
  Call, greeting_response, pass_auth_request, pass_auth_response, proxy_request, command_response,
  error, Recorder, Event, buffer, pass_auth_result, start_proxy_result, step, init, run,
}
use socks.StateMachine.Conversation.{
  Conversation, opened, offered, turned_away, asked, denied, admitted, ordered, started, failed,
  broken, run-Conversation,
}

-- Behind every proxy request stands a conversation that had come to waiting for a command.
abbrev Ordered : List Call → Type 0
Ordered [] = Unit
Ordered (proxy_request c a ∷ cs) = Conversation State.wait_for_command cs × Ordered cs
Ordered (c ∷ cs) = Ordered cs

Conversation-Ordered : {s : State} {cs : List Call} → Conversation s cs → Ordered cs
Conversation-Ordered opened = tt
Conversation-Ordered (offered h) = Conversation-Ordered h
Conversation-Ordered (turned_away t h) = Conversation-Ordered h
Conversation-Ordered (asked u p h) = Conversation-Ordered h
Conversation-Ordered (denied h) = Conversation-Ordered h
Conversation-Ordered (admitted h) = Conversation-Ordered h
Conversation-Ordered (ordered c a h) = (h, Conversation-Ordered h)
Conversation-Ordered (started a h) = Conversation-Ordered h
Conversation-Ordered (failed s a n h) = Conversation-Ordered h
Conversation-Ordered (broken t h) = Conversation-Ordered h

Ordered-append :
    (later earlier : List Call) (c : ℕ) (a : Address)
    → Ordered (later ++ proxy_request c a ∷ earlier)
    → Conversation State.wait_for_command earlier
Ordered-append [] earlier c a h = h.0
Ordered-append (greeting_response m ∷ later) earlier c a h = Ordered-append later earlier c a h
Ordered-append (pass_auth_request u p ∷ later) earlier c a h = Ordered-append later earlier c a h
Ordered-append (pass_auth_response s ∷ later) earlier c a h = Ordered-append later earlier c a h
Ordered-append (proxy_request d b ∷ later) earlier c a h = Ordered-append later earlier c a h.1
Ordered-append (command_response s b ∷ later) earlier c a h = Ordered-append later earlier c a h
Ordered-append (error t ∷ later) earlier c a h = Ordered-append later earlier c a h

abbrev pub asking : ℕ → List ℕ → List ℕ → List Call
asking n user password =
    replicate n (pass_auth_response 0x01)
    ++ pass_auth_request user password ∷ greeting_response auth_login_pass ∷ []

-- The parts of a login, by the state that it has reached.
abbrev Login : State → List Call → Type 0
Login State.wait_for_greeting cs = cs ≡ []
Login State.wait_for_pass_auth cs = cs ≡ greeting_response auth_login_pass ∷ []
Login State.wait_for_pass_auth_result cs =
    (n : ℕ) × (user : List ℕ) × (password : List ℕ) × (cs ≡ asking n user password)
Login State.wait_for_command cs =
    (n : ℕ) × (user : List ℕ) × (password : List ℕ) × (cs
      ≡ pass_auth_response 0x00 ∷ asking n user password)
Login s cs = Unit

Conversation-Login : {s : State} {cs : List Call} → Conversation s cs → Login s cs
Conversation-Login opened = refl
Conversation-Login (offered h) = ap (◌∷◌ (greeting_response auth_login_pass)) (Conversation-Login h)
Conversation-Login (turned_away t h) = tt
Conversation-Login (asked u p h) =
    (0, u, p, ap (◌∷◌ (pass_auth_request u p)) (Conversation-Login h))
Conversation-Login (denied h) =
    let (n, u, p, e) = Conversation-Login h in (suc n, u, p, ap (◌∷◌ (pass_auth_response 0x01)) e)
Conversation-Login (admitted h) =
    let (n, u, p, e) = Conversation-Login h in (n, u, p, ap (◌∷◌ (pass_auth_response 0x00)) e)
Conversation-Login (ordered c a h) = tt
Conversation-Login (started a h) = tt
Conversation-Login (failed s a n h) = tt
Conversation-Login (broken t h) = tt

-- Whatever events reach a new machine: if it ever asks for a proxy, then the calls it made before
-- are, in order, the greeting answered with name and password, one request to check a name and a
-- password, any number of denials, and one answer of success. So there is no proxy without a
-- success, and no second proxy request.
pub proxy_after_login :
    (es : List Event) (later earlier : List Call) (c : ℕ) (a : Address)
    → (run es init).calls ≡ later ++ proxy_request c a ∷ earlier
    → (n : ℕ) × (user : List ℕ) × (password : List ℕ) × (earlier
        ≡ pass_auth_response 0x00 ∷ asking n user password)
proxy_after_login es later earlier c a h =
    Conversation-Login
      (Ordered-append later earlier c a (rw h at (Conversation-Ordered (run-Conversation es))))

abbrev pub IsError : Call → Type 0
IsError (error t) = Unit
IsError c = ⊥

failed_step :
    (e : Event) (cs : List Call)
    → (t : String) × (step e (record { state = State.protocol_failed; calls = cs })
        ≡ record { state = State.protocol_failed; calls = error t ∷ cs })
unfolding step process_buffer process_pass_auth_result process_start_proxy_result protocol_error
failed_step (buffer buf) cs = (_, refl)
failed_step (pass_auth_result s) cs = (_, refl)
failed_step (start_proxy_result s a) cs = (_, refl)

failed_run :
    (es : List Event) (cs : List Call)
    → (errors : List Call) × (run es (record { state = State.protocol_failed; calls = cs })
        ≡ record { state = State.protocol_failed; calls = errors ++ cs })
      × All IsError errors
      × (length errors ≡ length es)
unfolding run
failed_run [] cs = ([], refl, tt, refl)
failed_run (e ∷ es) cs =
    let (t, stepped) = failed_step e cs in
    let (errors, ran, all, count) = failed_run es (error t ∷ cs) in
    (
      errors ++ error t ∷ [],
      ap (run es) stepped
          ∙ ran
          ∙ ap (λ l. record { state = State.protocol_failed; calls = l })
              (sym (append_assoc errors (error t ∷ []) cs)),
      All-append IsError errors (error t ∷ []) all (tt, tt),
      omega (arith, length-append errors (error t ∷ [])),
    )

-- Once the machine has met a protocol error it stays there: each further event, of any kind, makes
-- one more error call and nothing else.
pub failed_forever :
    (es : List Event) (r : Recorder)
    → r.state ≡ State.protocol_failed
    → (errors : List Call) × (run es r
        ≡ record { state = State.protocol_failed; calls = errors ++ r.calls })
      × All IsError errors
      × (length errors ≡ length es)
failed_forever es r h =
    let (errors, ran, rest) = split in
    (
      errors,
      ap (λ (s : State). run es (record { state = s; calls = r.calls })) h ∙ ran,
      rest.0,
      rest.1,
    )
  where
    split :
        (errors : List Call) × (run es (record { state = State.protocol_failed; calls = r.calls })
          ≡ record { state = State.protocol_failed; calls = errors ++ r.calls })
        × (All IsError errors × (length errors ≡ length es))
    split = let (errors, ran, all, count) = failed_run es r.calls in (errors, ran, (all, count))
