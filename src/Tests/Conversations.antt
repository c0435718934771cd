-- ===== src/Tests/Conversations.antt =====
-- What clients of Session.cpp send in parts, and what they receive.
use socks.Session.Destruction.{deletions, Whole}
use socks.Session.Destruction.Handlers.{deletions_bounded}
use socks.Base.{
  ◌++◌, ◌≤◌, ◌⊎◌, ℕ, arith, ◌≡◌, ◌≢◌, refl, inl, List, [], ◌∷◌, none, some, false, true,
}
use socks.Proxy.{main, out}
use socks.SocketAddress.{Sockaddr, inet, get_address}
use socks.StateMachine.{State, process_buffer, offers}
use socks.Decoder.{decode_greeting, decode_user_pass, decode_command}
use socks.Encoder.{
  encode_greeting_resp, encode_user_pass_resp, encode_command_resp, encodable_method,
}
use socks.Base.Buffer.{load_range, store_range, resize}
use socks.Types.{is_version_support, is_auth_method_exist, is_command_exist, is_address_type_exist}
use socks.Maps.{find}
use socks.Manager
use socks.Manager.{Operation, connection_accepted, session_called, new_manager}
use socks.Manager.Protection.{sessions-Protected, Protected, CameTo}
use socks.Session.{Session, sent, Env, Event, received, closed, connected, new_session, run, handle}
use socks.Session.Answers.{alive, deleted}
use socks.Session.Fragments.{fragments_refused}
use socks.Session.Replies.{Dialogue, to_client}
use socks.Session.Replies.Handlers.Conversation.{run-Dialogue}

-- Everything goes out, every login is accepted, and every connection is made from 9.0.0.10:80.
abbrev local_sockaddr : Sockaddr
local_sockaddr = inet (9 ∷ 0 ∷ 0 ∷ 10 ∷ []) 20480

abbrev easy_env : Env
easy_env = record {
  send = λ t buf. true;
  auth_user_password = λ u p. true;
  create_new_connection = λ t a. some 3;
  get_local_address = λ t c. get_address local_sockaddr;
}

abbrev bytes_left : List ℕ
bytes_left = 1 ∷ 2 ∷ []

some_bytes_left : bytes_left ≢ []
some_bytes_left e = cc (e)

fragments_refused_example :
    run easy_env
      (received main (5 ∷ []) ∷ received main bytes_left ∷ [])
      (alive State.wait_for_greeting 4 none [])
    ≡ deleted State.protocol_failed 4 none []
fragments_refused_example =
    fragments_refused easy_env 4 none [] State.wait_for_greeting (5 ∷ 1 ∷ 2 ∷ []) (5 ∷ [])
      bytes_left (received main bytes_left ∷ [])
      (
        record { version = 5; auth_methods = 2 ∷ [] },
        (
          record {
            version = refl;
            methods = unfold is_auth_method_exist in refl;
            few = omega arith;
          },
          refl,
        ),
      )
      (omega arith, tt) some_bytes_left (inl refl)

abbrev whole_conversation : List Event
whole_conversation =
    received main (5 ∷ 1 ∷ 2 ∷ [])
    ∷ received main (1 ∷ 1 ∷ 1 ∷ 1 ∷ 7 ∷ [])
    ∷ received main (5 ∷ 1 ∷ 0 ∷ 1 ∷ 127 ∷ 0 ∷ 0 ∷ 1 ∷ 0 ∷ 80 ∷ [])
    ∷ connected
    ∷ received out (42 ∷ [])
    ∷ closed out
    ∷ []

run-Dialogue_example :
    Dialogue (to_client (run easy_env whole_conversation (new_session 4)).trace)
    × ((run easy_env whole_conversation (new_session 4)).threw ≡ false)
run-Dialogue_example =
    run-Dialogue easy_env (λ t c a h. (local_sockaddr, (refl, h))) 4 whole_conversation

conversation_said :
    to_client (run easy_env whole_conversation (new_session 4)).trace
    ≡ (42 ∷ []) ∷ (5 ∷ 0 ∷ 0 ∷ 1 ∷ 10 ∷ 0 ∷ 0 ∷ 9 ∷ 80 ∷ 0 ∷ []) ∷ (5 ∷ 0 ∷ []) ∷ (5 ∷ 2 ∷ []) ∷ []
unfolding run handle process_buffer offers decode_greeting decode_user_pass decode_command
    load_range is_version_support is_auth_method_exist is_command_exist is_address_type_exist
    encode_greeting_resp encode_user_pass_resp encode_command_resp store_range resize
    encodable_method get_address
conversation_said = refl

abbrev first_client : List Operation
first_client = connection_accepted ∷ session_called easy_env 0 (received main (5 ∷ 1 ∷ 2 ∷ [])) ∷ []

abbrev greeted : Session
greeted = alive State.wait_for_pass_auth 0 none (sent (5 ∷ 2 ∷ []) ∷ [])

greeting_of_first : find 0 (Manager.run first_client (new_manager true)).sessions ≡ some greeted
unfolding Manager.run new_manager find handle process_buffer offers decode_greeting load_range
    is_version_support is_auth_method_exist encode_greeting_resp encode_user_pass_resp store_range
    resize encodable_method
greeting_of_first = refl

abbrev its_login : Event
its_login = received main (1 ∷ 1 ∷ 1 ∷ 1 ∷ 7 ∷ [])

sessions-Protected_example :
    Protected easy_env (CameTo (λ n. easy_env) 0 first_client) greeted
    × Protected easy_env
        (CameTo (λ n. easy_env) 0 (first_client ++ session_called easy_env 0 its_login ∷ []))
        (handle easy_env its_login greeted)
sessions-Protected_example =
    sessions-Protected (λ n. easy_env) first_client true 0 greeted its_login
      (λ t c a h. (local_sockaddr, (refl, h))) (tt, (refl, tt)) greeting_of_first

deletions_bounded_example :
    (deletions (run easy_env whole_conversation (new_session 4)).trace ≤ 2)
    × (((run easy_env whole_conversation (new_session 4)).ended ≡ true)
        ⊎ Whole (run easy_env whole_conversation (new_session 4)))
deletions_bounded_example = deletions_bounded easy_env 4 whole_conversation
