-- ===== src/Tests/Network.antt =====
-- Accounts, addresses, sockets and the manager at concrete inputs.
use socks.Base.{
  ℕ, ◌%◌, ◌^◌, ◌<◌, ◌≡◌, ◌↔◌, refl, List, [], ◌∷◌, true, false, Option, none, some, arith, ◌++◌,
  ◌==◌, if◌then◌else◌,
}
use socks.Base.Buffer.{u16_of_bytes}
use socks.Types.{Address, ipv4}
use socks.StateMachine.{State}
use socks.Split.{string_split}
use socks.Split.Fields.{fields, string_split-fields}
use socks.Accounts.{equals, auth_user_password, read_lines}
use socks.Accounts.Logins.{LastGiven, auth_user_password_lem}
use socks.SocketAddress.{inet, inet6, get_address}
use socks.SocketAddress.Reply.{addresses_reversed}
use socks.Session.{Env, received, sent, proxy_created, handle, connected}
use socks.Session.Answers.{alive}
use socks.Session.Established.{proxied}
use socks.Proxy.{main}
use socks.Socket.Recorder as SocketRecorder
use socks.Maps.{find}
use socks.Manager
use socks.Manager.Ids.{accepted, next_id_free}
use socks.Manager.Independence.{find-own_run, own_run}

-- a,b,,c
abbrev line : List ℕ
line = 97 ∷ 44 ∷ 98 ∷ 44 ∷ 44 ∷ 99 ∷ []

string_split-fields_example : string_split line (44 ∷ []) ≡ fields 44 line
string_split-fields_example = string_split-fields 44 line

line_fields : string_split line (44 ∷ []) ≡ (97 ∷ []) ∷ (98 ∷ []) ∷ [] ∷ (99 ∷ []) ∷ []
line_fields = string_split-fields 44 line

-- a,x then a,b,,c
abbrev lines : List (List ℕ)
lines = (97 ∷ 44 ∷ 120 ∷ []) ∷ line ∷ []

auth_user_password_lem_example :
    (auth_user_password (read_lines lines []) (97 ∷ []) (98 ∷ []) ≡ true)
    ↔ LastGiven (97 ∷ []) (98 ∷ []) lines
auth_user_password_lem_example = auth_user_password_lem lines (97 ∷ []) (98 ∷ [])

line_accepted : auth_user_password (read_lines lines []) (97 ∷ []) (98 ∷ []) ≡ true
unfolding equals
line_accepted =
    (auth_user_password_lem lines (97 ∷ []) (98 ∷ [])).1
      ((97 ∷ 44 ∷ 120 ∷ []) ∷ [], line, [], (refl, refl, tt))

abbrev loopback6 : List ℕ
loopback6 = 0 ∷ 0 ∷ 0 ∷ 0 ∷ 0 ∷ 0 ∷ 0 ∷ 0 ∷ 0 ∷ 0 ∷ 0 ∷ 0 ∷ 0 ∷ 0 ∷ 0 ∷ 1 ∷ []

-- The connection 3 is at 10.0.0.9, every other at ::1, both with the port 258: bytes 1, 2.
abbrev address_of : ℕ → Option Address
address_of c =
    if c == 3
    then get_address (inet (10 ∷ 0 ∷ 0 ∷ 9 ∷ []) (u16_of_bytes 1 2))
    else get_address (inet6 loopback6 (u16_of_bytes 1 2))

abbrev both_kinds : Env
both_kinds = record {
  send = λ t buf. true;
  auth_user_password = λ u p. true;
  create_new_connection = λ t a. some 3;
  get_local_address = λ t c. address_of c;
}

addresses_reversed_example :
    (handle both_kinds connected (alive State.wait_for_proxy_start 4 (some 3) [])
      ≡ proxied 4 3 (proxy_created ∷ sent (5 ∷ 0 ∷ 0 ∷ 1 ∷ 9 ∷ 0 ∷ 0 ∷ 10 ∷ 2 ∷ 1 ∷ []) ∷ []))
    × (handle both_kinds connected (alive State.wait_for_proxy_start 4 (some 6) [])
        ≡ proxied 4 6 (proxy_created ∷ sent (5 ∷ 0 ∷ 0 ∷ 4 ∷ (loopback6 ++ 2 ∷ 1 ∷ [])) ∷ []))
addresses_reversed_example =
    addresses_reversed both_kinds 4 [] 1 2 3 6 10 0 0 9 loopback6 (omega arith) (omega arith) refl
      refl refl (λ r. refl)

abbrev unset : Address
unset = record { kind = 0; addr = ipv4 []; port = 0 }

abbrev hang_up : SocketRecorder.Operation
hang_up =
    SocketRecorder.event (inet [] 0) (inet [] 0)
      (record { eof = true; error = true; connected = false })

abbrev served : SocketRecorder.Recorder
served = record {
  socket = record {
    user = some 7;
    remote_address = unset;
    local_address = unset;
    connected = true;
  };
  calls = [];
}

abbrev two : List Manager.Operation
two = Manager.connection_accepted ∷ Manager.connection_accepted ∷ []

next_id_free_example :
    ((Manager.run two (Manager.new_manager true)).current_id ≡ accepted two % 2 ^ 32)
    × (accepted two < 2 ^ 32
        → find
            (Manager.run two (Manager.new_manager true)).current_id
            (Manager.run two (Manager.new_manager true)).sessions
          ≡ none)
next_id_free_example = next_id_free two true

-- Two sessions; the first gets a greeting that it refuses.
abbrev two_called : List Manager.Operation
two_called =
    Manager.connection_accepted
    ∷ Manager.connection_accepted
    ∷ Manager.session_called both_kinds 0 (received main (9 ∷ []))
    ∷ []

find-own_run_example :
    find 1 (Manager.run two_called (Manager.new_manager true)).sessions
    ≡ own_run two_called 0 1 none
unfolding Manager.new_manager find
find-own_run_example = find-own_run two_called (Manager.new_manager true) 1
