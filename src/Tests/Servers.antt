-- ===== src/Tests/Servers.antt =====
-- The older servers, their sockets and the signal listener at concrete inputs.
use socks.Base.{
  ℕ, ◌+◌, ◌<◌, ◌≡◌, ◌≢◌, refl, ap, List, [], ◌∷◌, Bool, true, false, ◌&&◌, none, some,
  if◌then◌else◌, All, ltb, ◌==◌, arith,
}
use socks.Maps.{find}
use socks.TcpServer
use socks.TcpServer.{Set, Selected, Round, Received}
use socks.TcpServer.Clients.{handle_clients_lem, kept, stays, all_told, told}
use socks.TcpServer.Serving.{IsSelect, server_of, run_server_internal_untouched}
use socks.BaseSocket.{Flags}
use socks.ExSocket.{on_connection_closed, Ready, accepted_socket}
use socks.ExSocket.Closing.{rounds, rounds-Open}
use socks.SignalListener.Events as ListenerEvents
use socks.SignalListener.Events.{find-run, event_of, made, entries_with, occurrences}

-- The client 5 sends bytes, 6 would block and 7 is gone; 7 and 8 can be written.
abbrev receiving : ℕ → Received
receiving fd = if fd == 5 then TcpServer.bytes (1 ∷ []) else TcpServer.failed (fd == 6)

abbrev below_8 : Set
below_8 fd = ltb fd 8

abbrev above_6 : Set
above_6 fd = ltb 6 fd

handle_clients_lem_example :
    TcpServer.handle_clients receiving below_8 above_6 (5 ∷ 6 ∷ 7 ∷ 8 ∷ []) ≡ (
      kept (stays receiving below_8) (5 ∷ 6 ∷ 7 ∷ 8 ∷ []),
      all_told (told receiving below_8 above_6) (5 ∷ 6 ∷ 7 ∷ 8 ∷ []),
    )
handle_clients_lem_example =
    handle_clients_lem receiving above_6 (5 ∷ 6 ∷ 7 ∷ 8 ∷ []) below_8 (omega arith)

clients_told : TcpServer.handle_clients receiving below_8 above_6 (5 ∷ 6 ∷ 7 ∷ 8 ∷ []) ≡ (
  5 ∷ 8 ∷ [],
  TcpServer.data_received 5 (1 ∷ [])
      ∷ TcpServer.close_connection 7
      ∷ TcpServer.data_can_be_send 8
      ∷ [],
)
unfolding TcpServer.handle_clients
clients_told = refl

-- Of what is asked for, what is below the number is ready.
abbrev ready_below : ℕ → Set → Set → Set → Selected
ready_below nfds reads writes excepts =
    TcpServer.ready (λ fd. ltb fd nfds && reads fd) (λ fd. ltb fd nfds && writes fd)
      (λ fd. ltb fd nfds && excepts fd)

abbrev reads_of : Selected → Set
reads_of (TcpServer.ready reads writes excepts) = reads
reads_of s = λ fd. false

abbrev writes_of : Selected → Set
writes_of (TcpServer.ready reads writes excepts) = writes
writes_of s = λ fd. false

abbrev excepts_of : Selected → Set
excepts_of (TcpServer.ready reads writes excepts) = excepts
excepts_of s = λ fd. false

asked_below :
    (fd nfds : ℕ) (asked b : Bool)
    → (ltb fd nfds && asked) ≡ b
    → b ≡ true
    → (fd < nfds) × (asked ≡ true)
asked_below fd nfds asked b e t = ground (arith, e, t)

ready_below-IsSelect : IsSelect ready_below
ready_below-IsSelect nfds r w x r' w' x' e fd = (
  asked_below fd nfds (r fd) (r' fd) (ap (λ s. reads_of s fd) e),
  asked_below fd nfds (w fd) (w' fd) (ap (λ s. writes_of s fd) e),
  asked_below fd nfds (x fd) (x' fd) (ap (λ s. excepts_of s fd) e),
)

abbrev busy : Round
busy = record { select = ready_below; accept = some (9, (0, 0)); recv = receiving }

abbrev server : TcpServer.Server
server = record { server_sock = 3; clients = 5 ∷ []; notices = [] }

run_server_internal_untouched_example :
    server_of (TcpServer.run_server_internal true true (busy ∷ busy ∷ []) server) ≡ server
run_server_internal_untouched_example =
    run_server_internal_untouched true true (busy ∷ busy ∷ []) server
      (ready_below-IsSelect, (ready_below-IsSelect, tt))

abbrev flags : Flags
flags i = i == 1

-- The peer is gone: nothing is received.
abbrev hung_up : Ready
hung_up = record {
  readable = true;
  writable = true;
  failed = false;
  accepted = none;
  incoming = record { receive_buffer = 4; available = 0 };
  received = [];
  sent = 0;
}

rounds-Open_example :
    All (λ c. c ≢ on_connection_closed) (rounds (hung_up ∷ hung_up ∷ []) accepted_socket).1
rounds-Open_example =
    rounds-Open (hung_up ∷ hung_up ∷ []) accepted_socket (omega arith, (omega arith, tt))

-- SIGINT is listened for, then again, and SIGTERM for a while.
abbrev listening : List ListenerEvents.Operation
listening =
    ListenerEvents.added 2 (some 100)
    ∷ ListenerEvents.added 15 (some 101)
    ∷ ListenerEvents.added 2 (some 102)
    ∷ ListenerEvents.deleted 15
    ∷ []

find-run_example :
    (find 15 (ListenerEvents.run listening ListenerEvents.start).events
      ≡ event_of listening 15 none)
    × (entries_with 100 (ListenerEvents.run listening ListenerEvents.start).events
          + occurrences 100 (ListenerEvents.run listening ListenerEvents.start).freed
        ≡ made 100 listening)
find-run_example = find-run listening 15 100
