-- ===== src/ExSocket/Handler.antt =====
-- FlipBuffer and ExSocketHandler of libratel/TcpServer.cpp: the set of the sockets, and the loop.
pub mod Idle
use socks.Base.{ℕ, ◌==◌, List, [], ◌∷◌, ◌++◌, map, Option, none, some, if◌then◌else◌}
use socks.Maps.{put, find}
use socks.Signals.Object.{insert, remove}
use socks.TcpServer.{Set, Selected, timed_out, error, ready, fd_sets, fd_zero}
use socks.ExSocket.{
  ExSocket, Call, on_add_socket, on_del_socket, accepted_socket, Ready, handle_socket,
}

abbrev pub event_add_socket : ℕ
event_add_socket = 0

abbrev pub event_del_socket : ℕ
event_del_socket = 1

-- FlipBuffer: two sets.
pub record FlipBuffer : Type 0 where
  pub write_set : List ℕ
  pub read_set : List ℕ

unfoldable pub flip_insert : ℕ → FlipBuffer → FlipBuffer
unfolding insert
flip_insert val buffer = record buffer { write_set = insert val buffer.write_set }

unfoldable pub flip_erase : ℕ → FlipBuffer → FlipBuffer
unfolding remove
flip_erase val buffer = record buffer { write_set = remove val buffer.write_set }

unfoldable pub flip_read : FlipBuffer → FlipBuffer × List ℕ
flip_read buffer = (record buffer { read_set = buffer.write_set }, buffer.write_set)

-- Nothing where it throws.
unfoldable pub handle_event : ℕ → ℕ → FlipBuffer → Option FlipBuffer
unfolding flip_insert flip_erase
handle_event type sock buffer =
    if type == event_add_socket
    then some (flip_insert sock buffer)
    else (if type == event_del_socket then some (flip_erase sock buffer) else none)

unfoldable pub push_event : ℕ → ℕ → FlipBuffer → FlipBuffer
unfolding handle_event
push_event type sock buffer = elim (handle_event type sock buffer) [
  | none ↦ buffer
  | some buffer ↦ buffer
]

-- The sockets by their descriptors, and all that they called, oldest first.
pub record Handler : Type 0 where
  pub buffer : FlipBuffer
  pub sockets : List (ℕ × ExSocket)
  pub calls : List (ℕ × Call)

-- What the calls of a socket do to the handler.
unfoldable pub perform : ℕ → List Call → Handler → Handler
unfolding push_event put
perform sock [] handler = handler
perform sock (on_add_socket fd ∷ calls) handler = perform sock calls (record handler {
  buffer = push_event event_add_socket fd handler.buffer;
  sockets = put fd accepted_socket handler.sockets;
})
perform sock (on_del_socket ∷ calls) handler =
    perform sock calls (record handler { buffer = push_event event_del_socket sock handler.buffer })
perform sock (call ∷ calls) handler = perform sock calls handler

-- One socket in a round, by the sets that `select` gave.
unfoldable pub handle_one : (ℕ → Ready) → Set → Set → Set → ℕ → Handler → Handler
unfolding find put handle_socket perform
handle_one system reads writes errs sock handler = elim (find sock handler.sockets) [
  | none ↦ handler
  | some s ↦
      (let r : Ready = record (system sock) {
        readable = reads sock;
        writable = writes sock;
        failed = errs sock;
      } in
        let (s', calls) = handle_socket r s in
        perform sock calls (record handler {
          sockets = put sock s' handler.sockets;
          calls = handler.calls ++ map (λ call. (sock, call)) calls;
        }))
]

unfoldable pub handle_all : (ℕ → Ready) → Set → Set → Set → List ℕ → Handler → Handler
unfolding handle_one
handle_all system reads writes errs [] handler = handler
handle_all system reads writes errs (sock ∷ socks) handler =
    handle_all system reads writes errs socks (handle_one system reads writes errs sock handler)

-- What the system does in a round.
pub record HandlerRound : Type 0 where
  pub select : ℕ → Set → Set → Set → Selected
  pub system : ℕ → Ready

unfoldable pub handler_selected : HandlerRound → List ℕ → Selected
unfolding fd_sets fd_zero
handler_selected round sockets =
    let asked = fd_sets sockets fd_zero in round.select 0 asked asked asked

-- The rounds of the loop, which ends where `select` fails. A round goes through the sockets that the
-- set had at its beginning.
unfoldable pub run_handler : List HandlerRound → Handler → Handler
unfolding flip_read handler_selected handle_all
run_handler [] handler = handler
run_handler (round ∷ rounds) handler =
    let (buffer, sockets) = flip_read handler.buffer in
    let handler' : Handler = record handler { buffer = buffer } in
    elim (handler_selected round sockets) [
      | timed_out ↦ run_handler rounds handler'
      | error ↦ handler'
      | ready reads writes errs ↦
          run_handler rounds (handle_all round.system reads writes errs sockets handler')
    ]
