-- ===== src/Socket.antt =====
-- Event/EventSocketConnected.cpp: a connection of the event loop, as ISocksConnection. The user that
-- it calls may call it back, so a method is a function on the whole world `W`, in which the socket
-- is found. The calls of libevent and of the system are parameters; logging is left out.
pub mod Recorder
pub mod Closing
pub mod Reporting
pub mod Plain
use socks.Base.{ℕ, ◌==◌, List, Bool, true, false, Option, none, some, length, if◌then◌else◌}
use socks.Base.Buffer.{Outcome, ok, out_of_bounds}
use socks.Types.{Address}
use socks.SocketAddress.{Owned, Sockaddr, get_address, convert_addr_to_storage}

-- The user is a pointer, which may be null.
pub record Socket : Type 0 where
  pub user : Option ℕ
  pub remote_address : Address
  pub local_address : Address
  pub connected : Bool

-- The socket in the world, ISocksConnectionUser, and the calls out of this file: `getsockname` and
-- `getpeername`; the disabling and closing of the descriptor; `evbuffer_add` and
-- `bufferevent_socket_connect` with their success; a failed assertion.
pub record World (W : Type 0) : Type 0 where
  pub get : W → Socket
  pub put : Socket → W → W
  pub on_receive : ℕ → List ℕ → W → W
  pub on_connected : ℕ → W → W
  pub on_connection_closed : ℕ → W → W
  pub get_sock_name : W → Sockaddr
  pub get_peer_name : W → Sockaddr
  pub close_socket : W → W
  pub add_output : List ℕ → W → W × Bool
  pub socket_connect : Sockaddr → W → W × Bool
  pub assertion_failed : W → W

-- The bits of libevent's `short events`: BEV_EVENT_EOF, BEV_EVENT_ERROR, BEV_EVENT_CONNECTED.
pub record Events : Type 0 where
  pub eof : Bool
  pub error : Bool
  pub connected : Bool

-- The two constructors, for a descriptor that was accepted (whose addresses are not set: `unset`)
-- and for an address to connect to.
unfoldable pub accepted_socket : Address → Socket
accepted_socket unset = record {
  user = none;
  remote_address = unset;
  local_address = unset;
  connected = false;
}

unfoldable pub outgoing_socket : Address → Address → Socket
outgoing_socket unset addr = record {
  user = none;
  remote_address = addr;
  local_address = unset;
  connected = false;
}

module _ {W : Type 0} (world : World W) where
  -- `if (_user) _user->...`
  call_user : (ℕ → W → W) → W → W
  call_user call w = elim (world.get w).user [ none ↦ w | some user ↦ call user w ]

  unfoldable pub set_user : Option ℕ → W → W
  set_user user w = world.put (record (world.get w) { user = user }) w

  -- What `evbuffer_get_length` and `evbuffer_remove` give: the bytes that have come in (`none` for a
  -- null buffer), and the number of those that were copied.
  unfoldable pub on_read : Option (List ℕ) → ℕ → W → W
  unfolding call_user
  on_read none copied w = w
  on_read (some buf) copied w =
      if copied == length buf then call_user (λ user. world.on_receive user buf) w else w

  unfoldable pub close_connection : W → W
  close_connection w =
      if (world.get w).connected
      then world.close_socket (world.put (record (world.get w) { connected = false }) w)
      else w

  -- Each of the two kinds of end.
  end_reported : Bool → W → W
  unfolding call_user close_connection
  end_reported true w = call_user world.on_connection_closed (close_connection w)
  end_reported false w = w

  update_local_address : W → W
  unfolding get_address
  update_local_address w = elim (get_address (world.get_sock_name w)) [
    | none ↦ world.assertion_failed w
    | some a ↦ world.put (record (world.get w) { local_address = a }) w
  ]

  update_remote_address : W → W
  unfolding get_address
  update_remote_address w = elim (get_address (world.get_peer_name w)) [
    | none ↦ world.assertion_failed w
    | some a ↦ world.put (record (world.get w) { remote_address = a }) w
  ]

  connection_made : Bool → W → W
  unfolding call_user update_local_address update_remote_address
  connection_made true w =
      let w1 = update_remote_address (update_local_address w) in
      call_user world.on_connected (world.put (record (world.get w1) { connected = true }) w1)
  connection_made false w = w

  unfoldable pub on_event : Events → W → W
  unfolding end_reported connection_made
  on_event events w =
      connection_made events.connected (end_reported events.error (end_reported events.eof w))

  -- `true` when the connection has begun.
  unfoldable pub connect : W → W × Bool
  unfolding convert_addr_to_storage
  connect w = elim (convert_addr_to_storage (world.get w).remote_address) [
    | ok sa ↦ world.socket_connect sa w
    | _ ↦ (w, false)
  ]

  -- A new socket that could not begin to connect is dropped.
  unfoldable pub create_connect : Address → Address → ℕ → W → W × Bool
  unfolding outgoing_socket set_user connect
  create_connect unset addr user w =
      connect (set_user (some user) (world.put (outgoing_socket unset addr) w))

  unfoldable pub send : List ℕ → W → W × Bool
  send buf w = world.add_output buf w

  unfoldable pub is_connected : W → Bool
  is_connected w = (world.get w).connected

  unfoldable pub get_local_address : W → Option Address
  get_local_address w = some (world.get w).local_address

-- What libevent keeps for a buffer event, and `shutdown` of its descriptor for writing.
pub record Callbacks (W : Type 0) : Type 0 where
  pub set_callbacks : (Option (List ℕ) → ℕ → W → W) → (W → W) → (Events → W → W) → W → W
  pub enable_reads_and_writes : W → W
  pub shutdown_writes : W → W

module _ {W : Type 0} (world : World W) (callbacks : Callbacks W) where
  unfoldable pub on_write : W → W
  on_write w = w

  -- The static functions, whose argument is the socket.
  unfoldable pub on_read_static : Option (List ℕ) → ℕ → W → W
  unfolding on_read
  on_read_static input copied w = on_read world input copied w

  unfoldable pub on_write_static : W → W
  unfolding on_write
  on_write_static w = on_write w

  unfoldable pub on_event_static : Events → W → W
  unfolding on_event
  on_event_static events w = on_event world events w

  unfoldable pub enable : W → W
  unfolding on_read_static on_write_static on_event_static
  enable w =
      callbacks.enable_reads_and_writes
        (callbacks.set_callbacks on_read_static on_write_static on_event_static w)

  -- The bodies of the constructors. On a null buffer event the calls of libevent are undefined.
  unfoldable pub open_socket : Owned → Socket → W → Outcome W
  unfolding enable
  open_socket bev socket w = elim bev.pointer [
    | none ↦ out_of_bounds
    | some b ↦ ok (enable (world.put socket w))
  ]

  unfoldable pub do_shutdown : W → W
  do_shutdown w = callbacks.shutdown_writes w
