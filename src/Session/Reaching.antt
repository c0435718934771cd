-- ===== src/Session/Reaching.antt =====
-- A session of Session.cpp whose connections are made by `createConnect` of
-- Event/EventSocketConnected.cpp: from the bytes of a command to the call of libevent.
use socks.Base.{
  ℕ, ◌≡◌, refl, ◌∙◌, ap, List, ◌∷◌, Bool, true, false, Option, none, some, if◌then◌else◌, All,
  Bool-cases, inl, inr,
}
use socks.Base.Buffer.{Outcome, ok, refused, bad_variant, out_of_bounds, IsByte}
use socks.Types.{Address, CommandMsg, tcp_stream}
use socks.Decoder.{decode_command}
use socks.Decoder.Exact.{decode_command_exact}
use socks.Wire.{command_wire}
use socks.StateMachine.{State}
use socks.Proxy.{main}
use socks.SocketAddress.{Sockaddr, convert_addr_to_storage}
use socks.SocketAddress.Reply.{target, convert_lem}
use socks.Socket.{Socket, World, outgoing_socket, set_user, connect, create_connect}
use socks.Session.{Effect, connecting, Env, handle, received}
use socks.Session.Answers.{alive, stream_ordered}
use socks.Session.Failures.{address_of, deleted_twice, connection_refused}

module _ {W : Type 0} (world : World W) where
  -- The socket is found as it was put.
  abbrev pub IsStore : Type 0
  IsStore = (s : Socket) (w : W) → world.get (world.put s w) ≡ s

  -- The connection that is asked of libevent, if any, with its success.
  abbrev pub sought : Outcome Sockaddr → W → W × Bool
  sought (ok sockaddr) w = world.socket_connect sockaddr w
  sought refused w = (w, false)
  sought bad_variant w = (w, false)
  sought out_of_bounds w = (w, false)

  -- The world with a new socket for the address, and its user.
  abbrev pub with_socket : Address → Address → ℕ → W → W
  with_socket unset a user w = set_user world (some user) (world.put (outgoing_socket unset a) w)

  remote_address-with_socket :
      (unset a : Address) (user : ℕ) (w : W)
      → IsStore
      → (world.get (with_socket unset a user w)).remote_address ≡ a
  unfolding set_user outgoing_socket
  remote_address-with_socket unset a user w store =
      let w1 = world.put (outgoing_socket unset a) w in
      ap (λ (s : Socket). s.remote_address) (store (record (world.get w1) { user = some user }) w1)
      ∙ ap (λ (s : Socket). s.remote_address) (store (outgoing_socket unset a) w)

  connect_lem :
      (w : W) → connect world w ≡ sought (convert_addr_to_storage (world.get w).remote_address) w
  unfolding connect
  connect_lem w = go (convert_addr_to_storage (world.get w).remote_address) refl
    where
      go :
          (o : Outcome Sockaddr)
          → convert_addr_to_storage (world.get w).remote_address ≡ o
          → connect world w ≡ sought o w
      go (ok sockaddr) e = rw (e, connect) refl
      go refused e = rw (e, connect) refl
      go bad_variant e = rw (e, connect) refl
      go out_of_bounds e = rw (e, connect) refl

-- A pointer to the connection when it has begun.
abbrev pub pointer : ℕ → Bool → Option ℕ
pointer c true = some c
pointer c false = none

-- Where a session's connections are made by `createConnect`: a session that waits for a command and
-- gets the bytes of one for a stream has got the wire form of what the decoder read, and
-- `createConnect` asks libevent for a connection to exactly that IPv4 or IPv6 address and that port,
-- as they came, from a new socket with its user; for a domain it asks nothing and fails. If the
-- connection begins, the session holds it and waits for it; if not, it is deleted twice and sends
-- nothing. (A socket in the world is found as it was put.)
pub command_reached :
    {W : Type 0} (world : World W) (env : Env) (id : ℕ) (trace : List Effect) (conn : Option ℕ)
    (buf : List ℕ) (m : CommandMsg) (c : ℕ) (unset : Address) (user : ℕ) (w : W)
    → IsStore world
    → All IsByte buf
    → decode_command buf ≡ ok m
    → m.command ≡ tcp_stream
    → env.create_new_connection trace (address_of m)
      ≡ pointer c (create_connect world unset (address_of m) user w).1
    → let begun =
        sought world (target m.addr m.port) (with_socket world unset (address_of m) user w) in
      (buf ≡ command_wire m)
      × (create_connect world unset (address_of m) user w ≡ begun)
      × (handle env (received main buf) (alive State.wait_for_command id conn trace) ≡ (
          if begun.1
          then alive State.wait_for_proxy_start id (some c) (connecting (address_of m) ∷ trace)
          else deleted_twice id none (connecting (address_of m) ∷ trace)))
unfolding create_connect
command_reached world env id trace conn buf m c unset user w store bytes d stream made =
    let w' = with_socket world unset (address_of m) user w in
    let (g, wire) = (decode_command_exact buf m bytes).0 d in
    let there : convert_addr_to_storage (world.get w').remote_address ≡ target m.addr m.port =
      ap convert_addr_to_storage
        (remote_address-with_socket world unset (address_of m) user w store)
      ∙ ap (λ t. convert_addr_to_storage (record { kind = t; addr = m.addr; port = m.port }))
          g.addr_type
      ∙ convert_lem m.addr m.port in
    let same = connect_lem world w' ∙ ap (λ o. sought world o w') there in
    let made' = made ∙ ap (λ x. pointer c x.1) same in
    (
      wire,
      same,
      elim (Bool-cases (sought world (target m.addr m.port) w').1) [
        | inl e ↦
            (let one : env.create_new_connection trace (address_of m) ≡ some c =
                made' ∙ ap (pointer c) e in
              stream_ordered env id conn trace buf m c d stream one ∙ rw e refl)
        | inr e ↦
            (let none_made : env.create_new_connection trace (address_of m) ≡ none =
                made' ∙ ap (pointer c) e in
              connection_refused env id trace conn buf m d stream none_made ∙ rw e refl)
      ],
    )
