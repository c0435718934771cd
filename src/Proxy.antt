-- ===== src/Proxy.antt =====
-- TcpStreamProxy.cpp and the handlers of DirectedProxyConnection.cpp: what comes in on one side goes
-- out on the other, and the end of one side ends both.
pub mod Ending
use socks.Base.{ℕ, List, Bool, true, false, if◌then◌else◌}

-- ProxyDirection of SocksInterfaces.h: Main, In and Out.
pub data Direction : Type 0 where
  main inner out : Direction

-- What the proxy reaches: `send` and `disconnect` of its two DirectedProxyConnections, whose results
-- it does not look at, and `onProxyDestroy` of its user.
pub record ProxyLinks (W : Type 0) : Type 0 where
  pub main_send : List ℕ → W → W
  pub out_send : List ℕ → W → W
  pub main_disconnect : W → W
  pub out_disconnect : W → W
  pub on_proxy_destroy : W → W

module _ {W : Type 0} (links : ProxyLinks W) where
  unfoldable pub on_data_received : Direction → List ℕ → W → W
  on_data_received main buf w = links.out_send buf w
  on_data_received out buf w = links.main_send buf w
  on_data_received inner buf w = w

  other_disconnect : Direction → W → W
  other_disconnect main w = links.out_disconnect w
  other_disconnect out w = links.main_disconnect w
  other_disconnect inner w = w

  unfoldable pub on_disconnected : Direction → W → W
  unfolding other_disconnect
  on_disconnected direction w = links.on_proxy_destroy (other_disconnect direction w)

-- What a DirectedProxyConnection reaches of its connection. Its user is the DirectedProxyConnection
-- (`true`) or null.
pub record Connection (W : Type 0) : Type 0 where
  pub set_user : Bool → W → W
  pub is_connected : W → Bool
  pub close_connection : W → W
  pub send : List ℕ → W → W × Bool

module _ {W : Type 0} where
  unfoldable pub new_directed : Connection W → W → W
  new_directed conn w = conn.set_user true w

  unfoldable pub destroy_directed : Connection W → W → W
  destroy_directed conn w =
      let closed = conn.close_connection w in
      conn.set_user false (if conn.is_connected w then closed else w)

  unfoldable pub directed_send : Connection W → List ℕ → W → W × Bool
  directed_send conn buf w = conn.send buf w

  unfoldable pub directed_disconnect : Connection W → W → W
  directed_disconnect conn w = conn.close_connection w

  -- The members of a TcpStreamProxy are made in their order, and destroyed in the opposite one.
  unfoldable pub new_proxy : Connection W → Connection W → W → W
  unfolding new_directed
  new_proxy main_conn out_conn w = new_directed out_conn (new_directed main_conn w)

  unfoldable pub destroy_proxy : Connection W → Connection W → W → W
  unfolding destroy_directed
  destroy_proxy main_conn out_conn w = destroy_directed main_conn (destroy_directed out_conn w)

  -- A proxy between two connections, whose user deletes it when it asks for that.
  unfoldable pub proxy_between : Connection W → Connection W → ProxyLinks W
  unfolding directed_send directed_disconnect destroy_proxy
  proxy_between main_conn out_conn = record {
    main_send = λ buf w. (directed_send main_conn buf w).0;
    out_send = λ buf w. (directed_send out_conn buf w).0;
    main_disconnect = directed_disconnect main_conn;
    out_disconnect = directed_disconnect out_conn;
    on_proxy_destroy = destroy_proxy main_conn out_conn;
  }
