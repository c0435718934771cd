-- ===== src/SocketAddress/Reply.antt =====
-- Where a command makes the proxy connect to, and which bytes of the connection's local address the
-- client is told: EventSocketCommon.cpp between the decoder, the session and the encoder.
use socks.Base.{
  ℕ, ◌+◌, ◌*◌, ◌/◌, ◌%◌, ◌≡◌, refl, ap, ◌∙◌, List, [], ◌∷◌, ◌++◌, true, some, length, arith,
}
use socks.Base.Buffer.{bytes_of_u16, Outcome, ok, refused, IsByte, u16_of_bytes}
use socks.Types.{VariantAddress, ipv4, domain, ipv6}
use socks.Wire.{kind}
use socks.StateMachine.{State}
use socks.Session.{Env, Effect, sent, proxy_created, handle, connected}
use socks.Session.Answers.{alive, connection_answered}
use socks.Session.Established.{proxied}
use socks.SocketAddress.{Sockaddr, inet, inet6, ntohs, ntohl, get_address, convert_addr_to_storage}

-- The socket address with the address and the port as they came; a domain has none.
abbrev pub target : VariantAddress → ℕ → Outcome Sockaddr
target (ipv4 a) port = ok (inet a port)
target (domain d) port = refused
target (ipv6 a) port = ok (inet6 a port)

pub convert_lem :
    (addr : VariantAddress) (port : ℕ)
    → convert_addr_to_storage (record { kind = kind addr; addr = addr; port = port })
      ≡ target addr port
unfolding convert_addr_to_storage
convert_lem (ipv4 a) port = refl
convert_lem (domain d) port = refl
convert_lem (ipv6 a) port = refl

port_reversed :
    (p q : ℕ) → IsByte p → IsByte q → bytes_of_u16 (ntohs (u16_of_bytes p q)) ≡ q ∷ p ∷ []
unfolding ntohs
port_reversed p q hp hq =
    let lo : (p + 256 * q) % 256 * 256 + (p + 256 * q) / 256 % 256 ≡ p * 256 + q = omega arith in
    let low : (p * 256 + q) % 256 ≡ q = omega arith in
    let high : (p * 256 + q) / 256 % 256 ≡ p = omega arith in rw lo (rw (low, high) refl)

module _ (env : Env) (id : ℕ) (trace : List Effect) (p q : ℕ) where
  ipv4_reversed :
      (c a b d e : ℕ)
      → IsByte p
      → IsByte q
      → env.get_local_address trace c ≡ get_address (inet (a ∷ b ∷ d ∷ e ∷ []) (u16_of_bytes p q))
      → ((reply : List ℕ) → env.send trace reply ≡ true)
      → handle env connected (alive State.wait_for_proxy_start id (some c) trace)
        ≡ record (alive State.proxy_started id
            (some c)
            (proxy_created ∷ sent (5 ∷ 0 ∷ 0 ∷ 1 ∷ e ∷ d ∷ b ∷ a ∷ q ∷ p ∷ []) ∷ trace)) {
              tcp_stream_proxy = true;
            }
  unfolding get_address ntohs ntohl
  ipv4_reversed c a b d e hp hq l s =
      connection_answered env id c trace (ipv4 (e ∷ d ∷ b ∷ a ∷ [])) (ntohs (u16_of_bytes p q)) refl
        refl l s
      ∙ ap
          (λ port.
            record (alive State.proxy_started id (some c)
              (proxy_created ∷ sent (5 ∷ 0 ∷ 0 ∷ 1 ∷ e ∷ d ∷ b ∷ a ∷ port) ∷ trace)) {
                tcp_stream_proxy = true;
              })
          (port_reversed p q hp hq)

  ipv6_port_reversed :
      (c : ℕ) (a : List ℕ)
      → length a ≡ 16
      → IsByte p
      → IsByte q
      → env.get_local_address trace c ≡ get_address (inet6 a (u16_of_bytes p q))
      → ((reply : List ℕ) → env.send trace reply ≡ true)
      → handle env connected (alive State.wait_for_proxy_start id (some c) trace)
        ≡ record (alive State.proxy_started id
            (some c)
            (proxy_created ∷ sent (5 ∷ 0 ∷ 0 ∷ 4 ∷ (a ++ q ∷ p ∷ [])) ∷ trace)) {
              tcp_stream_proxy = true;
            }
  unfolding get_address ntohs
  ipv6_port_reversed c a size hp hq l s =
      connection_answered env id c trace (ipv6 a) (ntohs (u16_of_bytes p q)) size refl l s
      ∙ ap
          (λ port.
            record (alive State.proxy_started id (some c)
              (proxy_created ∷ sent (5 ∷ 0 ∷ 0 ∷ 4 ∷ (a ++ port)) ∷ trace)) {
                tcp_stream_proxy = true;
              })
          (port_reversed p q hp hq)

  -- Of a local IPv4 address a, b, d, e with the port bytes p, q, each in network order, the client is
  -- told the address e, d, b, a and the port q, p; of a local IPv6 address, the address as it is and
  -- the port q, p. (The answer goes out.)
  pub addresses_reversed :
      (c c' a b d e : ℕ) (a' : List ℕ)
      → IsByte p
      → IsByte q
      → length a' ≡ 16
      → env.get_local_address trace c ≡ get_address (inet (a ∷ b ∷ d ∷ e ∷ []) (u16_of_bytes p q))
      → env.get_local_address trace c' ≡ get_address (inet6 a' (u16_of_bytes p q))
      → ((reply : List ℕ) → env.send trace reply ≡ true)
      → (handle env connected (alive State.wait_for_proxy_start id (some c) trace)
          ≡ proxied id c
              (proxy_created ∷ sent (5 ∷ 0 ∷ 0 ∷ 1 ∷ e ∷ d ∷ b ∷ a ∷ q ∷ p ∷ []) ∷ trace))
        × (handle env connected (alive State.wait_for_proxy_start id (some c') trace)
            ≡ proxied id c' (proxy_created ∷ sent (5 ∷ 0 ∷ 0 ∷ 4 ∷ (a' ++ q ∷ p ∷ [])) ∷ trace))
  addresses_reversed c c' a b d e a' hp hq size local local' s =
      (ipv4_reversed c a b d e hp hq local s, ipv6_port_reversed c' a' size hp hq local' s)
