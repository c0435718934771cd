-- ===== src/Decoder/Command.antt =====
-- `decode` of a command (SocksDecoder.cpp), for every buffer.
use socks.Base.{
  ◌<◌, false, ℕ, ◌+◌, ◌≡◌, refl, List, [], ◌∷◌, ◌++◌, ◌&&◌, arith, ◌==◌, if◌then◌else◌, length,
  get_elem?, get_elem?-append, length-append, some, ◌≢◌, length-take,
}
use socks.Base.Buffer.{ok, refused, load_range, u16_of_bytes}
use socks.Base.BufferLaws.{load_range-append}
use socks.Types.{ipv4, ipv6, domain, is_version_support, is_command_exist, is_address_type_exist}
use socks.Decoder.{decode_command}

-- The test of the buffer's size comes first.
pub decode_command_short : (buf : List ℕ) → length buf < 6 → decode_command buf ≡ refused
unfolding decode_command
decode_command_short buf h = ground arith

module _ (v c z : ℕ) where
  pub decode_command_other :
      (k : ℕ) (t : List ℕ)
      → is_address_type_exist k ≡ false
      → decode_command (v ∷ c ∷ z ∷ k ∷ t) ≡ refused
  unfolding decode_command
  decode_command_other k t h = ground arith

  -- Not the ten bytes of a command with an IPv4 address.
  pub decode_command_ipv4_size :
      (t : List ℕ) → length t ≢ 6 → decode_command (v ∷ c ∷ z ∷ 1 ∷ t) ≡ refused
  unfolding decode_command load_range
  decode_command_ipv4_size t h = ground arith

  pub decode_command_ipv4 :
      (a : List ℕ) (p q : ℕ)
      → length a ≡ 4
      → decode_command (v ∷ c ∷ z ∷ 1 ∷ (a ++ p ∷ q ∷ [])) ≡ (
          if is_version_support v && ((z == 0) && is_command_exist c)
          then ok (record {
            version = v;
            command = c;
            addr_type = 1;
            addr = ipv4 a;
            port = u16_of_bytes p q;
          })
          else refused)
  unfolding decode_command is_address_type_exist
  decode_command_ipv4 a p q h =
      let buf : List ℕ = v ∷ c ∷ z ∷ 1 ∷ (a ++ p ∷ q ∷ []) in
      let first : get_elem? buf 8 ≡ some p =
        get_elem?-append (v ∷ c ∷ z ∷ 1 ∷ a) (p ∷ q ∷ []) 0 8 (omega arith) in
      let second : get_elem? buf 9 ≡ some q =
        get_elem?-append (v ∷ c ∷ z ∷ 1 ∷ a) (p ∷ q ∷ []) 1 9 (omega arith) in
      ground (
        arith,
        first,
        second,
        length-append a (p ∷ q ∷ []),
        load_range-append (v ∷ c ∷ z ∷ 1 ∷ []) a (p ∷ q ∷ []) 4 4 refl (omega arith),
      )

  -- Not the 22 bytes of a command with an IPv6 address.
  pub decode_command_ipv6_size :
      (t : List ℕ) → length t ≢ 18 → decode_command (v ∷ c ∷ z ∷ 4 ∷ t) ≡ refused
  unfolding decode_command load_range
  decode_command_ipv6_size t h = ground arith

  pub decode_command_ipv6 :
      (a : List ℕ) (p q : ℕ)
      → length a ≡ 16
      → decode_command (v ∷ c ∷ z ∷ 4 ∷ (a ++ p ∷ q ∷ [])) ≡ (
          if is_version_support v && ((z == 0) && is_command_exist c)
          then ok (record {
            version = v;
            command = c;
            addr_type = 4;
            addr = ipv6 a;
            port = u16_of_bytes p q;
          })
          else refused)
  unfolding decode_command is_address_type_exist
  decode_command_ipv6 a p q h =
      let buf : List ℕ = v ∷ c ∷ z ∷ 4 ∷ (a ++ p ∷ q ∷ []) in
      let first : get_elem? buf 20 ≡ some p =
        get_elem?-append (v ∷ c ∷ z ∷ 4 ∷ a) (p ∷ q ∷ []) 0 20 (omega arith) in
      let second : get_elem? buf 21 ≡ some q =
        get_elem?-append (v ∷ c ∷ z ∷ 4 ∷ a) (p ∷ q ∷ []) 1 21 (omega arith) in
      ground (
        arith,
        first,
        second,
        length-append a (p ∷ q ∷ []),
        load_range-append (v ∷ c ∷ z ∷ 4 ∷ []) a (p ∷ q ∷ []) 4 16 refl (omega arith),
      )

  -- A domain with a length that does not fit the buffer.
  pub decode_command_domain_size :
      (n : ℕ) (t : List ℕ) → length t ≢ n + 2 → decode_command (v ∷ c ∷ z ∷ 3 ∷ n ∷ t) ≡ refused
  unfolding decode_command load_range
  decode_command_domain_size n t h = ground (arith, length-take n t)

  pub decode_command_domain :
      (d : List ℕ) (p q : ℕ)
      → decode_command (v ∷ c ∷ z ∷ 3 ∷ length d ∷ (d ++ p ∷ q ∷ [])) ≡ (
          if is_version_support v && ((z == 0) && is_command_exist c)
          then ok (record {
            version = v;
            command = c;
            addr_type = 3;
            addr = domain d;
            port = u16_of_bytes p q;
          })
          else refused)
  unfolding decode_command is_address_type_exist
  decode_command_domain d p q =
      let buf : List ℕ = v ∷ c ∷ z ∷ 3 ∷ length d ∷ (d ++ p ∷ q ∷ []) in
      let front : List ℕ = v ∷ c ∷ z ∷ 3 ∷ length d ∷ d in
      let first : get_elem? buf (5 + length d) ≡ some p =
        get_elem?-append front (p ∷ q ∷ []) 0 (5 + length d) (omega arith) in
      let second : get_elem? buf (5 + length d + 1) ≡ some q =
        get_elem?-append front (p ∷ q ∷ []) 1 (5 + length d + 1) (omega arith) in
      ground (
        arith,
        first,
        second,
        length-append d (p ∷ q ∷ []),
        load_range-append (v ∷ c ∷ z ∷ 3 ∷ length d ∷ []) d (p ∷ q ∷ []) 5 (length d) refl refl,
      )
