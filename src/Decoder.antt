-- ===== src/Decoder.antt =====
-- SocksDecoder.cpp: the three `decode` overloads. Each takes the buffer and the message that it
-- fills; a `return false` is the outcome `refused`.
pub mod Greeting
pub mod UserPass
pub mod Command
pub mod Views
pub mod Exact
use socks.Base.{ℕ, zero, suc, ◌+◌, ◌-◌, List, [], ◌∷◌, ◌++◌, leb, ◌==◌, if◌then◌else◌, length}
use socks.Base.Buffer.{
  Outcome, ok, refused, bad_variant, ◌>>=◌, ◌>>◌, require, load, load_range, load_u16,
}
use socks.Types.{
  VariantAddress, ipv4, domain, ipv6, GreetingMsg, UserPassAuthMsg, CommandMsg, ipv4_addr,
  domain_addr, ipv6_addr, is_version_support, is_auth_method_exist, is_command_exist,
  is_address_type_exist,
}

-- `for (size_t i = 2; i < buf.size(); ++i)`, over the rounds left
read_methods : ℕ → ℕ → List ℕ → List ℕ → Outcome (List ℕ)
read_methods zero i buf methods = ok methods
read_methods (suc k) i buf methods = do
  b ← load buf i
  require (is_auth_method_exist b)
  read_methods k (i + 1) buf (methods ++ b ∷ [])

unfoldable pub decode_greeting : List ℕ → GreetingMsg → Outcome GreetingMsg
unfolding read_methods
decode_greeting buf msg = do
  require (leb 2 (length buf))
  version ← load buf 0
  require (is_version_support version)
  number_of_methods ← load buf 1
  require (length buf == number_of_methods + 2)
  methods ← read_methods (length buf - 2) 2 buf msg.auth_methods
  ok (record { version = version; auth_methods = methods })

unfoldable pub decode_user_pass : List ℕ → UserPassAuthMsg → Outcome UserPassAuthMsg
decode_user_pass buf msg = do
  require (leb 3 (length buf))
  first ← load buf 0
  require (first == 0x01)
  user_len ← load buf 1
  require (leb (user_len + 3) (length buf))
  user ← load_range buf 2 user_len
  pass_len ← load buf (2 + user_len)
  require (length buf == user_len + pass_len + 3)
  password ← load_range buf (3 + user_len) pass_len
  ok (record { user = msg.user ++ user; password = msg.password ++ password })

decode_ipv4 : List ℕ → Outcome VariantAddress
decode_ipv4 buf = do require (leb 8 (length buf)); addr ← load_range buf 4 4; ok (ipv4 addr)

decode_domain : List ℕ → Outcome VariantAddress
decode_domain buf = do
  require (leb 5 (length buf))
  domain_len ← load buf 4
  require (leb (5 + domain_len) (length buf))
  addr ← load_range buf 5 domain_len
  ok (domain addr)

decode_ipv6 : List ℕ → Outcome VariantAddress
decode_ipv6 buf = do require (leb 20 (length buf)); addr ← load_range buf 4 16; ok (ipv6 addr)

-- `std::get<SocksDomainAddress>` and its `size()`
domain_size : VariantAddress → Outcome ℕ
domain_size (domain d) = ok (length d)
domain_size (ipv4 a) = bad_variant
domain_size (ipv6 a) = bad_variant

decode_port : List ℕ → ℕ → VariantAddress → Outcome ℕ
unfolding domain_size
decode_port buf addr_type addr =
    if addr_type == ipv4_addr
    then (do require (length buf == 10); load_u16 buf 8)
    else if addr_type == domain_addr
    then (do n ← domain_size addr; require (length buf == 7 + n); load_u16 buf (5 + n))
    else if addr_type == ipv6_addr
    then (do require (length buf == 22); load_u16 buf 20)
    else refused

-- the switch on `msg._addrType._value`
decode_addr : List ℕ → ℕ → Outcome VariantAddress
unfolding decode_ipv4 decode_domain decode_ipv6
decode_addr buf addr_type =
    if addr_type == ipv4_addr
    then decode_ipv4 buf
    else if addr_type == domain_addr
    then decode_domain buf
    else if addr_type == ipv6_addr
    then decode_ipv6 buf
    else refused

-- Every field of the message is written before it returns true.
unfoldable pub decode_command : List ℕ → Outcome CommandMsg
unfolding decode_addr decode_port
decode_command buf = do
  require (leb 6 (length buf))
  version ← load buf 0
  require (is_version_support version)
  reserved ← load buf 2
  require (reserved == 0x00)
  command ← load buf 1
  require (is_command_exist command)
  addr_type ← load buf 3
  require (is_address_type_exist addr_type)
  addr ← decode_addr buf addr_type
  port ← decode_port buf addr_type addr
  ok (record {
    version = version;
    command = command;
    addr_type = addr_type;
    addr = addr;
    port = port;
  })
