-- ===== src/Encoder.antt =====
-- SocksEncoder.cpp: the six `encode` overloads. `buf` is the caller's vector, with whatever it
-- held; the result is what it holds after `return true`. (After `return false` the callers drop it.)
pub mod Greeting
pub mod UserPass
pub mod Command
use socks.Base.{
  ℕ, ◌+◌, ◌-◌, ◌%◌, List, [], ◌∷◌, Bool, true, false, not, ◌&&◌, ◌||◌, ltb, ◌==◌, if◌then◌else◌,
  length,
}
use socks.Base.Buffer.{
  Outcome, ok, refused, bad_variant, ◌>>=◌, ◌>>◌, require, resize, store, store_range, bytes_of_u16,
}
use socks.Types.{
  VariantAddress, ipv4, domain, ipv6, GreetingMsg, GreetingMsgResp, UserPassAuthMsg,
  UserPassAuthMsgResp, CommandMsg, CommandMsgResp, version5, no_available_method, ipv4_addr,
  domain_addr, ipv6_addr, is_version_support, is_auth_method_exist, is_command_exist,
  is_address_type_exist,
}

-- The first loop of the greeting: every method exists, or is `NoAvailableMethod`.
unfoldable pub encodable_method : ℕ → Bool
encodable_method m = is_auth_method_exist m || m == no_available_method

unfoldable pub encodable_methods : List ℕ → Bool
encodable_methods [] = true
encodable_methods (m ∷ ms) = encodable_method m && encodable_methods ms

-- `for (...; ++i) buf[i + 2] = msg._authMethods[i]._value;`
write_methods : ℕ → List ℕ → List ℕ → Outcome (List ℕ)
write_methods i [] buf = ok buf
write_methods i (m ∷ ms) buf = do buf ← store (i + 2) m buf; write_methods (i + 1) ms buf

unfoldable pub is_empty : List ℕ → Bool
is_empty [] = true
is_empty (x ∷ xs) = false

version_fits : ℕ → Bool
version_fits v = v == version5 && is_version_support v

unfoldable pub encode_greeting : GreetingMsg → List ℕ → Outcome (List ℕ)
unfolding write_methods version_fits
encode_greeting msg buf = do
  require (version_fits msg.version)
  require (not (is_empty msg.auth_methods))
  require (encodable_methods msg.auth_methods)
  buf ← store 0 msg.version (resize (2 + length msg.auth_methods) buf)
  buf ← store 1 (length msg.auth_methods % 256) buf
  write_methods 0 msg.auth_methods buf

unfoldable pub encode_greeting_resp : GreetingMsgResp → List ℕ → Outcome (List ℕ)
unfolding version_fits
encode_greeting_resp msg buf = do
  require (version_fits msg.version)
  require (encodable_method msg.auth_method)
  buf ← store 0 msg.version (resize 2 buf)
  store 1 msg.auth_method buf

unfoldable pub wrong_string : List ℕ → Bool
wrong_string s = is_empty s || ltb 255 (length s)

unfoldable pub encode_user_pass : UserPassAuthMsg → List ℕ → Outcome (List ℕ)
unfolding wrong_string is_empty
encode_user_pass msg buf = do
  require (not (wrong_string msg.user || wrong_string msg.password))
  buf ← store 0 0x01 (resize (length msg.user + length msg.password + 3) buf)
  buf ← store 1 (length msg.user % 256) buf
  buf ← store_range 2 msg.user buf
  buf ← store (length msg.user + 2) (length msg.password % 256) buf
  store_range (length msg.user + 3) msg.password buf

unfoldable pub encode_user_pass_resp : UserPassAuthMsgResp → List ℕ → Outcome (List ℕ)
unfolding version_fits
encode_user_pass_resp msg buf = do
  require (version_fits msg.version)
  buf ← store 0 msg.version (resize 2 buf)
  store 1 msg.status buf

-- `std::get<T>(msg._addr)`
get_ipv4 : VariantAddress → Outcome (List ℕ)
get_ipv4 (ipv4 a) = ok a
get_ipv4 (domain d) = bad_variant
get_ipv4 (ipv6 a) = bad_variant

get_domain : VariantAddress → Outcome (List ℕ)
get_domain (ipv4 a) = bad_variant
get_domain (domain d) = ok d
get_domain (ipv6 a) = bad_variant

get_ipv6 : VariantAddress → Outcome (List ℕ)
get_ipv6 (ipv4 a) = bad_variant
get_ipv6 (domain d) = bad_variant
get_ipv6 (ipv6 a) = ok a

-- The switch of the command: the address goes behind the four bytes of the header.
write_command_addr : ℕ → VariantAddress → List ℕ → Outcome (List ℕ)
unfolding get_ipv4 get_domain get_ipv6
write_command_addr addr_type addr buf =
    if addr_type == ipv4_addr
    then (do a ← get_ipv4 addr; store_range 4 a (resize 10 buf))
    else if addr_type == domain_addr
    then (do
      d ← get_domain addr
      buf ← store 4 (length d % 256) (resize (7 + length d) buf)
      store_range 5 d buf)
    else if addr_type == ipv6_addr
    then (do a ← get_ipv6 addr; store_range 4 a (resize 22 buf))
    else refused

-- `buf.resize(6)` and the four bytes that both kinds of command begin with
write_header : ℕ → ℕ → ℕ → List ℕ → Outcome (List ℕ)
write_header version code addr_type buf = do
  buf ← store 0 version (resize 6 buf)
  buf ← store 1 code buf
  buf ← store 2 0x00 buf
  store 3 addr_type buf

unfoldable pub encode_command : CommandMsg → List ℕ → Outcome (List ℕ)
unfolding write_header write_command_addr
encode_command msg buf = do
  require (msg.version == version5)
  require (is_address_type_exist msg.addr_type)
  require (is_command_exist msg.command)
  buf ← write_header msg.version msg.command msg.addr_type buf
  buf ← write_command_addr msg.addr_type msg.addr buf
  store_range (length buf - 2) (bytes_of_u16 msg.port) buf

-- The switch of the response, which refuses a long domain and writes the port itself. It has no
-- default case: another type leaves the six bytes.
write_resp_addr : ℕ → VariantAddress → ℕ → List ℕ → Outcome (List ℕ)
unfolding get_ipv4 get_domain get_ipv6
write_resp_addr addr_type addr port buf =
    if addr_type == ipv4_addr
    then (do
      a ← get_ipv4 addr
      buf ← store_range 4 a (resize 10 buf)
      store_range 8 (bytes_of_u16 port) buf)
    else if addr_type == domain_addr
    then (do
      d ← get_domain addr
      require (not (ltb 255 (length d)))
      buf ← store 4 (length d % 256) (resize (7 + length d) buf)
      buf ← store_range 5 d buf
      store_range (5 + length d) (bytes_of_u16 port) buf)
    else if addr_type == ipv6_addr
    then (do
      a ← get_ipv6 addr
      buf ← store_range 4 a (resize 22 buf)
      store_range 20 (bytes_of_u16 port) buf)
    else ok buf

unfoldable pub encode_command_resp : CommandMsgResp → List ℕ → Outcome (List ℕ)
unfolding version_fits write_header write_resp_addr
encode_command_resp msg buf = do
  require (version_fits msg.version)
  require (is_address_type_exist msg.addr_type)
  buf ← write_header msg.version msg.status msg.addr_type buf
  write_resp_addr msg.addr_type msg.addr msg.port buf
