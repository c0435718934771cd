-- ===== src/Wire.antt =====
-- The byte formats of the messages, written down on their own: what the coders are held to. A
-- command is 5, code, 0, kind, address, port; a domain is preceded by its length.
pub mod Prefixes
use socks.Base.{ℕ, ◌≤◌, ◌<◌, ◌≡◌, List, [], ◌∷◌, ◌++◌, Bool, true, ◌&&◌, length}
use socks.Base.Buffer.{bytes_of_u16}
use socks.Types.{
  VariantAddress, ipv4, domain, ipv6, GreetingMsg, UserPassAuthMsg, CommandMsg, version5, ipv4_addr,
  domain_addr, ipv6_addr, is_auth_method_exist, is_command_exist,
}

abbrev pub kind : VariantAddress → ℕ
kind (ipv4 a) = ipv4_addr
kind (domain d) = domain_addr
kind (ipv6 a) = ipv6_addr

abbrev pub address_bytes : VariantAddress → List ℕ
address_bytes (ipv4 a) = a
address_bytes (domain d) = length d ∷ d
address_bytes (ipv6 a) = a

-- The array sizes, and the domains that one length byte can announce.
abbrev pub IsAddress : VariantAddress → Type 0
IsAddress (ipv4 a) = length a ≡ 4
IsAddress (domain d) = length d ≤ 255
IsAddress (ipv6 a) = length a ≡ 16

abbrev pub exist_all : List ℕ → Bool
exist_all [] = true
exist_all (m ∷ ms) = is_auth_method_exist m && exist_all ms

pub record IsGreeting (m : GreetingMsg) : Type 0 where
  pub version : m.version ≡ version5
  pub methods : exist_all m.auth_methods ≡ true
  pub few : length m.auth_methods ≤ 255

abbrev pub greeting_wire : GreetingMsg → List ℕ
greeting_wire m = m.version ∷ length m.auth_methods ∷ m.auth_methods

pub record IsUserPass (m : UserPassAuthMsg) : Type 0 where
  pub user : length m.user ≤ 255
  pub password : length m.password ≤ 255

abbrev pub user_pass_wire : UserPassAuthMsg → List ℕ
user_pass_wire m = 0x01 ∷ length m.user ∷ (m.user ++ length m.password ∷ m.password)

pub record IsCommand (m : CommandMsg) : Type 0 where
  pub version : m.version ≡ version5
  pub command : is_command_exist m.command ≡ true
  pub addr_type : m.addr_type ≡ kind m.addr
  pub addr : IsAddress m.addr
  pub port : m.port < 65536

-- Every kind of command message: `code` is the command or the status.
abbrev pub command_bytes : ℕ → VariantAddress → ℕ → List ℕ
command_bytes code addr port =
    version5 ∷ code ∷ 0x00 ∷ kind addr ∷ (address_bytes addr ++ bytes_of_u16 port)

abbrev pub command_wire : CommandMsg → List ℕ
command_wire m = command_bytes m.command m.addr m.port
