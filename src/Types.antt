-- ===== src/Types.antt =====
-- SocksTypes.h: the constants and messages of the protocol. SocksCommon.cpp: the tests of codes.
-- An address is a `std::variant`; its kind is kept beside it by the messages, as in the source.
mod Codes
unfoldable pub use Codes.*
use socks.Base.{ℕ, List, []}
use Codes.{version5}

-- SocksVariantAddress: the arrays have 4 and 16 bytes (`IsAddress` in Wire/Valid).
pub data VariantAddress : Type 0 where
  ipv4 : List ℕ → VariantAddress
  domain : List ℕ → VariantAddress
  ipv6 : List ℕ → VariantAddress

pub record Address : Type 0 where
  pub kind : ℕ
  pub addr : VariantAddress
  pub port : ℕ

pub record GreetingMsg : Type 0 where
  pub version : ℕ
  pub auth_methods : List ℕ

pub record GreetingMsgResp : Type 0 where
  pub version : ℕ
  pub auth_method : ℕ

pub record UserPassAuthMsg : Type 0 where
  pub user : List ℕ
  pub password : List ℕ

pub record UserPassAuthMsgResp : Type 0 where
  pub version : ℕ
  pub status : ℕ

pub record CommandMsg : Type 0 where
  pub version : ℕ
  pub command : ℕ
  pub addr_type : ℕ
  pub addr : VariantAddress
  pub port : ℕ

pub record CommandMsgResp : Type 0 where
  pub version : ℕ
  pub status : ℕ
  pub addr_type : ℕ
  pub addr : VariantAddress
  pub port : ℕ

-- The default constructors, which set the version and leave the vectors and strings empty.
abbrev pub fresh_greeting : GreetingMsg
fresh_greeting = record { version = version5; auth_methods = [] }

abbrev pub fresh_user_pass : UserPassAuthMsg
fresh_user_pass = record { user = []; password = [] }
