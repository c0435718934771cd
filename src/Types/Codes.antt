-- ===== src/Types/Codes.antt =====
-- The enumerations of SocksTypes.h, each a set of byte values, and the tests of SocksCommon.cpp.
use socks.Base.{ℕ, Bool, ◌||◌, ◌==◌}

abbrev pub version5 : ℕ
version5 = 0x05

abbrev pub no_auth : ℕ
no_auth = 0x00

abbrev pub auth_gssapi : ℕ
auth_gssapi = 0x01

abbrev pub auth_login_pass : ℕ
auth_login_pass = 0x02

abbrev pub no_available_method : ℕ
no_available_method = 0xff

abbrev pub tcp_stream : ℕ
tcp_stream = 0x01

abbrev pub tcp_port_binding : ℕ
tcp_port_binding = 0x02

abbrev pub udp_port_binding : ℕ
udp_port_binding = 0x03

abbrev pub ipv4_addr : ℕ
ipv4_addr = 0x01

abbrev pub domain_addr : ℕ
domain_addr = 0x03

abbrev pub ipv6_addr : ℕ
ipv6_addr = 0x04

-- SocksCommandMsgResp: the statuses that the program sends.
abbrev pub request_granted : ℕ
request_granted = 0x00

abbrev pub general_failure : ℕ
general_failure = 0x01

abbrev pub host_unreachable : ℕ
host_unreachable = 0x04

abbrev pub command_not_supported : ℕ
command_not_supported = 0x07

unfoldable pub is_version_support : ℕ → Bool
is_version_support v = v == version5

unfoldable pub is_auth_method_exist : ℕ → Bool
is_auth_method_exist v = v == no_auth || (v == auth_gssapi || v == auth_login_pass)

unfoldable pub is_command_exist : ℕ → Bool
is_command_exist v = v == tcp_port_binding || (v == tcp_stream || v == udp_port_binding)

unfoldable pub is_address_type_exist : ℕ → Bool
is_address_type_exist v = v == ipv4_addr || (v == domain_addr || v == ipv6_addr)
