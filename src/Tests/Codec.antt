-- ===== src/Tests/Codec.antt =====
-- The messages of SocksDecoder.cpp and SocksEncoder.cpp at concrete bytes.
use socks.Decoder.{decode_greeting, decode_command, decode_user_pass}
use socks.Types.{
  domain, version5, UserPassAuthMsg, fresh_user_pass, ipv4, GreetingMsg, is_address_type_exist,
  fresh_greeting, CommandMsg, is_version_support, is_command_exist, is_auth_method_exist,
}
use socks.Encoder.{encode_command, encode_user_pass, encode_command_resp, encode_greeting}
use socks.Decoder.Exact.{
  decode_user_pass_exact, decode_greeting_exact, Returns, decode_command_exact, decode-Returns,
}
use socks.Wire.{IsCommand, greeting_wire, command_wire, IsUserPass, user_pass_wire, IsGreeting}
use socks.Encoder.Command.Resp.{fits, encode_command_resp_lem}
use socks.Base.Buffer.{refused, ok, ◌>>=◌, load_range}
use socks.RoundTrip.{decode-encode}
use socks.Base.{if◌then◌else◌, ◌≡◌, refl, arith, ◌==◌, ◌↔◌, ◌&&◌, ◌≢◌, [], ◌∷◌, List, ℕ}

abbrev ping : CommandMsg
ping = record {
  version = 5;
  command = 1;
  addr_type = 1;
  addr = ipv4 (127 ∷ 0 ∷ 0 ∷ 1 ∷ []);
  port = 20480;
}

abbrev ping_bytes : List ℕ
ping_bytes = 5 ∷ 1 ∷ 0 ∷ 1 ∷ 127 ∷ 0 ∷ 0 ∷ 1 ∷ 0 ∷ 80 ∷ []

ping_read : decode_command ping_bytes ≡ ok ping
unfolding decode_command load_range is_version_support is_command_exist is_address_type_exist
ping_read = refl

ping-IsCommand : IsCommand ping
unfolding is_command_exist
ping-IsCommand = record {
  version = refl;
  command = refl;
  addr_type = refl;
  addr = refl;
  port = omega arith;
}

decode_command_exact_example :
    (decode_command ping_bytes ≡ ok ping) ↔ (IsCommand ping × (ping_bytes ≡ command_wire ping))
decode_command_exact_example = decode_command_exact ping_bytes ping (omega arith)

abbrev hello : GreetingMsg
hello = record { version = 5; auth_methods = 0 ∷ 2 ∷ [] }

hello-IsGreeting : IsGreeting hello
unfolding is_auth_method_exist
hello-IsGreeting = record { version = refl; methods = refl; few = omega arith }

decode_greeting_exact_example :
    (decode_greeting (5 ∷ 2 ∷ 0 ∷ 2 ∷ []) fresh_greeting ≡ ok hello)
    ↔ (IsGreeting hello × (5 ∷ 2 ∷ 0 ∷ 2 ∷ [] ≡ greeting_wire hello))
decode_greeting_exact_example = decode_greeting_exact (5 ∷ 2 ∷ 0 ∷ 2 ∷ []) hello (omega arith)

-- Name 1, password 7 8.
abbrev login : UserPassAuthMsg
login = record { user = 1 ∷ []; password = 7 ∷ 8 ∷ [] }

abbrev login_bytes : List ℕ
login_bytes = 1 ∷ 1 ∷ 1 ∷ 2 ∷ 7 ∷ 8 ∷ []

decode_user_pass_exact_example :
    (decode_user_pass login_bytes fresh_user_pass ≡ ok login)
    ↔ (IsUserPass login × (login_bytes ≡ user_pass_wire login))
decode_user_pass_exact_example = decode_user_pass_exact login_bytes login (omega arith)

decode-Returns_example :
    Returns (decode_greeting (5 ∷ 3 ∷ []) fresh_greeting)
    × Returns (decode_user_pass (5 ∷ 3 ∷ []) fresh_user_pass)
    × Returns (decode_command (5 ∷ 3 ∷ []))
decode-Returns_example = decode-Returns (5 ∷ 3 ∷ []) fresh_greeting fresh_user_pass

cons_ne_nil : (x : ℕ) (xs : List ℕ) → x ∷ xs ≢ []
cons_ne_nil x xs e = cc

login-IsUserPass : IsUserPass login
login-IsUserPass = record { user = omega arith; password = omega arith }

encode_command_resp_lem_example :
    encode_command_resp
      (record { version = 5; status = 0; addr_type = 3; addr = domain (97 ∷ []); port = 1 })
      []
    ≡ (if (5 == version5) && fits (domain (97 ∷ []))
        then ok (5 ∷ 0 ∷ 0 ∷ 3 ∷ 1 ∷ 97 ∷ 1 ∷ 0 ∷ [])
        else refused)
encode_command_resp_lem_example = encode_command_resp_lem 5 0 (domain (97 ∷ [])) 1 [] tt

decode-encode_example :
    ((do out ← encode_greeting hello (9 ∷ []); decode_greeting out fresh_greeting) ≡ ok hello)
    × ((do out ← encode_user_pass login (9 ∷ []); decode_user_pass out fresh_user_pass) ≡ ok login)
    × ((do out ← encode_command ping (9 ∷ []); decode_command out) ≡ ok ping)
decode-encode_example =
    decode-encode hello login ping (9 ∷ []) hello-IsGreeting (cons_ne_nil 0 (2 ∷ []))
      login-IsUserPass (cons_ne_nil 1 []) (cons_ne_nil 7 (8 ∷ [])) ping-IsCommand
