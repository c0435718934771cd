-- ===== src/RoundTrip.antt =====
-- SocksEncoder.cpp and SocksDecoder.cpp together, one after the other.
use socks.Base.{
  ℕ, ◌%◌, ◌≤◌, ◌≡◌, refl, ap, sym, ◌∙◌, ◌≢◌, List, [], ◌∷◌, true, false, arith, length, All,
}
use socks.Base.Buffer.{ok, IsByte, ◌>>=◌}
use socks.Base.BufferLaws.{bind-ok}
use socks.Types.{
  VariantAddress, ipv4, domain, ipv6, GreetingMsg, UserPassAuthMsg, CommandMsg, fresh_greeting,
  fresh_user_pass,
}
use socks.Wire.{
  exist_all, IsGreeting, greeting_wire, IsUserPass, user_pass_wire, IsCommand, command_wire,
  IsAddress, kind, address_bytes,
}
use socks.Decoder.{decode_greeting, decode_user_pass, decode_command}
use socks.Decoder.Exact.{
  greeting_complete, user_pass_complete, command_complete, decode_command_exact,
}
use socks.Encoder.{
  is_empty, wrong_string, encodable_method, encodable_methods, encode_greeting, encode_user_pass,
  encode_command,
}
use socks.Encoder.Greeting.{encode_greeting_lem}
use socks.Encoder.UserPass.{encode_user_pass_lem}
use socks.Encoder.Command.{HasSize, written, encode_command_lem}

exist-encodable : (ms : List ℕ) → exist_all ms ≡ true → encodable_methods ms ≡ true
unfolding encodable_methods encodable_method
exist-encodable [] h = refl
exist-encodable (m ∷ ms) h = ground (arith, exist-encodable ms)

not_empty : (xs : List ℕ) → xs ≢ [] → is_empty xs ≡ false
unfolding is_empty
not_empty [] h = absurd (h refl)
not_empty (x ∷ xs) h = refl

encode_greeting_wire :
    (m : GreetingMsg) (buf : List ℕ)
    → IsGreeting m
    → m.auth_methods ≢ []
    → encode_greeting m buf ≡ ok (greeting_wire m)
encode_greeting_wire m buf g ne =
    encode_greeting_lem m buf
    ∙ ground (arith, exist-encodable m.auth_methods g.methods, not_empty m.auth_methods ne)

decode-encode_greeting :
    (m : GreetingMsg) (buf : List ℕ)
    → IsGreeting m
    → m.auth_methods ≢ []
    → (do out ← encode_greeting m buf; decode_greeting out fresh_greeting) ≡ ok m
decode-encode_greeting m buf g ne =
    bind-ok (λ out. decode_greeting out fresh_greeting) (encode_greeting_wire m buf g ne)
    ∙ greeting_complete m g

not_wrong : (s : List ℕ) → s ≢ [] → length s ≤ 255 → wrong_string s ≡ false
unfolding wrong_string
not_wrong [] ne h = absurd (ne refl)
not_wrong (x ∷ s) ne h = unfold is_empty in ground arith

encode_user_pass_wire :
    (m : UserPassAuthMsg) (buf : List ℕ)
    → IsUserPass m
    → m.user ≢ []
    → m.password ≢ []
    → encode_user_pass m buf ≡ ok (user_pass_wire m)
encode_user_pass_wire m buf g nu np =
    encode_user_pass_lem m buf
    ∙ ground
        (arith, not_wrong m.user nu g.user, not_wrong m.password np g.password, g.user, g.password)

decode-encode_user_pass :
    (m : UserPassAuthMsg) (buf : List ℕ)
    → IsUserPass m
    → m.user ≢ []
    → m.password ≢ []
    → (do out ← encode_user_pass m buf; decode_user_pass out fresh_user_pass) ≡ ok m
decode-encode_user_pass m buf g nu np =
    bind-ok (λ out. decode_user_pass out fresh_user_pass) (encode_user_pass_wire m buf g nu np)
    ∙ user_pass_complete m

IsAddress-HasSize : (addr : VariantAddress) → IsAddress addr → HasSize addr
IsAddress-HasSize (ipv4 a) h = h
IsAddress-HasSize (domain d) h = tt
IsAddress-HasSize (ipv6 a) h = h

written_lem : (addr : VariantAddress) → IsAddress addr → written addr ≡ address_bytes addr
written_lem (ipv4 a) h = refl
written_lem (domain d) h = ap (λ (n : ℕ). n ∷ d) {x = length d % 256} {y = length d} (omega arith)
written_lem (ipv6 a) h = refl

encode_command_wire :
    (m : CommandMsg) (buf : List ℕ) → IsCommand m → encode_command m buf ≡ ok (command_wire m)
encode_command_wire m buf g =
    ap (λ n. encode_command n buf) named
    ∙ encode_command_lem m.version m.command m.addr m.port buf (IsAddress-HasSize m.addr g.addr)
    ∙ rw (g.version, g.command, written_lem m.addr g.addr)
  where
    named : m ≡ record {
      version = m.version;
      command = m.command;
      addr_type = kind m.addr;
      addr = m.addr;
      port = m.port;
    }
    named = ground (arith, g.addr_type)

decode-encode_command :
    (m : CommandMsg) (buf : List ℕ)
    → IsCommand m
    → (do out ← encode_command m buf; decode_command out) ≡ ok m
decode-encode_command m buf g =
    bind-ok decode_command (encode_command_wire m buf g) ∙ command_complete m g

-- What is encoded, into any vector, is decoded to the same message: a greeting of version 5 that
-- offers 1 to 255 existing methods, a name and a password of 1 to 255 bytes, and every well-formed
-- command. (The first two decoders are given a fresh message.)
pub decode-encode :
    (g : GreetingMsg) (u : UserPassAuthMsg) (c : CommandMsg) (buf : List ℕ)
    → IsGreeting g
    → g.auth_methods ≢ []
    → IsUserPass u
    → u.user ≢ []
    → u.password ≢ []
    → IsCommand c
    → ((do out ← encode_greeting g buf; decode_greeting out fresh_greeting) ≡ ok g)
      × ((do out ← encode_user_pass u buf; decode_user_pass out fresh_user_pass) ≡ ok u)
      × ((do out ← encode_command c buf; decode_command out) ≡ ok c)
decode-encode g u c buf hg ng hu nu np hc = (
  decode-encode_greeting g buf hg ng,
  decode-encode_user_pass u buf hu nu np,
  decode-encode_command c buf hc,
)

-- A command that the decoder reads from a buffer of bytes is encoded back to that buffer.
pub encode-decode_command :
    (bytes buf : List ℕ) (m : CommandMsg)
    → All IsByte bytes
    → decode_command bytes ≡ ok m
    → encode_command m buf ≡ ok bytes
encode-decode_command bytes buf m b h =
    let (g, e) = (decode_command_exact bytes m b).0 h in encode_command_wire m buf g ∙ ap ok (sym e)
