-- ===== src/Decoder/Exact.antt =====
-- The decoders of SocksDecoder.cpp against the formats of Wire.
use socks.Base.{
  ap, ◌%◌, ◌/◌, ◌∙◌, ◌<◌, ℕ, ◌<◌, ◌≡◌, refl, ◌↔◌, ◌⊎◌, inl, inr, List, [], ◌∷◌, ◌++◌, Bool, true,
  false, arith, if◌then◌else◌, length, All,
}
use socks.Base.Buffer.{bytes_of_u16, u16_of_bytes, Outcome, ok, refused, IsByte}
use socks.Types.{
  VariantAddress, ipv4, domain, ipv6, CommandMsg, is_command_exist, GreetingMsg, UserPassAuthMsg,
  fresh_greeting, fresh_user_pass, is_version_support,
}
use socks.Wire.{
  kind, address_bytes, IsAddress, IsCommand, command_wire, IsGreeting, greeting_wire, IsUserPass,
  user_pass_wire,
}
use socks.Decoder.{decode_greeting, decode_user_pass, decode_command}
use socks.Decoder.Greeting.{decode_greeting_lem}
use socks.Decoder.UserPass.{decode_user_pass_lem}
use socks.Decoder.Views.{
  UserPassView, user_pass_view, HasSize, command_frame, CommandView, command_view,
  decode_command_frame,
}

-- A call that ends by a `return`: no exception, and no access out of range.
abbrev pub Returns {ℓ} : {A : Type ℓ} → Outcome A → Type ℓ
Returns {A} o = (o ≡ refused) ⊎ ((a : A) × (o ≡ ok a))

Returns-if {ℓ} : {A : Type ℓ} (b : Bool) (a : A) → Returns (if b then ok a else refused)
Returns-if true a = inr (a, refl)
Returns-if false a = inl refl

-- An accepted greeting is the wire form of the message read from it.
IsGreeting-sound :
    (buf : List ℕ) (m : GreetingMsg)
    → All IsByte buf
    → decode_greeting buf fresh_greeting ≡ ok m
    → IsGreeting m × (buf ≡ greeting_wire m)
IsGreeting-sound [] m b h = unfold decode_greeting in cc
IsGreeting-sound (v ∷ []) m b h = unfold decode_greeting in cc
IsGreeting-sound (v ∷ n ∷ rest) m b h =
    unfold is_version_support in
    (
      record {
        version = ground (arith, decode_greeting_lem v n rest fresh_greeting);
        methods = ground (arith, decode_greeting_lem v n rest fresh_greeting);
        few = ground (arith, decode_greeting_lem v n rest fresh_greeting);
      },
      ground (arith, decode_greeting_lem v n rest fresh_greeting),
    )

pub greeting_complete :
    (m : GreetingMsg) → IsGreeting m → decode_greeting (greeting_wire m) fresh_greeting ≡ ok m
unfolding is_version_support
greeting_complete m g =
    ground
      (arith, decode_greeting_lem m.version (length m.auth_methods) m.auth_methods fresh_greeting)

-- For a buffer of bytes, the greeting decoder, which starts from a fresh message, returns true with
-- the message m exactly when m is well formed (version 5, known methods, at most 255) and the buffer
-- is its wire form.
pub decode_greeting_exact :
    (buf : List ℕ) (m : GreetingMsg)
    → All IsByte buf
    → (decode_greeting buf fresh_greeting ≡ ok m) ↔ (IsGreeting m × (buf ≡ greeting_wire m))
decode_greeting_exact buf m b = (IsGreeting-sound buf m b, λ h. rw h.1 (greeting_complete m h.0))

All-middle : (u : List ℕ) (x : ℕ) (r : List ℕ) → All IsByte (u ++ x ∷ r) → x < 256
All-middle [] x r h = h.0
All-middle (y ∷ u) x r h = All-middle u x r h.1

IsUserPass-framed :
    (f : ℕ) (u : List ℕ) (x : ℕ) (r : List ℕ) (m : UserPassAuthMsg)
    → (length u < 256) × All IsByte (u ++ x ∷ r)
    → decode_user_pass (f ∷ length u ∷ (u ++ x ∷ r)) fresh_user_pass ≡ ok m
    → IsUserPass m × (f ∷ length u ∷ (u ++ x ∷ r) ≡ user_pass_wire m)
IsUserPass-framed f u x r m b h =
    let frame = decode_user_pass_lem f u x r fresh_user_pass in
    let small = All-middle u x r b.1 in
    (
      record { user = ground (arith, frame, small); password = ground (arith, frame, small) },
      ground (arith, frame),
    )

IsUserPass-sound :
    (buf : List ℕ) (m : UserPassAuthMsg)
    → UserPassView buf
    → All IsByte buf
    → decode_user_pass buf fresh_user_pass ≡ ok m
    → IsUserPass m × (buf ≡ user_pass_wire m)
IsUserPass-sound buf m (UserPassView.malformed e) b h = cc (e fresh_user_pass)
IsUserPass-sound buf m (UserPassView.framed f u x r e) b h =
    rw e (IsUserPass-framed f u x r m (rw e at b).1 (rw e at h))

pub user_pass_complete :
    (m : UserPassAuthMsg) → decode_user_pass (user_pass_wire m) fresh_user_pass ≡ ok m
user_pass_complete m =
    ground (arith, decode_user_pass_lem 1 m.user (length m.password) m.password fresh_user_pass)

-- For a buffer of bytes, the decoder of a name and a password, which starts from a fresh message,
-- returns true with the message m exactly when both strings have at most 255 bytes and the buffer
-- is its wire form.
pub decode_user_pass_exact :
    (buf : List ℕ) (m : UserPassAuthMsg)
    → All IsByte buf
    → (decode_user_pass buf fresh_user_pass ≡ ok m) ↔ (IsUserPass m × (buf ≡ user_pass_wire m))
decode_user_pass_exact buf m b =
    (IsUserPass-sound buf m (user_pass_view buf) b, λ h. rw h.1 (user_pass_complete m))

-- Every decoder returns, true or false, on every buffer: it never reads past the end of the buffer
-- and never takes the wrong alternative of the address.
pub decode-Returns :
    (buf : List ℕ) (g : GreetingMsg) (u : UserPassAuthMsg)
    → Returns (decode_greeting buf g)
      × Returns (decode_user_pass buf u)
      × Returns (decode_command buf)
decode-Returns buf g u = (greeting buf, user_pass (user_pass_view buf), command (command_view buf))
  where
    greeting : (buf : List ℕ) → Returns (decode_greeting buf g)
    greeting [] = inl (unfold decode_greeting in refl)
    greeting (v ∷ []) = inl (unfold decode_greeting in refl)
    greeting (v ∷ n ∷ rest) = rw (decode_greeting_lem v n rest g) (Returns-if _ _)

    user_pass : {buf : List ℕ} → UserPassView buf → Returns (decode_user_pass buf u)
    user_pass (UserPassView.malformed e) = inl (e u)
    user_pass (UserPassView.framed f w x r e) =
        rw (e, decode_user_pass_lem f w x r u) (Returns-if _ _)

    command : {buf : List ℕ} → CommandView buf → Returns (decode_command buf)
    command (CommandView.malformed e) = inl e
    command (CommandView.framed v c z addr p q h e) =
        rw (e, decode_command_frame v c z addr p q h) (Returns-if _ _)

tail_bytes : (a : List ℕ) (p q : ℕ) → All IsByte (a ++ p ∷ q ∷ []) → (p < 256) × (q < 256)
tail_bytes [] p q b = (b.0, b.1.0)
tail_bytes (x ∷ a) p q b = tail_bytes a p q b.1

bytes-u16 : (p q : ℕ) → p < 256 → q < 256 → p ∷ q ∷ [] ≡ bytes_of_u16 (u16_of_bytes p q)
bytes-u16 p q hp hq = ground arith

bytes_of_frame :
    (addr : VariantAddress) (p q : ℕ)
    → All IsByte (address_bytes addr ++ p ∷ q ∷ [])
    → (p < 256) × (q < 256)
bytes_of_frame (ipv4 a) p q b = tail_bytes a p q b
bytes_of_frame (domain d) p q b = tail_bytes d p q b.1
bytes_of_frame (ipv6 a) p q b = tail_bytes a p q b

IsAddress-frame :
    (addr : VariantAddress) (p q : ℕ)
    → HasSize addr
    → All IsByte (address_bytes addr ++ p ∷ q ∷ [])
    → IsAddress addr
IsAddress-frame (ipv4 a) p q h b = h
IsAddress-frame (domain d) p q h b = omega arith
IsAddress-frame (ipv6 a) p q h b = h

HasSize-IsAddress : (addr : VariantAddress) → IsAddress addr → HasSize addr
HasSize-IsAddress (ipv4 a) h = h
HasSize-IsAddress (domain d) h = tt
HasSize-IsAddress (ipv6 a) h = h

IsCommand-framed :
    (v c z : ℕ) (addr : VariantAddress) (p q : ℕ) (m : CommandMsg)
    → HasSize addr
    → All IsByte (command_frame v c z addr p q)
    → decode_command (command_frame v c z addr p q) ≡ ok m
    → IsCommand m × (command_frame v c z addr p q ≡ command_wire m)
unfolding is_version_support
IsCommand-framed v c z addr p q m s b h =
    let frame = decode_command_frame v c z addr p q s in
    let (bp, bq) = bytes_of_frame addr p q b.1.1.1.1 in
    let e : m ≡ record {
      version = v;
      command = c;
      addr_type = kind addr;
      addr = addr;
      port = u16_of_bytes p q;
    } =
      ground (arith, frame) in
    let tests : (v ≡ 5) × (z ≡ 0) × (is_command_exist c ≡ true) = ground (arith, frame) in
    rw (e, tests.0, tests.1)
      (
        record {
          version = refl;
          command = tests.2;
          addr_type = refl;
          addr = IsAddress-frame addr p q s b.1.1.1.1;
          port = omega arith;
        },
        ap (λ s. 5 ∷ c ∷ 0 ∷ kind addr ∷ (address_bytes addr ++ s)) (bytes-u16 p q bp bq),
      )

IsCommand-sound :
    (buf : List ℕ) (m : CommandMsg)
    → CommandView buf
    → All IsByte buf
    → decode_command buf ≡ ok m
    → IsCommand m × (buf ≡ command_wire m)
IsCommand-sound buf m (CommandView.malformed e) b h = cc e
IsCommand-sound buf m (CommandView.framed v c z addr p q s e) b h =
    rw e (IsCommand-framed v c z addr p q m s (rw e at b) (rw e at h))

pub command_complete : (m : CommandMsg) → IsCommand m → decode_command (command_wire m) ≡ ok m
unfolding is_version_support
command_complete m g =
    decode_command_frame 5 m.command 0 m.addr (m.port % 256) (m.port / 256 % 256)
      (HasSize-IsAddress m.addr g.addr)
    ∙ rw g.command (ground arith)

-- For a buffer of bytes, the command decoder returns true with the message m exactly when m is well
-- formed (version 5, known command, type and size of the address in agreement, 16-bit port) and the
-- buffer is its wire form.
pub decode_command_exact :
    (buf : List ℕ) (m : CommandMsg)
    → All IsByte buf
    → (decode_command buf ≡ ok m) ↔ (IsCommand m × (buf ≡ command_wire m))
decode_command_exact buf m b =
    (IsCommand-sound buf m (command_view buf) b, λ h. rw h.1 (command_complete m h.0))
