-- ===== src/Encoder/Command/Resp.antt =====
-- The response of a command in SocksEncoder.cpp.
use socks.Base.{
  false, ℕ, ◌+◌, ◌%◌, ◌≡◌, refl, sym, ◌∙◌, List, ◌∷◌, ◌++◌, Bool, true, not, ◌&&◌, arith, ltb, ◌==◌,
  if◌then◌else◌, length, length-append,
}
use socks.Base.Buffer.{ok, refused, resize, store, store_range, ◌>>=◌, bytes_of_u16}
use socks.Base.BufferLaws.{bind-ok, bind_assoc}
use socks.Types.{
  CommandMsgResp, VariantAddress, ipv4, domain, ipv6, is_version_support, is_address_type_exist,
  version5,
}
use socks.Wire.{kind}
use socks.Encoder.{write_header, write_resp_addr, encode_command_resp}
use socks.Encoder.Command.{
  write_header_lem, written, HasSize, write_array, write_domain, write_port, header, kind_exists,
}

-- Whether the answer's own test of the domain's length lets the address through.
abbrev pub fits : VariantAddress → Bool
fits (ipv4 a) = true
fits (domain d) = not (ltb 255 (length d))
fits (ipv6 a) = true

resp_body :
    (h q : List ℕ) (addr : VariantAddress) (port : ℕ)
    → length h ≡ 4
    → HasSize addr
    → write_resp_addr (kind addr) addr port (h ++ q)
      ≡ (if fits addr then ok ((h ++ written addr) ++ bytes_of_u16 port) else refused)
unfolding write_resp_addr
resp_body h q (ipv4 a) port hh s =
    let (r, e, l) = write_array h a q 4 10 hh s refl in
    bind-ok (store_range 8 (bytes_of_u16 port)) e
    ∙ write_port (h ++ a) r 8 port (omega (arith, length-append h a)) l
resp_body h q (domain d) port hh s =
    let (r, e, l) = write_domain h d q (7 + length d) hh refl in
    let done : (do
      buf ← store 4 (length d % 256) (resize (7 + length d) (h ++ q))
      buf ← store_range 5 d buf
      store_range (5 + length d) (bytes_of_u16 port) buf)
        ≡ ok ((h ++ length d % 256 ∷ d) ++ bytes_of_u16 port) =
      sym (
        bind_assoc (store 4 (length d % 256) (resize (7 + length d) (h ++ q))) (store_range 5 d)
          (store_range (5 + length d) (bytes_of_u16 port)))
      ∙ (bind-ok (store_range (5 + length d) (bytes_of_u16 port)) e
          ∙ write_port (h ++ length d % 256 ∷ d) r (5 + length d) port
              (omega (arith, length-append h (length d % 256 ∷ d))) l) in
    ground (arith, done)
resp_body h q (ipv6 a) port hh s =
    let (r, e, l) = write_array h a q 16 22 hh s refl in
    bind-ok (store_range 20 (bytes_of_u16 port)) e
    ∙ write_port (h ++ a) r 20 port (omega (arith, length-append h a)) l

resp_writes :
    (v c : ℕ) (addr : VariantAddress) (port : ℕ) (buf : List ℕ)
    → HasSize addr
    → (do buf ← write_header v c (kind addr) buf; write_resp_addr (kind addr) addr port buf) ≡ (
        if fits addr
        then ok (v ∷ c ∷ 0 ∷ kind addr ∷ (written addr ++ bytes_of_u16 port))
        else refused)
resp_writes v c addr port buf s =
    let (q, e, l) = write_header_lem v c (kind addr) buf in
    bind-ok (write_resp_addr (kind addr) addr port) e
    ∙ resp_body (header v c (kind addr)) q addr port refl s

-- An answer whose address has the size of its type, and that names this type, is refused for its
-- version or for a domain of more than 255 bytes, and is otherwise the version, the status, 0, the
-- type, the address (a domain behind its length) and the port as it is in memory.
pub encode_command_resp_lem :
    (v c : ℕ) (addr : VariantAddress) (port : ℕ) (buf : List ℕ)
    → HasSize addr
    → encode_command_resp
        (record { version = v; status = c; addr_type = kind addr; addr = addr; port = port })
        buf
      ≡ (if (v == version5) && fits addr
          then ok (v ∷ c ∷ 0 ∷ kind addr ∷ (written addr ++ bytes_of_u16 port))
          else refused)
unfolding encode_command_resp is_version_support
encode_command_resp_lem v c addr port buf s =
    rw (kind_exists addr, resp_writes v c addr port buf s) (ground arith)

-- An answer whose address type is none of the three is not encoded, whatever else it holds.
pub encode_command_resp_unknown :
    (m : CommandMsgResp) (buf : List ℕ)
    → is_address_type_exist m.addr_type ≡ false
    → encode_command_resp m buf ≡ refused
unfolding encode_command_resp
encode_command_resp_unknown m buf h = ground arith
