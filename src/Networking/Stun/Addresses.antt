-- ===== src/Networking/Stun/Addresses.antt =====
-- stun.rs end to end: a whole response is read as its attributes say, and the address that a server
-- masks into XOR-MAPPED-ADDRESS is the one the client gets.
use open_cade.Prelude.{
  All-append, ℕ, ◌+◌, ◌/◌, ◌%◌, ◌^◌, ◌≤◌, ◌<◌, ◌≡◌, refl, ◌∙◌, arith, true, false, Option, none,
  some, List, [], ◌∷◌, ◌++◌, append-nil, ◌==◌, leb, ltb, length, length-append, All, ◌≢◌,
}
use open_cade.Prelude.Text.{Text, text_eq_refl}
use open_cade.Prelude.Bytes.{
  to_be_bytes, from_be_bytes_lem, xor_each, length-xor_each, xor_each_involutive, bit_xor-lt,
  bit_xor_involutive, IsByte,
}
use open_cade.Prelude.Outcome.{ok}
use open_cade.Networking.Stun.{
  SocketAddr, socket_addr, IpAddr, v4, v6, slice, parse_address, parse_ip, ip_of, is_malformed,
  unmask, unmask_port, parse_binding_response, check_header, message_end, usize_max, mapped_address,
  xor_mapped_address, binding_success, magic_cookie, cookie_top,
}
use open_cade.Networking.Stun.Message.{
  Attribute, encode_attribute, encode_all, Fits, answer, header, response, slice-middle,
  length-encode_attribute,
}
use open_cade.Networking.Stun.RoundTrip.{parse_attributes-encode_all}
use Prim.Native.Nat.{bit_xor}

-- Padded attributes fill whole 32-bit words.
length-encode_all : (attributes : List Attribute) → length (encode_all attributes) % 4 ≡ 0
length-encode_all [] = refl
length-encode_all (a ∷ rest) = omega (
  arith,
  length-encode_all rest,
  length-encode_attribute a,
  length-append (encode_attribute a) (encode_all rest),
)

module _ (id : Text) (attributes : List Attribute) (twelve : length id ≡ 12)
    (fit : All Fits attributes) (small : length (encode_all attributes) < 2 ^ 16) where
  pub length-response : length (response id attributes) ≡ 20 + length (encode_all attributes)
  length-response =
      omega
        (arith, length-append (header (length (encode_all attributes)) id) (encode_all attributes))

  check_header-response : check_header (response id attributes) id ≡ ok tt
  unfolding check_header
  check_header-response =
      let long : ltb (length (response id attributes)) 20 ≡ false =
        ground (arith, length-response) in
      let cookie : slice (response id attributes) 4 8 ≡ ok magic_cookie =
        slice-middle (to_be_bytes binding_success ++ to_be_bytes (length (encode_all attributes)))
          magic_cookie (id ++ encode_all attributes) 4 8 refl refl in
      let given : slice (response id attributes) 8 20 ≡ ok id =
        slice-middle
          (to_be_bytes binding_success
            ++ to_be_bytes (length (encode_all attributes))
            ++ magic_cookie)
          id (encode_all attributes) 8 20 refl (omega arith) in
      rw (long, cookie, given, text_eq_refl magic_cookie, text_eq_refl id) refl

  message_end-response :
      message_end (response id attributes) ≡ ok (20 + length (encode_all attributes))
  unfolding message_end
  message_end-response =
      let size = from_be_bytes_lem (length (encode_all attributes)) small in
      let aligned : (length (encode_all attributes) % 4 == 0) ≡ true =
        ground (arith, length-encode_all attributes) in
      let fits_usize : leb (20 + length (encode_all attributes)) usize_max ≡ true = ground arith in
      let inside : leb (20 + length (encode_all attributes)) (length (response id attributes))
          ≡ true =
        ground (arith, length-response) in
      rw (size, aligned, fits_usize, inside) refl

  -- A response that is made of attributes, whatever their values hold, is read as the attributes
  -- say: the first XOR-MAPPED-ADDRESS decides, without one the last MAPPED-ADDRESS, other types are
  -- skipped, and a malformed address on the way is an error. The transaction id has 12 bytes, the
  -- types and lengths are 16-bit numbers, and so is the length of the message.
  pub parse_binding_response-response :
      parse_binding_response (response id attributes) id ≡ answer id none attributes
  unfolding parse_binding_response
  parse_binding_response-response =
      let twenty : length (header (length (encode_all attributes)) id) ≡ 20 = omega arith in
      let read =
        parse_attributes-encode_all id attributes (header (length (encode_all attributes)) id)
          (20 + length (encode_all attributes)) (length (response id attributes)) none fit
          (omega arith) (omega arith) (omega (arith, length-response))
          (omega (arith, length-response)) in
      rw (check_header-response, message_end-response) (rw twenty at read)

-- The addresses there are: four or sixteen octets, a 16-bit port, and no IPv6 extras.
abbrev octets_of : IpAddr → Text
octets_of (v4 octets) = octets
octets_of (v6 octets) = octets

abbrev family_of : IpAddr → ℕ
family_of (v4 octets) = 1
family_of (v6 octets) = 2

abbrev octet_count : IpAddr → ℕ
octet_count (v4 octets) = 4
octet_count (v6 octets) = 16

abbrev pub IsIpAddr : IpAddr → Type 0
IsIpAddr ip = (length (octets_of ip) ≡ octet_count ip) × All IsByte (octets_of ip)

-- The value that a server sends for the address it sees.
abbrev pub masked : Text → IpAddr → ℕ → Text
masked id ip port =
    0 ∷ family_of ip ∷ []
    ++ to_be_bytes (bit_xor port cookie_top)
    ++ xor_each (octets_of ip) (magic_cookie ++ id)

slice-tail :
    (a b c d : ℕ) (octets : Text) (end : ℕ)
    → end ≡ 4 + length octets
    → slice (a ∷ b ∷ c ∷ d ∷ octets) 4 end ≡ ok octets
slice-tail a b c d octets end e =
    rw (append-nil octets) at (slice-middle (a ∷ b ∷ c ∷ d ∷ []) octets [] 4 end refl (omega arith))

module _ (id : Text) (bytes : All IsByte id) where
  mask_bytes : All IsByte (magic_cookie ++ id)
  mask_bytes = (omega arith, (omega arith, (omega arith, (omega arith, bytes))))

  parse_address-masked :
      (ip : IpAddr) (port : ℕ)
      → IsIpAddr ip
      → port < 2 ^ 16
      → parse_address (masked id ip port) (some id) ≡ ok (socket_addr ip port)
  unfolding parse_address is_malformed parse_ip ip_of unmask unmask_port
  parse_address-masked (v4 octets) port (four, octet) small =
      let size = length-xor_each octets (magic_cookie ++ id) in
      let back =
        from_be_bytes_lem (bit_xor port cookie_top)
          (bit_xor-lt 16 port cookie_top small (omega arith)) in
      let long : ltb (length (masked id (v4 octets) port)) 8 ≡ false = ground arith in
      let eight : (length (masked id (v4 octets) port) == 8) ≡ true = ground arith in
      let value =
        slice-tail 0 1 (bit_xor port cookie_top / 256 % 256) (bit_xor port cookie_top % 256)
          (xor_each octets (magic_cookie ++ id)) 8 (omega arith) in
      rw
        (
          parse_address,
          is_malformed,
          parse_ip,
          ip_of,
          unmask,
          unmask_port,
          long,
          eight,
          back,
          value,
          xor_each_involutive octets (magic_cookie ++ id) octet mask_bytes,
          bit_xor_involutive 16 port cookie_top small (omega arith),
        )
        refl
  parse_address-masked (v6 octets) port (four, octet) small =
      let size = length-xor_each octets (magic_cookie ++ id) in
      let back =
        from_be_bytes_lem (bit_xor port cookie_top)
          (bit_xor-lt 16 port cookie_top small (omega arith)) in
      let long : ltb (length (masked id (v6 octets) port)) 8 ≡ false = ground arith in
      let twenty : (length (masked id (v6 octets) port) == 20) ≡ true = ground arith in
      let value =
        slice-tail 0 2 (bit_xor port cookie_top / 256 % 256) (bit_xor port cookie_top % 256)
          (xor_each octets (magic_cookie ++ id)) 20 (omega arith) in
      rw
        (
          parse_address,
          is_malformed,
          parse_ip,
          ip_of,
          unmask,
          unmask_port,
          long,
          twenty,
          back,
          value,
          xor_each_involutive octets (magic_cookie ++ id) octet mask_bytes,
          bit_xor_involutive 16 port cookie_top small (omega arith),
        )
        refl

abbrev pub xor_attribute : Text → IpAddr → ℕ → Attribute
xor_attribute id ip port = record { kind = xor_mapped_address; value = masked id ip port }

-- An attribute that says nothing of an address.
abbrev pub IsUnrelated : Attribute → Type 0
IsUnrelated a = (a.kind ≢ xor_mapped_address) × (a.kind ≢ mapped_address)

answer-unrelated :
    (id : Text) (mapped : Option SocketAddr) (before rest : List Attribute)
    → All IsUnrelated before
    → answer id mapped (before ++ rest) ≡ answer id mapped rest
unfolding answer
answer-unrelated id mapped [] rest h = refl
answer-unrelated id mapped (a ∷ before) rest ((not_xor, not_mapped), h) =
    let first : (a.kind == xor_mapped_address) ≡ false = ground arith in
    let second : (a.kind == mapped_address) ≡ false = ground arith in
    rw (answer, first, second) (answer-unrelated id mapped before rest h)

pub length-masked-le :
    (id : Text) (ip : IpAddr) (port : ℕ) → IsIpAddr ip → length (masked id ip port) ≤ 20
length-masked-le id (v4 octets) port h =
    let size = length-xor_each octets (magic_cookie ++ id) in omega (arith, h.0)
length-masked-le id (v6 octets) port h =
    let size = length-xor_each octets (magic_cookie ++ id) in omega (arith, h.0)

pub length-xor_attribute-le :
    (id : Text) (ip : IpAddr) (port : ℕ)
    → IsIpAddr ip
    → length (encode_all (xor_attribute id ip port ∷ [])) ≤ 27
length-xor_attribute-le id ip port valid = omega (
  arith,
  length-masked-le id ip port valid,
  length-encode_attribute (xor_attribute id ip port),
  length-append (encode_attribute (xor_attribute id ip port)) [],
)

-- The client learns the address that the server saw: an IPv4 or IPv6 address and port that are
-- masked with the cookie and the transaction id come back from the response exactly, whatever
-- other attributes stand before it, if none of those gives an address, and whatever well-formed
-- attributes follow. The transaction id is 12 bytes, and the message's length is a 16-bit number.
pub parse_binding_response-masked :
    (id : Text) (before after : List Attribute) (ip : IpAddr) (port : ℕ)
    → length id ≡ 12
    → All IsByte id
    → IsIpAddr ip
    → port < 2 ^ 16
    → All Fits before
    → All IsUnrelated before
    → All Fits after
    → length (encode_all (before ++ xor_attribute id ip port ∷ after)) < 2 ^ 16
    → parse_binding_response (response id (before ++ xor_attribute id ip port ∷ after)) id
      ≡ ok (socket_addr ip port)
unfolding answer
parse_binding_response-masked id before after ip port twelve bytes valid small fit apart fit_after
      fits =
    parse_binding_response-response id (before ++ xor_attribute id ip port ∷ after) twelve
      (All-append Fits before _ fit
        ((omega arith, omega (arith, length-masked-le id ip port valid)), fit_after))
      fits
    ∙ answer-unrelated id none before _ apart
    ∙ (parse_address-masked id bytes ip port valid small)
