-- ===== src/Networking/Stun.antt =====
-- packages/networking/src/stun.rs. Indexing and slicing panic out of range, and the loop over the
-- attributes runs on fuel, so an outcome is an address, an error, a panic or an empty tank.
mod Safety
mod Message
mod RoundTrip
mod Addresses
mod Discover
mod Tests
use open_cade.Prelude.{
  ℕ, zero, suc, ◌+◌, ◌-◌, ◌%◌, ◌^◌, Bool, true, false, ◌||◌, ◌&&◌, not, ◌==◌, ltb, leb, Option,
  none, some, List, [], ◌∷◌, ◌++◌, if◌then◌else◌, length, take, drop, get_elem?,
}
use open_cade.Prelude.Text.{Text, codes, text_eq}
use open_cade.Prelude.Bytes.{to_be_bytes, from_be_bytes, xor_each}
use open_cade.Prelude.Outcome.{Outcome, err, ok, ◌>>=◌, ◌>>◌, fail_if, or_fail}
use open_cade.Networking.{TransportError, invalid_stun_response, stun_timeout}
pub use open_cade.Prelude.Net.{IpAddr, v4, v6, SocketAddr, socket_addr}
use Prim.Native.Nat.{bit_xor}

abbrev pub binding_request_type : ℕ
binding_request_type = 0x0001

abbrev pub binding_success : ℕ
binding_success = 0x0101

-- the bytes of 0x2112_A442
abbrev pub magic_cookie : Text
magic_cookie = 0x21 ∷ 0x12 ∷ 0xa4 ∷ 0x42 ∷ []

-- `(MAGIC_COOKIE >> 16) as u16`
abbrev pub cookie_top : ℕ
cookie_top = 0x2112

abbrev pub mapped_address : ℕ
mapped_address = 0x0001

abbrev pub xor_mapped_address : ℕ
xor_mapped_address = 0x0020

abbrev pub header_bytes : ℕ
header_bytes = 20

abbrev pub max_stun_bytes : ℕ
max_stun_bytes = 2048

abbrev pub usize_max : ℕ
usize_max = 2 ^ 64 - 1

pub data Fault : Type 0 where
  failed : TransportError → Fault
  panicked out_of_fuel : Fault

abbrev pub Answer {ℓ} : Type ℓ → Type ℓ
Answer A = Outcome Fault A

abbrev pub invalid : Text → Fault
invalid message = failed (invalid_stun_response message)

-- `bytes[index]` and `&bytes[start..end]`
abbrev pub byte : Text → ℕ → Answer ℕ
byte bytes index = or_fail (get_elem? bytes index) panicked

abbrev pub slice : Text → ℕ → ℕ → Answer Text
slice bytes start end =
    if leb start end && leb end (length bytes)
    then ok (take (end - start) (drop start bytes))
    else err panicked

abbrev pub word : Text → ℕ → Answer ℕ
word bytes index = do
  high ← byte bytes index
  low ← byte bytes (suc index)
  ok (from_be_bytes high low)

-- `usize::checked_add`
abbrev pub checked_add : ℕ → ℕ → Option ℕ
checked_add a b = if leb (a + b) usize_max then some (a + b) else none

abbrev pub filter {ℓ} : {A : Type ℓ} → (A → Bool) → Option A → Option A
filter keep none = none
filter keep (some value) = if keep value then some value else none

unfoldable pub binding_request : Text → Text
binding_request transaction_id =
    to_be_bytes binding_request_type ++ 0 ∷ 0 ∷ magic_cookie ++ transaction_id

-- `value.len() < 8 || value[0] != 0`
unfoldable pub is_malformed : Text → Answer Bool
is_malformed value =
    if ltb (length value) 8 then ok true else (byte value 0 >>= λ first. ok (not (first == 0)))

-- `xor_transaction_id` is `some` for XOR-MAPPED-ADDRESS.
unfoldable pub unmask : Option Text → Text → Text
unmask none octets = octets
unmask (some transaction_id) octets = xor_each octets (magic_cookie ++ transaction_id)

unfoldable pub unmask_port : Option Text → ℕ → ℕ
unmask_port none port = port
unmask_port (some transaction_id) port = bit_xor port cookie_top

unfoldable pub ip_of : ℕ → Text → Option Text → Answer IpAddr
unfolding unmask
ip_of family value xor_transaction_id =
    if family == 1 && length value == 8
    then (slice value 4 8 >>= λ octets. ok (v4 (unmask xor_transaction_id octets)))
    else if family == 2 && length value == 20
    then (slice value 4 20 >>= λ octets. ok (v6 (unmask xor_transaction_id octets)))
    else err (invalid (codes "mapped address family or length is unsupported"))

unfoldable pub parse_ip : Text → Option Text → Answer IpAddr
unfolding ip_of
parse_ip value xor_transaction_id = do family ← byte value 1; ip_of family value xor_transaction_id

unfoldable pub parse_address : Text → Option Text → Answer SocketAddr
unfolding is_malformed unmask_port parse_ip
parse_address value xor_transaction_id = do
  malformed ← is_malformed value
  done ← fail_if malformed (invalid (codes "mapped address attribute is malformed"))
  encoded_port ← word value 2
  ip ← parse_ip value xor_transaction_id
  ok (socket_addr ip (unmask_port xor_transaction_id encoded_port))

abbrev pub or_invalid {ℓ} : {A : Type ℓ} → Option A → Text → Answer A
or_invalid option message = or_fail option (invalid message)

-- A round of the loop returns from the function or goes on at the next attribute.
pub data Round : Type 0 where
  finished : SocketAddr → Round
  again : (offset : ℕ) (mapped : Option SocketAddr) → Round

-- Past the value and its padding.
unfoldable pub next_offset : ℕ → ℕ → Answer ℕ
next_offset value_end attribute_length =
    or_invalid (checked_add value_end ((4 - attribute_length % 4) % 4))
      (codes "attribute padding overflowed")

module _ (response transaction_id : Text) where
  unfoldable pub read_attribute : (kind size start end : ℕ) → Option SocketAddr → Answer Round
  unfolding next_offset parse_address
  read_attribute kind size start end mapped =
      if kind == xor_mapped_address
      then (do
        value ← slice response start end
        address ← parse_address value (some transaction_id)
        ok (finished address))
      else if kind == mapped_address
      then (do
        value ← slice response start end
        address ← parse_address value none
        next ← next_offset end size
        ok (again next (some address)))
      else (next_offset end size >>= λ next. ok (again next mapped))

  unfoldable pub round : (message_end offset : ℕ) → Option SocketAddr → Answer Round
  unfolding read_attribute
  round message_end offset mapped = do
    attribute_type ← word response offset
    attribute_length ← word response (offset + 2)
    value_end ←
        or_invalid (filter (λ end. leb end message_end) (checked_add (offset + 4) attribute_length))
          (codes "attribute length is invalid")
    read_attribute attribute_type attribute_length (offset + 4) value_end mapped

  unfoldable pub parse_attributes :
      (message_end fuel offset : ℕ) → Option SocketAddr → Answer SocketAddr
  unfolding round
  parse_attributes message_end zero offset mapped = err out_of_fuel
  parse_attributes message_end (suc fuel) offset mapped = elim (leb (offset + 4) message_end) [
    | false ↦ or_invalid mapped (codes "response contains no mapped address")
    | true ↦ round message_end offset mapped >>= λ turn. elim turn [
      | finished address ↦ ok address
      | again next found ↦ parse_attributes message_end fuel next found
    ]
  ]

unfoldable pub check_header : Text → Text → Answer (Unit {0})
check_header response transaction_id = do
  done ←
      fail_if (ltb (length response) header_bytes)
        (invalid (codes "response is shorter than the STUN header"))
  message_type ← word response 0
  done ←
      fail_if (not (message_type == binding_success))
        (invalid (codes "response is not a Binding success response"))
  cookie ← slice response 4 8
  done ←
      fail_if (not (text_eq cookie magic_cookie))
        (invalid (codes "magic cookie does not match RFC 8489"))
  id ← slice response 8 20
  fail_if (not (text_eq id transaction_id))
      (invalid (codes "transaction id does not match the request"))

-- Where the message ends.
unfoldable pub message_end : Text → Answer ℕ
message_end response = do
  message_length ← word response 2
  done ←
      fail_if (not (message_length % 4 == 0))
        (invalid (codes "declared message length is not 32-bit aligned"))
  or_invalid (filter (λ end. leb end (length response)) (checked_add header_bytes message_length))
      (codes "declared message length is invalid")

-- A round moves at least four bytes on, so the response's length is fuel enough.
unfoldable pub parse_binding_response : Text → Text → Answer SocketAddr
unfolding check_header message_end parse_attributes
parse_binding_response response transaction_id = do
  done ← check_header response transaction_id
  end ← message_end response
  parse_attributes response transaction_id end (length response) header_bytes none
