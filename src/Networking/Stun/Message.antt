-- ===== src/Networking/Stun/Message.antt =====
-- The format of a Binding response (RFC 8489), written apart from the parser of stun.rs: a header and
-- a sequence of attributes, each padded to four bytes. The parser reads such a message attribute by
-- attribute.
use open_cade.Prelude.{
  ℕ, zero, suc, ◌+◌, ◌-◌, ◌%◌, ◌^◌, ◌≤◌, ◌<◌, ◌≡◌, refl, ap, arith, true, false, Option, none, some,
  List, [], ◌∷◌, ◌++◌, ◌==◌, leb, length, length-append, take, drop, replicate, get_elem?,
}
use open_cade.Prelude.Text.{Text, codes}
use open_cade.Prelude.Bytes.{to_be_bytes, from_be_bytes_lem}
use open_cade.Prelude.Outcome.{ok, ◌>>=◌}
use open_cade.Networking.Stun.{
  Answer, SocketAddr, word, slice, parse_address, read_attribute, round, or_invalid, usize_max,
  mapped_address, xor_mapped_address, binding_success, magic_cookie,
}

pub record Attribute : Type 0 where
  pub kind : ℕ
  pub value : Text

abbrev pub padding : Text → Text
padding value = replicate ((4 - length value % 4) % 4) 0

-- The type, the length, the value and its padding.
abbrev pub encode_attribute : Attribute → Text
encode_attribute a =
    to_be_bytes a.kind ++ to_be_bytes (length a.value) ++ a.value ++ padding a.value

abbrev pub encode_all : List Attribute → Text
encode_all [] = []
encode_all (a ∷ rest) = encode_attribute a ++ encode_all rest

abbrev pub header : ℕ → Text → Text
header size transaction_id =
    to_be_bytes binding_success ++ to_be_bytes size ++ magic_cookie ++ transaction_id

abbrev pub response : Text → List Attribute → Text
response transaction_id attributes =
    header (length (encode_all attributes)) transaction_id ++ encode_all attributes

-- Types and lengths are 16-bit numbers.
abbrev pub Fits : Attribute → Type 0
Fits a = (a.kind < 2 ^ 16) × (length a.value < 2 ^ 16)

-- What the attributes say: the first XOR-MAPPED-ADDRESS, or else the last MAPPED-ADDRESS.
unfoldable pub answer : Text → Option SocketAddr → List Attribute → Answer SocketAddr
answer transaction_id mapped [] = or_invalid mapped (codes "response contains no mapped address")
answer transaction_id mapped (a ∷ rest) = elim (a.kind == xor_mapped_address) [
  | true ↦ parse_address a.value (some transaction_id)
  | false ↦ elim (a.kind == mapped_address) [
    | true ↦ parse_address a.value none >>= λ address. answer transaction_id (some address) rest
    | false ↦ answer transaction_id mapped rest
  ]
]

get_elem?-append :
    (front back : Text) (i j : ℕ)
    → j ≡ length front + i
    → get_elem? (front ++ back) j ≡ get_elem? back i
get_elem?-append [] back i j e = let same : j ≡ i = omega arith in rw same refl
get_elem?-append (x ∷ front) back i zero e = absurd (omega arith)
get_elem?-append (x ∷ front) back i (suc j) e = get_elem?-append front back i j (omega arith)

pub drop-append :
    (front back : Text) (n j : ℕ) → j ≡ length front + n → drop j (front ++ back) ≡ drop n back
drop-append [] back n j e = let same : j ≡ n = omega arith in rw same refl
drop-append (x ∷ front) back n zero e = absurd (omega arith)
drop-append (x ∷ front) back n (suc j) e = drop-append front back n j (omega arith)

pub word-append :
    (front back : Text) (i j : ℕ) → j ≡ length front + i → word (front ++ back) j ≡ word back i
word-append front back i j e =
    rw
      (get_elem?-append front back i j e, get_elem?-append front back (suc i) (suc j) (omega arith))
      refl

pub take-append : (xs ys : Text) → take (length xs) (xs ++ ys) ≡ xs
take-append [] ys = refl
take-append (x ∷ xs) ys = ap (λ (t : Text). x ∷ t) (take-append xs ys)

-- The middle of three parts.
pub slice-middle :
    (front middle back : Text) (start end : ℕ)
    → start ≡ length front
    → end ≡ start + length middle
    → slice (front ++ (middle ++ back)) start end ≡ ok middle
slice-middle front middle back start end p q =
    let long = length-append front (middle ++ back) in
    let long₁ = length-append middle back in
    let first : leb start end ≡ true = ground arith in
    let second : leb end (length (front ++ (middle ++ back))) ≡ true = ground arith in
    let rest : drop start (front ++ (middle ++ back)) ≡ middle ++ back =
      drop-append front (middle ++ back) 0 start (omega arith) in
    let size : end - start ≡ length middle = omega arith in
    rw (first, second, rest, size, take-append middle back) refl

length-replicate : (n : ℕ) → length (replicate {A = ℕ} n 0) ≡ n
length-replicate zero = refl
length-replicate (suc n) = omega (arith, length-replicate n)

pub length-encode_attribute :
    (a : Attribute)
    → length (encode_attribute a) ≡ 4 + length a.value + (4 - length a.value % 4) % 4
length-encode_attribute a = omega (
  arith,
  length-append a.value (padding a.value),
  length-replicate ((4 - length a.value % 4) % 4),
)

module _ (transaction_id front rest : Text) (a : Attribute) (fits : Fits a) where
  -- The parser's view of an attribute that stands behind `front`.
  pub round-encode_attribute :
      (message_end : ℕ) (mapped : Option SocketAddr)
      → length front + 4 + length a.value ≤ message_end
      → message_end ≤ 2 ^ 32
      → round
          (front ++ (encode_attribute a ++ rest))
          transaction_id
          message_end
          (length front)
          mapped
        ≡ read_attribute
            (front ++ (encode_attribute a ++ rest))
            transaction_id
            a.kind
            (length a.value)
            (length front + 4)
            (length front + 4 + length a.value)
            mapped
  unfolding round
  round-encode_attribute message_end mapped inside small =
      let kind = from_be_bytes_lem a.kind fits.0 in
      let size = from_be_bytes_lem (length a.value) fits.1 in
      let fits_usize : leb (length front + 4 + length a.value) usize_max ≡ true = ground arith in
      let in_message : leb (length front + 4 + length a.value) message_end ≡ true = ground arith in
      rw
        (
          round,
          word-append front (encode_attribute a ++ rest) 0 (length front) (omega arith),
          word-append front (encode_attribute a ++ rest) 2 (length front + 2) refl,
          kind,
          size,
          fits_usize,
          in_message,
        )
        refl
