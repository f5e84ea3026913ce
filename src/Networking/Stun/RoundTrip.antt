-- ===== src/Networking/Stun/RoundTrip.antt =====
-- stun.rs against the format: the loop over the offsets reads a well-formed response as its
-- attributes say, and an address that a server masks into a response comes back.
use open_cade.Prelude.{
  ℕ, zero, suc, ◌+◌, ◌-◌, ◌*◌, ◌%◌, ◌^◌, ◌≤◌, ◌<◌, ◌≡◌, refl, sym, ◌∙◌, ap, arith, true, false,
  Option, none, some, List, [], ◌∷◌, ◌++◌, append_assoc, ◌==◌, leb, length, length-append, All,
  Bool-cases, inl, inr,
}
use open_cade.Prelude.Text.{Text}
use open_cade.Prelude.Bytes.{to_be_bytes}
use open_cade.Prelude.Outcome.{ok, ◌>>=◌, Outcome-cases}
use open_cade.Networking.Stun.{
  Answer, SocketAddr, Round, finished, again, slice, parse_address, read_attribute,
  parse_attributes, next_offset, usize_max, mapped_address, xor_mapped_address,
}
use open_cade.Networking.Stun.Message.{
  Attribute, encode_attribute, encode_all, Fits, answer, slice-middle, round-encode_attribute,
  length-encode_attribute, padding,
}

next_offset_lem :
    (end size : ℕ) → end ≤ 2 ^ 32 → next_offset end size ≡ ok (end + (4 - size % 4) % 4)
unfolding next_offset
next_offset_lem end size small =
    let fits : leb (end + (4 - size % 4) % 4) usize_max ≡ true = ground arith in rw fits refl

-- The type and the length.
abbrev head_of : Attribute → Text
head_of a = to_be_bytes a.kind ++ to_be_bytes (length a.value)

module _ (transaction_id : Text) where
  -- What the loop does with a round's result.
  abbrev go_on : Text → (message_end fuel : ℕ) → Answer Round → Answer SocketAddr
  go_on response message_end fuel turn = turn >>= λ turn. elim turn [
    | finished address ↦ ok address
    | again next found ↦ parse_attributes response transaction_id message_end fuel next found
  ]

  -- The value of an attribute is where the parser looks for it.
  value_slice :
      (front rest : Text) (a : Attribute)
      → slice
          (front ++ (encode_attribute a ++ rest))
          (length front + 4)
          (length front + 4 + length a.value)
        ≡ ok a.value
  value_slice front rest a = rw same (
      slice-middle (front ++ head_of a) a.value (padding a.value ++ rest) (length front + 4) _
        (omega (arith, length-append front (head_of a))) refl)
    where
      same :
          front ++ (encode_attribute a ++ rest)
          ≡ (front ++ head_of a) ++ (a.value ++ (padding a.value ++ rest))
      same = sym (
          append_assoc front (head_of a) _
          ∙ ap (λ (t : Text). front ++ (head_of a ++ t)) (sym (append_assoc a.value _ rest)))

  go_on-read_attribute :
      (response : Text) (a : Attribute) (rest : List Attribute) (start end message_end fuel : ℕ)
      (mapped : Option SocketAddr)
      → slice response start end ≡ ok a.value
      → end ≤ 2 ^ 32
      → ((found : Option SocketAddr)
          → parse_attributes response transaction_id message_end fuel
              (end + (4 - length a.value % 4) % 4)
              found
            ≡ answer transaction_id found rest)
      → go_on response message_end fuel
          (read_attribute response transaction_id a.kind (length a.value) start end mapped)
        ≡ answer transaction_id mapped (a ∷ rest)
  unfolding read_attribute answer
  go_on-read_attribute response a rest start end message_end fuel mapped read small ih =
      elim (Bool-cases (a.kind == xor_mapped_address)) [
        | inl xored ↦ elim (Outcome-cases (parse_address a.value (some transaction_id))) [
          | inl (address, e) ↦ rw (xored, read, e, answer) refl
          | inr (reason, e) ↦ rw (xored, read, e, answer) refl
        ]
        | inr plain ↦ elim (Bool-cases (a.kind == mapped_address)) [
          | inr other ↦
              rw (plain, other, next_offset_lem end (length a.value) small, answer) (ih mapped)
          | inl direct ↦ elim (Outcome-cases (parse_address a.value none)) [
            | inl (address, e) ↦
                rw (plain, direct, read, e, next_offset_lem end (length a.value) small, answer)
                  (ih (some address))
            | inr (reason, e) ↦ rw (plain, direct, read, e, answer) refl
          ]
        ]
      ]

  pub parse_attributes-encode_all :
      (attributes : List Attribute) (front : Text) (message_end fuel : ℕ)
      (mapped : Option SocketAddr)
      → All Fits attributes
      → message_end ≡ length front + length (encode_all attributes)
      → message_end ≤ 2 ^ 31
      → 1 ≤ fuel
      → message_end < length front + 4 * fuel
      → parse_attributes
          (front ++ encode_all attributes)
          transaction_id
          message_end
          fuel
          (length front)
          mapped
        ≡ answer transaction_id mapped attributes
  unfolding parse_attributes answer
  parse_attributes-encode_all attributes front message_end zero mapped fit e small one enough =
      absurd (omega arith)
  parse_attributes-encode_all [] front message_end (suc fuel) mapped fit e small one enough =
      let done : leb (length front + 4) message_end ≡ false = ground arith in
      rw (done, parse_attributes) refl
  parse_attributes-encode_all (a ∷ rest) front message_end (suc fuel) mapped (fits, fit) e small one
        enough =
      let size = length-encode_attribute a in
      let both = length-append (encode_attribute a) (encode_all rest) in
      let long = length-append front (encode_attribute a) in
      let more : leb (length front + 4) message_end ≡ true = ground arith in
      let at : length front + 4 + length a.value + (4 - length a.value % 4) % 4
          ≡ length (front ++ encode_attribute a) =
        omega arith in
      rw
        (
          more,
          parse_attributes,
          round-encode_attribute transaction_id front (encode_all rest) a fits message_end mapped
              (omega arith) (omega arith),
        )
        (go_on-read_attribute _ a rest (length front + 4) (length front + 4 + length a.value)
          message_end fuel mapped (value_slice front (encode_all rest) a) (omega arith)
          λ found.
            rw (sym (append_assoc front (encode_attribute a) (encode_all rest)), at)
              (parse_attributes-encode_all rest (front ++ encode_attribute a) message_end fuel found
                fit (omega arith) small (omega arith) (omega arith)))
