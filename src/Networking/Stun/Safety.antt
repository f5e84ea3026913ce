-- ===== src/Networking/Stun/Safety.antt =====
-- The parser of stun.rs never reads past the response and always ends.
use open_cade.Networking.Stun.{
  magic_cookie, not, header_bytes, Answer, invalid, byte, slice, word, parse_attributes,
  parse_binding_response, parse_address, parse_ip, ip_of, is_malformed, check_header, message_end,
  next_offset, read_attribute, round, Round, finished, again, or_invalid, checked_add, filter,
  SocketAddr, usize_max, mapped_address, xor_mapped_address,
}
use open_cade.Networking.{text_eq}
use open_cade.Prelude.Outcome.{through_first, fail_if-ok, err, ok, ◌>>=◌, fail_if}
use open_cade.Prelude.{
  not, ℕ, zero, suc, ◌+◌, ◌-◌, ◌*◌, ◌%◌, ◌≤◌, ◌<◌, ◌≡◌, refl, arith, Bool, true, false, Option,
  none, some, ◌==◌, leb, ltb, leb→le, length, get_elem?, ◌⊎◌, inl, inr, Bool-cases, take, drop, ◌∷◌,
  [], ◌&&◌,
}
use open_cade.Prelude.Text.{Text, codes}

-- An address, or an error that says the response is invalid.
abbrev pub IsAnswer {ℓ} : {A : Type ℓ} → Answer A → Type ℓ
IsAnswer {A = A} answer =
    ((value : A) × (answer ≡ ok value)) ⊎ ((message : Text) × (answer ≡ err (invalid message)))

module _ {ℓ κ} {A : Type ℓ} {B : Type κ} where
  IsAnswer-bind :
      (first : Answer A) (continue : A → Answer B)
      → IsAnswer first
      → ((value : A) → first ≡ ok value → IsAnswer (continue value))
      → IsAnswer (first >>= continue)
  IsAnswer-bind first continue (inl (value, e)) h = rw e (h value e)
  IsAnswer-bind first continue (inr (message, e)) h = rw e (inr (message, refl))

fail_if-IsAnswer : (test : Bool) (message : Text) → IsAnswer (fail_if test (invalid message))
fail_if-IsAnswer true message = inr (message, refl)
fail_if-IsAnswer false message = inl (tt, refl)

or_invalid-IsAnswer {ℓ} :
    {A : Type ℓ} (option : Option A) (message : Text) → IsAnswer (or_invalid option message)
or_invalid-IsAnswer none message = inr (message, refl)
or_invalid-IsAnswer (some value) message = inl (value, refl)

get_elem?-some :
    (bytes : Text) (i : ℕ) → i < length bytes → (value : ℕ) × (get_elem? bytes i ≡ some value)
get_elem?-some [] i h = absurd (omega arith)
get_elem?-some (x ∷ xs) zero h = (x, refl)
get_elem?-some (x ∷ xs) (suc i) h = get_elem?-some xs i (omega arith)

byte-IsAnswer : (bytes : Text) (i : ℕ) → i < length bytes → IsAnswer (byte bytes i)
byte-IsAnswer bytes i h = let (value, e) = get_elem?-some bytes i h in rw e (inl (value, refl))

word-IsAnswer : (bytes : Text) (i : ℕ) → suc i < length bytes → IsAnswer (word bytes i)
word-IsAnswer bytes i h =
    let (high, e) = get_elem?-some bytes i (omega arith) in
    let (low, e₁) = get_elem?-some bytes (suc i) h in rw (e, e₁) (inl (_, refl))

slice-IsAnswer :
    (bytes : Text) (start end : ℕ)
    → start ≤ end
    → end ≤ length bytes
    → IsAnswer (slice bytes start end)
slice-IsAnswer bytes start end p q = inl (take (end - start) (drop start bytes), ground arith)

malformed_short : (value : Text) → is_malformed value ≡ ok false → 8 ≤ length value
unfolding is_malformed
malformed_short value h = elim (Bool-cases (ltb (length value) 8)) [
  | inl short ↦ let h₁ = rw short at h in cc
  | inr long ↦ ground arith
]

is_malformed-IsAnswer : (value : Text) → IsAnswer (is_malformed value)
unfolding is_malformed
is_malformed-IsAnswer value = elim (Bool-cases (ltb (length value) 8)) [
  | inl short ↦ rw short (inl (true, refl))
  | inr long ↦
      let (first, e) = get_elem?-some value 0 (ground arith) in rw (long, e) (inl (_, refl))
]

ip_of-IsAnswer :
    (family : ℕ) (value : Text) (xor_transaction_id : Option Text)
    → IsAnswer (ip_of family value xor_transaction_id)
unfolding ip_of
ip_of-IsAnswer family value id = elim (Bool-cases (family == 1 && length value == 8)) [
  | inl short ↦ rw short (
      IsAnswer-bind (slice value 4 8) _ (slice-IsAnswer value 4 8 (omega arith) (ground arith))
        (λ octets e. inl (_, refl)))
  | inr no_v4 ↦ elim (Bool-cases (family == 2 && length value == 20)) [
    | inl long ↦
        rw (no_v4, long)
          (IsAnswer-bind (slice value 4 20) _
            (slice-IsAnswer value 4 20 (omega arith) (ground arith)) (λ octets e. inl (_, refl)))
    | inr no_v6 ↦ rw (no_v4, no_v6) (inr (_, refl))
  ]
]

parse_address-IsAnswer :
    (value : Text) (xor_transaction_id : Option Text)
    → IsAnswer (parse_address value xor_transaction_id)
unfolding parse_address parse_ip
parse_address-IsAnswer value id =
    IsAnswer-bind (is_malformed value) _ (is_malformed-IsAnswer value) λ malformed e.
      IsAnswer-bind (fail_if malformed _) _ (fail_if-IsAnswer malformed _) λ done e₁.
        let enough : 8 ≤ length value = malformed_short value (rest malformed done e e₁) in
        IsAnswer-bind (word value 2) _ (word-IsAnswer value 2 (omega arith)) λ port e₂.
          IsAnswer-bind (parse_ip value id) _
            (IsAnswer-bind (byte value 1) _ (byte-IsAnswer value 1 (omega arith))
              λ family e₃. ip_of-IsAnswer family value id)
            λ ip e₃. inl (_, refl)
  where
    rest :
        (malformed : Bool) (done : Unit {0})
        → is_malformed value ≡ ok malformed
        → ◌≡◌ {A = Answer (Unit {0})}
            (fail_if malformed (invalid (codes "mapped address attribute is malformed")))
            (ok done)
        → is_malformed value ≡ ok false
    rest true done e h = cc
    rest false done e h = e

-- What the guard of an attribute lets through.
pub end_of_value :
    (start size message_end end : ℕ) (message : Text)
    → or_invalid (filter (λ end. leb end message_end) (checked_add start size)) message ≡ ok end
    → (end ≡ start + size) × (end ≤ message_end)
end_of_value start size message_end end message h =
    elim (Bool-cases (leb (start + size) usize_max)) [
      | inr over ↦ let h₁ = rw over at h in cc
      | inl fits ↦ elim (Bool-cases (leb (start + size) message_end)) [
        | inr late ↦ let h₁ = rw (fits, late) at h in cc
        | inl inside ↦
            let h₁ = rw (fits, inside) at h in
            let same : start + size ≡ end = cc in (omega arith, ground arith)
      ]
    ]

next_offset-IsAnswer : (end size : ℕ) → IsAnswer (next_offset end size)
unfolding next_offset
next_offset-IsAnswer end size = or_invalid-IsAnswer _ _

next_offset-le : (end size next : ℕ) → next_offset end size ≡ ok next → end ≤ next
unfolding next_offset
next_offset-le end size next h = elim (Bool-cases (leb (end + (4 - size % 4) % 4) usize_max)) [
  | inr over ↦ let h₁ = rw over at h in cc
  | inl fits ↦
      let h₁ = rw fits at h in let same : end + (4 - size % 4) % 4 ≡ next = cc in omega arith
]

-- The next attribute starts after this one's head and value.
abbrev Advances : ℕ → Round → Type 0
Advances end (finished address) = Unit
Advances end (again next found) = end ≤ next

-- A round that answers, and that moves on if it does not return.
abbrev IsRound : ℕ → Answer Round → Type 0
IsRound end answer =
    ((turn : Round) × (answer ≡ ok turn) × Advances end turn)
    ⊎ ((message : Text) × (answer ≡ err (invalid message)))

IsRound-bind {ℓ} :
    {A : Type ℓ} (end : ℕ) (first : Answer A) (continue : A → Answer Round)
    → IsAnswer first
    → ((value : A) → first ≡ ok value → IsRound end (continue value))
    → IsRound end (first >>= continue)
IsRound-bind end first continue (inl (value, e)) h = rw e (h value e)
IsRound-bind end first continue (inr (message, e)) h = rw e (inr (message, refl))

module _ (response transaction_id : Text) (message_end : ℕ)
    (inside : message_end ≤ length response) where
  next_offset-IsRound :
      (end size : ℕ) (mapped : Option SocketAddr)
      → IsRound end (next_offset end size >>= λ next. ok (again next mapped))
  next_offset-IsRound end size mapped =
      IsRound-bind end (next_offset end size) _ (next_offset-IsAnswer end size)
        (λ next e. inl (again next mapped, refl, next_offset-le end size next e))

  read_attribute-IsRound :
      (kind size start end : ℕ) (mapped : Option SocketAddr)
      → start ≤ end
      → end ≤ message_end
      → IsRound end (read_attribute response transaction_id kind size start end mapped)
  unfolding read_attribute
  read_attribute-IsRound kind size start end mapped low high =
      elim (Bool-cases (kind == xor_mapped_address)) [
        | inl xored ↦ rw xored (
            IsRound-bind end _ _ value λ octets e.
              IsRound-bind end _ _ (parse_address-IsAnswer octets (some transaction_id))
                (λ address e₁. inl (finished address, refl, tt)))
        | inr plain ↦ elim (Bool-cases (kind == mapped_address)) [
          | inl direct ↦
              rw (plain, direct)
                (IsRound-bind end _ _ value λ octets e.
                  IsRound-bind end _ _ (parse_address-IsAnswer octets none)
                    (λ address e₁. next_offset-IsRound end size (some address)))
          | inr other ↦ rw (plain, other) (next_offset-IsRound end size mapped)
        ]
      ]
    where
      value : IsAnswer (slice response start end)
      value = slice-IsAnswer response start end low (omega (arith, inside))

  round-IsRound :
      (offset : ℕ) (mapped : Option SocketAddr)
      → offset + 4 ≤ message_end
      → IsRound (offset + 4) (round response transaction_id message_end offset mapped)
  unfolding round
  round-IsRound offset mapped room =
      IsRound-bind _ _ _ (word-IsAnswer response offset (omega (arith, inside))) λ kind e.
        IsRound-bind _ _ _ (word-IsAnswer response (offset + 2) (omega (arith, inside))) λ size e₁.
          IsRound-bind _ _ _ (or_invalid-IsAnswer _ _) λ end e₂.
            let (at, le) = end_of_value (offset + 4) size message_end end _ e₂ in
            further end (omega arith)
              (read_attribute-IsRound kind size (offset + 4) end mapped (omega arith) le)
    where
      further :
          {answer : Answer Round} (end : ℕ)
          → offset + 4 ≤ end
          → IsRound end answer
          → IsRound (offset + 4) answer
      further end le (inl (finished address, e, h)) = inl (finished address, e, h)
      further end le (inl (again next found, e, h)) = inl (again next found, e, omega arith)
      further end le (inr failure) = inr failure

  -- One more round is left as long as an attribute is.
  parse_attributes-IsAnswer :
      (fuel offset : ℕ) (mapped : Option SocketAddr)
      → 1 ≤ fuel
      → message_end < offset + 4 * fuel
      → IsAnswer (parse_attributes response transaction_id message_end fuel offset mapped)
  unfolding parse_attributes
  parse_attributes-IsAnswer zero offset mapped some_left enough = absurd (omega arith)
  parse_attributes-IsAnswer (suc fuel) offset mapped some_left enough =
      elim (Bool-cases (leb (offset + 4) message_end)) [
        | inr done ↦ rw (done, parse_attributes) (or_invalid-IsAnswer mapped _)
        | inl more ↦
            let room : offset + 4 ≤ message_end = leb→le _ _ more in
            rw (more, parse_attributes)
              (after room (λ next found. parse_attributes-IsAnswer fuel next found)
                (round-IsRound offset mapped room))
      ]
    where
      after :
          offset + 4 ≤ message_end
          → ((next : ℕ) (found : Option SocketAddr)
              → 1 ≤ fuel
              → message_end < next + 4 * fuel
              → IsAnswer (parse_attributes response transaction_id message_end fuel next found))
          → {turn : Answer Round} → IsRound (offset + 4) turn
          → IsAnswer (
              turn >>= λ turn. elim turn [
                | finished address ↦ ok address
                | again next found ↦
                    parse_attributes response transaction_id message_end fuel next found
              ])
      after room ih (inl (finished address, e, h)) = rw e (inl (address, refl))
      after room ih (inl (again next found, e, h)) =
          rw e (ih next found (omega arith) (omega arith))
      after room ih (inr (message, e)) = rw e (inr (message, refl))

-- What a response that passes the checks of its header has.
pub check_header-ok :
    (response id : Text) {done : Unit {0}}
    → check_header response id ≡ ok done
    → 20 ≤ length response
unfolding check_header
check_header-ok response id run =
    let (done, e, h) = through_first (fail_if (ltb (length response) 20) _) _ run in
    let long = fail_if-ok (ltb (length response) 20) _ e in ground arith

check_header-IsAnswer : (response id : Text) → IsAnswer (check_header response id)
unfolding check_header
check_header-IsAnswer response id =
    IsAnswer-bind (fail_if (ltb (length response) 20) _) _ (fail_if-IsAnswer _ _) λ done e.
      let fits = fail_if-ok (ltb (length response) 20) _ e in
      let long : 20 ≤ length response = ground arith in
      IsAnswer-bind (word response 0) _ (word-IsAnswer response 0 (omega arith)) λ kind e₁.
        IsAnswer-bind (fail_if (not (kind == _)) _) _ (fail_if-IsAnswer _ _) λ done₁ e₂.
          IsAnswer-bind (slice response 4 8) _
            (slice-IsAnswer response 4 8 (omega arith) (omega arith))
            λ cookie e₃.
              IsAnswer-bind (fail_if (not (text_eq cookie magic_cookie)) _) _ (fail_if-IsAnswer _ _)
                λ done₂ e₄.
                  IsAnswer-bind (slice response 8 20) _
                    (slice-IsAnswer response 8 20 (omega arith) (omega arith))
                    λ given e₅. fail_if-IsAnswer _ _

message_end-IsAnswer : (response : Text) → 20 ≤ length response → IsAnswer (message_end response)
unfolding message_end
message_end-IsAnswer response long =
    IsAnswer-bind (word response 2) _ (word-IsAnswer response 2 (omega arith)) λ size e.
      IsAnswer-bind (fail_if (not (size % 4 == 0)) _) _ (fail_if-IsAnswer _ _)
        λ done e₁. or_invalid-IsAnswer _ _

message_end-le : (response : Text) {end : ℕ} → message_end response ≡ ok end → end ≤ length response
unfolding message_end
message_end-le response run =
    let (size, e, h) = through_first (word response 2) _ run in
    let (done, e₁, h₁) = through_first (fail_if (not (size % 4 == 0)) _) _ h in
    (end_of_value header_bytes size (length response) _ _ h₁).1

-- Whatever bytes arrive, the parser ends within its fuel, reads no byte past the response and
-- takes no slice that is out of range: it answers with an address or with an error that the
-- response is invalid.
pub parse_binding_response-IsAnswer :
    (response transaction_id : Text) → IsAnswer (parse_binding_response response transaction_id)
unfolding parse_binding_response
parse_binding_response-IsAnswer response id =
    IsAnswer-bind (check_header response id) _ (check_header-IsAnswer response id) λ done e.
      let long = check_header-ok response id e in
      IsAnswer-bind (message_end response) _ (message_end-IsAnswer response long) λ end e₁.
        let inside = message_end-le response e₁ in
        parse_attributes-IsAnswer response id end inside (length response) header_bytes none
          (omega arith) (omega arith)
