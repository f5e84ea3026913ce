-- ===== src/Networking/Stun/Tests.antt =====
-- stun.rs on concrete responses, the ones of its own tests among them.
use open_cade.Networking.Stun.{
  SocketAddr, socket_addr, IpAddr, v4, invalid, binding_request, parse_binding_response,
}
use open_cade.Prelude.{
  All, ℕ, ◌≡◌, refl, false, ap, ◌≢◌, arith, none, [], ◌∷◌, ◌++◌, replicate, if◌then◌else◌,
}
use open_cade.Prelude.Text.{Text, codes, text_eq}
use open_cade.Prelude.Outcome.{err, ok}
use open_cade.Prelude.Bytes.{xor_each, IsByte}
use open_cade.Networking.Stun.Message.{Attribute, response, answer}
use open_cade.Networking.Stun.Safety.{IsAnswer, parse_binding_response-IsAnswer}
use open_cade.Networking.Stun.Addresses.{xor_attribute, parse_binding_response-response}
use open_cade.Networking.Stun.Discover.{
  is_unspecified, discover_reflexive_address, discover_reflexive_address-response, open_mapping,
  mapped_mapping, datagram, addr_eq,
}

-- the transaction id and the addresses of the tests
abbrev id : Text
id = replicate 12 7

abbrev seen : IpAddr
seen = v4 (203 ∷ 0 ∷ 113 ∷ 9 ∷ [])

abbrev home : SocketAddr
home = socket_addr (v4 (127 ∷ 0 ∷ 0 ∷ 1 ∷ [])) 41000

abbrev stun_server : SocketAddr
stun_server = socket_addr (v4 (192 ∷ 0 ∷ 2 ∷ 1 ∷ [])) 3478

-- SOFTWARE, of five bytes, so with padding
abbrev software : Attribute
software = record { kind = 0x8022; value = codes "coder" }

ipv4_response :
    parse_binding_response (response id (xor_attribute id seen 45678 ∷ [])) id
    ≡ ok (socket_addr seen 45678)
unfolding parse_binding_response xor_each text_eq
ipv4_response = refl

wrong_transaction :
    parse_binding_response (response id (xor_attribute id seen 45678 ∷ [])) (replicate 12 8)
    ≡ err (invalid (codes "transaction id does not match the request"))
unfolding parse_binding_response xor_each text_eq
wrong_transaction = refl

request_is_no_response :
    parse_binding_response (binding_request id) id
    ≡ err (invalid (codes "response is not a Binding success response"))
unfolding parse_binding_response binding_request
request_is_no_response = refl

-- The attribute's length says 200 bytes.
truncated_attribute :
    parse_binding_response
      (0x01 ∷ 0x01 ∷ 0 ∷ 8 ∷ 0x21 ∷ 0x12 ∷ 0xa4 ∷ 0x42 ∷ []
        ++ id
        ++ 0 ∷ 0x20 ∷ 0 ∷ 200 ∷ replicate 4 0)
      id
    ≡ err (invalid (codes "attribute length is invalid"))
unfolding parse_binding_response text_eq
truncated_attribute = refl

parse_binding_response-IsAnswer_example : IsAnswer (parse_binding_response (replicate 40 255) id)
parse_binding_response-IsAnswer_example = parse_binding_response-IsAnswer (replicate 40 255) id

parse_binding_response-response_example :
    parse_binding_response (response id (software ∷ xor_attribute id seen 45678 ∷ [])) id
    ≡ answer id none (software ∷ xor_attribute id seen 45678 ∷ [])
unfolding xor_each
parse_binding_response-response_example =
    parse_binding_response-response id (software ∷ xor_attribute id seen 45678 ∷ []) refl
      ((omega arith, omega arith), ((omega arith, omega arith), tt)) (omega arith)

id_bytes : All IsByte id
id_bytes = search arith

seen_bytes : All IsByte (203 ∷ 0 ∷ 113 ∷ 9 ∷ [])
seen_bytes = (omega arith, (omega arith, (omega arith, (omega arith, tt))))

usable : is_unspecified stun_server.ip ≡ false
unfolding is_unspecified
usable = refl

numbers : ◌≢◌ {A = ℕ} 41000 3478
numbers e = omega arith

not_the_server : home ≢ stun_server
not_the_server e =
    let ports : ◌≡◌ {A = ℕ} 41000 3478 = ap (λ (a : SocketAddr). a.port) e in numbers ports

discover_reflexive_address-response_example :
    discover_reflexive_address stun_server 500 (ok home) (ok tt) id (
      datagram home (codes "noise")
      ∷ datagram stun_server (response id (xor_attribute id seen 45678 ∷ []))
      ∷ [])
    ≡ ok (record {
      local_endpoint = home;
      reflexive_endpoint = socket_addr seen 45678;
      mapping = if addr_eq (socket_addr seen 45678) home then open_mapping else mapped_mapping;
    })
discover_reflexive_address-response_example =
    discover_reflexive_address-response stun_server home 500 id seen 45678
      (datagram home (codes "noise") ∷ []) [] usable (omega arith) (omega arith) refl id_bytes
      (refl, seen_bytes) (omega arith) (not_the_server, tt)
