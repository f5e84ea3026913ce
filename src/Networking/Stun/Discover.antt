-- ===== src/Networking/Stun/Discover.antt =====
-- packages/networking/src/stun.rs: `discover_reflexive_address`. What the socket hands over before the
-- deadline is a list, and the end of the list is the deadline.
use open_cade.Networking.Stun.Message.{Fits, response}
use open_cade.Prelude.{
  zero, suc, ◌≢◌, ℕ, ◌≤◌, ◌<◌, ◌≡◌, refl, ◌^◌, arith, false, ◌||◌, not, ◌==◌, List, [], ◌∷◌, ◌++◌,
  if◌then◌else◌, take, length, All, ap,
}
use open_cade.Networking.Stun.{
  Answer, failed, SocketAddr, IpAddr, max_stun_bytes, parse_binding_response, socket_addr,
}
use open_cade.Prelude.Text.{Text, codes}
use open_cade.Prelude.Outcome.{Outcome, err, ok, ◌>>=◌, fail_if}
use open_cade.Prelude.Bytes.{IsByte}
unfoldable pub use open_cade.Prelude.Net.{is_unspecified, addr_eq}
use open_cade.Prelude.Net.{addr_eq_refl, addr_neq}
use open_cade.Networking.Stun.Addresses.{
  xor_attribute, IsIpAddr, parse_binding_response-masked, length-masked-le, length-xor_attribute-le,
  length-response,
}
use open_cade.Networking.{TransportError, stun_timeout, invalid_configuration}

pub data NatMapping : Type 0 where
  open_mapping mapped_mapping : NatMapping

pub record StunObservation : Type 0 where
  pub local_endpoint : SocketAddr
  pub reflexive_endpoint : SocketAddr
  pub mapping : NatMapping

-- `recv_from`: a datagram and where it comes from, or the mapped error of the socket.
pub data Arrival : Type 0 where
  datagram : SocketAddr → Text → Arrival
  broken : TransportError → Arrival

-- `map_err` of a call of the socket
abbrev pub from_socket {ℓ} : {A : Type ℓ} → Outcome TransportError A → Answer A
from_socket (ok value) = ok value
from_socket (err reason) = err (failed reason)

module _ (server local_endpoint : SocketAddr) (transaction_id : Text) where
  unfoldable pub observe : Text → Answer StunObservation
  observe bytes = do
    reflexive_endpoint ← parse_binding_response (take max_stun_bytes bytes) transaction_id
    ok (record {
      local_endpoint = local_endpoint;
      reflexive_endpoint = reflexive_endpoint;
      mapping = if addr_eq reflexive_endpoint local_endpoint then open_mapping else mapped_mapping;
    })

  unfoldable pub await_response : List Arrival → Answer StunObservation
  unfolding observe addr_eq
  await_response [] = err (failed stun_timeout)
  await_response (broken reason ∷ rest) = err (failed reason)
  await_response (datagram source bytes ∷ rest) =
      let later = await_response rest in
      if not (addr_eq source server) then later else observe bytes

-- `local_addr` and `sent` are the socket's answers.
unfoldable pub discover_reflexive_address :
    (server : SocketAddr) (timeout : ℕ) (local_addr : Outcome TransportError SocketAddr)
    (sent : Outcome TransportError (Unit {0}))
    → Text
    → List Arrival
    → Answer StunObservation
unfolding is_unspecified await_response
discover_reflexive_address server timeout local_addr sent transaction_id arrivals = do
  done ←
      fail_if (is_unspecified server.ip || server.port == 0 || timeout == 0)
        (failed (invalid_configuration (codes "STUN server and timeout must be usable")))
  local_endpoint ← from_socket local_addr
  done ← from_socket sent
  await_response server local_endpoint transaction_id arrivals

-- A datagram of another sender.
abbrev pub IsStranger : SocketAddr → Arrival → Type 0
IsStranger server (datagram source bytes) = source ≢ server
IsStranger server (broken reason) = ⊥

await_response-strangers :
    (server local_endpoint : SocketAddr) (id bytes : Text) (strangers rest : List Arrival)
    → All (IsStranger server) strangers
    → await_response server local_endpoint id (strangers ++ datagram server bytes ∷ rest)
      ≡ observe server local_endpoint id bytes
unfolding await_response
await_response-strangers server local_endpoint id bytes [] rest h =
    let same = addr_eq_refl server in rw same refl
await_response-strangers server local_endpoint id bytes (broken reason ∷ strangers) rest h =
    absurd h.0
await_response-strangers server local_endpoint id bytes (datagram source sent ∷ strangers) rest h =
    let other = addr_neq source server h.0 in
    rw other (await_response-strangers server local_endpoint id bytes strangers rest h.1)

take_whole : (n : ℕ) (xs : Text) → length xs ≤ n → take n xs ≡ xs
take_whole zero [] h = refl
take_whole zero (x ∷ xs) h = absurd (omega arith)
take_whole (suc n) [] h = refl
take_whole (suc n) (x ∷ xs) h = ap (λ (t : Text). x ∷ t) (take_whole n xs (omega arith))

-- Discovery with a usable server and timeout and a working socket: whatever datagrams of other
-- senders come first, the server's response to this transaction decides, and the observation
-- holds the address and port that the server saw. The mapping is open exactly if that is the
-- socket's own address. The transaction id is 12 bytes.
pub discover_reflexive_address-response :
    (server local_endpoint : SocketAddr) (timeout : ℕ) (id : Text) (ip : IpAddr) (port : ℕ)
    (strangers rest : List Arrival)
    → is_unspecified server.ip ≡ false
    → 1 ≤ server.port
    → 1 ≤ timeout
    → length id ≡ 12
    → All IsByte id
    → IsIpAddr ip
    → port < 2 ^ 16
    → All (IsStranger server) strangers
    → discover_reflexive_address server timeout
        (ok local_endpoint)
        (ok tt)
        id
        (strangers ++ datagram server (response id (xor_attribute id ip port ∷ [])) ∷ rest)
      ≡ ok (record {
        local_endpoint = local_endpoint;
        reflexive_endpoint = socket_addr ip port;
        mapping =
            if addr_eq (socket_addr ip port) local_endpoint then open_mapping else mapped_mapping;
      })
unfolding discover_reflexive_address
discover_reflexive_address-response server local timeout id ip port strangers rest usable p t twelve
      bytes valid small apart =
    let port_set : (server.port == 0) ≡ false = ground arith in
    let time_set : (timeout == 0) ≡ false = ground arith in
    let size = length-xor_attribute-le id ip port valid in
    let fit : All Fits (xor_attribute id ip port ∷ []) =
      ((omega arith, omega (arith, length-masked-le id ip port valid)), tt) in
    let all_bytes = length-response id (xor_attribute id ip port ∷ []) twelve fit (omega arith) in
    let whole =
      take_whole max_stun_bytes (response id (xor_attribute id ip port ∷ [])) (omega arith) in
    let seen =
      parse_binding_response-masked id [] [] ip port twelve bytes valid small tt tt tt
        (omega arith) in
    rw
      (
        usable,
        port_set,
        time_set,
        await_response-strangers server local id (response id (xor_attribute id ip port ∷ []))
            strangers rest apart,
        observe,
        whole,
        seen,
      )
      refl
