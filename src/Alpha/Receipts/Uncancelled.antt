-- ===== src/Alpha/Receipts/Uncancelled.antt =====
-- `create_match_receipt` of alpha.rs cancels a waiting room and not its attempt.
use open_cade.Alpha.Evidence.{Value}
use open_cade.Alpha.Receipts.{
  Command, Response, Ledger, Fresh, set_cancelled, issue_receipt, finished_room, find_command,
  create_match_receipt,
}
use open_cade.Alpha.Receipts.Verified.{create_match_receipt-Receives}
use open_cade.Prelude.{
  ℕ, ◌≡◌, refl, ap, subst, ◌∙◌, arith, true, false, ◌==◌, Option, none, some, List, [], ◌∷◌,
  Bool-cases, inl, inr,
}
use open_cade.Prelude.Assoc.{Assoc, nat_eq, lookup, insert, lookup-insert}
use open_cade.Prelude.Text.{Text}
use open_cade.Protocol.{cancelled}
use open_cade.Protocol.Reports.{MatchReport}
use open_cade.Rooms.{ok, Room, active}
use open_cade.Rooms.Lifecycle.{is_waiting_for, expire_room}
use open_cade.Rooms.Challenges.{map_rooms}
use open_cade.Rooms.Invariant.{IsConsistent}
use open_cade.Rooms.Agreed.{is_waiting_for-waiting}

lookup-map_rooms :
    (f : Room → Room) (id : ℕ) (rs : Assoc ℕ Room) {r : Room}
    → lookup id rs ≡ some r
    → lookup id (map_rooms f rs) ≡ some (f r)
unfolding map_rooms lookup
lookup-map_rooms f id [] h = cc
lookup-map_rooms f id ((k, x) ∷ rs) {r} h = elim (Bool-cases (k == id)) [
  | inl hit ↦ let h₁ = rw hit at h in rw hit (let same : x ≡ r = cc h₁ in ap (λ y. some (f y)) same)
  | inr miss ↦ let h₁ = rw miss at h in rw miss (lookup-map_rooms f id rs h₁)
]

-- A cancelled room with a running attempt, which the reconciler leaves as it is.
pub record Stranded (r : Room) : Type 0 where
  pub over : r.state ≡ cancelled
  pub running : r.attempt.attempt_state ≡ active
  pub torn : ¬ IsConsistent r
  pub forever : (later : ℕ) → expire_room later r ≡ r

set_cancelled-Stranded :
    (user : ℕ) (game : Text) (r : Room)
    → is_waiting_for user game r ≡ true
    → IsConsistent r
    → Stranded (set_cancelled user game r)
unfolding set_cancelled expire_room
set_cancelled-Stranded user game r waits h =
    let from = is_waiting_for-waiting user game r waits in
    let running : r.attempt.attempt_state ≡ active = rw from at h.tracks in
    rw waits (record {
      over = refl;
      running = running;
      torn = λ c. c.tracks.0 running;
      forever = λ later. refl;
    })

-- A receipt cancels the room in which the user waits for a next match of this game, but, unlike a join
-- by invite or a challenge, not the room's attempt: the room, which was consistent, is cancelled while
-- its attempt still runs, and the reconciler never closes it.
pub create_match_receipt-Stranded :
    (hash_token : Text → Text) (from_value : Value → Option MatchReport) (fresh : Fresh)
    (user key source now : ℕ) (early : List Command) (l l' : Ledger) (answer : Response)
    (source_room r : Room) (id : ℕ)
    → find_command user key early ≡ none
    → find_command user key l.commands ≡ none
    → create_match_receipt hash_token from_value fresh user key source now early l ≡ ok (l', answer)
    → finished_room user (lookup source l.cohort.database.rooms) ≡ some source_room
    → lookup id l.cohort.database.rooms ≡ some r
    → (fresh.fresh_room == id) ≡ false
    → is_waiting_for user source_room.game_id r ≡ true
    → IsConsistent r
    → (r' : Room) × (lookup id l'.cohort.database.rooms ≡ some r') × Stranded r'
unfolding issue_receipt
create_match_receipt-Stranded hash_token from_value fresh user key source now early l l' answer
      source_room r id unknown unknown₁ run found there apart waits h =
    let given =
      create_match_receipt-Receives hash_token from_value fresh user key source now early l l'
        answer unknown unknown₁ run in
    let found₁ = given.found in
    let one : source_room ≡ given.room = cc in
    let waits₁ = subst (λ (x : Room). is_waiting_for user x.game_id r ≡ true) one waits in
    let swept = map_rooms (set_cancelled user given.room.game_id) l.cohort.database.rooms in
    let moved =
      lookup-map_rooms (set_cancelled user given.room.game_id) id l.cohort.database.rooms there in
    (
      set_cancelled user given.room.game_id r,
      ap (λ (x : Ledger). lookup id x.cohort.database.rooms) given.leaves
          ∙ beside (fresh.fresh_room) id _ swept apart
          ∙ moved,
      set_cancelled-Stranded user given.room.game_id r waits₁ h,
    )
  where
    beside :
        (new wanted : ℕ) (r : Room) (rs : Assoc ℕ Room)
        → (new == wanted) ≡ false
        → lookup wanted (insert new r rs) ≡ lookup wanted rs
    beside new wanted r rs apart = ground (arith, lookup-insert new wanted r rs)
