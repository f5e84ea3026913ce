-- ===== src/Alpha/Kept.antt =====
-- The requests of alpha.rs keep the rooms of the database consistent, but for a receipt that cancels a
-- waiting room.
use open_cade.Prelude.{
  ℕ, [], ◌∷◌, ◌≡◌, refl, sym, ap, subst, arith, ◌||◌, not, ◌==◌, Option, none, some, List, take,
  Bool-cases, Option-cases, inl, inr,
}
use open_cade.Prelude.Assoc.{
  Assoc, lookup, insert, Values, Values-insert, Values-lookup, nat_eq, text_eq_instance,
}
use open_cade.Prelude.Text.{Text, text_eq}
use open_cade.Prelude.Outcome.{through_first}
use open_cade.Protocol.Reports.{MatchReport}
use open_cade.Rooms.{Room, Database, ok, fail_if, forbidden, internal, bad_request, conflict}
use open_cade.Rooms.Lifecycle.{find_waiting, is_waiting_for, new_room}
use open_cade.Rooms.Challenges.{map_rooms}
use open_cade.Rooms.Exit.{count_ended}
use open_cade.Rooms.Invariant.{IsConsistent}
use open_cade.Rooms.Whole.{Consistent}
use open_cade.Alpha.{
  Payload, Setup, published, submit_preflight, ready_to_launch, validate_compatibility,
  lock_active_attempt, expected_player_slot, preflight_status, rows,
}
use open_cade.Alpha.Invites.{
  Cohort, Issued, create_invite, is_hosting, is_some, note_created, to_ascii_uppercase,
}
use open_cade.Alpha.Evidence.{Value}
use open_cade.Alpha.Receipts.{
  Command, Response, Ledger, Fresh, create_match_receipt, issue_receipt, set_cancelled,
  next_room_of, finished_room,
}
use open_cade.Alpha.Receipts.Repeated.{create_match_receipt-cases}

-- What is published of the preflights, and the events, do not matter.
pub noted-IsConsistent :
    (r r' : Room)
    → r' ≡ record r {
      ready_preflights = r'.ready_preflights;
      barrier_launch_at = r'.barrier_launch_at;
      events = r'.events;
    }
    → IsConsistent r
    → IsConsistent r'
noted-IsConsistent r r' same h = subst IsConsistent (sym same) (record {
  two_players = h.two_players;
  host_inside = h.host_inside;
  tracks = h.tracks;
  seats = h.seats;
  launches = h.launches;
  due = h.due;
})

pub published-IsConsistent : (s : Setup) → IsConsistent s.room → IsConsistent (published s)
unfolding published
published-IsConsistent s h = noted-IsConsistent s.room (published s) refl h

pub submit_preflight-room :
    (show_uuid : ℕ → Text) (room_id user now : ℕ) (p : Payload) (s : Setup) {s' : Setup}
    → submit_preflight show_uuid room_id user now p s ≡ ok s'
    → s.room ≡ s'.room
unfolding submit_preflight
submit_preflight-room show_uuid room_id user now p s run =
    let (_, e, h) =
      through_first (fail_if (not (text_eq p.room_text (show_uuid room_id))) bad_request) _ run in
    let (_, e₁, h₁) = through_first (validate_compatibility p.compatibility) _ h in
    let (_, e₂, h₂) = through_first (lock_active_attempt user now s.room) _ h₁ in
    let (_, e₃, h₃) =
      through_first (fail_if (not (p.player_slot == expected_player_slot user s.room)) bad_request)
        _ h₂ in
    cc

pub ready_to_launch-room :
    (user now : ℕ) (s : Setup) {s' : Setup} → ready_to_launch user now s ≡ ok s' → s.room ≡ s'.room
unfolding ready_to_launch
ready_to_launch-room user now s run =
    let status = preflight_status (rows s.preflights) in
    let (_, e, h) = through_first (lock_active_attempt user now s.room) _ run in
    let (_, e₁, h₁) =
      through_first
        (fail_if (not (status.count == 2) || not status.matched || not status.controllers_ready)
          conflict)
        _ h in
    cc

-- The room's new publication.
pub publish-Consistent :
    (db : Database) (id : ℕ) (s s' : Setup)
    → lookup id db.rooms ≡ some s.room
    → s.room ≡ s'.room
    → Consistent db
    → Values IsConsistent (insert id (published s') db.rooms)
publish-Consistent db id s s' there same h =
    Values-insert IsConsistent id (published s') db.rooms
      (published-IsConsistent s'
        (subst IsConsistent same (Values-lookup IsConsistent id db.rooms h there)))
      h

pub submit_preflight-Consistent :
    (show_uuid : ℕ → Text) (db : Database) (id user now : ℕ) (p : Payload) (s s' : Setup)
    → lookup id db.rooms ≡ some s.room
    → submit_preflight show_uuid id user now p s ≡ ok s'
    → Consistent db
    → Values IsConsistent (insert id (published s') db.rooms)
submit_preflight-Consistent show_uuid db id user now p s s' there run h =
    publish-Consistent db id s s' there (submit_preflight-room show_uuid id user now p s run) h

pub ready_to_launch-Consistent :
    (db : Database) (id user now : ℕ) (s s' : Setup)
    → lookup id db.rooms ≡ some s.room
    → ready_to_launch user now s ≡ ok s'
    → Consistent db
    → Values IsConsistent (insert id (published s') db.rooms)
ready_to_launch-Consistent db id user now s s' there run h =
    publish-Consistent db id s s' there (ready_to_launch-room user now s run) h

note_created-Consistent :
    (room_id : ℕ) (rs : Assoc ℕ Room)
    → Values IsConsistent rs
    → Values IsConsistent (note_created room_id rs)
note_created-Consistent room_id rs h = elim (Option-cases (lookup room_id rs)) [
  | inl q ↦ rw (q, note_created) h
  | inr (r, q) ↦
      rw (q, note_created)
        (Values-insert IsConsistent room_id _ rs
          (noted-IsConsistent r _ refl (Values-lookup IsConsistent room_id rs h q)) h)
]

pub create_invite-Consistent :
    (hash_token : Text → Text) (uuid : Text) (user room_id now : ℕ) (c : Cohort) (made : Issued)
    → create_invite hash_token uuid user room_id now c ≡ ok made
    → Consistent c.database
    → Consistent made.issued_cohort.database
unfolding create_invite
create_invite-Consistent hash_token uuid user room_id now c made run h =
    let hash = hash_token (to_ascii_uppercase (take 10 uuid)) in
    let (_, e, h₁) =
      through_first (fail_if (not (is_hosting user (lookup room_id c.database.rooms))) forbidden) _
        run in
    let (_, e₁, h₂) = through_first (fail_if (is_some (lookup hash c.invites)) internal) _ h₁ in
    let rooms : note_created room_id c.database.rooms ≡ made.issued_cohort.database.rooms = cc h₂ in
    subst (Values IsConsistent) rooms (note_created-Consistent room_id c.database.rooms h)

-- Where no waiting room is found, none is cancelled.
spared :
    (user : ℕ) (game : Text) (rs : Assoc ℕ Room)
    → find_waiting user game rs ≡ none
    → Values IsConsistent rs
    → Values IsConsistent (map_rooms (set_cancelled user game) rs)
unfolding map_rooms set_cancelled find_waiting
spared user game [] free h = tt
spared user game ((id, r) ∷ rs) free h = elim (Bool-cases (is_waiting_for user game r)) [
  | inl b ↦ let free₁ = rw b at free in cc
  | inr b ↦ let free₁ = rw b at free in rw b (h.0, spared user game rs free₁ h.1)
]

pub next_room_of-IsConsistent :
    (user : ℕ) (game : Text) (now : ℕ) → IsConsistent (next_room_of user game now)
unfolding next_room_of new_room count_ended
next_room_of-IsConsistent user game now = record {
  two_players = refl;
  host_inside = ground arith;
  tracks = refl;
  seats = refl;
  launches = refl;
  due = (_, refl);
}

-- The user has no waiting room for the game of the room, if a receipt for that can be given at all.
abbrev pub Unawaited : (user source : ℕ) → Database → Type 0
Unawaited user source db =
    (r : Room)
    → finished_room user (lookup source db.rooms) ≡ some r
    → find_waiting user r.game_id db.rooms ≡ none

pub create_match_receipt-Consistent :
    (hash_token : Text → Text) (from_value : Value → Option MatchReport) (fresh : Fresh)
    (user key source now : ℕ) (early : List Command) (l l' : Ledger) (answer : Response)
    → create_match_receipt hash_token from_value fresh user key source now early l ≡ ok (l', answer)
    → Unawaited user source l.cohort.database
    → Consistent l.cohort.database
    → Consistent l'.cohort.database
unfolding issue_receipt
create_match_receipt-Consistent hash_token from_value fresh user key source now early l l' answer
      run free h =
    elim (create_match_receipt-cases hash_token from_value fresh user key source now early l l'
      answer run) [
        | inl same ↦ subst (λ (x : Ledger). Consistent x.cohort.database) (sym same) h
        | inr (unknown, given) ↦
            let game = given.room.game_id in
            let swept = spared user game l.cohort.database.rooms (free given.room given.found) h in
            let rooms : l'.cohort.database.rooms
                ≡ insert (fresh.fresh_room) (next_room_of user game now)
                    (map_rooms (set_cancelled user game) l.cohort.database.rooms) =
              ap (λ (x : Ledger). x.cohort.database.rooms) given.leaves in
            subst (Values IsConsistent) (sym rooms) (
              Values-insert IsConsistent (fresh.fresh_room) _ _
                (next_room_of-IsConsistent user game now) swept)
      ]
