-- ===== src/Alpha/Invites/Joined.antt =====
-- What `join_invite` of alpha.rs leaves in the database: consistent rooms, and one room of the user.
use open_cade.Alpha.Invites.{
  Invite, Cohort, require, only_open, is_code, withdrawn, withdraw_others, joined, joined_cohort,
  join_body, join_invite, read_code,
}
use open_cade.Prelude.{
  ℕ, ◌≡◌, refl, sym, ap, subst, ◌∙◌, arith, true, false, ◌&&◌, not, ◌==◌, Option, none, some, List,
  [], ◌∷◌, ◌++◌, length, any, length-append, Bool-cases, inl, inr, ◌⊎◌, leb,
}
use open_cade.Prelude.Assoc.{
  Assoc, nat_eq, text_eq_instance, lookup, insert, lookup-insert, Values, Values-insert,
  Values-lookup,
}
use open_cade.Prelude.Text.{Text}
use open_cade.Prelude.Outcome.{through_first, fail_if-ok, Outcome-cases}
use open_cade.Protocol.{RoomState, waiting, challenging, connecting}
use open_cade.RoomState.{accept}
use open_cade.Rooms.{
  AppError, ok, fail_if, bad_request, not_found, internal, forbidden, conflict, Room, is_member,
  apply, active,
}
use open_cade.Rooms.Lifecycle.{is_waiting_for}
use open_cade.Rooms.Results.{apply-accept}
use open_cade.Rooms.Invariant.{IsConsistent}
use open_cade.Rooms.Preserved.{close_attempt-settled, Seats-le, nobody_launched, any_append}
use open_cade.Rooms.Agreed.{is_waiting_for-waiting}
use open_cade.Rooms.Whole.{Consistent, notify-Consistent}

pub require-ok :
    {A : Type 0} (e : AppError) (o : Option A) {a : A} → require e o ≡ ok a → o ≡ some a
require-ok e none h = cc
require-ok e (some a) h = cc

pub only_open-some :
    (now : ℕ) (o : Option Invite) {i : Invite}
    → only_open now o ≡ some i
    → (o ≡ some i) × (i.invite_consumed_at ≡ none)
only_open-some now none h = cc
only_open-some now (some j) h = ground arith

-- What a join that is accepted has found, and what it leaves.
pub record Joins (hash : Text) (user now : ℕ) (c : Cohort) (room_id : ℕ) (c' : Cohort)
    : Type 0 where
  pub invite : Invite
  pub room : Room
  pub listed : lookup hash c.invites ≡ some invite
  pub fresh : invite.invite_consumed_at ≡ none
  pub names : invite.invite_room ≡ room_id
  pub found : lookup room_id c.database.rooms ≡ some room
  pub guest : (room.host_user_id == user) ≡ false
  pub outside : is_member user room ≡ false
  pub from : (room.state ≡ waiting) ⊎ (room.state ≡ challenging)
  pub leaves : c' ≡ joined_cohort hash user now connecting invite room c

pub join_body-Joins :
    (hash_token : Text → Text) (user : ℕ) (code : Text) (now : ℕ) (c : Cohort) {room_id : ℕ}
    {c' : Cohort}
    → join_body hash_token user code now c ≡ ok (room_id, c')
    → Joins (hash_token code) user now c room_id c'
unfolding join_body
join_body-Joins hash_token user code now c {room_id} {c'} run =
    let (_, e, h) = through_first (fail_if (not (is_code code)) bad_request) _ run in
    let (i, e₁, h₁) =
      through_first (require not_found (only_open now (lookup (hash_token code) c.invites))) _ h in
    let (r, e₂, h₂) =
      through_first (require internal (lookup i.invite_room c.database.rooms)) _ h₁ in
    let (_, e₃, h₃) = through_first (fail_if (r.host_user_id == user) forbidden) _ h₂ in
    let (next, e₄, h₄) = through_first (apply r.state accept) _ h₃ in
    let (_, e₅, h₅) = through_first (fail_if (leb 2 (length r.members)) conflict) _ h₄ in
    let (_, e₆, h₆) = through_first (fail_if (is_member user r) internal) _ h₅ in
    let (from, to) = apply-accept r.state next e₄ in
    let (there, unused) = only_open-some now _ (require-ok _ _ e₁) in
    let names : i.invite_room ≡ room_id = cc h₆ in
    let left : joined_cohort (hash_token code) user now next i r c ≡ c' = cc h₆ in
    record {
      invite = i;
      room = r;
      listed = there;
      fresh = unused;
      names = names;
      found = subst (λ id. lookup id c.database.rooms ≡ some r) names (require-ok _ _ e₂);
      guest = fail_if-ok _ _ e₃;
      outside = fail_if-ok _ _ e₆;
      from = from;
      leaves =
          sym left ∙ ap (λ (t : RoomState). joined_cohort (hash_token code) user now t i r c) to;
    }

pub withdrawn-IsConsistent :
    (now : ℕ) (r : Room) → r.state ≡ waiting → IsConsistent r → IsConsistent (withdrawn now r)
unfolding withdrawn
withdrawn-IsConsistent now r from h =
    let running : r.attempt.attempt_state ≡ active = rw from at h.tracks in
    record {
      two_players = h.two_players;
      host_inside = h.host_inside;
      tracks = close_attempt-settled now r.attempt (λ e. cc);
      seats = Seats-le r.state _ h.seats;
      launches = tt;
      due = tt;
    }

withdraw_others-IsConsistent :
    (user : ℕ) (game : Text) (now kept : ℕ) (rs : Assoc ℕ Room)
    → Values IsConsistent rs
    → Values IsConsistent (withdraw_others user game now kept rs)
unfolding withdraw_others
withdraw_others-IsConsistent user game now kept [] h = tt
withdraw_others-IsConsistent user game now kept ((id, r) ∷ rs) h =
    let rest = withdraw_others-IsConsistent user game now kept rs h.1 in
    elim (Bool-cases (is_waiting_for user game r && not (id == kept))) [
      | inr b ↦ rw b (h.0, rest)
      | inl b ↦
          let its : is_waiting_for user game r ≡ true = ground arith in
          rw b (withdrawn-IsConsistent now r (is_waiting_for-waiting user game r its) h.0, rest)
    ]

pub joined-IsConsistent :
    (user now : ℕ) (r : Room)
    → (r.state ≡ waiting) ⊎ (r.state ≡ challenging)
    → IsConsistent r
    → IsConsistent (joined user now connecting r)
unfolding joined
joined-IsConsistent user now r from h =
    let alone : length r.members ≡ 1 = ground (arith, h.seats) in
    let running : r.attempt.attempt_state ≡ active = ground (arith, h.tracks) in
    record {
      two_players = h.two_players;
      host_inside = any_append (λ m. m == r.host_user_id) r.members (user ∷ []) h.host_inside;
      tracks = ground arith;
      seats = ground (arith, length-append r.members (user ∷ []));
      launches = rw (nobody_launched r from h.launches) (tt, tt);
      due = (_, refl);
    }

-- Whoever redeems a code, and whether it is accepted or not, every room stays consistent: also the
-- rooms that the user gives up for the one that is entered.
pub join_invite-Consistent :
    (hash_token : Text → Text) (user : ℕ) (text : Text) (now : ℕ) (c : Cohort)
    → Consistent c.database
    → Consistent (join_invite hash_token user text now c).0.database
unfolding join_invite joined_cohort
join_invite-Consistent hash_token user text now c h =
    elim (Outcome-cases (join_body hash_token user (read_code text) now c)) [
      | inr (e, q) ↦ rw (join_invite, q) h
      | inl ((room_id, c'), q) ↦
          let j = join_body-Joins hash_token user (read_code text) now c q in
          let entered =
            joined-IsConsistent user now j.room j.from
              (Values-lookup IsConsistent room_id c.database.rooms h j.found) in
          let kept = Values-insert IsConsistent (j.invite.invite_room) _ _ entered (
            withdraw_others-IsConsistent user j.room.game_id now (j.invite.invite_room)
              c.database.rooms h) in
          let whole : Consistent c'.database = rw j.leaves kept in
          rw (join_invite, q) (notify-Consistent c'.database room_id user whole)
    ]

withdrawn-waits :
    (user : ℕ) (game : Text) (now : ℕ) (x : Room)
    → is_waiting_for user game (withdrawn now x) ≡ false
unfolding withdrawn is_waiting_for
withdrawn-waits user game now x = ground arith

-- A room that is left waiting by the withdrawal is the one that is kept.
lookup-withdraw_others :
    (user : ℕ) (game : Text) (now kept id : ℕ) (rs : Assoc ℕ Room) {r : Room}
    → (id == kept) ≡ false
    → lookup id (withdraw_others user game now kept rs) ≡ some r
    → is_waiting_for user game r ≡ false
unfolding withdraw_others lookup
lookup-withdraw_others user game now kept id [] other h = cc
lookup-withdraw_others user game now kept id ((k, x) ∷ rs) {r} other h =
    elim (Bool-cases (k == id)) [
      | inr miss ↦ let h₁ = rw miss at h in lookup-withdraw_others user game now kept id rs other h₁
      | inl hit ↦
          let h₁ = rw hit at h in
          let apart : (k == kept) ≡ false = ground arith in
          elim (Bool-cases (is_waiting_for user game x)) [
            | inr b ↦
                let h₂ = rw b at h₁ in
                let same : x ≡ r = cc h₂ in subst (λ y. is_waiting_for user game y ≡ false) same b
            | inl b ↦
                let h₂ = rw (b, apart) at h₁ in
                let same : withdrawn now x ≡ r = cc h₂ in
                subst (λ y. is_waiting_for user game y ≡ false) same
                  (withdrawn-waits user game now x)
          ]
    ]

last_inside : (user : ℕ) (ms : List ℕ) → any (λ m. m == user) (ms ++ user ∷ []) ≡ true
last_inside user [] = ground arith
last_inside user (m ∷ ms) = ground (arith, last_inside user ms)

connecting-waits :
    (user : ℕ) (game : Text) (r : Room) → r.state ≡ connecting → is_waiting_for user game r ≡ false
unfolding is_waiting_for
connecting-waits user game r h = ground arith

insert_here : (id : ℕ) (r : Room) (rs : Assoc ℕ Room) → lookup id (insert id r rs) ≡ some r
insert_here id r rs = ground (arith, lookup-insert id id r rs)

insert_beside :
    (id wanted : ℕ) (r : Room) (rs : Assoc ℕ Room)
    → (wanted == id) ≡ false
    → lookup wanted (insert id r rs) ≡ lookup wanted rs
insert_beside id wanted r rs apart = ground (arith, lookup-insert id wanted r rs)

-- The user's room after a join, and no other that waits for the same game.
abbrev pub Elsewhere : ℕ → ℕ → Assoc ℕ Room → Type 0
Elsewhere user room_id rooms =
    (r : Room) × (lookup room_id rooms ≡ some r)
    × (is_member user r ≡ true)
    × (r.state ≡ connecting)
    × ((id : ℕ) (other : Room)
        → lookup id rooms ≡ some other
        → is_waiting_for user r.game_id other ≡ false)

entered-Elsewhere :
    (user now room_id : ℕ) (r : Room) (rs : Assoc ℕ Room)
    → Elsewhere user room_id (
        insert room_id
          (joined user now connecting r)
          (withdraw_others user r.game_id now room_id rs))
unfolding joined
entered-Elsewhere user now room_id r rs =
    let entered = joined user now connecting r in
    let cleared = withdraw_others user r.game_id now room_id rs in
    (
      entered,
      insert_here room_id entered cleared,
      last_inside user r.members,
      refl,
      λ id other q. elim (Bool-cases (id == room_id)) [
        | inl same ↦
            let e : id ≡ room_id = ground arith in
            let q₁ = subst (λ k. lookup k (insert room_id entered cleared) ≡ some other) e q in
            let one : some entered ≡ some other = sym (insert_here room_id entered cleared) ∙ q₁ in
            let one₁ : entered ≡ other = cc one in
            connecting-waits user r.game_id other
              (subst (λ (y : Room). y.state ≡ connecting) one₁ refl)
        | inr apart ↦
            lookup-withdraw_others user r.game_id now room_id id rs apart
              (sym (insert_beside room_id id entered cleared apart) ∙ q)
      ],
    )

-- Who redeems a code waits nowhere else: after a join that is accepted, the user is a member of the
-- room that is entered, this room connects, and no room that a look-up finds is a waiting room of the
-- user for that game.
pub join_body-Elsewhere :
    (hash_token : Text → Text) (user : ℕ) (code : Text) (now : ℕ) (c : Cohort) (room_id : ℕ)
    (c' : Cohort)
    → join_body hash_token user code now c ≡ ok (room_id, c')
    → Elsewhere user room_id c'.database.rooms
unfolding joined_cohort
join_body-Elsewhere hash_token user code now c room_id c' run =
    let j = join_body-Joins hash_token user code now c run in
    let entered = joined user now connecting j.room in
    let rooms : c'.database.rooms
        ≡ insert room_id entered
            (withdraw_others user j.room.game_id now room_id c.database.rooms) =
      ap (λ (x : Cohort). x.database.rooms) j.leaves
      ∙ ap (λ id. insert id entered (withdraw_others user j.room.game_id now id c.database.rooms))
          j.names in
    subst (Elsewhere user room_id) (sym rooms)
      (entered-Elsewhere user now room_id j.room c.database.rooms)
