-- ===== src/Alpha/Invites/Tests.antt =====
-- The invites of alpha.rs at concrete inputs: user 1 waits in room 1 and invites user 2, who waits in
-- room 2. A hash is the code itself.
use open_cade.Alpha.Invites.{Invite, Cohort, join_body, join_invite, joined_cohort, read_code}
use open_cade.Alpha.Invites.Joined.{join_invite-Consistent, join_body-Elsewhere, Elsewhere}
use open_cade.Alpha.Invites.Redeemed.{Cohorts, start, redeems, join_invite-once}
use open_cade.Prelude.{ℕ, ◌≡◌, refl, [], ◌∷◌, none}
use open_cade.Prelude.Assoc.{nat_eq, text_eq_instance, lookup}
use open_cade.Prelude.Text.{Text, codes, text_eq, is_blank}
use open_cade.Protocol.{connecting}
use open_cade.RoomState.{transition}
use open_cade.Rooms.{Room, ok, err, not_found, forbidden}
use open_cade.Rooms.Lifecycle.{new_room}
use open_cade.Rooms.Preserved.{new_room-IsConsistent}
use open_cade.Rooms.Whole.{Consistent}

abbrev same_text : Text → Text
same_text text = text

abbrev code : Text
code = codes "ABCDEF0123"

abbrev invite : Invite
invite = record {
  invite_room = 1;
  created_by = 1;
  invite_expires_at = 900;
  invite_consumed_at = none;
  consumed_by = none;
}

abbrev waiting_of : ℕ → Room
waiting_of user = new_room user (codes "game") 2 0

abbrev cohort : Cohort
cohort = record {
  database = record {
    rooms = (1, waiting_of 1) ∷ (2, waiting_of 2) ∷ [];
    grants = [];
    rooms_created = 2;
    notices = [];
  };
  invites = (code, invite) ∷ [];
}

read_padded : read_code (codes "  abcdef0123 ") ≡ code
unfolding read_code is_blank
read_padded = refl

cohort-Consistent : Consistent cohort.database
cohort-Consistent =
    (new_room-IsConsistent 1 (codes "game") 0, (new_room-IsConsistent 2 (codes "game") 0, tt))

own_invite : join_body same_text 1 code 10 cohort ≡ err forbidden
unfolding join_body lookup text_eq new_room
own_invite = refl

abbrev after : Cohort
after = joined_cohort code 2 10 connecting invite (waiting_of 1) cohort

joins : join_body same_text 2 code 10 cohort ≡ ok (1, after)
unfolding join_body lookup text_eq new_room transition
joins = refl

join_invite-Consistent_example :
    Consistent (join_invite same_text 2 (codes "  abcdef0123 ") 10 cohort).0.database
join_invite-Consistent_example =
    join_invite-Consistent same_text 2 (codes "  abcdef0123 ") 10 cohort cohort-Consistent

join_body-Elsewhere_example : Elsewhere 2 1 after.database.rooms
join_body-Elsewhere_example = join_body-Elsewhere same_text 2 code 10 cohort 1 after joins

abbrev retried : Cohort
retried = (join_invite same_text 3 code 20 after).0

retried_reached : Cohorts same_text after retried
retried_reached = redeems 3 code 20 start

join_invite-once_example :
    join_invite same_text 4 (codes "  abcdef0123 ") 30 retried ≡ (retried, err not_found)
join_invite-once_example =
    join_invite-once same_text 2 4 10 30 code (codes "  abcdef0123 ") cohort after retried 1 joins
      retried_reached read_padded
