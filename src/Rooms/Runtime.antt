-- ===== src/Rooms/Runtime.antt =====
-- A launch keeps a room consistent: `confirm_native_launch` of apps/server/src/routes/rooms.rs.
use open_cade.Rooms.Inversion.{Begins, playing_room, put, fresh}
use open_cade.Prelude.{
  sym, subst, ◌∙◌, List, none, ◌≡◌, ◌≢◌, ◌⊎◌, refl, ℕ, inl, inr, arith, true, length, ◌||◌,
}
use open_cade.Prelude.Assoc.{lookup, contains_key-some, nat_eq}
use open_cade.Protocol.{RoomState, connecting, playing}
use open_cade.Rooms.{Room, LaunchGrant, ok, is_member}
use open_cade.Rooms.Launch.{launch_body, entered, is_connecting, is_playing}
use open_cade.Rooms.Invariant.{IsConsistent, Within, Distinct, Covers}
use open_cade.Rooms.Participants.{Within-insert, Distinct-insert, Covers-pigeonhole, Covers-member}
use open_cade.Rooms.Inversion.{launch_body-eq, begin_play-eq, Begins, playing_room}
use open_cade.Rooms.{active}

-- Before the match starts.
launched-IsConsistent :
    (user : ℕ) (r : Room)
    → r.state ≡ connecting
    → is_member user r ≡ true
    → IsConsistent r
    → IsConsistent (put user fresh r)
launched-IsConsistent user r s i h =
    let (within, distinct) : Within r.members r.participants × Distinct r.participants =
      rw s at h.launches in
    record {
      two_players = h.two_players;
      host_inside = h.host_inside;
      tracks = h.tracks;
      seats = h.seats;
      launches = rw s (
        Within-insert r.members user fresh r.participants i within,
        Distinct-insert user fresh r.participants distinct,
      );
      due = h.due;
    }

playing_room-IsConsistent :
    (user now : ℕ) (r r' : Room)
    → Begins user now r r'
    → IsConsistent r
    → IsConsistent (playing_room user now r)
unfolding playing_room
playing_room-IsConsistent user now r r' b h =
    let (within, distinct) : Within r.members r.participants × Distinct r.participants =
      rw b.connects at h.launches in
    let pair : length r.participants ≡ 2 = b.both ∙ b.two_inside in
    let running : r.attempt.attempt_state ≡ active = rw b.connects at h.tracks in
    record {
      two_players = h.two_players;
      host_inside = h.host_inside;
      tracks = ground arith;
      seats = b.two_inside;
      launches =
          (pair, Covers-pigeonhole r.members r.participants b.two_inside pair within distinct);
      due = (_, refl);
    }

-- In a match every member has launched, so another launch is none.
playing_absent :
    (user : ℕ) (r : Room)
    → r.state ≡ playing
    → is_member user r ≡ true
    → IsConsistent r
    → lookup user r.participants ≢ none
playing_absent user r s i h =
    let both : (length r.participants ≡ 2) × Covers r.participants r.members = rw s at h.launches in
    contains_key-some user r.participants (Covers-member user r.participants r.members both.1 i)

on_cases :
    (s : RoomState) → (is_connecting s || is_playing s) ≡ true → (s ≡ connecting) ⊎ (s ≡ playing)
on_cases s h = ground arith

-- A launch that is let through leaves a consistent room consistent: if it starts the match, both
-- members have launched.
pub launch_body-IsConsistent :
    (user id now : ℕ) (gs : List LaunchGrant) (r r' : Room)
    → launch_body user id now gs r ≡ ok (entered r')
    → IsConsistent r
    → IsConsistent r'
launch_body-IsConsistent user id now gs r r' e h =
    let l = launch_body-eq user id now gs r r' e in
    elim (on_cases r.state l.on) [
      | inr plays ↦ absurd (playing_absent user r plays l.inside h l.absent)
      | inl connects ↦
          let h₁ = launched-IsConsistent user r connects l.inside h in
          elim (begin_play-eq user now (put user fresh r) r' l.plays) [
            | inl same ↦ subst IsConsistent (sym same) h₁
            | inr b ↦
                subst IsConsistent (sym b.to)
                  (playing_room-IsConsistent user now (put user fresh r) r' b h₁)
          ]
    ]
