-- ===== src/Rooms/Grants.antt =====
-- Launch grants: `consume_launch_grant` of apps/server/src/routes/rooms.rs, and what the launch asks of
-- them.
use open_cade.Prelude.{
  subst, [], List, ◌∷◌, Bool-cases, some, ◌≡◌, ◌<◌, ℕ, inl, inr, arith, Bool, true, ◌||◌,
}
use open_cade.Prelude.Text.{Text, text_eq_sound}
use open_cade.Rooms.{LaunchGrant}
use open_cade.Rooms.Launch.{consume, is_consumable, is_authorized, is_grant_of}

pub is_consumable-hash :
    (hash : Text) (user now : ℕ) (g : LaunchGrant)
    → is_consumable hash user now g ≡ true
    → g.token_hash ≡ hash
unfolding is_consumable
is_consumable-hash hash user now g h = text_eq_sound g.token_hash hash (ground arith)

-- What a consumed grant stands for.
pub record Allows (hash : Text) (user now : ℕ) (gs : List LaunchGrant) (g : LaunchGrant)
    : Type 0 where
  pub carries : g.token_hash ≡ hash
  pub owned : g.local_user_id ≡ user
  pub in_time : now < g.grant_expires_at
  pub launches :
      (later : ℕ) → later < g.grant_expires_at → is_authorized g.room_id user later gs ≡ true

Allows-here :
    (hash : Text) (user now : ℕ) (gs : List LaunchGrant) (g : LaunchGrant)
    → is_consumable hash user now g ≡ true
    → Allows hash user now
        (record g { consumed_at = some now } ∷ gs)
        (record g { consumed_at = some now })
unfolding is_consumable is_authorized is_grant_of
Allows-here hash user now gs g h = record {
  carries = text_eq_sound g.token_hash hash (ground arith);
  owned = ground arith;
  in_time = ground arith;
  launches = λ later t. ground arith;
}

or_true : (b : Bool) → (b || true) ≡ true
or_true b = ground arith

Allows-there :
    (hash : Text) (user now : ℕ) (x : LaunchGrant) (gs : List LaunchGrant) (g : LaunchGrant)
    → Allows hash user now gs g
    → Allows hash user now (x ∷ gs) g
unfolding is_authorized
Allows-there hash user now x gs g h = record {
  carries = h.carries;
  owned = h.owned;
  in_time = h.in_time;
  launches = λ later t. rw (h.launches later t) (or_true _);
}

-- A grant that is consumed carries the token's hash, is the user's and had not run out; and in the
-- table that is left, until the grant runs out, its user is authorized to launch in its room.
pub consume-Allows :
    (hash : Text) (user now : ℕ) (gs : List LaunchGrant) (g : LaunchGrant)
    → (consume hash user now gs).1 ≡ some g
    → Allows hash user now (consume hash user now gs).0 g
unfolding consume
consume-Allows hash user now [] g e = cc
consume-Allows hash user now (x ∷ gs) g e = elim (Bool-cases (is_consumable hash user now x)) [
  | inl b ↦
      let e₁ = rw b at e in
      let used : LaunchGrant = record x { consumed_at = some now } in
      let same : used ≡ g = cc e₁ in
      rw b (subst (λ k. Allows hash user now (used ∷ gs) k) same (Allows-here hash user now gs x b))
  | inr b ↦
      let e₁ = rw b at e in
      rw b (Allows-there hash user now x _ g (consume-Allows hash user now gs g e₁))
]
