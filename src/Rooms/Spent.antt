-- ===== src/Rooms/Spent.antt =====
-- A launch token is used once, whatever happens to the grants of apps/server/src/routes/rooms.rs in
-- between.
use open_cade.Prelude.{
  All, sym, subst, [], List, ◌∷◌, Bool-cases, Option-cases, none, some, Option, ◌≡◌, ◌⊎◌, refl, ℕ,
  inl, inr, arith, Bool, false, ◌||◌, ◌&&◌, not, retain, ltb, length, ◌==◌,
}
use open_cade.Prelude.Assoc.{lookup, insert, nat_eq}
use open_cade.Prelude.Text.{Text, text_eq, text_eq_iff}
use open_cade.Prelude.Outcome.{through_first, Outcome-cases}
use open_cade.Rooms.{
  LaunchGrant, Database, Result, Room, Endpoint, ok, err, unauthorized, fail_if, conflict,
  notify_room_state, room_payload,
}
use open_cade.Rooms.Transact.{tell_all-rooms}
use open_cade.Rooms.Launch.{
  consume, is_consumable, is_grant_of, GrantRequest, grant_body, store_grant, grant_at,
  create_launch_grant, consume_launch_grant, launch_body, again, entered, confirm_native_launch,
  is_connecting, or_unauthorized, find_peer, or_forbidden,
}
use open_cade.Rooms.Grants.{is_consumable-hash}
use open_cade.Rooms.Lifecycle.{is_past}

-- `token_hash` is the primary key of `match_launch_grants`.
abbrev pub Unique : List LaunchGrant → Type 0
Unique [] = Unit
Unique (g ∷ gs) = All (λ h. text_eq h.token_hash g.token_hash ≡ false) gs × Unique gs

-- No grant of the hash is left that could be consumed.
abbrev Spent : Text → List LaunchGrant → Type 0
Spent hash gs =
    All
      (λ (g : LaunchGrant).
        (text_eq g.token_hash hash ≡ false) ⊎ ((t : ℕ) × (g.consumed_at ≡ some t)))
      gs

distinct-Spent :
    (hash : Text) (gs : List LaunchGrant)
    → All (λ (g : LaunchGrant). text_eq g.token_hash hash ≡ false) gs
    → Spent hash gs
distinct-Spent hash [] h = tt
distinct-Spent hash (g ∷ gs) h = (inl h.0, distinct-Spent hash gs h.1)

-- The grant that is consumed carries the token, so another hash is not its.
consumed-apart :
    (hash key : Text) (user now : ℕ) (gs : List LaunchGrant) {g : LaunchGrant}
    → All (λ (h : LaunchGrant). text_eq h.token_hash key ≡ false) gs
    → (consume hash user now gs).1 ≡ some g
    → text_eq key hash ≡ false
unfolding consume
consumed-apart hash key user now [] h e = cc
consumed-apart hash key user now (x ∷ gs) h e = elim (Bool-cases (is_consumable hash user now x)) [
  | inl b ↦
      let same = is_consumable-hash hash user now x b in
      let other = subst (λ k. text_eq k key ≡ false) same h.0 in
      ground (arith, text_eq_iff key hash, text_eq_iff hash key)
  | inr b ↦ let e₁ = rw b at e in consumed-apart hash key user now gs h.1 e₁
]

consume-Spent :
    (hash : Text) (user now : ℕ) (gs : List LaunchGrant) {g : LaunchGrant}
    → Unique gs
    → (consume hash user now gs).1 ≡ some g
    → Spent hash (consume hash user now gs).0
unfolding consume
consume-Spent hash user now [] u e = cc
consume-Spent hash user now (x ∷ gs) u e = elim (Bool-cases (is_consumable hash user now x)) [
  | inl b ↦
      let same = is_consumable-hash hash user now x b in
      let others =
        subst (λ k. All (λ (h : LaunchGrant). text_eq h.token_hash k ≡ false) gs) same u.0 in
      rw b (inr (now, refl), distinct-Spent hash gs others)
  | inr b ↦
      let e₁ = rw b at e in
      rw b (
        inl (consumed-apart hash x.token_hash user now gs u.0 e₁),
        consume-Spent hash user now gs u.1 e₁,
      )
]

consume-still :
    (hash other : Text) (user now : ℕ) (gs : List LaunchGrant)
    → Spent hash gs
    → Spent hash (consume other user now gs).0
unfolding consume
consume-still hash other user now [] h = tt
consume-still hash other user now (x ∷ gs) h = elim (Bool-cases (is_consumable other user now x)) [
  | inl b ↦ rw b (inr (now, refl), h.1)
  | inr b ↦ rw b (h.0, consume-still hash other user now gs h.1)
]

retain-still :
    (hash : Text) (kept : LaunchGrant → Bool) (gs : List LaunchGrant)
    → Spent hash gs
    → Spent hash (retain kept gs)
retain-still hash kept [] h = tt
retain-still hash kept (g ∷ gs) h = elim (Bool-cases (kept g)) [
  | inl b ↦ rw b (h.0, retain-still hash kept gs h.1)
  | inr b ↦ rw b (retain-still hash kept gs h.1)
]

spent-refused :
    (hash : Text) (user now : ℕ) (g : LaunchGrant)
    → (text_eq g.token_hash hash ≡ false) ⊎ ((t : ℕ) × (g.consumed_at ≡ some t))
    → is_consumable hash user now g ≡ false
unfolding is_consumable
spent-refused hash user now g h = ground arith

consume-refused :
    (hash : Text) (user now : ℕ) (gs : List LaunchGrant)
    → Spent hash gs
    → consume hash user now gs ≡ (gs, none)
unfolding consume
consume-refused hash user now [] h = refl
consume-refused hash user now (g ∷ gs) h =
    rw (spent-refused hash user now g h.0, consume-refused hash user now gs h.1) refl

grant_body-hash :
    (hash : Text) (user id now : ℕ) (a b : Endpoint) (request : GrantRequest) (r : Room)
    {g : LaunchGrant}
    → grant_body hash user id now a b request r ≡ ok g
    → g.token_hash ≡ hash
unfolding grant_body
grant_body-hash hash user id now a b request r run =
    let (_, e, h) = through_first (fail_if (not (is_connecting r.state)) conflict) _ run in
    let (_, e₁, h₁) =
      through_first
        (fail_if
          (request.campaign_mode
            && not (is_past r.barrier_launch_at now && r.ready_preflights == 2))
          conflict)
        _ h in
    let (peer, e₂, h₂) = through_first (or_forbidden (find_peer user r)) _ h₁ in cc

module _ (hash : Text) where
  store_grant-Spent :
      (new : Text) (user id now : ℕ) (a b : Endpoint) (request : GrantRequest) (db : Database)
      (r : Room)
      → text_eq new hash ≡ false
      → Spent hash db.grants
      → Spent hash (store_grant db id now r (grant_body new user id now a b request r)).0.grants
  unfolding store_grant
  store_grant-Spent new user id now a b request db r apart h =
      elim (Outcome-cases (grant_body new user id now a b request r)) [
        | inr (e, q) ↦ rw q h
        | inl (g, q) ↦
            let its = grant_body-hash new user id now a b request r q in
            rw q (inl (subst (λ k. text_eq k hash ≡ false) (sym its) apart), h)
      ]

  grant_at-Spent :
      (new : Text) (user id now : ℕ) (request : GrantRequest) (db : Database)
      (endpoints : Result (Endpoint × Endpoint))
      → text_eq new hash ≡ false
      → Spent hash db.grants
      → Spent hash (grant_at new user id now request db endpoints).0.grants
  unfolding grant_at
  grant_at-Spent new user id now request db (err e) apart h = h
  grant_at-Spent new user id now request db (ok (a, b)) apart h =
      elim (Option-cases (lookup id db.rooms)) [
        | inl q ↦ rw (q, grant_at) h
        | inr (r, q) ↦ rw (q, grant_at) (store_grant-Spent new user id now a b request db r apart h)
      ]

  consume_launch_grant-Spent :
      (hash_token : Text → Text) (grant : Text) (user now : ℕ) (db : Database)
      → Spent hash db.grants
      → Spent hash (consume_launch_grant hash_token grant user now db).0.grants
  unfolding consume_launch_grant
  consume_launch_grant-Spent hash_token grant user now db h =
      elim (Bool-cases (ltb (length grant) 32 || ltb 256 (length grant))) [
        | inl bad ↦ rw bad h
        | inr good ↦ rw good (consume-still hash (hash_token grant) user now db.grants h)
      ]

  confirm_native_launch-Spent :
      (user id now : ℕ) (db : Database)
      → Spent hash db.grants
      → Spent hash (confirm_native_launch user id now db).0.grants
  unfolding confirm_native_launch notify_room_state
  confirm_native_launch-Spent user id now db h = elim (Option-cases (lookup id db.rooms)) [
    | inl q ↦ rw (q, confirm_native_launch) h
    | inr (r, q) ↦ elim (Outcome-cases (launch_body user id now db.grants r)) [
      | inr (e, o) ↦ rw (q, confirm_native_launch, o) h
      | inl (again, o) ↦
          rw (q, confirm_native_launch, o)
            (subst (Spent hash) (sym (tell_all-rooms (room_payload db id user) id db).1) h)
      | inl (entered r', o) ↦
          let left : Database = record db {
            rooms = insert id r' db.rooms;
            grants = retain (λ g. not (is_grant_of id user g)) db.grants;
          } in
          rw (q, confirm_native_launch, o)
            (subst (Spent hash) (sym (tell_all-rooms (room_payload left id user) id left).1)
              (retain-still hash _ db.grants h))
    ]
  ]

-- Requests of any users, in any order. A new grant is of a fresh token, whose hash is not `hash`, and
-- whatever else is served leaves the grants as they are.
pub data Granted (hash : Text) (db : Database) : Database → Type 0 where
  start : Granted hash db db
  stores :
      {db' : Database} (new : Text) (user id now : ℕ) (request : GrantRequest)
      → Granted hash db db'
      → text_eq new hash ≡ false
      → Granted hash db (create_launch_grant new user id now request db').0
  consumes :
      {db' : Database} (hash_token : Text → Text) (grant : Text) (user now : ℕ)
      → Granted hash db db'
      → Granted hash db (consume_launch_grant hash_token grant user now db').0
  launches :
      {db' : Database} (user id now : ℕ)
      → Granted hash db db'
      → Granted hash db (confirm_native_launch user id now db').0
  others :
      {db' db'' : Database} → Granted hash db db' → db''.grants ≡ db'.grants → Granted hash db db''

Granted-Spent :
    (hash : Text) {db db' : Database}
    → Granted hash db db'
    → Spent hash db.grants
    → Spent hash db'.grants
unfolding create_launch_grant
Granted-Spent hash start h = h
Granted-Spent hash (stores {db' = db'} new user id now request before apart) h =
    grant_at-Spent hash new user id now request db' _ apart (Granted-Spent hash before h)
Granted-Spent hash (consumes {db' = db'} hash_token grant user now before) h =
    consume_launch_grant-Spent hash hash_token grant user now db' (Granted-Spent hash before h)
Granted-Spent hash (launches {db' = db'} user id now before) h =
    confirm_native_launch-Spent hash user id now db' (Granted-Spent hash before h)
Granted-Spent hash (others before same) h =
    subst (Spent hash) (sym same) (Granted-Spent hash before h)

or_unauthorized-ok :
    (o : Option LaunchGrant) {g : LaunchGrant} → or_unauthorized o ≡ ok g → o ≡ some g
or_unauthorized-ok none h = cc
or_unauthorized-ok (some g) h = cc

-- A launch token is consumed once. No two grants of the table share a hash, and a token was consumed:
-- then, after any requests of any users that store grants of other tokens, consume grants, launch and
-- so delete grants, or leave the grants alone, whoever sends the token again, at any time, is
-- unauthorized, and the grants stay as they are.
pub consume_launch_grant-once :
    (hash_token : Text → Text) (grant : Text) (user other now later : ℕ) (db db' : Database)
    (g : LaunchGrant)
    → Unique db.grants
    → (consume_launch_grant hash_token grant user now db).1 ≡ ok g
    → Granted (hash_token grant) (consume_launch_grant hash_token grant user now db).0 db'
    → ((consume_launch_grant hash_token grant other later db').1 ≡ err unauthorized)
      × ((consume_launch_grant hash_token grant other later db').0.grants ≡ db'.grants)
unfolding consume_launch_grant
consume_launch_grant-once hash_token grant user other now later db db' g unique run since =
    elim (Bool-cases (ltb (length grant) 32 || ltb 256 (length grant))) [
      | inl bad ↦ let run₁ = rw bad at run in cc
      | inr good ↦
          let run₁ = rw good at run in
          let found = or_unauthorized-ok _ run₁ in
          let spent = consume-Spent (hash_token grant) user now db.grants unique found in
          let first : Spent (hash_token grant)
              (consume_launch_grant hash_token grant user now db).0.grants =
            rw (consume_launch_grant, good) spent in
          let refused =
            consume-refused (hash_token grant) other later db'.grants
              (Granted-Spent (hash_token grant) since first) in
          rw (consume_launch_grant, good, refused) (refl, refl)
    ]
