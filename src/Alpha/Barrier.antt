-- ===== src/Alpha/Barrier.antt =====
-- The launch barrier of alpha.rs stands only before two players whose preflights agree.
use open_cade.Rooms.Launch.{is_connecting, GrantRequest, grant_body}
use open_cade.Alpha.{
  text_eq, Preflight, Payload, Setup, submit_preflight, ready_to_launch, preflight_status,
  same_compatibility, rows, has_slot, mark_ready, count_ready, raise_barrier, published,
  validate_compatibility, lock_active_attempt, expected_player_slot,
}
use open_cade.Prelude.{
  ℕ, ◌+◌, ◌≤◌, ◌<◌, ◌≡◌, ◌≢◌, refl, ◌∙◌, arith, Bool, true, ◌||◌, ◌&&◌, not, ◌==◌, leb, Option,
  none, some, List, [], ◌∷◌, length, all, any, Bool-cases, inl, inr, if◌then◌else◌,
}
use open_cade.Prelude.Assoc.{Assoc, nat_eq, contains_key}
use open_cade.Prelude.Text.{Text}
use open_cade.Prelude.Outcome.{through_first, fail_if-ok}
use open_cade.Rooms.{ok, fail_if, Room, LaunchGrant, Endpoint}
use open_cade.Rooms.Lifecycle.{is_past}

-- Two rows of one compatibility, with free ports, connected controllers and the slots 1 and 2.
pub record Agreed (ps : List Preflight) : Type 0 where
  pub two : length ps ≡ 2
  pub same : same_compatibility ps ≡ true
  pub ports : all (λ (p : Preflight). p.native_port_available) ps ≡ true
  pub controllers : all (λ (p : Preflight). p.controller_connected) ps ≡ true
  pub first_slot : has_slot 1 ps ≡ true
  pub second_slot : has_slot 2 ps ≡ true

preflight_status-Agreed :
    (ps : List Preflight)
    → (preflight_status ps).matched ≡ true
    → (preflight_status ps).controllers_ready ≡ true
    → Agreed ps
unfolding preflight_status
preflight_status-Agreed ps matched ready = record {
  two = ground arith;
  same = ground arith;
  ports = ground arith;
  controllers = ground arith;
  first_slot = ground arith;
  second_slot = ground arith;
}

module _ (user : ℕ) where
  length-mark_ready : (m : Assoc ℕ Preflight) → length (rows (mark_ready user m)) ≡ length (rows m)
  unfolding mark_ready
  length-mark_ready [] = refl
  length-mark_ready ((member, p) ∷ rest) = ground (arith, length-mark_ready rest)

  all-mark_ready :
      (q : Preflight → Bool) (m : Assoc ℕ Preflight)
      → ((p : Preflight) → q (record p { ready = true }) ≡ q p)
      → all q (rows (mark_ready user m)) ≡ all q (rows m)
  unfolding mark_ready
  all-mark_ready q [] h = refl
  all-mark_ready q ((member, p) ∷ rest) h = ground (arith, h p, all-mark_ready q rest h)

  any-mark_ready :
      (q : Preflight → Bool) (m : Assoc ℕ Preflight)
      → ((p : Preflight) → q (record p { ready = true }) ≡ q p)
      → any q (rows (mark_ready user m)) ≡ any q (rows m)
  unfolding mark_ready
  any-mark_ready q [] h = refl
  any-mark_ready q ((member, p) ∷ rest) h = ground (arith, h p, any-mark_ready q rest h)

  -- Being ready changes nothing that is compared.
  same_compatibility-mark_ready :
      (m : Assoc ℕ Preflight)
      → same_compatibility (rows (mark_ready user m)) ≡ same_compatibility (rows m)
  unfolding mark_ready same_compatibility
  same_compatibility-mark_ready [] = refl
  same_compatibility-mark_ready ((j, p) ∷ []) = ground arith
  same_compatibility-mark_ready ((j, p) ∷ (k, q) ∷ []) = ground arith
  same_compatibility-mark_ready ((j, p) ∷ (k, q) ∷ (l, r) ∷ rest) = ground arith

  mark_ready-Agreed : (m : Assoc ℕ Preflight) → Agreed (rows m) → Agreed (rows (mark_ready user m))
  mark_ready-Agreed m h = record {
    two = length-mark_ready m ∙ h.two;
    same = same_compatibility-mark_ready m ∙ h.same;
    ports = all-mark_ready (λ p. p.native_port_available) m (λ p. refl) ∙ h.ports;
    controllers = all-mark_ready (λ p. p.controller_connected) m (λ p. refl) ∙ h.controllers;
    first_slot = any-mark_ready (λ p. p.player_slot == 1) m (λ p. refl) ∙ h.first_slot;
    second_slot = any-mark_ready (λ p. p.player_slot == 2) m (λ p. refl) ∙ h.second_slot;
  }

-- Where there is a barrier both are ready and agree.
abbrev Armed : Option ℕ → Assoc ℕ Preflight → Type 0
Armed none m = Unit
Armed (some launch_at) m = Agreed (rows m) × (count_ready (rows m) ≡ 2)

-- What a request makes of a setup; other requests change the room alone.
pub data SetupStep (show_uuid : ℕ → Text) (s : Setup) : Setup → Type 0 where
  submits :
      {s' : Setup} (room_id user now : ℕ) (p : Payload)
      → submit_preflight show_uuid room_id user now p s ≡ ok s'
      → SetupStep show_uuid s s'
  readies :
      {s' : Setup} (user now : ℕ) → ready_to_launch user now s ≡ ok s' → SetupStep show_uuid s s'
  moves : (r : Room) → SetupStep show_uuid s (record s { room = r })

-- From a room without preflights on.
pub data SetUp (show_uuid : ℕ → Text) : Setup → Type 0 where
  bare : (r : Room) → SetUp show_uuid (record { room = r; preflights = []; launch_at = none })
  next : {s s' : Setup} → SetUp show_uuid s → SetupStep show_uuid s s' → SetUp show_uuid s'

submit_preflight-none :
    (show_uuid : ℕ → Text) (room_id user now : ℕ) (p : Payload) (s : Setup) {s' : Setup}
    → submit_preflight show_uuid room_id user now p s ≡ ok s'
    → s'.launch_at ≡ none
unfolding submit_preflight
submit_preflight-none show_uuid room_id user now p s run =
    let (_, e, h) =
      through_first (fail_if (not (text_eq p.room_text (show_uuid room_id))) _) _ run in
    let (_, e₁, h₁) = through_first (validate_compatibility p.compatibility) _ h in
    let (_, e₂, h₂) = through_first (lock_active_attempt user now s.room) _ h₁ in
    let (_, e₃, h₃) =
      through_first (fail_if (not (p.player_slot == expected_player_slot user s.room)) _) _ h₂ in
    cc

-- What `ready_to_launch` asks for and writes.
pub record Readied (user now : ℕ) (s s' : Setup) : Type 0 where
  pub agreed : Agreed (rows s.preflights)
  pub marked : s'.preflights ≡ mark_ready user s.preflights
  pub barrier : s'.launch_at ≡ (
      if count_ready (rows (mark_ready user s.preflights)) == 2
      then raise_barrier now s.launch_at
      else s.launch_at)

ready_to_launch-Readied :
    (user now : ℕ) (s : Setup) {s' : Setup}
    → ready_to_launch user now s ≡ ok s'
    → Readied user now s s'
unfolding ready_to_launch
ready_to_launch-Readied user now s {s' = s'} run =
    let status = preflight_status (rows s.preflights) in
    let (_, e, h) = through_first (lock_active_attempt user now s.room) _ run in
    let (_, e₁, h₁) =
      through_first
        (fail_if (not (status.count == 2) || not status.matched || not status.controllers_ready) _)
        _ h in
    let q =
      fail_if-ok (not (status.count == 2) || not status.matched || not status.controllers_ready) _
        e₁ in
    record {
      agreed = preflight_status-Agreed (rows s.preflights) (ground arith) (ground arith);
      marked = cc;
      barrier = cc;
    }

count_ready-le : (ps : List Preflight) → count_ready ps ≤ length ps
unfolding count_ready
count_ready-le [] = omega arith
count_ready-le (p ∷ rest) = ground (arith, count_ready-le rest)

count_ready-mark_ready-le :
    (user : ℕ) (m : Assoc ℕ Preflight)
    → count_ready (rows m) ≤ count_ready (rows (mark_ready user m))
unfolding count_ready mark_ready
count_ready-mark_ready-le user [] = omega arith
count_ready-mark_ready-le user ((member, p) ∷ rest) =
    ground (arith, count_ready-mark_ready-le user rest)

raised-Armed :
    (now : ℕ) (o : Option ℕ) (m : Assoc ℕ Preflight)
    → Agreed (rows m)
    → count_ready (rows m) ≡ 2
    → Armed (raise_barrier now o) m
unfolding raise_barrier
raised-Armed now none m a c = (a, c)
raised-Armed now (some launch_at) m a c = elim (Bool-cases (leb launch_at now)) [
  | inl past ↦ rw (past, raise_barrier) (a, c)
  | inr ahead ↦ rw (ahead, raise_barrier) (a, c)
]

readied :
    (user now : ℕ) (o : Option ℕ) (m : Assoc ℕ Preflight)
    → Agreed (rows m)
    → Armed o m
    → Armed
        (if count_ready (rows (mark_ready user m)) == 2 then raise_barrier now o else o)
        (mark_ready user m)
readied user now o m a h = elim (Bool-cases (count_ready (rows (mark_ready user m)) == 2)) [
  | inl both ↦
      rw both (raised-Armed now o (mark_ready user m) (mark_ready-Agreed user m a) (ground arith))
  | inr one ↦ rw one (still o h)
]
  where
    still : (o : Option ℕ) → Armed o m → Armed o (mark_ready user m)
    still none h = h
    still (some launch_at) (b, c) = (
      mark_ready-Agreed user m a,
      omega (
        arith,
        count_ready-mark_ready-le user m,
        count_ready-le (rows (mark_ready user m)),
        length-mark_ready user m,
        a.two,
      ),
    )

step-Armed :
    (show_uuid : ℕ → Text) {s s' : Setup}
    → SetupStep show_uuid s s'
    → Armed s.launch_at s.preflights
    → Armed s'.launch_at s'.preflights
step-Armed show_uuid {s} {s'} (submits room_id user now p run) h =
    rw (submit_preflight-none show_uuid room_id user now p s run) tt
step-Armed show_uuid {s} {s'} (readies user now run) h =
    let r = ready_to_launch-Readied user now s run in
    rw (r.barrier, r.marked) (readied user now s.launch_at s.preflights r.agreed h)
step-Armed show_uuid (moves r) h = h

SetUp-Armed :
    (show_uuid : ℕ → Text) {s : Setup} → SetUp show_uuid s → Armed s.launch_at s.preflights
SetUp-Armed show_uuid (bare r) = tt
SetUp-Armed show_uuid (next before step) = step-Armed show_uuid step (SetUp-Armed show_uuid before)

past_barrier : (o : Option ℕ) (now : ℕ) → is_past o now ≡ true → (d : ℕ) × (o ≡ some d) × (d ≤ now)
past_barrier none now h = cc
past_barrier (some d) now h = (d, refl, ground arith)

-- In campaign mode a launch grant is handed out only when both players have said they are ready, the
-- barrier's time has come, and their preflights, as they stand, agree: one compatibility, free ports,
-- connected controllers, and the slots 1 and 2. This holds in every setup that preflights and ready
-- messages reach, in any order and with any other changes of the room between them.
pub grant_body-Agreed :
    (show_uuid : ℕ → Text) (s : Setup) (hash : Text) (user id now : ℕ) (a b : Endpoint)
    (request : GrantRequest) (g : LaunchGrant)
    → SetUp show_uuid s
    → request.campaign_mode ≡ true
    → grant_body hash user id now a b request (published s) ≡ ok g
    → Agreed (rows s.preflights)
      × (count_ready (rows s.preflights) ≡ 2)
      × ((d : ℕ) × (s.launch_at ≡ some d) × (d ≤ now))
unfolding grant_body published
grant_body-Agreed show_uuid s hash user id now a b request g reached campaign run =
    let waiting_for =
      request.campaign_mode
      && not (is_past s.launch_at now && count_ready (rows s.preflights) == 2) in
    let (_, e, h) = through_first (fail_if (not (is_connecting s.room.state)) _) _ run in
    let (_, e₁, h₁) = through_first (fail_if waiting_for _) _ h in
    let q = fail_if-ok waiting_for _ e₁ in
    let (d, there, past) = past_barrier s.launch_at now (ground arith) in
    let armed = rw there at (SetUp-Armed show_uuid reached) in (armed.0, armed.1, (d, there, past))

abbrev is_ready_row : Preflight → Bool
is_ready_row p = p.ready

-- With every port free, the row of the user is ready afterwards, and the others stay as they were.
mark_both :
    (a b : ℕ) (m : Assoc ℕ Preflight)
    → a ≢ b
    → contains_key a m ≡ true
    → contains_key b m ≡ true
    → Agreed (rows m)
    → count_ready (rows (mark_ready b (mark_ready a m))) ≡ 2
unfolding mark_ready count_ready contains_key
mark_both a b [] apart ha hb h = absurd (omega (arith, h.two))
mark_both a b ((j, p) ∷ []) apart ha hb h = absurd (omega (arith, h.two))
mark_both a b ((j, p) ∷ (k, q) ∷ []) apart ha hb h =
    let ports = h.ports in
    let free : p.native_port_available ≡ true = ground arith in
    let free₁ : q.native_port_available ≡ true = ground arith in ground (arith, free, free₁)
mark_both a b ((j, p) ∷ (k, q) ∷ (l, r) ∷ rest) apart ha hb h = absurd (omega (arith, h.two))

raise_barrier-ahead :
    (now : ℕ) (o : Option ℕ) → (d : ℕ) × (raise_barrier now o ≡ some d) × (now < d)
unfolding raise_barrier
raise_barrier-ahead now none = (now + 5, refl, omega arith)
raise_barrier-ahead now (some launch_at) = elim (Bool-cases (leb launch_at now)) [
  | inl past ↦ rw (past, raise_barrier) (now + 5, refl, omega arith)
  | inr ahead ↦ rw (ahead, raise_barrier) (launch_at, refl, ground arith)
]

-- Once both players of a room, who are two and have sent a preflight each, have said that they are
-- ready, one after the other and both accepted, the barrier stands at a time that is still to come.
pub ready_to_launch-barrier :
    (a b now later : ℕ) (s s₁ s₂ : Setup)
    → a ≢ b
    → contains_key a s.preflights ≡ true
    → contains_key b s.preflights ≡ true
    → ready_to_launch a now s ≡ ok s₁
    → ready_to_launch b later s₁ ≡ ok s₂
    → (d : ℕ) × (s₂.launch_at ≡ some d) × (later < d) × (count_ready (rows s₂.preflights) ≡ 2)
ready_to_launch-barrier a b now later s s₁ s₂ apart ha hb run run₁ =
    let one = ready_to_launch-Readied a now s run in
    let two = ready_to_launch-Readied b later s₁ run₁ in
    let both : count_ready (rows (mark_ready b s₁.preflights)) ≡ 2 =
      rw one.marked (mark_both a b s.preflights apart ha hb one.agreed) in
    let raised : (count_ready (rows (mark_ready b s₁.preflights)) == 2) ≡ true = ground arith in
    let (d, e, ahead) = raise_barrier-ahead later s₁.launch_at in
    (d, two.barrier ∙ rw (raised, e) refl, ahead, rw two.marked both)
