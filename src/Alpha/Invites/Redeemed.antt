-- ===== src/Alpha/Invites/Redeemed.antt =====
-- A code of alpha.rs is redeemed once.
use open_cade.Alpha.Invites.{
  invite_ttl_minutes, Invite, Cohort, Issued, only_open, is_code, is_some, is_hosting, consumed,
  joined_cohort, join_body, join_invite, create_invite, read_code, to_ascii_uppercase,
}
use open_cade.Alpha.Invites.Joined.{join_body-Joins}
use open_cade.Prelude.{
  ℕ, ◌+◌, ◌*◌, ◌≡◌, ◌≢◌, refl, sym, subst, ◌∙◌, arith, true, false, not, Option, none, some, inl,
  inr, take,
}
use open_cade.Prelude.Assoc.{Assoc, text_eq_instance, nat_eq, lookup, insert, lookup-insert}
use open_cade.Prelude.Text.{Text, text_eq_iff}
use open_cade.Prelude.Outcome.{through_first, fail_if-ok, Outcome-cases}
use open_cade.Rooms.{ok, err, fail_if, bad_request, not_found, internal, forbidden}

-- The row of a hash, which has been used.
abbrev pub Used : Text → Assoc Text Invite → Type 0
Used hash invites =
    (i : Invite) × (lookup hash invites ≡ some i) × (t : ℕ) × (i.invite_consumed_at ≡ some t)

-- Requests of any users, in any order.
pub data Cohorts (hash_token : Text → Text) (c : Cohort) : Cohort → Type 0 where
  start : Cohorts hash_token c c
  invites :
      {c' : Cohort} {made : Issued} (uuid : Text) (user room_id now : ℕ)
      → Cohorts hash_token c c'
      → create_invite hash_token uuid user room_id now c' ≡ ok made
      → Cohorts hash_token c made.issued_cohort
  redeems :
      {c' : Cohort} (user : ℕ) (text : Text) (now : ℕ)
      → Cohorts hash_token c c'
      → Cohorts hash_token c (join_invite hash_token user text now c').0

insert_keeps :
    (hash other : Text) (i : Invite) (rows : Assoc Text Invite)
    → hash ≢ other
    → lookup hash (insert other i rows) ≡ lookup hash rows
insert_keeps hash other i rows apart =
    ground (arith, lookup-insert other hash i rows, text_eq_iff other hash)

insert_sets :
    (hash : Text) (i : Invite) (rows : Assoc Text Invite)
    → lookup hash (insert hash i rows) ≡ some i
insert_sets hash i rows = ground (arith, lookup-insert hash hash i rows, text_eq_iff hash hash)

keeps-Used :
    (hash other : Text) (i : Invite) (rows : Assoc Text Invite)
    → hash ≢ other
    → Used hash rows
    → Used hash (insert other i rows)
keeps-Used hash other i rows apart (j, there, t, used) =
    (j, insert_keeps hash other i rows apart ∙ there, t, used)

-- A hash of a used row is none of a free one.
free-apart :
    (hash other : Text) (rows : Assoc Text Invite)
    → Used hash rows
    → lookup other rows ≡ none
    → hash ≢ other
free-apart hash other rows (i, there, t, used) free same =
    let there₁ = subst (λ h. lookup h rows ≡ some i) same there in cc

open-apart :
    (hash other : Text) (rows : Assoc Text Invite) (j : Invite)
    → Used hash rows
    → lookup other rows ≡ some j
    → j.invite_consumed_at ≡ none
    → hash ≢ other
open-apart hash other rows j (i, there, t, used) listed fresh same =
    let there₁ = subst (λ h. lookup h rows ≡ some i) same there in
    let one : i ≡ j = cc in
    let used₁ = subst (λ (x : Invite). x.invite_consumed_at ≡ some t) one used in cc

not_some : {A : Type 0} (o : Option A) → is_some o ≡ false → o ≡ none
not_some none h = refl
not_some (some a) h = cc

create_invite-Used :
    (hash_token : Text → Text) (uuid : Text) (user room_id now : ℕ) (c : Cohort) {made : Issued}
    (hash : Text)
    → create_invite hash_token uuid user room_id now c ≡ ok made
    → Used hash c.invites
    → Used hash made.issued_cohort.invites
unfolding create_invite
create_invite-Used hash_token uuid user room_id now c {made} hash run h =
    let other = hash_token (to_ascii_uppercase (take 10 uuid)) in
    let (_, e, h₁) =
      through_first (fail_if (not (is_hosting user (lookup room_id c.database.rooms))) forbidden) _
        run in
    let (_, e₁, h₂) = through_first (fail_if (is_some (lookup other c.invites)) internal) _ h₁ in
    let free = not_some (lookup other c.invites) (fail_if-ok _ _ e₁) in
    let row : Invite = record {
      invite_room = room_id;
      created_by = user;
      invite_expires_at = now + invite_ttl_minutes * 60;
      invite_consumed_at = none;
      consumed_by = none;
    } in
    let rows : insert other row c.invites ≡ made.issued_cohort.invites = cc h₂ in
    subst (Used hash) rows
      (keeps-Used hash other row c.invites (free-apart hash other c.invites h free) h)

join_invite-Used :
    (hash_token : Text → Text) (user : ℕ) (text : Text) (now : ℕ) (c : Cohort) (hash : Text)
    → Used hash c.invites
    → Used hash (join_invite hash_token user text now c).0.invites
unfolding join_invite joined_cohort
join_invite-Used hash_token user text now c hash h =
    elim (Outcome-cases (join_body hash_token user (read_code text) now c)) [
      | inr (e, q) ↦ rw (join_invite, q) h
      | inl ((room_id, c'), q) ↦
          let j = join_body-Joins hash_token user (read_code text) now c q in
          let other = hash_token (read_code text) in
          let apart = open-apart hash other c.invites j.invite h j.listed j.fresh in
          let kept = keeps-Used hash other (consumed user now j.invite) c.invites apart h in
          let kept₁ : Used hash c'.invites =
            subst (λ (x : Cohort). Used hash x.invites) (sym j.leaves) kept in
          rw (join_invite, q) kept₁
    ]

Cohorts-Used :
    (hash_token : Text → Text) (hash : Text) {c c' : Cohort}
    → Cohorts hash_token c c'
    → Used hash c.invites
    → Used hash c'.invites
Cohorts-Used hash_token hash start h = h
Cohorts-Used hash_token hash (invites {c' = c'} uuid user room_id now before run) h =
    create_invite-Used hash_token uuid user room_id now c' hash run
      (Cohorts-Used hash_token hash before h)
Cohorts-Used hash_token hash (redeems {c' = c'} user text now before) h =
    join_invite-Used hash_token user text now c' hash (Cohorts-Used hash_token hash before h)

join_body-Used :
    (hash_token : Text → Text) (user : ℕ) (code : Text) (now : ℕ) (c : Cohort) {room_id : ℕ}
    {c' : Cohort}
    → join_body hash_token user code now c ≡ ok (room_id, c')
    → (is_code code ≡ true) × Used (hash_token code) c'.invites
unfolding join_body joined_cohort
join_body-Used hash_token user code now c {room_id} {c'} run =
    let (_, e, h) = through_first (fail_if (not (is_code code)) bad_request) _ run in
    let q = fail_if-ok (not (is_code code)) _ e in
    let j = join_body-Joins hash_token user code now c run in
    let used : Used (hash_token code)
        (insert (hash_token code) (consumed user now j.invite) c.invites) =
      (consumed user now j.invite, insert_sets (hash_token code) _ c.invites, now, refl) in
    (ground arith, subst (λ (x : Cohort). Used (hash_token code) x.invites) (sym j.leaves) used)

used-closed :
    (now : ℕ) (i : Invite) {t : ℕ} → i.invite_consumed_at ≡ some t → only_open now (some i) ≡ none
used-closed now i h = ground arith

-- A code is redeemed once: after a join with it was accepted, and any requests of any users to make
-- and to redeem invites since, whoever sends this code, in any spelling that is read as the same one
-- and at any time, is told that it was not found, and nothing changes.
pub join_invite-once :
    (hash_token : Text → Text) (user again now later : ℕ) (code text : Text) (c c₁ c₂ : Cohort)
    (room_id : ℕ)
    → join_body hash_token user code now c ≡ ok (room_id, c₁)
    → Cohorts hash_token c₁ c₂
    → read_code text ≡ code
    → join_invite hash_token again text later c₂ ≡ (c₂, err not_found)
unfolding join_invite join_body
join_invite-once hash_token user again now later code text c c₁ c₂ room_id run since spelling =
    let (good, used) = join_body-Used hash_token user code now c run in
    let (i, there, t, gone) = Cohorts-Used hash_token (hash_token code) since used in
    let shut = used-closed later i gone in
    rw (join_invite, spelling, join_body, good, there, shut) refl
