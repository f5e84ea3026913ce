-- ===== src/Rooms/Participants.antt =====
-- The native processes of a room, `match_runtime_participants`, against its members.
use open_cade.Prelude.{
  subst, ◌∙◌, [], List, ◌∷◌, Bool-cases, ◌≡◌, refl, ◌≤◌, ℕ, inl, inr, arith, true, false, ◌==◌, any,
  length,
}
use open_cade.Prelude.Assoc.{Assoc, insert, contains_key, contains_key-insert, nat_eq}
use open_cade.Rooms.{Participant}
use open_cade.Rooms.Launch.{is_ended}
use open_cade.Rooms.Exit.{count_ended}
use open_cade.Rooms.Invariant.{Within, Distinct, Covers}

pub Within-insert :
    (ms : List ℕ) (u : ℕ) (p : Participant) (ps : Assoc ℕ Participant)
    → any (λ m. m == u) ms ≡ true
    → Within ms ps
    → Within ms (insert u p ps)
unfolding insert
Within-insert ms u p [] i h = (i, tt)
Within-insert ms u p ((j, q) ∷ ps) i h = elim (Bool-cases (j == u)) [
  | inl b ↦ rw b (h.0, h.1)
  | inr b ↦ rw b (h.0, Within-insert ms u p ps i h.1)
]

contains_key-insert_other :
    (u j : ℕ) (p : Participant) (ps : Assoc ℕ Participant)
    → (u == j) ≡ false
    → contains_key j (insert u p ps) ≡ contains_key j ps
unfolding insert contains_key
contains_key-insert_other u j p [] h = ground arith
contains_key-insert_other u j p ((i, q) ∷ ps) h =
    ground (arith, contains_key-insert_other u j p ps h)

contains_key-nil : (u : ℕ) → contains_key {V = Participant} u [] ≡ false
unfolding contains_key
contains_key-nil u = refl

pub Distinct-insert :
    (u : ℕ) (p : Participant) (ps : Assoc ℕ Participant) → Distinct ps → Distinct (insert u p ps)
unfolding insert
Distinct-insert u p [] h = (contains_key-nil u, tt)
Distinct-insert u p ((j, q) ∷ ps) h = elim (Bool-cases (j == u)) [
  | inl b ↦ rw b (h.0, h.1)
  | inr b ↦
      rw b (contains_key-insert_other u j p ps (ground arith) ∙ h.0, Distinct-insert u p ps h.1)
]

-- Two participants who are members of a room of two are all of its members.
pub Covers-pigeonhole :
    (ms : List ℕ) (ps : Assoc ℕ Participant)
    → length ms ≡ 2
    → length ps ≡ 2
    → Within ms ps
    → Distinct ps
    → Covers ps ms
unfolding contains_key
Covers-pigeonhole [] ps l k w d = tt
Covers-pigeonhole (a ∷ []) ps l k w d = absurd (omega arith)
Covers-pigeonhole (a ∷ b ∷ c ∷ ms) ps l k w d = absurd (omega arith)
Covers-pigeonhole (a ∷ b ∷ []) [] l k w d = absurd (omega arith)
Covers-pigeonhole (a ∷ b ∷ []) ((x, p) ∷ []) l k w d = absurd (omega arith)
Covers-pigeonhole (a ∷ b ∷ []) ((x, p) ∷ (y, q) ∷ z ∷ ps) l k w d = absurd (omega arith)
Covers-pigeonhole (a ∷ b ∷ []) ((x, p) ∷ (y, q) ∷ []) l k w d =
    let (wx, (wy, _)) = w in let (dx, _) = d in (ground arith, (ground arith, tt))

pub Covers-insert :
    (u : ℕ) (p : Participant) (ps : Assoc ℕ Participant) (ms : List ℕ)
    → Covers ps ms
    → Covers (insert u p ps) ms
Covers-insert u p ps [] h = tt
Covers-insert u p ps (m ∷ ms) h = (contains_key-insert u m p ps h.0, Covers-insert u p ps ms h.1)

pub Covers-member :
    (u : ℕ) (ps : Assoc ℕ Participant) (ms : List ℕ)
    → Covers ps ms
    → any (λ m. m == u) ms ≡ true
    → contains_key u ps ≡ true
Covers-member u ps [] h i = cc
Covers-member u ps (m ∷ ms) h i = elim (Bool-cases (m == u)) [
  | inl b ↦ let same : m ≡ u = ground arith in subst (λ v. contains_key v ps ≡ true) same h.0
  | inr b ↦ let i₁ = rw b at i in Covers-member u ps ms h.1 i₁
]

pub count_ended-le : (ps : Assoc ℕ Participant) → count_ended ps ≤ length ps
unfolding count_ended
count_ended-le [] = omega arith
count_ended-le ((u, p) ∷ ps) = ground (arith, count_ended-le ps)

pub count_ended-insert :
    (u : ℕ) (p : Participant) (ps : Assoc ℕ Participant)
    → is_ended p.ended_at ≡ true
    → count_ended ps ≤ count_ended (insert u p ps)
unfolding count_ended insert
count_ended-insert u p [] h = ground arith
count_ended-insert u p ((j, q) ∷ ps) h = ground (arith, count_ended-insert u p ps h)
