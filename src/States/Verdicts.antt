-- ===== src/States/Verdicts.antt =====
-- What the checks of internal/statecheck/model.go accept: the answers of a sequential server, and no other.
use sink_production_suite.Prelude.{
  ℕ, suc, String, Bool, true, false, Option, none, some, List, [], ◌∷◌, map, ◌≡◌, refl, arith,
  eqb_iff, length, string_eq, eq_iff, inl, inr, Option-cases,
}
use sink_production_suite.States.Model.{Document, Documents}
use sink_production_suite.States.Run.{
  ◌>>=◌, require, Failure, WriteResult, ReadResult, has_no_failure, is_failure, is_wanted,
  are_wanted, document_beq, is_read, are_read, are_deleted,
}
use sink_production_suite.States.Server.{
  Outcome, stored, precondition_failed, failed, expectation, answer, answers, deletions,
}

pub bind-some :
    {A B : Type 0} (o : Option A) (f : A → Option B) (b : B)
    → (o >>= f) ≡ some b
    → (a : A) × (o ≡ some a) × (f a ≡ some b)
bind-some none f b h = absurd (cc h)
bind-some (some a) f b h = (a, refl, h)

pub require-true : (b : Bool) (u : Unit {0}) → require b ≡ some u → b ≡ true
require-true true u h = refl
require-true false u h = absurd (cc h)

has_no_failure_lem : (f : Option Failure) → has_no_failure f ≡ true → f ≡ none
unfolding has_no_failure
has_no_failure_lem none h = refl
has_no_failure_lem (some f) h = absurd (cc h)

is_failure_lem :
    (code : String) (f : Option Failure)
    → is_failure code f ≡ true
    → f ≡ some (record { code = code; retryable = false })
unfolding is_failure
is_failure_lem code none h = absurd (cc h)
is_failure_lem code (some f) h = ground (arith, eq_iff f.code code, h)

is_wanted-answer :
    (i : ℕ) (o : Outcome) (r : WriteResult) → is_wanted i (expectation o) r ≡ true → r ≡ answer i o
unfolding is_wanted
is_wanted-answer i (stored d) r h = ground (
  arith,
  eqb_iff r.operation_index i,
  eq_iff r.status "WriteApplied",
  has_no_failure_lem r.failure,
  h,
)
is_wanted-answer i precondition_failed r h = ground (
  arith,
  eqb_iff r.operation_index i,
  eq_iff r.status "WritePreconditionFailed",
  is_failure_lem "FailurePreconditionFailed" r.failure,
  h,
)
is_wanted-answer i failed r h = ground (
  arith,
  eqb_iff r.operation_index i,
  eq_iff r.status "WriteFailed",
  is_failure_lem "FailureInvalidArgument" r.failure,
  h,
)

pub are_wanted→answers :
    (i : ℕ) (os : List Outcome) (rs : List WriteResult)
    → are_wanted i (map expectation os) rs ≡ true
    → rs ≡ answers i os
unfolding are_wanted answers
are_wanted→answers i [] [] h = refl
are_wanted→answers i [] (r ∷ rs) h = absurd (cc h)
are_wanted→answers i (o ∷ os) [] h = absurd (cc h)
are_wanted→answers i (o ∷ os) (r ∷ rs) h = cc (
  is_wanted-answer i o r (ground (arith, h)),
  are_wanted→answers (suc i) os rs (ground (arith, h)),
)

pub are_deleted→deletions :
    (i : ℕ) (keys : List ℕ) (rs : List WriteResult)
    → are_deleted i rs ≡ true
    → length rs ≡ length keys
    → rs ≡ deletions i keys
unfolding are_deleted deletions
are_deleted→deletions i [] [] h n = refl
are_deleted→deletions i [] (r ∷ rs) h n = absurd (omega (arith, n))
are_deleted→deletions i (k ∷ keys) [] h n = absurd (omega (arith, n))
are_deleted→deletions i (k ∷ keys) (r ∷ rs) h n =
    let ih = are_deleted→deletions (suc i) keys rs (ground (arith, h)) (omega (arith, n)) in
    ground (
      arith,
      eqb_iff r.operation_index i,
      eq_iff r.status "DeleteApplied",
      has_no_failure_lem r.failure,
      h,
      ih,
    )

-- A result of a read that says what the documents hold.
abbrev pub IsReading : ℕ → Option Document → ReadResult → Type 0
IsReading i none r = (r.operation_index ≡ i) × (r.status ≡ "ReadNotFound") × (r.has_failure ≡ false)
IsReading i (some d) r =
    r ≡ record { operation_index = i; status = "ReadFound"; has_failure = false; decoded = some d }

unfoldable pub AreReadings : ℕ → List ℕ → Documents → List ReadResult → Type 0
AreReadings i [] docs [] = Unit
AreReadings i [] docs (r ∷ rs) = ⊥
AreReadings i (k ∷ keys) docs [] = ⊥
AreReadings i (k ∷ keys) docs (r ∷ rs) = IsReading i (docs k) r × AreReadings (suc i) keys docs rs

document_beq_lem : (a b : Document) → document_beq a b ≡ true → a ≡ b
unfolding document_beq
document_beq_lem a b h = ground (arith, eqb_iff a.counter b.counter, eq_iff a.label b.label, h)

is_read-IsReading :
    (i : ℕ) (d : Option Document) (r : ReadResult) → is_read i d r ≡ true → IsReading i d r
unfolding is_read
is_read-IsReading i none r h =
    ground (arith, eqb_iff r.operation_index i, eq_iff r.status "ReadNotFound", h)
is_read-IsReading i (some d) r h = elim (Option-cases r.decoded) [
  | inl e ↦ absurd (ground (arith, e, h))
  | inr (x, e) ↦
      ground (
        arith,
        eqb_iff r.operation_index i,
        eq_iff r.status "ReadFound",
        document_beq_lem x d,
        e,
        h,
      )
]

pub are_read-AreReadings :
    (i : ℕ) (keys : List ℕ) (docs : Documents) (rs : List ReadResult)
    → are_read i keys docs rs ≡ true
    → AreReadings i keys docs rs
unfolding are_read AreReadings
are_read-AreReadings i [] docs [] h = tt
are_read-AreReadings i [] docs (r ∷ rs) h = absurd (cc h)
are_read-AreReadings i (k ∷ keys) docs [] h = absurd (cc h)
are_read-AreReadings i (k ∷ keys) docs (r ∷ rs) h = (
  is_read-IsReading i (docs k) r (ground (arith, h)),
  are_read-AreReadings (suc i) keys docs rs (ground (arith, h)),
)
