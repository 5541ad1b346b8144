-- ===== src/Perf/Slots.antt =====
-- The slots of a worker of tools/sink-perf/main.go, each with its count and whether an operation is
-- open, and what the server holds for it.
use sink_production_suite.Prelude.{
  ℕ, zero, suc, ◌+◌, ◌%◌, ◌^◌, ◌<◌, Bool, true, false, not, ◌&&◌, ◌||◌, some, List, [], ◌∷◌, ◌≡◌,
  ◌⊎◌, ◌↔◌, ◌≢◌, eq_iff, string_eq, ◌∙◌, ap, refl, inl, inr, arith, eqb, length, contains, nat_eq,
  eqb_iff, Bool-cases, if◌then◌else◌, All,
}
use sink_production_suite.Perf.Worker.{
  Worker, WriteResult, WriteCalls, Reply, rpc_error, replied, set_at, get_or, may_have_committed,
  is_applied, note_failure, note_applied, note_returned, write_result, reconcile,
}

pub get_or-set_at {ℓ} :
    {A : Type ℓ} (d : A) (xs : List A) (i j : ℕ) (a : A)
    → i < length xs
    → get_or d (set_at xs i a) j ≡ (if eqb j i then a else get_or d xs j)
unfolding get_or set_at
get_or-set_at d [] i j a h = absurd (omega arith)
get_or-set_at d (x ∷ xs) zero zero a h = refl
get_or-set_at d (x ∷ xs) zero (suc j) a h = ground arith
get_or-set_at d (x ∷ xs) (suc i) zero a h = ground arith
get_or-set_at d (x ∷ xs) (suc i) (suc j) a h = get_or-set_at d xs i j a (omega arith) ∙ ground arith

pub length-set_at {ℓ} :
    {A : Type ℓ} (xs : List A) (i : ℕ) (a : A) → length (set_at xs i a) ≡ length xs
unfolding set_at
length-set_at [] i a = refl
length-set_at (x ∷ xs) zero a = refl
length-set_at (x ∷ xs) (suc i) a = ap suc (length-set_at xs i a)

-- One slot: the server holds the count of the worker, or, while an operation is open, the next one in an
-- `int64`.
abbrev pub Agrees : ℕ → Bool → ℕ → Type 0
Agrees count pending actual =
    (actual ≡ count) ⊎ ((actual ≡ (count + 1) % 2 ^ 64) × (pending ≡ true))

pub reconcile-Agrees :
    (count actual n : ℕ) (pending b : Bool)
    → reconcile count pending actual ≡ some (n, b)
    → Agrees count pending actual
unfolding reconcile
reconcile-Agrees count actual n pending b h =
    elim (Bool-cases (eqb actual ((count + 1) % 2 ^ 64) && pending)) [
      | inl more ↦ inr (ground (arith, more), ground (arith, more))
      | inr same ↦ elim (Bool-cases (eqb actual count)) [
        | inl equal ↦ inl (ground (arith, equal))
        | inr differs ↦ absurd (cc (h, same, differs))
      ]
    ]

pub reconcile_slot :
    (count actual : ℕ) (pending : Bool)
    → Agrees count pending actual
    → (b : Bool) × (reconcile count pending actual ≡ some (actual, b))
unfolding reconcile
reconcile_slot count actual pending (inl same) =
    elim (Bool-cases (eqb actual ((count + 1) % 2 ^ 64) && pending)) [
      | inl more ↦ absurd (ground (arith, more, same))
      | inr less ↦ (false, rw (less, same) (ground arith))
    ]
reconcile_slot count actual pending (inr (one_more, unclear)) =
    (true, rw (one_more, unclear) (ground arith))

-- What an operation with sequence `s` may do to the sequence that the server has.
abbrev pub MayStore : ℕ → ℕ → ℕ → Type 0
MayStore s before after = (after ≡ before) ⊎ (after ≡ s)

-- The answers of the protocol that say that nothing was stored: a failed precondition, and the failures of
-- a wrong argument, a precondition, a missing record and a conflict.
abbrev pub IsRefusal : {Seen Fields : Type 0} → WriteResult Seen Fields → Type 0
IsRefusal item =
    (item.status ≡ "WRITE_STATUS_PRECONDITION_FAILED")
    ⊎ (item.code ≡ "FAILURE_CODE_INVALID_ARGUMENT")
    ⊎ (item.code ≡ "FAILURE_CODE_PRECONDITION_FAILED")
    ⊎ (item.code ≡ "FAILURE_CODE_NOT_FOUND")
    ⊎ (item.code ≡ "FAILURE_CODE_CONFLICT")

-- A true answer: an applied operation is stored, a refused one changes nothing, and any other may have been
-- stored.
pub record Took {Seen Fields : Type 0} (item : WriteResult Seen Fields) (s before after : ℕ)
    : Type 0 where
  pub applied : item.status ≡ "WRITE_STATUS_APPLIED" → after ≡ s
  pub refused : IsRefusal item → item.status ≢ "WRITE_STATUS_APPLIED" → after ≡ before
  pub unclear : MayStore s before after

pub may_have_committed-IsRefusal :
    {Seen Fields : Type 0} (item : WriteResult Seen Fields)
    → may_have_committed item ≡ false
    → IsRefusal item
unfolding may_have_committed
may_have_committed-IsRefusal item h = ground (
  arith,
  h,
  eq_iff item.status "WRITE_STATUS_PRECONDITION_FAILED",
  eq_iff item.code "FAILURE_CODE_INVALID_ARGUMENT",
  eq_iff item.code "FAILURE_CODE_PRECONDITION_FAILED",
  eq_iff item.code "FAILURE_CODE_NOT_FOUND",
  eq_iff item.code "FAILURE_CODE_CONFLICT",
)

pub is_applied_iff :
    {Seen Fields : Type 0} (item : WriteResult Seen Fields)
    → (is_applied item ≡ true) ↔ (item.status ≡ "WRITE_STATUS_APPLIED")
unfolding is_applied
is_applied_iff item = eq_iff item.status "WRITE_STATUS_APPLIED"

abbrev pub AllTook :
    {Seen Fields : Type 0} → (s p q : ℕ → ℕ) → List ℕ → List (WriteResult Seen Fields) → Type 0
AllTook s p q [] items = Unit
AllTook s p q (k ∷ keys) [] = Unit
AllTook s p q (k ∷ keys) (item ∷ items) = Took item (s k) (p k) (q k) × AllTook s p q keys items

-- The slots of a worker.
abbrev pub count_of : Worker → ℕ → ℕ
count_of w k = get_or 0 w.counts k

abbrev pub pending_of : Worker → ℕ → Bool
pending_of w k = get_or false w.pending k

abbrev pub InStep : Worker → (ℕ → ℕ) → Type 0
InStep w p = (k : ℕ) → Agrees (count_of w k) (pending_of w k) (p k)

abbrev pub AreSlots : Worker → List ℕ → Type 0
AreSlots w keys = All (λ k. (k < length w.counts) × (k < length w.pending)) keys

module _ {Seen Fields Operation : Type 0} (calls : WriteCalls Seen Fields Operation) where
  -- A result changes its own slot: an applied one counts and closes it, any other leaves the count and
  -- opens it where it may have committed.
  pub write_result_counts :
      (key j : ℕ) (item : WriteResult Seen Fields) (w : Worker)
      → key < length w.counts
      → count_of (write_result calls key item w).1 j
        ≡ (if is_applied item && eqb j key then (count_of w key + 1) % 2 ^ 64 else count_of w j)
  unfolding write_result note_applied note_returned note_failure
  write_result_counts key j item w h = elim (Bool-cases (is_applied item)) [
    | inr no_way ↦ rw no_way refl
    | inl done ↦ elim (Bool-cases calls.return_document) [
      | inl back ↦ rw (done, back) (get_or-set_at 0 w.counts key j _ h)
      | inr silent ↦ rw (done, silent) (get_or-set_at 0 w.counts key j _ h)
    ]
  ]

  pub write_result_pending :
      (key j : ℕ) (item : WriteResult Seen Fields) (w : Worker)
      → key < length w.pending
      → pending_of (write_result calls key item w).1 j ≡ (
          if eqb j key
          then not (is_applied item) && (pending_of w key || may_have_committed item)
          else pending_of w j)
  unfolding write_result note_applied note_returned note_failure
  write_result_pending key j item w h = elim (Bool-cases (is_applied item)) [
    | inr no_way ↦ rw no_way (get_or-set_at false w.pending key j _ h)
    | inl done ↦ elim (Bool-cases calls.return_document) [
      | inl back ↦ rw (done, back) (get_or-set_at false w.pending key j _ h)
      | inr silent ↦ rw (done, silent) (get_or-set_at false w.pending key j _ h)
    ]
  ]

  pub write_result_lengths :
      (key : ℕ) (item : WriteResult Seen Fields) (w : Worker)
      → (length (write_result calls key item w).1.counts ≡ length w.counts)
        × (length (write_result calls key item w).1.pending ≡ length w.pending)
  unfolding write_result note_applied note_returned note_failure
  write_result_lengths key item w = elim (Bool-cases (is_applied item)) [
    | inr no_way ↦ rw no_way (refl, length-set_at w.pending key _)
    | inl done ↦ elim (Bool-cases calls.return_document) [
      | inl back ↦ rw (done, back) (length-set_at w.counts key _, length-set_at w.pending key _)
      | inr silent ↦ rw (done, silent) (length-set_at w.counts key _, length-set_at w.pending key _)
    ]
  ]

-- One slot, whatever its result.
pub slot-Agrees :
    {Seen Fields : Type 0} (item : WriteResult Seen Fields) (count s before after : ℕ)
    (pending : Bool)
    → count + 1 < 2 ^ 64
    → s ≡ count + 1
    → Agrees count pending before
    → Took item s before after
    → Agrees
        (if is_applied item then count + 1 else count)
        (not (is_applied item) && (pending || may_have_committed item))
        after
slot-Agrees item count s before after pending small e a t = elim (Bool-cases (is_applied item)) [
  | inl done ↦ rw done (inl (t.applied ((is_applied_iff item).0 done) ∙ e))
  | inr failed ↦ rw failed (elim (Bool-cases (may_have_committed item)) [
    | inl may ↦ rw may (elim t.unclear [
      | inr stored ↦ inr (omega (arith, stored, e, small), ground arith)
      | inl kept ↦ elim a [
        | inl same ↦ inl (kept ∙ same)
        | inr (more, _) ↦ inr (kept ∙ more, ground arith)
      ]
    ])
    | inr cannot ↦
        let kept =
          t.refused (may_have_committed-IsRefusal item cannot)
            (λ a. absurd (cc ((is_applied_iff item).1 a, failed))) in
        rw cannot (elim a [
          | inl same ↦ inl (kept ∙ same)
          | inr (more, unclear) ↦ inr (kept ∙ more, ground (arith, unclear))
        ])
  ])
]

pub apart :
    (k key : ℕ) (keys : List ℕ)
    → contains keys key ≡ false
    → contains keys k ≡ true
    → eqb k key ≡ false
apart k key keys fresh inside = elim (Bool-cases (eqb k key)) [
  | inr other ↦ other
  | inl here ↦ absurd (cc (ap (contains keys) ((eqb_iff k key).0 here), fresh, inside))
]

pub applied_count :
    (applied : Bool) (n : ℕ)
    → n + 1 < 2 ^ 64
    → (if applied && true then (n + 1) % 2 ^ 64 else n) ≡ (if applied then n + 1 else n)
applied_count true n h = omega arith
applied_count false n h = refl

pub AreSlots-same :
    (w v : Worker) (keys : List ℕ)
    → length v.counts ≡ length w.counts
    → length v.pending ≡ length w.pending
    → AreSlots w keys
    → AreSlots v keys
AreSlots-same w v [] e f h = tt
AreSlots-same w v (k ∷ keys) e f ((a, b), h) = ((rw e a, rw f b), AreSlots-same w v keys e f h)

module _ {Seen Fields : Type 0} where
  abbrev pub results_of : Reply (WriteResult Seen Fields) → List (WriteResult Seen Fields)
  results_of (rpc_error code) = []
  results_of (replied items) = items

  -- The answer to a call that sends `s k` for each key `k`. After an error, or with results missing, each
  -- operation of the call may have been stored.
  pub record IsAnswered (keys : List ℕ) (reply : Reply (WriteResult Seen Fields)) (s p q : ℕ → ℕ)
      : Type 0 where
    pub others : (k : ℕ) → contains keys k ≡ false → q k ≡ p k
    pub unclear : (k : ℕ) → MayStore (s k) (p k) (q k)
    pub took : AllTook s p q keys (results_of reply)
