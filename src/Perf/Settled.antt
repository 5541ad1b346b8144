-- ===== src/Perf/Settled.antt =====
-- What `(*worker).write` of tools/sink-perf/main.go keeps of a complete answer.
use mathlib.Core.Path.{subst}
use sink_production_suite.Prelude.{
  ℕ, ◌+◌, ◌^◌, ◌<◌, Bool, true, false, not, ◌&&◌, ◌||◌, some, List, [], ◌∷◌, ◌≡◌, ◌≢◌, ◌∙◌, sym, ap,
  refl, inl, inr, arith, eqb, eqb_iff, eq_iff, contains, nat_eq, string_eq, length, Bool-cases,
  if◌then◌else◌,
}
use sink_production_suite.Reference.Unique.{IsDistinct}
use sink_production_suite.Perf.Worker.{
  Worker, WriteResult, WriteCalls, replied, may_have_committed, is_applied, write_result,
  write_results, write_operations, write_reply, write,
}
use sink_production_suite.Perf.Slots.{
  IsRefusal, AreSlots, AreSlots-same, count_of, pending_of, write_result_counts,
  write_result_pending, write_result_lengths, is_applied_iff, apart, applied_count,
  may_have_committed-IsRefusal,
}

-- A slot before and after its result: an applied operation counts and closes the slot; a refused one leaves
-- it; any other leaves the count and opens the slot.
pub record IsSettled {Seen Fields : Type 0} (item : WriteResult Seen Fields) (k : ℕ) (w v : Worker)
    : Type 0 where
  pub applied :
      item.status ≡ "WRITE_STATUS_APPLIED"
      → (count_of v k ≡ count_of w k + 1) × (pending_of v k ≡ false)
  pub failed : item.status ≢ "WRITE_STATUS_APPLIED" → count_of v k ≡ count_of w k
  pub refused :
      item.status ≢ "WRITE_STATUS_APPLIED" → IsRefusal item → pending_of v k ≡ pending_of w k
  pub unclear : item.status ≢ "WRITE_STATUS_APPLIED" → ¬ IsRefusal item → pending_of v k ≡ true

abbrev pub AreSettled :
    {Seen Fields : Type 0} → List ℕ → List (WriteResult Seen Fields) → Worker → Worker → Type 0
AreSettled [] items w v = Unit
AreSettled (k ∷ keys) [] w v = Unit
AreSettled (k ∷ keys) (item ∷ items) w v = IsSettled item k w v × AreSettled keys items w v

-- A slot with the same books in two workers.
abbrev pub IsKept : ℕ → Worker → Worker → Type 0
IsKept k w v = (count_of v k ≡ count_of w k) × (pending_of v k ≡ pending_of w k)

refusal-may_have_committed :
    {Seen Fields : Type 0} (item : WriteResult Seen Fields)
    → IsRefusal item
    → may_have_committed item ≡ false
unfolding may_have_committed
refusal-may_have_committed item h = ground (
  arith,
  h,
  eq_iff item.status "WRITE_STATUS_PRECONDITION_FAILED",
  eq_iff item.code "FAILURE_CODE_INVALID_ARGUMENT",
  eq_iff item.code "FAILURE_CODE_PRECONDITION_FAILED",
  eq_iff item.code "FAILURE_CODE_NOT_FOUND",
  eq_iff item.code "FAILURE_CODE_CONFLICT",
)

-- The books of a slot after its result, by what the code decides.
IsSettled-slot :
    {Seen Fields : Type 0} (item : WriteResult Seen Fields) (k : ℕ) (w v : Worker)
    → count_of v k ≡ (if is_applied item then count_of w k + 1 else count_of w k)
    → pending_of v k ≡ (not (is_applied item) && (pending_of w k || may_have_committed item))
    → IsSettled item k w v
IsSettled-slot item k w v c p = record {
  applied = λ a. let done = (is_applied_iff item).1 a in (c ∙ rw done refl, p ∙ rw done refl);
  failed = λ a. c ∙ rw (is_not a) refl;
  refused = λ a r. p ∙ rw (is_not a, refusal-may_have_committed item r) (ground arith);
  unclear = λ a r. p ∙ rw (is_not a, may r) (ground arith);
}
  where
    is_not : item.status ≢ "WRITE_STATUS_APPLIED" → is_applied item ≡ false
    is_not a = elim (Bool-cases (is_applied item)) [
      | inl done ↦ absurd (a ((is_applied_iff item).0 done))
      | inr no_way ↦ no_way
    ]

    may : ¬ IsRefusal item → may_have_committed item ≡ true
    may r = elim (Bool-cases (may_have_committed item)) [
      | inl can ↦ can
      | inr cannot ↦ absurd (r (may_have_committed-IsRefusal item cannot))
    ]

IsSettled-same :
    {Seen Fields : Type 0} (item : WriteResult Seen Fields) (k : ℕ) (u w v : Worker)
    → IsKept k w u
    → IsSettled item k u v
    → IsSettled item k w v
IsSettled-same item k u w v (c, p) h = record {
  applied = λ a. let (x, y) = h.applied a in (x ∙ ap (λ n. n + 1) c, y);
  failed = λ a. h.failed a ∙ c;
  refused = λ a r. h.refused a r ∙ p;
  unclear = h.unclear;
}

AreSettled-same :
    {Seen Fields : Type 0} (keys : List ℕ) (items : List (WriteResult Seen Fields)) (u w v : Worker)
    → ((k : ℕ) → contains keys k ≡ true → IsKept k w u)
    → AreSettled keys items u v
    → AreSettled keys items w v
AreSettled-same [] items u w v same h = tt
AreSettled-same (k ∷ keys) [] u w v same h = tt
AreSettled-same (k ∷ keys) (item ∷ items) u w v same (here, h) = (
  IsSettled-same item k u w v (same k (ground (arith, (eqb_iff k k).1 refl))) here,
  AreSettled-same keys items u w v (λ j inside. same j (ground (arith, inside))) h,
)

module _ {Seen Fields Operation : Type 0} (calls : WriteCalls Seen Fields Operation) where
  write_result-IsKept :
      (key j : ℕ) (item : WriteResult Seen Fields) (w : Worker)
      → key < length w.counts
      → key < length w.pending
      → eqb j key ≡ false
      → IsKept j w (write_result calls key item w).1
  write_result-IsKept key j item w a b other = (
    write_result_counts calls key j item w a ∙ rw other (ground arith),
    write_result_pending calls key j item w b ∙ rw other refl,
  )

  write_results-IsKept :
      (keys : List ℕ) (items : List (WriteResult Seen Fields)) (success : Bool) (w : Worker) (j : ℕ)
      → AreSlots w keys
      → contains keys j ≡ false
      → IsKept j w (write_results calls keys items success w).1
  unfolding write_results
  write_results-IsKept [] items success w j r h = (refl, refl)
  write_results-IsKept (key ∷ keys) [] success w j r h = (refl, refl)
  write_results-IsKept (key ∷ keys) (item ∷ items) success w j ((a, b), r) h =
      let v = (write_result calls key item w).1 in
      let (lc, lp) = write_result_lengths calls key item w in
      let (c, p) = write_result-IsKept key j item w a b (ground (arith, h)) in
      let (c', p') =
        write_results-IsKept keys items (success && (write_result calls key item w).0) v j
          (AreSlots-same w v keys lc lp r) (ground (arith, h)) in
      (c' ∙ c, p' ∙ p)

  write_results-AreSettled :
      (keys : List ℕ) (items : List (WriteResult Seen Fields)) (success : Bool) (w : Worker)
      → IsDistinct keys
      → AreSlots w keys
      → ((k : ℕ) → contains keys k ≡ true → count_of w k + 1 < 2 ^ 64)
      → AreSettled keys items w (write_results calls keys items success w).1
  unfolding write_results
  write_results-AreSettled [] items success w d r small = tt
  write_results-AreSettled (key ∷ keys) [] success w d r small = tt
  write_results-AreSettled (key ∷ keys) (item ∷ items) success w (fresh, d) ((a, b), r) small =
      let good = success && (write_result calls key item w).0 in
      let v = (write_result calls key item w).1 in
      let (lc, lp) = write_result_lengths calls key item w in
      let slots = AreSlots-same w v keys lc lp r in
      let kept : (k : ℕ) → contains keys k ≡ true → IsKept k w v =
        λ k inside. write_result-IsKept key k item w a b (apart k key keys fresh inside) in
      let bound = small key (ground (arith, (eqb_iff key key).1 refl)) in
      let (c, p) = write_results-IsKept keys items good v key slots fresh in
      let same = (eqb_iff key key).1 refl in
      (
        IsSettled-slot item key w (write_results calls keys items good v).1
            (c
              ∙ write_result_counts calls key key item w a
              ∙ rw same (applied_count (is_applied item) (count_of w key) bound))
            (p ∙ write_result_pending calls key key item w b ∙ rw same refl),
        AreSettled-same keys items v w (write_results calls keys items good v).1 kept (
            write_results-AreSettled keys items good v d slots
              (λ k inside. rw ((kept k inside).0) (small k (ground (arith, inside))))),
      )

  pub write-sent :
      (keys : List ℕ) (w : Worker) (operations : List Operation)
      → write_operations calls keys w ≡ some operations
      → write calls keys w ≡ write_reply calls keys (calls.send operations) w
  unfolding write
  write-sent keys w operations made = rw (made, write) refl

  write_reply_complete :
      (keys : List ℕ) (items : List (WriteResult Seen Fields)) (w : Worker)
      → length items ≡ length keys
      → write_reply calls keys (replied items) w ≡ write_results calls keys items true w
  unfolding write_reply
  write_reply_complete keys items w h = rw ((eqb_iff (length items) (length keys)).1 h) refl

  -- Where a write has no key twice, each key is a slot of the worker, no count is at its bound, and its
  -- operations are answered with as many results, it settles each key by its result and keeps the other
  -- slots: an applied operation adds one to the count and closes the slot; any other leaves the count, and
  -- a refused one leaves the slot open or closed as it was, while each that is neither opens it.
  pub write-AreSettled :
      (keys : List ℕ) (w : Worker) (operations : List Operation)
      (items : List (WriteResult Seen Fields))
      → IsDistinct keys
      → AreSlots w keys
      → ((k : ℕ) → count_of w k + 1 < 2 ^ 64)
      → write_operations calls keys w ≡ some operations
      → calls.send operations ≡ replied items
      → length items ≡ length keys
      → AreSettled keys items w (write calls keys w).1
        × ((k : ℕ) → contains keys k ≡ false → IsKept k w (write calls keys w).1)
  write-AreSettled keys w operations items d r small made answer complete =
      subst
        (λ (x : Bool × Worker).
          AreSettled keys items w x.1 × ((k : ℕ) → contains keys k ≡ false → IsKept k w x.1))
        (sym (
          write-sent keys w operations made
          ∙ ap (λ reply. write_reply calls keys reply w) answer
          ∙ write_reply_complete keys items w complete))
        (
          write_results-AreSettled keys items true w d r (λ k _. small k),
          λ k outside. write_results-IsKept keys items true w k r outside,
        )
