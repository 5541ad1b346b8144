-- ===== src/Perf/Accounting.antt =====
-- The bookkeeping of `(*worker).write` in tools/sink-perf/main.go against a server that applies each
-- operation at most once: `verify` finds every record as the worker counted it.
use sink_production_suite.Prelude.{
  ℕ, ◌+◌, ◌^◌, ◌<◌, Bool, true, false, not, ◌&&◌, ◌||◌, List, [], ◌∷◌, ◌≡◌, ◌∙◌, refl, inl, inr,
  arith, eqb, length, contains, nat_eq, eqb_iff, Bool-cases, if◌then◌else◌,
}
use sink_production_suite.Reference.Unique.{IsDistinct}
use sink_production_suite.Perf.Worker.{
  Worker, bump, WriteResult, WriteCalls, Reply, rpc_error, replied, set_at, may_have_committed,
  is_applied, mark_pending, write_result, write_results, write_reply,
}
use sink_production_suite.Perf.Slots.{
  get_or-set_at, length-set_at, slot-Agrees, apart, applied_count, AreSlots-same,
  write_result_counts, write_result_pending, write_result_lengths, Agrees, MayStore, AllTook,
  count_of, pending_of, InStep, AreSlots, IsAnswered,
}

module _ {Seen Fields Operation : Type 0} (calls : WriteCalls Seen Fields Operation) where
  write_results-InStep :
      (keys : List ℕ) (items : List (WriteResult Seen Fields)) (success : Bool) (w : Worker)
      (s p q : ℕ → ℕ)
      → length items ≡ length keys
      → IsDistinct keys
      → AreSlots w keys
      → AllTook s p q keys items
      → ((k : ℕ)
          → contains keys k ≡ true
          → (s k ≡ count_of w k + 1)
            × (count_of w k + 1 < 2 ^ 64)
            × Agrees (count_of w k) (pending_of w k) (p k))
      → ((k : ℕ) → contains keys k ≡ false → Agrees (count_of w k) (pending_of w k) (q k))
      → InStep (write_results calls keys items success w).1 q
  unfolding write_results
  write_results-InStep [] items success w s p q n d r t open_slots done_slots =
      λ k. done_slots k refl
  write_results-InStep (key ∷ keys) [] success w s p q n d r t open_slots done_slots =
      absurd (omega arith)
  write_results-InStep (key ∷ keys) (item ∷ items) success w s p q n (fresh, d) ((r1, r2), r)
        (took, t) open_slots done_slots =
      let v = (write_result calls key item w).1 in
      let (lc, lp) = write_result_lengths calls key item w in
      let own = open_slots key (ground (arith, (eqb_iff key key).1 refl)) in
      write_results-InStep keys items (success && (write_result calls key item w).0) v s p q
        (omega arith) d (AreSlots-same w v keys lc lp r) t
        (λ k inside.
          let other : eqb k key ≡ false = apart k key keys fresh inside in
          let c : count_of v k ≡ count_of w k =
            write_result_counts calls key k item w r1 ∙ rw other (ground arith) in
          let b : pending_of v k ≡ pending_of w k =
            write_result_pending calls key k item w r2 ∙ rw other refl in
          rw (c, b) (open_slots k (ground (arith, inside))))
        (λ k outside. elim (Bool-cases (eqb k key)) [
          | inr other ↦
              let c : count_of v k ≡ count_of w k =
                write_result_counts calls key k item w r1 ∙ rw other (ground arith) in
              let b : pending_of v k ≡ pending_of w k =
                write_result_pending calls key k item w r2 ∙ rw other refl in
              rw (c, b) (done_slots k (ground (arith, outside, other)))
          | inl here ↦
              let same : k ≡ key = (eqb_iff k key).0 here in
              let c : count_of v k
                  ≡ (if is_applied item then count_of w key + 1 else count_of w key) =
                write_result_counts calls key k item w r1
                ∙ rw (here, same) (applied_count (is_applied item) (count_of w key) own.1) in
              let b : pending_of v k
                  ≡ (not (is_applied item) && (pending_of w key || may_have_committed item)) =
                write_result_pending calls key k item w r2 ∙ rw here refl in
              rw (c, b, same)
                (slot-Agrees item (count_of w key) (s key) (p key) (q key) (pending_of w key) own.1
                  own.0 own.2 took)
        ])

  mark_pending_lem :
      (keys : List ℕ) (w : Worker) (j : ℕ)
      → AreSlots w keys
      → (count_of (mark_pending keys w) j ≡ count_of w j)
        × (pending_of (mark_pending keys w) j ≡ (contains keys j || pending_of w j))
  unfolding mark_pending
  mark_pending_lem [] w j h = (refl, refl)
  mark_pending_lem (k ∷ keys) w j ((a, b), h) =
      let v = record w { pending = set_at w.pending k true } in
      let (c, p) =
        mark_pending_lem keys v j
          (AreSlots-same w v keys refl (length-set_at w.pending k true) h) in
      (c, p ∙ rw (get_or-set_at false w.pending k j true b) (ground arith))

  unclear-InStep :
      (keys : List ℕ) (w : Worker) (s p q : ℕ → ℕ)
      → AreSlots w keys
      → ((k : ℕ) → count_of w k + 1 < 2 ^ 64)
      → ((k : ℕ) → contains keys k ≡ true → s k ≡ count_of w k + 1)
      → ((k : ℕ) → contains keys k ≡ false → q k ≡ p k)
      → ((k : ℕ) → MayStore (s k) (p k) (q k))
      → InStep w p
      → InStep (mark_pending keys w) q
  unclear-InStep keys w s p q r small e others unclear a k =
      let (c, b) = mark_pending_lem keys w k r in
      rw (c, b)
        (elim (Bool-cases (contains keys k)) [
          | inr outside ↦ rw (outside, others k outside) (a k)
          | inl inside ↦ rw inside (elim (unclear k) [
            | inr stored ↦ inr (omega (arith, stored, e k inside, small k), refl)
            | inl kept ↦ elim (a k) [
              | inl same ↦ inl (kept ∙ same)
              | inr (more, _) ↦ inr (kept ∙ more, refl)
            ]
          ])
        ])

  -- A reply keeps the worker in step with the server.
  pub write_reply-InStep :
      (keys : List ℕ) (reply : Reply (WriteResult Seen Fields)) (w : Worker) (s p q : ℕ → ℕ)
      → IsDistinct keys
      → AreSlots w keys
      → ((k : ℕ) → count_of w k + 1 < 2 ^ 64)
      → ((k : ℕ) → s k ≡ count_of w k + 1)
      → IsAnswered keys reply s p q
      → InStep w p
      → InStep (write_reply calls keys reply w).1 q
  unfolding write_reply
  write_reply-InStep keys (rpc_error code) w s p q d r small e h a =
      unclear-InStep keys (record w { errors = bump w.errors code }) s p q r small (λ k _. e k)
        h.others h.unclear a
  write_reply-InStep keys (replied items) w s p q d r small e h a =
      elim (Bool-cases (eqb (length items) (length keys))) [
        | inr differs ↦ rw differs (
            unclear-InStep keys (record w { errors = bump w.errors "incomplete_write" }) s p q r
              small (λ k _. e k) h.others h.unclear a)
        | inl equal ↦ rw equal (
            write_results-InStep keys items true w s p q ((eqb_iff _ _).0 equal) d r h.took
              (λ k _. (e k, small k, a k)) (λ k outside. rw (h.others k outside) (a k)))
      ]
