-- ===== src/Perf/Records.antt =====
-- What `verify` of tools/sink-perf/main.go checks of one record, and of the results of one read.
use mathlib.Core.Option.{some_inj}
use sink_production_suite.Prelude.{
  ℕ, ◌+◌, ◌%◌, ◌^◌, ◌<◌, Bool, true, false, Option, none, some, List, [], ◌∷◌, ◌≡◌, ◌↔◌, ◌∙◌, refl,
  sym, ap, inl, inr, arith, eq_iff, string_eq, Bool-cases, Option-cases, if◌then◌else◌,
}
use sink_production_suite.Perf.Worker.{Document, get_or, reconcile}
use sink_production_suite.Perf.Partition.{local_key}
use sink_production_suite.Perf.Slots.{Agrees, reconcile-Agrees, reconcile_slot}
use sink_production_suite.Perf.Verify.{Counted, VerifyCalls, check_workers, is_record, check_record}

module _ {Seen Fields : Type 0} (calls : VerifyCalls Seen Fields) where
  -- The slots of the workers that own a key agree with the record.
  abbrev pub AllAgree : ℕ → Seen → List Counted → Type 0
  AllAgree key seen [] = Unit
  AllAgree key seen (entry ∷ workers) =
      ((slot : ℕ)
        → local_key calls.is_hot entry.index entry.key_count key ≡ some slot
        → Agrees (get_or 0 entry.counts slot) (get_or false entry.pending slot)
            (calls.seen_by seen entry.index))
      × AllAgree key seen workers

  -- The writes of one worker to a key, as the record has them.
  unfoldable pub share : ℕ → Seen → Counted → ℕ
  share key seen entry = elim (local_key calls.is_hot entry.index entry.key_count key) [
    | none ↦ 0
    | some slot ↦ calls.seen_by seen entry.index
  ]

  unfoldable pub total : ℕ → Seen → List Counted → ℕ
  unfolding share
  total key seen [] = 0
  total key seen (entry ∷ workers) = share key seen entry + total key seen workers

  -- The record of a key: every worker's slot agrees, and the value is the sum of the sequences.
  abbrev pub IsReconciled : List Counted → ℕ → Document Seen Fields → Type 0
  IsReconciled workers key stored =
      AllAgree key stored.seen workers
      × (stored.value ≡ total key stored.seen workers % 2 ^ 64)
      × (stored.padding ≡ calls.padding_of key)
      × (calls.has_fields stored.fields ≡ true)

  -- The rounds of the loop over the workers.
  check_workers-none :
      (key : ℕ) (seen : Seen) (entry : Counted) (workers : List Counted) (e r : ℕ)
      → local_key calls.is_hot entry.index entry.key_count key ≡ none
      → check_workers calls key seen (entry ∷ workers) e r
        ≡ check_workers calls key seen workers e r
  unfolding check_workers
  check_workers-none key seen entry workers e r h = rw (h, check_workers) refl

  slot_check : ℕ → Seen → Counted → ℕ → Option (ℕ × Bool)
  slot_check key seen entry slot =
      reconcile (get_or 0 entry.counts slot) (get_or false entry.pending slot)
        (calls.seen_by seen entry.index)

  check_workers-refused :
      (key : ℕ) (seen : Seen) (entry : Counted) (workers : List Counted) (e r slot : ℕ)
      → local_key calls.is_hot entry.index entry.key_count key ≡ some slot
      → slot_check key seen entry slot ≡ none
      → check_workers calls key seen (entry ∷ workers) e r ≡ none
  unfolding check_workers slot_check
  check_workers-refused key seen entry workers e r slot h g = rw (h, g, check_workers) refl

  check_workers-some :
      (key : ℕ) (seen : Seen) (entry : Counted) (workers : List Counted) (e r slot n : ℕ) (b : Bool)
      → local_key calls.is_hot entry.index entry.key_count key ≡ some slot
      → slot_check key seen entry slot ≡ some (n, b)
      → check_workers calls key seen (entry ∷ workers) e r
        ≡ check_workers calls key seen workers
            ((e + n) % 2 ^ 64)
            (if b then (r + 1) % 2 ^ 64 else r)
  unfolding check_workers slot_check
  check_workers-some key seen entry workers e r slot n b h g = rw (h, g, check_workers) refl

  share-none :
      (key : ℕ) (seen : Seen) (entry : Counted)
      → local_key calls.is_hot entry.index entry.key_count key ≡ none
      → share key seen entry ≡ 0
  unfolding share
  share-none key seen entry h = rw (h, share) refl

  share-some :
      (key slot : ℕ) (seen : Seen) (entry : Counted)
      → local_key calls.is_hot entry.index entry.key_count key ≡ some slot
      → share key seen entry ≡ calls.seen_by seen entry.index
  unfolding share
  share-some key slot seen entry h = rw (h, share) refl

  -- Where the slots agree, the loop ends with the sum of the sequences.
  AllAgree-check_workers :
      (key : ℕ) (seen : Seen) (workers : List Counted) (e r : ℕ)
      → e < 2 ^ 64
      → AllAgree key seen workers
      → (q : ℕ) × (check_workers calls key seen workers e r
          ≡ some ((e + total key seen workers) % 2 ^ 64, q))
  unfolding check_workers total slot_check
  AllAgree-check_workers key seen [] e r h a = (r, ap (λ n. some (n, r)) (omega arith))
  AllAgree-check_workers key seen (entry ∷ workers) e r h (own, others) =
      elim (Option-cases (local_key calls.is_hot entry.index entry.key_count key)) [
        | inl gone ↦
            let (q, done) = AllAgree-check_workers key seen workers e r h others in
            (
              q,
              check_workers-none key seen entry workers e r gone
                  ∙ done
                  ∙ ap (λ n. some (n, q)) (omega (arith, share-none key seen entry gone)),
            )
        | inr (slot, there) ↦
            let actual = calls.seen_by seen entry.index in
            let (b, good) =
              reconcile_slot (get_or 0 entry.counts slot) actual (get_or false entry.pending slot)
                (own slot there) in
            let (q, done) =
              AllAgree-check_workers key seen workers ((e + actual) % 2 ^ 64)
                (if b then (r + 1) % 2 ^ 64 else r) (omega arith) others in
            (
              q,
              check_workers-some key seen entry workers e r slot actual b there good
                  ∙ done
                  ∙ ap (λ n. some (n, q)) (omega (arith, share-some key slot seen entry there)),
            )
      ]

  check_workers-AllAgree :
      (key : ℕ) (seen : Seen) (workers : List Counted) (e r : ℕ) (x : ℕ × ℕ)
      → check_workers calls key seen workers e r ≡ some x
      → AllAgree key seen workers
  unfolding slot_check
  check_workers-AllAgree key seen [] e r x h = tt
  check_workers-AllAgree key seen (entry ∷ workers) e r x h =
      elim (Option-cases (local_key calls.is_hot entry.index entry.key_count key)) [
        | inl gone ↦ (
          λ slot there. absurd (cc (gone, there)),
          check_workers-AllAgree key seen workers e r x
              (sym (check_workers-none key seen entry workers e r gone) ∙ h),
        )
        | inr (slot, there) ↦ elim (Option-cases (slot_check key seen entry slot)) [
          | inl bad ↦
              absurd (cc (check_workers-refused key seen entry workers e r slot there bad, h))
          | inr ((n, b), good) ↦ (
            λ slot' there'.
                let same : slot ≡ slot' = some_inj.0 (sym there ∙ there') in
                rw (← same) (reconcile-Agrees _ _ n _ b good),
            check_workers-AllAgree key seen workers ((e + n) % 2 ^ 64)
                (if b then (r + 1) % 2 ^ 64 else r) x
                (sym (check_workers-some key seen entry workers e r slot n b there good) ∙ h),
          )
        ]
      ]

  check_record-none :
      (workers : List Counted) (key : ℕ) (stored : Document Seen Fields) (r : ℕ)
      → check_workers calls key stored.seen workers 0 r ≡ none
      → check_record calls workers key stored r ≡ none
  unfolding check_record
  check_record-none workers key stored r h = rw (h, check_record) refl

  check_record-some :
      (workers : List Counted) (key : ℕ) (stored : Document Seen Fields) (r e c : ℕ)
      → check_workers calls key stored.seen workers 0 r ≡ some (e, c)
      → check_record calls workers key stored r
        ≡ (if is_record calls key e stored then some c else none)
  unfolding check_record
  check_record-some workers key stored r e c h =
      rw (h, check_record)
        (elim (Bool-cases (is_record calls key e stored)) [
          | inl good ↦ rw good refl
          | inr bad ↦ rw bad refl
        ])

  is_record_iff :
      (key e : ℕ) (stored : Document Seen Fields)
      → (is_record calls key e stored ≡ true) ↔ (
          (stored.value ≡ e)
          × (stored.padding ≡ calls.padding_of key)
          × (calls.has_fields stored.fields ≡ true))
  unfolding is_record
  is_record_iff key e stored = ground (arith, eq_iff stored.padding (calls.padding_of key))

  check_record-IsReconciled :
      (workers : List Counted) (key : ℕ) (stored : Document Seen Fields) (r c : ℕ)
      → check_record calls workers key stored r ≡ some c
      → IsReconciled workers key stored
  check_record-IsReconciled workers key stored r c h =
      elim (Option-cases (check_workers calls key stored.seen workers 0 r)) [
        | inl gone ↦ absurd (cc (check_record-none workers key stored r gone, h))
        | inr ((e, q), there) ↦
            let step = check_record-some workers key stored r e q there in
            elim (Bool-cases (is_record calls key e stored)) [
              | inr bad ↦ absurd (cc (step, h, bad))
              | inl good ↦
                  let agree = check_workers-AllAgree key stored.seen workers 0 r (e, q) there in
                  let (v, p, f) = (is_record_iff key e stored).0 good in
                  let (q', sum) =
                    AllAgree-check_workers key stored.seen workers 0 r (omega arith) agree in
                  let same : e ≡ (0 + total key stored.seen workers) % 2 ^ 64 =
                    ap (λ (x : ℕ × ℕ). x.0) (some_inj.0 (sym there ∙ sum)) in
                  (agree, v ∙ same ∙ omega arith, p, f)
            ]
      ]

  -- A record passes just where it is reconciled.
  pub check_record_lem :
      (workers : List Counted) (key : ℕ) (stored : Document Seen Fields) (r : ℕ)
      → ((c : ℕ) × (check_record calls workers key stored r ≡ some c))
        ↔ IsReconciled workers key stored
  check_record_lem workers key stored r = (
    λ (c, h). check_record-IsReconciled workers key stored r c h,
    λ (agree, v, p, f).
        let (q, sum) = AllAgree-check_workers key stored.seen workers 0 r (omega arith) agree in
        let good =
          (is_record_iff key ((0 + total key stored.seen workers) % 2 ^ 64) stored).1
            (v ∙ omega arith, p, f) in
        (q, check_record-some workers key stored r _ q sum ∙ rw good refl),
  )
