-- ===== src/Perf/Reconciled.antt =====
-- `verify` of tools/sink-perf/main.go ends, and succeeds just where every record is reconciled.
use Prim.Native.Nat.{max}
use mathlib.Core.Path.{subst}
use sink_production_suite.Prelude.{
  ℕ, zero, suc, ◌+◌, ◌-◌, ◌/◌, ◌<◌, ◌≤◌, true, List, ◌≡◌, ◌⊎◌, ◌∙◌, refl, sym, ap, inl, inr, arith,
  ltb, ltb→lt, length, Bool-cases,
}
use sink_production_suite.Perf.Worker.{Document}
use sink_production_suite.Perf.Verify.{
  Counted, VerifyCalls, check_results, is_limited, Verdict, verified, mismatch, failed, batch_keys,
  verify_loop, first_batch, verify,
}
use sink_production_suite.Perf.Records.{IsReconciled}
use sink_production_suite.Perf.Verified.{
  AllFrom, AllFrom-range, AllFrom-at, Checked-cases, truthful, records_from, size, after,
  loop_after, check_results-AllFrom, AllFrom-check_results, length-batch_keys, verify_round-again,
  verify_round-truthful, verify_loop-verified, verify_loop-round,
}

module _ {Seen Fields : Type 0} (calls : VerifyCalls Seen Fields)
    (store : ℕ → Document Seen Fields) where
  -- The server answers a read with the records that it holds, or says of several that they are too
  -- many for one reply.
  abbrev pub IsHonest : Type 0
  IsHonest =
      (n : ℕ) (keys : List ℕ)
      → (calls.read n keys ≡ truthful store keys)
        ⊎ ((is_limited (calls.read n keys) ≡ true) × (1 < length keys))

  -- All records from one on.
  abbrev RestReconciled : List Counted → ℕ → Type 0
  RestReconciled workers begin =
      (k : ℕ) → begin ≤ k → k < calls.keys → IsReconciled calls workers k (store k)

  size_bounds :
      (begin batch : ℕ)
      → begin < calls.keys
      → 1 ≤ batch
      → (1 ≤ size calls store begin batch)
        × (size calls store begin batch ≤ batch)
        × (begin + size calls store begin batch ≤ calls.keys)
  size_bounds begin batch h g = (omega arith, omega arith, omega arith)

  -- The verdict of the loop, whatever batch it starts with.
  Ends : List Counted → ℕ → Verdict → Type 0
  Ends workers begin v =
      (((c : ℕ) × (v ≡ verified c)) × RestReconciled workers begin)
      ⊎ (((v ≡ mismatch) ⊎ (v ≡ failed)) × (RestReconciled workers begin → ⊥))

  -- The records before the next batch are reconciled too.
  Ends-next :
      (workers : List Counted) (begin m : ℕ) (v : Verdict)
      → begin + m ≤ calls.keys
      → AllFrom (λ k. IsReconciled calls workers k (store k)) begin m
      → Ends workers (begin + m) v
      → Ends workers begin v
  unfolding Ends
  Ends-next workers begin m v h now (inl (done, later)) = inl (
    done,
    λ k a b. elim (Bool-cases (ltb k (begin + m))) [
      | inl inside ↦ AllFrom-at _ begin m k now a (ltb→lt k (begin + m) inside)
      | inr outside ↦ later k (ground (arith, outside)) b
    ],
  )
  Ends-next workers begin m v h now (inr (bad, wrong)) =
      inr (bad, λ all. wrong (λ k a b. all k (omega arith) b))

  -- A round that does not pass.
  Ends-bad :
      (workers : List Counted) (begin m : ℕ) (v : Verdict)
      → begin + m ≤ calls.keys
      → (AllFrom (λ k. IsReconciled calls workers k (store k)) begin m → ⊥)
      → ((v ≡ mismatch) ⊎ (v ≡ failed))
      → Ends workers begin v
  unfolding Ends
  Ends-bad workers begin m v h wrong bad =
      inr (bad, λ all. wrong (AllFrom-range _ begin m (λ k a b. all k a (omega arith))))

  Ends-over :
      (workers : List Counted) (begin r : ℕ) → calls.keys ≤ begin → Ends workers begin (verified r)
  unfolding Ends
  Ends-over workers begin r h = inl ((r, refl), λ k a b. absurd (omega arith))

  verify_loop_lem :
      (workers : List Counted) (fuel n begin batch r : ℕ)
      → IsHonest
      → 1 ≤ batch
      → (calls.keys - begin) + batch < fuel
      → Ends workers begin (verify_loop calls workers fuel n begin batch r)
  verify_loop_lem workers zero n begin batch r honest b f = absurd (omega arith)
  verify_loop_lem workers (suc fuel) n begin batch r honest b f =
      elim (Bool-cases (ltb begin calls.keys)) [
        | inr over ↦
            subst (Ends workers begin)
              (sym (verify_loop-verified calls store workers fuel n begin batch r over))
              (Ends-over workers begin r (ground (arith, over)))
        | inl more ↦
            let m = size calls store begin batch in
            let (m1, m2, m3) = size_bounds begin batch (ltb→lt begin calls.keys more) b in
            let step = verify_loop-round calls store workers fuel n begin batch r more in
            elim (honest n (batch_keys calls begin batch)) [
              | inr (large, several) ↦
                  let several' : 1 < m =
                    omega (arith, several, length-batch_keys calls store begin batch) in
                  let round =
                    verify_round-again calls store workers n begin batch r large several in
                  subst (Ends workers begin)
                    (sym (step ∙ ap (loop_after calls store workers fuel n begin batch r) round))
                    (verify_loop_lem workers fuel (suc n) begin (max 1 (m / 2)) r honest
                      (omega arith) (omega arith))
              | inl truth ↦
                  let round = verify_round-truthful calls store workers n begin batch r truth in
                  let x = check_results calls workers begin (records_from calls store begin m) r in
                  let whole =
                    step ∙ ap (loop_after calls store workers fuel n begin batch r) round in
                  subst (Ends workers begin) (sym whole) (elim (Checked-cases x) [
                    | inl (c, good) ↦
                        subst
                          (λ y. Ends workers begin (
                            loop_after calls store workers fuel n begin batch r
                              (after calls store y)))
                          (sym good)
                          (Ends-next workers begin m _ m3
                            (check_results-AllFrom calls store workers begin m r c good)
                            (verify_loop_lem workers fuel (suc n) (begin + m) batch c honest b
                              (omega arith)))
                    | inr bad ↦
                        Ends-bad workers begin m _ m3
                          (λ all.
                            let (c, good) =
                              AllFrom-check_results calls store workers begin m r all in
                            elim bad [ inl e ↦ cc (good, e) | inr e ↦ cc (good, e) ])
                          (elim bad [
                            | inl e ↦ inl (
                                ap
                                  (λ y.
                                    loop_after calls store workers fuel n begin batch r
                                      (after calls store y))
                                  e)
                            | inr e ↦ inr (
                                ap
                                  (λ y.
                                    loop_after calls store workers fuel n begin batch r
                                      (after calls store y))
                                  e)
                          ])
                  ])
            ]
      ]

  -- Where the server answers truly, `verify` ends, and succeeds just where the record of every key is
  -- reconciled: each worker that owns the key agrees with it, its value is the sum of the workers'
  -- sequences, and its padding and its fields are those that were written.
  pub verify-IsReconciled :
      (workers : List Counted)
      → IsHonest
      → (((c : ℕ) × (verify calls workers ≡ verified c))
          × ((k : ℕ) → k < calls.keys → IsReconciled calls workers k (store k)))
        ⊎ (((verify calls workers ≡ mismatch) ⊎ (verify calls workers ≡ failed))
            × (((k : ℕ) → k < calls.keys → IsReconciled calls workers k (store k)) → ⊥))
  unfolding verify Ends
  verify-IsReconciled workers honest =
      elim (verify_loop_lem workers (calls.keys + 129) 0 0 (first_batch calls) 0 honest
        (omega arith) (omega arith)) [
          | inl (done, all) ↦ inl (done, λ k h. all k (omega arith) h)
          | inr (bad, wrong) ↦ inr (bad, λ all. wrong (λ k a h. all k h))
        ]
