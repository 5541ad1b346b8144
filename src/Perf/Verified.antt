-- ===== src/Perf/Verified.antt =====
-- When `verify` of tools/sink-perf/main.go succeeds, where the server answers every read with the records
-- that it holds, or says that they are too many.
use Prim.Native.Nat.{max, min}
use mathlib.Core.Path.{subst}
use sink_production_suite.Prelude.{
  ℕ, zero, suc, ◌+◌, ◌-◌, ◌/◌, ◌<◌, ◌≤◌, true, false, none, some, List, [], ◌∷◌, ◌≡◌, ◌⊎◌, ◌∙◌,
  refl, sym, ap, inl, inr, arith, map, eqb, ltb, lt→ltb, eqb_iff, length, length-map, string_eq,
  Bool-cases, Option-cases,
}
use sink_production_suite.Perf.Worker.{Document}
use sink_production_suite.Perf.Partition.{range_from, length-range_from}
use sink_production_suite.Perf.Verify.{
  Counted, ReadItem, ReadReply, VerifyCalls, check_record, Checked, passed, differs, unread,
  check_results, any_limited, is_limited, Verdict, verified, mismatch, failed, Round, again, next,
  stop, batch_keys, check_reply, verify_round, verify_loop,
}
use sink_production_suite.Perf.Records.{IsReconciled, check_record_lem}

module _ {Seen Fields : Type 0} where
  abbrev pub found : Document Seen Fields → ReadItem Seen Fields
  found stored = record {
    status = "READ_STATUS_FOUND";
    code = "FAILURE_CODE_UNSPECIFIED";
    stored = some stored;
  }

  -- The reply that holds the records of the keys.
  abbrev pub truthful : (ℕ → Document Seen Fields) → List ℕ → ReadReply Seen Fields
  truthful store keys = record { error = none; results = map (λ k. found (store k)) keys }

  any_limited-found :
      (store : ℕ → Document Seen Fields) (keys : List ℕ)
      → any_limited (map (λ k. found (store k)) keys) ≡ false
  unfolding any_limited
  any_limited-found store [] = refl
  any_limited-found store (k ∷ keys) = any_limited-found store keys

  is_limited-truthful :
      (store : ℕ → Document Seen Fields) (keys : List ℕ) → is_limited (truthful store keys) ≡ false
  unfolding is_limited
  is_limited-truthful store keys = any_limited-found store keys

-- A property of each number from one on.
abbrev pub AllFrom : (ℕ → Type 0) → ℕ → ℕ → Type 0
AllFrom P first zero = Unit
AllFrom P first (suc n) = P first × AllFrom P (suc first) n

pub AllFrom-range :
    (P : ℕ → Type 0) (first n : ℕ) → ((k : ℕ) → first ≤ k → k < first + n → P k) → AllFrom P first n
AllFrom-range P first zero h = tt
AllFrom-range P first (suc n) h = (
  h first (omega arith) (omega arith),
  AllFrom-range P (suc first) n (λ k a b. h k (omega arith) (omega arith)),
)

pub AllFrom-at :
    (P : ℕ → Type 0) (first n k : ℕ) → AllFrom P first n → first ≤ k → k < first + n → P k
AllFrom-at P first zero k h a b = absurd (omega arith)
AllFrom-at P first (suc n) k (h, rest) a b = elim (Bool-cases (eqb first k)) [
  | inl here ↦ subst P ((eqb_iff first k).0 here) h
  | inr later ↦ AllFrom-at P (suc first) n k rest (ground (arith, later)) (omega arith)
]

pub Checked-cases : (x : Checked) → ((c : ℕ) × (x ≡ passed c)) ⊎ ((x ≡ differs) ⊎ (x ≡ unread))
Checked-cases (passed c) = inl (c, refl)
Checked-cases differs = inr (inl refl)
Checked-cases unread = inr (inr refl)

module _ {Seen Fields : Type 0} (calls : VerifyCalls Seen Fields)
    (store : ℕ → Document Seen Fields) where
  abbrev pub records_from : ℕ → ℕ → List (ReadItem Seen Fields)
  records_from key n = map (λ k. found (store k)) (range_from key n)

  check_results-none :
      (workers : List Counted) (key n r : ℕ)
      → check_record calls workers key (store key) r ≡ none
      → check_results calls workers key (records_from key (suc n)) r ≡ differs
  unfolding check_results range_from
  check_results-none workers key n r h = rw (h, check_results) refl

  check_results-some :
      (workers : List Counted) (key n r q : ℕ)
      → check_record calls workers key (store key) r ≡ some q
      → check_results calls workers key (records_from key (suc n)) r
        ≡ check_results calls workers (suc key) (records_from (suc key) n) q
  unfolding check_results range_from
  check_results-some workers key n r q h = rw (h, check_results) refl

  check_results-nil :
      (workers : List Counted) (key r : ℕ)
      → check_results calls workers key (records_from key zero) r ≡ passed r
  unfolding check_results range_from
  check_results-nil workers key r = refl

  -- The loop over truthful results passes just where each of their records is reconciled.
  pub check_results-AllFrom :
      (workers : List Counted) (key n r c : ℕ)
      → check_results calls workers key (records_from key n) r ≡ passed c
      → AllFrom (λ k. IsReconciled calls workers k (store k)) key n
  check_results-AllFrom workers key zero r c h = tt
  check_results-AllFrom workers key (suc n) r c h =
      elim (Option-cases (check_record calls workers key (store key) r)) [
        | inl bad ↦ absurd (cc (check_results-none workers key n r bad, h))
        | inr (q, good) ↦ (
          (check_record_lem calls workers key (store key) r).0 (q, good),
          check_results-AllFrom workers (suc key) n q c
              (sym (check_results-some workers key n r q good) ∙ h),
        )
      ]

  pub AllFrom-check_results :
      (workers : List Counted) (key n r : ℕ)
      → AllFrom (λ k. IsReconciled calls workers k (store k)) key n
      → (c : ℕ) × (check_results calls workers key (records_from key n) r ≡ passed c)
  AllFrom-check_results workers key zero r h = (r, check_results-nil workers key r)
  AllFrom-check_results workers key (suc n) r (h, rest) =
      let (q, good) = (check_record_lem calls workers key (store key) r).1 h in
      let (c, done) = AllFrom-check_results workers (suc key) n q rest in
      (c, check_results-some workers key n r q good ∙ done)

  -- The size of a batch.
  abbrev pub size : ℕ → ℕ → ℕ
  size begin batch = min calls.keys (begin + batch) - begin

  pub length-batch_keys :
      (begin batch : ℕ) → length (batch_keys calls begin batch) ≡ size begin batch
  unfolding batch_keys
  length-batch_keys begin batch = length-range_from begin (size begin batch)

  -- A round on a reply that is too large.
  pub verify_round-again :
      (workers : List Counted) (n begin batch r : ℕ)
      → is_limited (calls.read n (batch_keys calls begin batch)) ≡ true
      → 1 < length (batch_keys calls begin batch)
      → verify_round calls workers n begin batch r ≡ again (max 1 (size begin batch / 2))
  unfolding verify_round
  verify_round-again workers n begin batch r h g =
      rw (h, lt→ltb 1 (length (batch_keys calls begin batch)) g, length-batch_keys begin batch) refl

  -- What follows the check of the results.
  abbrev pub after : Checked → Round
  after (passed count) = next count
  after differs = stop mismatch
  after unread = stop failed

  check_reply-truthful :
      (workers : List Counted) (begin batch r : ℕ)
      → check_reply calls workers begin
          (length (batch_keys calls begin batch))
          (truthful store (batch_keys calls begin batch))
          r
        ≡ after (check_results calls workers begin (records_from begin (size begin batch)) r)
  unfolding check_reply batch_keys
  check_reply-truthful workers begin batch r =
      let same = length-map (λ k. found (store k)) (range_from begin (size begin batch)) in
      ap
        (λ b. elim b [
          | false ↦ stop failed
          | true ↦
              elim (check_results calls workers begin (records_from begin (size begin batch)) r) [
                | passed count ↦ next count
                | differs ↦ stop mismatch
                | unread ↦ stop failed
              ]
        ])
        ((eqb_iff _ _).1 same)
      ∙ go (check_results calls workers begin (records_from begin (size begin batch)) r)
    where
      go :
          (x : Checked)
          → (elim x [ passed count ↦ next count | differs ↦ stop mismatch | unread ↦ stop failed ])
            ≡ after x
      go (passed count) = refl
      go differs = refl
      go unread = refl

  pub verify_round-truthful :
      (workers : List Counted) (n begin batch r : ℕ)
      → calls.read n (batch_keys calls begin batch) ≡ truthful store (batch_keys calls begin batch)
      → verify_round calls workers n begin batch r
        ≡ after (check_results calls workers begin (records_from begin (size begin batch)) r)
  unfolding verify_round
  verify_round-truthful workers n begin batch r h =
      rw (h, is_limited-truthful store (batch_keys calls begin batch))
        (check_reply-truthful workers begin batch r)

  pub verify_loop-verified :
      (workers : List Counted) (fuel n begin batch r : ℕ)
      → ltb begin calls.keys ≡ false
      → verify_loop calls workers (suc fuel) n begin batch r ≡ verified r
  unfolding verify_loop
  verify_loop-verified workers fuel n begin batch r h = rw (h, verify_loop) refl

  -- What follows a round.
  abbrev pub loop_after : List Counted → ℕ → ℕ → ℕ → ℕ → ℕ → Round → Verdict
  loop_after workers fuel n begin batch r (again smaller) =
      verify_loop calls workers fuel (suc n) begin smaller r
  loop_after workers fuel n begin batch r (next count) =
      verify_loop calls workers fuel (suc n) (begin + size begin batch) batch count
  loop_after workers fuel n begin batch r (stop v) = v

  pub verify_loop-round :
      (workers : List Counted) (fuel n begin batch r : ℕ)
      → ltb begin calls.keys ≡ true
      → verify_loop calls workers (suc fuel) n begin batch r
        ≡ loop_after workers fuel n begin batch r (verify_round calls workers n begin batch r)
  unfolding verify_loop
  verify_loop-round workers fuel n begin batch r h =
      rw (h, verify_loop) (go (verify_round calls workers n begin batch r))
    where
      go :
          (x : Round)
          → (elim x [
            | again smaller ↦ verify_loop calls workers fuel (suc n) begin smaller r
            | next count ↦
                verify_loop calls workers fuel
                  (suc n)
                  (begin + length (batch_keys calls begin batch))
                  batch
                  count
            | stop v ↦ v
          ])
            ≡ loop_after workers fuel n begin batch r x
      go (again smaller) = refl
      go (next count) = rw (length-batch_keys begin batch) refl
      go (stop v) = refl
