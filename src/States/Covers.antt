-- ===== src/States/Covers.antt =====
-- What `Run` of internal/statecheck/model.go has covered where it passes.
use mathlib.Core.Path.{subst}
use sink_production_suite.Prelude.{
  ℕ, zero, suc, ◌+◌, ◌-◌, ◌^◌, ◌<◌, ◌≤◌, String, ◌||◌, none, some, List, [], ◌∷◌, ◌++◌, ◌≡◌, sym,
  refl, arith, ap, ◌%◌, ◌⊎◌, length, ltb→lt, eqb, ltb, eqb_iff, inl, inr, Bool-cases, All,
}
use sink_production_suite.States.Model.{Step}
use sink_production_suite.States.Run.{Client, Progress, run_sequence}
use sink_production_suite.States.Sequences.{
  Name, pair, seed, pair_sequence, numbers, over, pairs, one_pair, pairs_of, pairs_at, random_step,
  random_sequence, run_all, run,
}
use sink_production_suite.States.Server.{after}
use sink_production_suite.States.Verdicts.{bind-some}
use sink_production_suite.States.Detects.{IsChecked}
use sink_production_suite.States.Refines.{run_sequence-IsChecked}

All-append : {A : Type 0} (P : A → Type 0) (l r : List A) → All P (l ++ r) → All P l × All P r
All-append P [] r h = (tt, h)
All-append P (x ∷ l) r (a, h) = let (b, d) = All-append P l r h in ((a, b), d)

All-over :
    {A : Type 0} (P : A → Type 0) (f : ℕ → List A) (n i k : ℕ)
    → All P (over (numbers n i) f)
    → i ≤ k
    → k < i + n
    → All P (f k)
unfolding over numbers
All-over P f zero i k h a b = absurd (omega arith)
All-over P f (suc n) i k h a b =
    let (here, there) = All-append P (f i) (over (numbers n (suc i)) f) h in
    elim (Bool-cases (eqb k i)) [
      | inl e ↦ subst (λ j. All P (f j)) (sym ((eqb_iff k i).0 e)) here
      | inr e ↦ All-over P f n (suc i) k there (ground (arith, eqb_iff k i, e)) (omega arith)
    ]

-- The step of kind `kind` on key 0.
abbrev pub on_zero : ℕ → ℕ → Step
on_zero kind value = record { kind = kind; key = 0; value = value }

-- The two steps of a pair, with the values 3 and -2.
abbrev pub pair_steps : ℕ → ℕ → List Step
pair_steps first second = on_zero first 3 ∷ on_zero second (2 ^ 64 - 2) ∷ []

-- A step that `Run` may draw: its kind below 7, its key below 3, its value from -9 to 9.
abbrev pub IsDrawn : Step → Type 0
IsDrawn step = (step.kind < 7) × (step.key < 3) × ((step.value < 10) ⊎ (2 ^ 64 - 9 ≤ step.value))

value_drawn :
    (v : ℕ) → v < 19 → ((v + 2 ^ 64 - 9) % 2 ^ 64 < 10) ⊎ (2 ^ 64 - 9 ≤ (v + 2 ^ 64 - 9) % 2 ^ 64)
value_drawn v h = elim (Bool-cases (ltb v 9)) [
  | inl low ↦ let below = ltb→lt v 9 low in inr (omega arith)
  | inr high ↦ let above : 9 ≤ v = ground (arith, high) in inl (omega arith)
]

module _ {R S : Type 0} (intn : R → ℕ → ℕ × R) (clients : Name → Client S) (label : ℕ → String)
    (batch : ℕ) where
  -- The sequence of a name passed, and each of its answers was that of a sequential server.
  abbrev pub HasPassed : Name → List Step → Type 0
  HasPassed name steps =
      (s : S) × (p : Progress S) × (run_sequence (clients name) label batch steps s ≡ some p)
      × (p.docs ≡ after label steps (λ k. none))
      × IsChecked (clients name) s p.client p.docs

  abbrev IsRun : Name × List Step → Type 0
  IsRun x = (s : S) × (p : Progress S) × (run_sequence (clients x.0) label batch x.1 s ≡ some p)

  run_all-IsRun :
      (l : List (Name × List Step)) (s s' : S)
      → run_all intn clients label batch l s ≡ some s'
      → All IsRun l
  unfolding run_all
  run_all-IsRun [] s s' h = tt
  run_all-IsRun ((name, steps) ∷ rest) s s' h =
      let (p, a, b) = bind-some (run_sequence (clients name) label batch steps s) _ s' h in
      ((s, p, a), run_all-IsRun rest p.client s' b)

  checked :
      (name : Name) (step : Step) (rest : List Step)
      → IsRun (name, step ∷ rest)
      → HasPassed name (step ∷ rest)
  checked name step rest (s, p, a) =
      let (_, docs, seen) = run_sequence-IsChecked (clients name) s label batch step rest p a in
      (s, p, a, docs, seen)

  absent-HasPassed :
      (first second : ℕ)
      → IsRun (pair 0 first second, pair_sequence 0 first second)
      → HasPassed (pair 0 first second) (pair_steps first second)
  unfolding pair_sequence
  absent-HasPassed first second h =
      checked (pair 0 first second) (on_zero first 3) (on_zero second (2 ^ 64 - 2) ∷ []) h

  present-HasPassed :
      (first second : ℕ)
      → IsRun (pair 1 first second, pair_sequence 1 first second)
      → HasPassed (pair 1 first second) (on_zero 1 17 ∷ pair_steps first second)
  unfolding pair_sequence
  present-HasPassed first second h =
      checked (pair 1 first second) (on_zero 1 17) (pair_steps first second) h

  length-random_sequence : (n : ℕ) (r : R) → length (random_sequence intn n r) ≡ n
  unfolding random_sequence
  length-random_sequence zero r = refl
  length-random_sequence (suc n) r = ap suc (length-random_sequence n (random_step intn r).1)

  random_sequence-IsDrawn :
      (n : ℕ) (r : R)
      → ((t : R) (k : ℕ) → 0 < k → (intn t k).0 < k)
      → All IsDrawn (random_sequence intn n r)
  unfolding random_sequence random_step
  random_sequence-IsDrawn zero r bounded = tt
  random_sequence-IsDrawn (suc n) r bounded =
      let r1 = (intn r 7).1 in
      let r2 = (intn r1 3).1 in
      let value = bounded r2 19 (omega arith) in
      (
        (bounded r 7 (omega arith), bounded r1 3 (omega arith), value_drawn (intn r2 19).0 value),
        random_sequence-IsDrawn n (random_step intn r).1 bounded,
      )

  random-HasPassed :
      (n : ℕ) (r : R)
      → 1 ≤ n
      → IsRun (seed, random_sequence intn n r)
      → HasPassed seed (random_sequence intn n r)
  unfolding random_sequence
  random-HasPassed zero r h passed = absurd (omega arith)
  random-HasPassed (suc n) r h passed = checked seed _ _ passed

  pair-IsRun :
      (present first second : ℕ)
      → All IsRun pairs
      → present < 2
      → first < 5
      → second < 5
      → IsRun (pair present first second, pair_sequence present first second)
  unfolding pairs
  pair-IsRun present first second all a b d =
      let one = All-over IsRun pairs_at 2 0 present all (omega arith) (omega arith) in
      let two = All-over IsRun (pairs_of present) 5 0 first one (omega arith) (omega arith) in
      let (three, _) =
        All-over IsRun (one_pair present first) 5 0 second two (omega arith) (omega arith) in
      three

  -- Where `Run` passes, with numbers below their bounds as the source of random ones gives them, it has at
  -- least one step and one operation in a call. For each two kinds below 5 it ran a step of the first with
  -- value 3 and one of the second with value -2, both on key 0, alone and after an upsert of 17 on that
  -- key; and it ran as many random steps as it was asked for, of kinds below 7, on keys below 3, with values
  -- from -9 to 9. Each of these sequences passed, and its answers were those of a sequential server.
  pub run-HasPassed :
      (n : ℕ) (random : R) (s s' : S)
      → ((t : R) (k : ℕ) → 0 < k → (intn t k).0 < k)
      → run intn clients label batch n random s ≡ some s'
      → (1 ≤ batch)
        × (1 ≤ n)
        × ((first second : ℕ)
            → first < 5
            → second < 5
            → HasPassed (pair 0 first second) (pair_steps first second)
              × HasPassed (pair 1 first second) (on_zero 1 17 ∷ pair_steps first second))
        × HasPassed seed (random_sequence intn n random)
        × (length (random_sequence intn n random) ≡ n)
        × All IsDrawn (random_sequence intn n random)
  unfolding run
  run-HasPassed n random s s' bounded h = elim (Bool-cases (ltb batch 1 || ltb n 1)) [
    | inl bad ↦ absurd (cc (bad, h))
    | inr good ↦
        let n1 : 1 ≤ n = ground (arith, good) in
        let last_run : List (Name × List Step) = (seed, random_sequence intn n random) ∷ [] in
        let all = run_all-IsRun (pairs ++ last_run) s s' (cc (good, h)) in
        let (these, (last, _)) = All-append IsRun pairs last_run all in
        (
          ground (arith, good),
          n1,
          λ first second a b. (
            absent-HasPassed first second (pair-IsRun 0 first second these (omega arith) a b),
            present-HasPassed first second (pair-IsRun 1 first second these (omega arith) a b),
          ),
          random-HasPassed n random n1 last,
          length-random_sequence n random,
          random_sequence-IsDrawn n random bounded,
        )
  ]
