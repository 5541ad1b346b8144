-- ===== src/States/Sequences.antt =====
-- `Run` of internal/statecheck/model.go: the sequences of steps, and their runs one after the other. The
-- source of random numbers is a parameter, and so is the client for the keys of each sequence's name.
use sink_production_suite.Prelude.{
  ℕ, zero, suc, ◌+◌, ◌-◌, ◌%◌, ◌^◌, String, ◌||◌, Option, none, some, List, [], ◌∷◌, ◌++◌, eqb, ltb,
  if◌then◌else◌,
}
use sink_production_suite.States.Model.{Step}
use sink_production_suite.States.Run.{◌>>=◌, Client, run_sequence}

-- The name of a sequence: `pair-%d-%d-%d` or `seed-%d`.
pub data Name : Type 0 where
  pair : ℕ → ℕ → ℕ → Name
  seed : Name

unfoldable pub pair_sequence : ℕ → ℕ → ℕ → List Step
pair_sequence present first second =
    (if eqb present 1 then record { kind = 1; key = 0; value = 17 } ∷ [] else [])
    ++ (record { kind = first; key = 0; value = 3 }
        ∷ record { kind = second; key = 0; value = 2 ^ 64 - 2 }
        ∷ [])

-- The numbers from `i` on, `n` of them.
unfoldable pub numbers : ℕ → ℕ → List ℕ
numbers zero i = []
numbers (suc n) i = i ∷ numbers n (suc i)

-- The results of a loop's body over the numbers below `n`, one after the other.
unfoldable pub over : {A : Type 0} → List ℕ → (ℕ → List A) → List A
over [] f = []
over (i ∷ rest) f = f i ++ over rest f

abbrev pub one_pair : ℕ → ℕ → ℕ → List (Name × List Step)
one_pair present first second = (pair present first second, pair_sequence present first second) ∷ []

-- The two inner loops of `Run`.
abbrev pub pairs_of : ℕ → ℕ → List (Name × List Step)
pairs_of present first = over (numbers 5 0) (one_pair present first)

abbrev pub pairs_at : ℕ → List (Name × List Step)
pairs_at present = over (numbers 5 0) (pairs_of present)

unfoldable pub pairs : List (Name × List Step)
unfolding over numbers
pairs = over (numbers 2 0) pairs_at

module _ {R : Type 0} (intn : R → ℕ → ℕ × R) where
  unfoldable pub random_step : R → Step × R
  random_step r =
      let (kind, r1) = intn r 7 in
      let (key, r2) = intn r1 3 in
      let (value, r3) = intn r2 19 in
      (record { kind = kind; key = key; value = (value + 2 ^ 64 - 9) % 2 ^ 64 }, r3)

  unfoldable pub random_sequence : ℕ → R → List Step
  unfolding random_step
  random_sequence zero r = []
  random_sequence (suc n) r = (random_step r).0 ∷ random_sequence n (random_step r).1

  module _ {S : Type 0} (clients : Name → Client S) (label : ℕ → String) (batch_size : ℕ) where
    unfoldable pub run_all : List (Name × List Step) → S → Option S
    run_all [] s = some s
    run_all ((name, steps) ∷ rest) s =
        run_sequence (clients name) label batch_size steps s >>= λ p. run_all rest p.client

    unfoldable pub run : ℕ → R → S → Option S
    unfolding run_all pairs random_sequence
    run steps random s =
        if ltb batch_size 1 || ltb steps 1
        then none
        else run_all (pairs ++ ((seed, random_sequence steps random) ∷ [])) s
