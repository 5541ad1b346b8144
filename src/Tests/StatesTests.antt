-- ===== src/Tests/StatesTests.antt =====
-- Tests and witnesses for the model of internal/statecheck/model.go.
use native.Mathlib.Nat.{mod-lt}
use sink_production_suite.Prelude.{
  length, All, arith, ℕ, ◌+◌, ◌-◌, ◌%◌, ◌^◌, ◌<◌, ◌≤◌, String, Bool, true, false, ◌&&◌, Option,
  none, some, List, [], ◌∷◌, ◌≡◌, refl, eqb, if◌then◌else◌,
}
use sink_production_suite.States.Model.{Step, Documents}
use sink_production_suite.States.Run.{Client, Progress, run_sequence}
use sink_production_suite.States.Sequences.{Name, pair, seed, pair_sequence, random_sequence, run}
use sink_production_suite.States.Server.{
  outcome, outcomes, perform, answers, deletions, remove_all, readings, IsSequential, after,
}
use sink_production_suite.States.Passes.{run_sequence-IsEven}
use sink_production_suite.States.Detects.{IsChecked}
use sink_production_suite.States.Refines.{run_sequence-IsChecked}
use sink_production_suite.States.Covers.{IsDrawn, on_zero, pair_steps, HasPassed, run-HasPassed}

-- A server whose state is its documents.
abbrev server : Client Documents
server = record {
  write = λ docs os. (some (answers 0 (outcomes os docs)), perform os docs);
  delete = λ docs keys. (some (deletions 0 keys), remove_all keys docs);
  read = λ docs keys. (some (readings 0 keys docs), docs);
}

server-IsSequential : IsSequential server (λ docs. docs)
server-IsSequential = record {
  write_answer = λ s os. refl;
  write_view = λ s os. refl;
  delete_answer = λ s keys. refl;
  delete_view = λ s keys. refl;
  read_answer = λ s keys. refl;
  read_view = λ s keys. refl;
}

abbrev label : ℕ → String
label n = if eqb n 3 then "value-3" else "value"

abbrev first_step : Step
first_step = record { kind = 0; key = 1; value = 3 }

abbrev later_steps : List Step
later_steps =
    record { kind = 3; key = 1; value = 2 ^ 64 - 2 }
    ∷ record { kind = 0; key = 1; value = 5 }
    ∷ record { kind = 4; key = 2; value = 5 }
    ∷ record { kind = 6; key = 0; value = 0 }
    ∷ record { kind = 5; key = 1; value = 0 }
    ∷ record { kind = 3; key = 0; value = 9 }
    ∷ record { kind = 2; key = 1; value = 9 }
    ∷ []

abbrev nothing : Documents
nothing k = none

abbrev start : Progress Documents
start = record { client = nothing; docs = nothing; operations = []; expected = [] }

abbrev result_of : {A : Type 0} → A → Option A → A
result_of a none = a
result_of a (some b) = b

abbrev final : Progress Documents
final = result_of start (run_sequence server label 2 (first_step ∷ later_steps) nothing)

passes : run_sequence server label 2 (first_step ∷ later_steps) nothing ≡ some final
unfolding run_sequence answers outcomes outcome readings perform deletions remove_all
passes = refl

-- A server that loses the second step, in the check of the first call.
abbrev forgetful : Client Documents
forgetful = record server { write = λ docs os. (some (answers 0 (outcomes os docs)), docs) }

fails : run_sequence forgetful label 2 (first_step ∷ later_steps) nothing ≡ none
unfolding run_sequence outcomes answers readings perform outcome
fails = refl

run_sequence-IsEven_example :
    (p : Progress Documents) × (run_sequence server label 2 (first_step ∷ later_steps) nothing
      ≡ some p)
    × (p.operations ≡ [])
    × (p.client ≡ after label (first_step ∷ later_steps) (λ k. none))
    × (p.docs ≡ after label (first_step ∷ later_steps) (λ k. none))
run_sequence-IsEven_example =
    run_sequence-IsEven server (λ docs. docs) server-IsSequential label 2 (first_step ∷ later_steps)
      nothing (omega arith) refl

run_sequence-IsChecked_example :
    (final.operations ≡ [])
    × (final.docs ≡ after label (first_step ∷ later_steps) (λ k. none))
    × IsChecked server nothing final.client final.docs
run_sequence-IsChecked_example =
    run_sequence-IsChecked server nothing label 2 first_step later_steps final passes

-- A server that keeps the documents of one name, and starts anew for another.
abbrev name_beq : Name → Name → Bool
name_beq (pair a b c) (pair x y z) = eqb a x && (eqb b y && eqb c z)
name_beq (pair a b c) seed = false
name_beq seed (pair x y z) = false
name_beq seed seed = true

abbrev held : Name → Name × Documents → Documents
held name s = if name_beq name s.0 then s.1 else nothing

abbrev servers : Name → Client (Name × Documents)
servers name = record {
  write = λ s os. (some (answers 0 (outcomes os (held name s))), (name, perform os (held name s)));
  delete = λ s keys. (some (deletions 0 keys), (name, remove_all keys (held name s)));
  read = λ s keys. (some (readings 0 keys (held name s)), (name, held name s));
}

-- Numbers that grow by five.
abbrev intn : ℕ → ℕ → ℕ × ℕ
intn r n = (r % n, r + 5)

abbrev last_state : Name × Documents
last_state = result_of (seed, nothing) (run intn servers label 3 4 1 (seed, nothing))

all_pass : run intn servers label 3 4 1 (seed, nothing) ≡ some last_state
unfolding run run_sequence pair_sequence answers outcomes outcome readings perform deletions
    remove_all
all_pass = refl

bounded : (t k : ℕ) → 0 < k → (intn t k).0 < k
bounded t k h = mod-lt t h

run-HasPassed_example :
    (1 ≤ 3)
    × (1 ≤ 4)
    × ((first second : ℕ)
        → first < 5
        → second < 5
        → HasPassed intn servers label 3 (pair 0 first second) (pair_steps first second)
          × HasPassed intn servers label 3
              (pair 1 first second)
              (on_zero 1 17 ∷ pair_steps first second))
    × HasPassed intn servers label 3 seed (random_sequence intn 4 1)
    × (length (random_sequence intn 4 1) ≡ 4)
    × All IsDrawn (random_sequence intn 4 1)
run-HasPassed_example =
    run-HasPassed intn servers label 3 4 1 (seed, nothing) last_state bounded all_pass
