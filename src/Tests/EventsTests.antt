-- ===== src/Tests/EventsTests.antt =====
-- The evidence of one package with one test, and of a test that never ends.
use sink_production_suite.Prelude.{String, List, [], ◌∷◌, ◌≡◌, ◌↔◌, refl, arith}
use sink_production_suite.Events.Map.{get, put, first_false}
use sink_production_suite.Events.Model.{
  Decoded, entry, ok, err, test_incomplete, no_tests, contains_failure, pass_without_run,
  required_missing, classify, pass_test, handle, collect, check_required, finish, check,
}
use sink_production_suite.Events.Evidence.{IsQualified}
use sink_production_suite.Events.Accepted.{check-IsQualified}

abbrev event : String → String → Decoded
event action test = entry (record { action = action; package_ = "p"; test = test })

abbrev good : List Decoded
good =
    event "start" ""
    ∷ event "run" "T"
    ∷ event "output" "T"
    ∷ event "pass" "T"
    ∷ event "pass" ""
    ∷ []

abbrev hanging : List Decoded
hanging = event "run" "S" ∷ good

program : Unit {0}
unfolding get put first_false classify pass_test handle collect check_required finish check
program = tt

good_runs : check good ("T" ∷ []) ≡ ok tt
unfolding program
good_runs = refl

missing_runs : check good ("U" ∷ []) ≡ err (required_missing "U")
unfolding program
missing_runs = refl

hanging_runs : check hanging [] ≡ err (test_incomplete "p/S")
unfolding program
hanging_runs = refl

skipped_runs : check (event "run" "T" ∷ event "skip" "T" ∷ []) [] ≡ err (contains_failure "p/T")
unfolding program
skipped_runs = refl

early_runs : check (event "pass" "T" ∷ []) [] ≡ err (pass_without_run "p/T")
unfolding program
early_runs = refl

empty_runs : check [] [] ≡ err no_tests
unfolding program
empty_runs = refl

check-IsQualified_example : (check good ("T" ∷ []) ≡ ok tt) ↔ IsQualified good ("T" ∷ [])
check-IsQualified_example = check-IsQualified good ("T" ∷ []) (omega arith)
