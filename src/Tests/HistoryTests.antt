-- ===== src/Tests/HistoryTests.antt =====
-- internal/historycheck/history_test.go: the histories of its tests.
use sink_production_suite.Prelude.{ℕ, true, false, List, [], ◌∷◌, ◌≡◌, ◌≢◌, ◌↔◌, refl}
use sink_production_suite.Prelude.Int.{pos}
use sink_production_suite.History.Model.{
  Kind, State, Result, Entry, absent, outcome, read, set, create, add, result_beq,
}
use sink_production_suite.History.Search.{
  check, step, accepted, failed, out_of_fuel, no_legal_order, bad_length, invalid_entry,
}
use sink_production_suite.History.Model.{apply}
use sink_production_suite.History.Legal.{IsExplanation}
use sink_production_suite.History.Verdicts.{
  IsSearched, IsWellFormed, check_sound, check_complete, check_searches_iff, check-total,
}

program : Unit {0}
unfolding check step apply result_beq
program = tt

abbrev found : ℕ → State
found n = record { found = true; counter = n }

abbrev read_of : State → Result
read_of s = record { applied = false; conflict = false; state = s }

abbrev call : ℕ → ℕ → ℕ → Kind → ℕ → Result → Entry
call i s e k n r = record {
  id = pos i;
  client = pos 0;
  start = pos s;
  end = pos e;
  kind = k;
  input = n;
  result = r;
}

-- The only valid order is not that of the list.
abbrev backtracking : List Entry
backtracking =
    call 0 1 6 set 2 (outcome true)
    ∷ call 1 2 5 create 1 (outcome true)
    ∷ call 2 3 4 read 0 (read_of (found 1))
    ∷ []

abbrev lost_increment : List Entry
lost_increment =
    call 0 1 4 add 1 (outcome true)
    ∷ call 1 2 3 add 1 (outcome true)
    ∷ call 2 5 6 read 0 (read_of (found 1))
    ∷ []

backtracking_accepted : check absent backtracking ≡ accepted
unfolding program
backtracking_accepted = refl

lost_increment_rejected : check absent lost_increment ≡ failed no_legal_order
unfolding program
lost_increment_rejected = refl

empty_rejected : check absent [] ≡ failed bad_length
unfolding program
empty_rejected = refl

incomplete_rejected :
    check absent (call 0 1 0 read 0 (read_of absent) ∷ []) ≡ failed (invalid_entry 0)
unfolding program
incomplete_rejected = refl

check_sound_example : (order : List ℕ) × IsExplanation backtracking absent order
check_sound_example = check_sound absent backtracking backtracking_accepted

check_complete_example : ¬ IsExplanation lost_increment absent (0 ∷ 1 ∷ 2 ∷ [])
check_complete_example =
    check_complete absent lost_increment lost_increment_rejected (0 ∷ 1 ∷ 2 ∷ [])

check_searches_iff_example :
    IsSearched (check absent backtracking) ↔ IsWellFormed absent backtracking
check_searches_iff_example = check_searches_iff absent backtracking

check-total_example : check absent lost_increment ≢ out_of_fuel
check-total_example = check-total absent lost_increment
