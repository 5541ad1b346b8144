-- ===== src/Events/Model.antt =====
-- `Check` of internal/testevents/events.go. The JSON decoder is not modelled: its results are a
-- list, which ends at the end of the input. `tests` is an `int`, a number below 2 ^ 64 here.
use Prim.Native.String.{◌++◌ as str_append}
use sink_production_suite.Prelude.{
  ℕ, ◌+◌, ◌%◌, ◌^◌, String, Bool, true, false, ◌||◌, none, some, List, [], ◌∷◌, ◌==◌, string_eq,
  eqb, length, if◌then◌else◌,
}
use sink_production_suite.Events.Map.{Flags, get, put, first_false}

pub record Event : Type 0 where
  pub action : String
  pub package_ : String
  pub test : String

-- What one call of `Decode` gives before the end of the input.
pub data Decoded : Type 0 where
  entry : Event → Decoded
  broken : Decoded

pub data Problem : Type 0 where
  bad_json no_tests : Problem
  contains_failure pass_without_run package_incomplete test_incomplete required_missing :
      String → Problem

pub data Outcome {ℓ} (A : Type ℓ) : Type ℓ where
  ok : A → Outcome A
  err : Problem → Outcome A

-- The cases of the switch on `entry.Action`.
pub data Action : Type 0 where
  start run bad pass ignored : Action

unfoldable pub classify : String → Action
classify a =
    if a == "start"
    then start
    else if a == "run"
    then run
    else if a == "skip" || (a == "fail" || a == "build-fail")
    then bad
    else if a == "pass"
    then pass
    else ignored

-- The four variables of the loop.
pub record Tally : Type 0 where
  pub started : Flags
  pub passed : Flags
  pub packages : Flags
  pub tests : ℕ

abbrev pub key_of : Event → String
key_of e = str_append (str_append e.package_ "/") e.test

-- The case "pass" for a test.
unfoldable pub pass_test : Event → Tally → Outcome Tally
pass_test e t = elim (get t.started (key_of e)) [
  | none ↦ err (pass_without_run (key_of e))
  | some _ ↦ ok (record t {
    started = put t.started (key_of e) true;
    passed = put t.passed e.test true;
    tests = (t.tests + 1) % 2 ^ 64;
  })
]

-- The switch.
unfoldable pub handle : Action → Event → Tally → Outcome Tally
unfolding pass_test
handle start e t = ok (record t { packages = put t.packages e.package_ false })
handle run e t = ok (record t { started = put t.started (key_of e) false })
handle bad e t = err (contains_failure (key_of e))
handle pass e t =
    if e.test == ""
    then ok (record t { packages = put t.packages e.package_ true })
    else pass_test e t
handle ignored e t = ok t

-- The loop.
unfoldable pub collect : Tally → List Decoded → Outcome Tally
unfolding handle classify
collect t [] = ok t
collect t (broken ∷ rest) = err bad_json
collect t (entry e ∷ rest) = elim (handle (classify e.action) e t) [
  | ok t' ↦ collect t' rest
  | err p ↦ err p
]

-- `passed[name]`.
abbrev pub is_passed : Flags → String → Bool
is_passed m k = elim (get m k) [ some b ↦ b | none ↦ false ]

unfoldable pub check_required : Flags → List String → Outcome (Unit {0})
check_required passed [] = ok tt
check_required passed (name ∷ rest) = elim (is_passed passed name) [
  | true ↦ check_required passed rest
  | false ↦ err (required_missing name)
]

-- The checks after the loop.
unfoldable pub finish : Tally → List String → Outcome (Unit {0})
unfolding check_required first_false
finish t required =
    if eqb t.tests 0 || eqb (length t.packages) 0
    then err no_tests
    else elim (first_false t.packages) [
      | some name ↦ err (package_incomplete name)
      | none ↦ elim (first_false t.started) [
        | some name ↦ err (test_incomplete name)
        | none ↦ check_required t.passed required
      ]
    ]

abbrev pub empty_tally : Tally
empty_tally = record { started = []; passed = []; packages = []; tests = 0 }

unfoldable pub check : List Decoded → List String → Outcome (Unit {0})
unfolding collect finish
check entries required = elim (collect empty_tally entries) [
  | err p ↦ err p
  | ok t ↦ finish t required
]
