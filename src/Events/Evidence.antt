-- ===== src/Events/Evidence.antt =====
-- What the evidence of `Check` in internal/testevents/events.go should say: what each event tells of
-- a run, a package and a test, and when a test passes only after it ran.
use sink_production_suite.Prelude.{
  String, Bool, true, false, ◌&&◌, ◌||◌, none, some, List, [], ◌∷◌, ◌≡◌, All, ◌==◌, string_eq,
  contains, if◌then◌else◌,
}
use sink_production_suite.Events.Model.{
  Event, Decoded, entry, broken, Action, start, run, bad, pass, ignored, classify, key_of,
}
use sink_production_suite.Events.Track.{Mark, has_closing, AllClosed}

-- A test runs, and passes.
abbrev pub run_case : Action → Event → Mark
run_case start e = none
run_case run e = some (key_of e, false)
run_case bad e = none
run_case pass e = if e.test == "" then none else some (key_of e, true)
run_case ignored e = none

-- A package starts, and passes.
abbrev pub package_case : Action → Event → Mark
package_case start e = some (e.package_, false)
package_case run e = none
package_case bad e = none
package_case pass e = if e.test == "" then some (e.package_, true) else none
package_case ignored e = none

-- A test of this name passes.
abbrev pub pass_case : Action → Event → Mark
pass_case start e = none
pass_case run e = none
pass_case bad e = none
pass_case pass e = if e.test == "" then none else some (e.test, true)
pass_case ignored e = none

abbrev pub run_mark : Event → Mark
run_mark e = run_case (classify e.action) e

abbrev pub package_mark : Event → Mark
package_mark e = package_case (classify e.action) e

abbrev pub pass_mark : Event → Mark
pass_mark e = pass_case (classify e.action) e

-- Whether the event may stand where the tests of the list ran before.
abbrev pub may_stand : Action → Event → List String → Bool
may_stand start e seen = true
may_stand run e seen = true
may_stand bad e seen = false
may_stand pass e seen = e.test == "" || contains seen (key_of e)
may_stand ignored e seen = true

abbrev pub ran : Action → Event → List String → List String
ran start e seen = seen
ran run e seen = key_of e ∷ seen
ran bad e seen = seen
ran pass e seen = seen
ran ignored e seen = seen

-- Every entry decodes, nothing fails or is skipped, and each test that passes ran before.
unfoldable pub is_in_order : List String → List Decoded → Bool
is_in_order seen [] = true
is_in_order seen (broken ∷ rest) = false
is_in_order seen (entry e ∷ rest) =
    may_stand (classify e.action) e seen && is_in_order (ran (classify e.action) e seen) rest

-- Whether some event has a mark.
abbrev pub is_marked : Mark → Bool
is_marked none = false
is_marked (some _) = true

unfoldable pub has_mark : (Event → Mark) → List Decoded → Bool
has_mark mark [] = false
has_mark mark (broken ∷ rest) = has_mark mark rest
has_mark mark (entry e ∷ rest) = is_marked (mark e) || has_mark mark rest

-- The evidence that qualifies.
abbrev pub IsQualified : List Decoded → List String → Type 0
IsQualified entries required =
    (is_in_order [] entries ≡ true)
    × (has_mark pass_mark entries ≡ true)
    × (has_mark package_mark entries ≡ true)
    × AllClosed package_mark entries
    × AllClosed run_mark entries
    × All (λ name. has_closing pass_mark entries name ≡ true) required
