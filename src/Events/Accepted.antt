-- ===== src/Events/Accepted.antt =====
-- When `Check` of internal/testevents/events.go accepts.
use sink_production_suite.Prelude.{
  ◌<◌, ◌^◌, String, Bool, true, false, ◌||◌, Option, none, some, List, [], ◌∷◌, ◌≡◌, ◌↔◌, ◌∙◌, sym,
  ap, refl, inl, inr, arith, string_eq, eqb, All, Bool-cases, if◌then◌else◌, length,
}
use sink_production_suite.Events.Map.{Flags, get, first_false, first_false-none, none-first_false}
use sink_production_suite.Events.Model.{
  Event, Decoded, no_tests, package_incomplete, test_incomplete, required_missing, Outcome, ok, err,
  Tally, is_passed, check_required, finish, empty_tally, check,
}
use sink_production_suite.Events.Track.{
  Mark, track, has_closing, AllClosed, track_closed, track-IsMap,
}
use sink_production_suite.Events.Evidence.{run_mark, package_mark, pass_mark, has_mark, IsQualified}
use sink_production_suite.Events.Totals.{counted_lem, length-track, is_passed-track}
use sink_production_suite.Events.Collected.{tallied, collect_lem}

check_required-true :
    (m : Flags) (k : String) (names : List String)
    → is_passed m k ≡ true
    → check_required m (k ∷ names) ≡ check_required m names
unfolding check_required
check_required-true m k names h =
    ap (λ b. elim b [ true ↦ check_required m names | false ↦ err (required_missing k) ]) h

check_required-false :
    (m : Flags) (k : String) (names : List String)
    → is_passed m k ≡ false
    → check_required m (k ∷ names) ≡ err (required_missing k)
unfolding check_required
check_required-false m k names h =
    ap (λ b. elim b [ true ↦ check_required m names | false ↦ err (required_missing k) ]) h

check_required_lem :
    (m : Flags) (names : List String)
    → (check_required m names ≡ ok tt) ↔ All (λ k. is_passed m k ≡ true) names
unfolding check_required
check_required_lem m [] = (λ h. tt, λ h. refl)
check_required_lem m (k ∷ names) =
    let ih = check_required_lem m names in
    elim (Bool-cases (is_passed m k)) [
      | inl hit ↦ (
        λ h. (hit, ih.0 (sym (check_required-true m k names hit) ∙ h)),
        λ (_, h). check_required-true m k names hit ∙ ih.1 h,
      )
      | inr miss ↦ (λ h. cc (h, check_required-false m k names miss), λ (h, _). cc (h, miss))
    ]

-- The checks after the loop, over their results.
abbrev closing : Bool → Option String → Option String → Outcome (Unit {0}) → Outcome (Unit {0})
closing true p s r = err no_tests
closing false (some name) s r = err (package_incomplete name)
closing false none (some name) r = err (test_incomplete name)
closing false none none r = r

closing_lem :
    (e : Bool) (p s : Option String) (r : Outcome (Unit {0}))
    → (closing e p s r ≡ ok tt) ↔ ((e ≡ false) × (p ≡ none) × (s ≡ none) × (r ≡ ok tt))
closing_lem true p s r = (λ h. cc, λ (h, _, _, _). cc)
closing_lem false (some name) s r = (λ h. cc, λ (_, h, _, _). cc)
closing_lem false none (some name) r = (λ h. cc, λ (_, _, h, _). cc)
closing_lem false none none r = (λ h. (refl, refl, refl, h), λ (_, _, _, h). h)

finish-closing :
    (t : Tally) (required : List String)
    → finish t required
      ≡ closing
          (eqb t.tests 0 || eqb (length t.packages) 0)
          (first_false t.packages)
          (first_false t.started)
          (check_required t.passed required)
unfolding finish
finish-closing t required =
    go (eqb t.tests 0 || eqb (length t.packages) 0) (first_false t.packages) (first_false t.started)
  where
    go :
        (e : Bool) (p s : Option String)
        → (if e then err no_tests else elim p [
          | some name ↦ err (package_incomplete name)
          | none ↦ elim s [
            | some name ↦ err (test_incomplete name)
            | none ↦ check_required t.passed required
          ]
        ])
          ≡ closing e p s (check_required t.passed required)
    go true p s = refl
    go false (some name) s = refl
    go false none (some name) = refl
    go false none none = refl

-- The checks after the loop pass just where there is a test and a package, no package and no test is
-- open, and the required tests passed.
finish_lem :
    (t : Tally) (required : List String)
    → (finish t required ≡ ok tt) ↔ (
        ((eqb t.tests 0 || eqb (length t.packages) 0) ≡ false)
        × (first_false t.packages ≡ none)
        × (first_false t.started ≡ none)
        × All (λ k. is_passed t.passed k ≡ true) required)
finish_lem t required =
    let same = finish-closing t required in
    let (there, back) =
      closing_lem (eqb t.tests 0 || eqb (length t.packages) 0) (first_false t.packages)
        (first_false t.started) (check_required t.passed required) in
    let req = check_required_lem t.passed required in
    (
      λ h. let (e, p, s, r) = there (sym same ∙ h) in (e, p, s, req.0 r),
      λ (e, p, s, r). same ∙ back (e, p, s, req.1 r),
    )

-- A map that starts empty has no false value at the end just where what opens is closed after.
first_false-track :
    (mark : Event → Mark) (l : List Decoded)
    → (first_false (track mark [] l) ≡ none) ↔ AllClosed mark l
unfolding get
first_false-track mark l =
    let m = track-IsMap mark [] l tt in
    let (there, back) = track_closed mark [] l in
    (
      λ h. (there (first_false-none (track mark [] l) m h)).1,
      λ h. none-first_false (track mark [] l) m (back (λ k e. cc, h)),
    )

All-iff :
    (P Q : String → Type 0)
    → ((k : String) → P k ↔ Q k)
    → (names : List String) → All P names ↔ All Q names
All-iff P Q h [] = (λ x. x, λ x. x)
All-iff P Q h (k ∷ names) =
    let ih = All-iff P Q h names in (λ (x, y). ((h k).0 x, ih.0 y), λ (x, y). ((h k).1 x, ih.1 y))

-- The checks after a loop from nothing pass just where the events say so.
finish-tallied :
    (l : List Decoded) (required : List String)
    → length l < 2 ^ 64
    → (finish (tallied empty_tally l) required ≡ ok tt) ↔ (
        (has_mark pass_mark l ≡ true)
        × (has_mark package_mark l ≡ true)
        × AllClosed package_mark l
        × AllClosed run_mark l
        × All (λ k. has_closing pass_mark l k ≡ true) required)
unfolding get
finish-tallied l required h =
    let (there, back) = finish_lem (tallied empty_tally l) required in
    let n = counted_lem 0 l (omega arith) in
    let p = length-track package_mark [] l in
    let a = first_false-track package_mark l in
    let b = first_false-track run_mark l in
    let c =
      All-iff (λ k. is_passed (track pass_mark [] l) k ≡ true)
        (λ k. has_closing pass_mark l k ≡ true)
        (λ k.
          let e = is_passed-track [] l k in (λ x. ground (arith, e, x), λ x. e ∙ ground (arith, x)))
        required in
    (
      λ x.
          let (e, u, v, w) = there x in
          (ground (arith, e, n), ground (arith, e, p), a.0 u, b.0 v, c.0 w),
      λ (x, y, u, v, w). back (ground (arith, x, y, n, p), a.1 u, b.1 v, c.1 w),
    )

-- With fewer than 2 ^ 64 events, `Check` returns no error just where every event decodes, none is a
-- failure or a skip, each test that passes ran before, some test passes, some package starts or
-- passes, each package that starts and each test that runs passes later, and each required test
-- passes.
pub check-IsQualified :
    (entries : List Decoded) (required : List String)
    → length entries < 2 ^ 64
    → (check entries required ≡ ok tt) ↔ IsQualified entries required
unfolding check
check-IsQualified l required h = elim (collect_lem empty_tally l refl) [
  | inl (hit, done) ↦
      let step = ap (λ r. elim r [ err p ↦ err p | ok t ↦ finish t required ]) done in
      let (there, back) = finish-tallied l required h in
      (
        λ x. let (a, b, c, d, e) = there (sym step ∙ x) in (hit, a, b, c, d, e),
        λ (_, a, b, c, d, e). step ∙ back (a, b, c, d, e),
      )
  | inr (miss, (p, gone)) ↦
      let step = ap (λ r. elim r [ err p ↦ err p | ok t ↦ finish t required ]) gone in
      (λ x. cc (x, step), λ (x, _, _, _, _, _). cc (x, miss))
]
