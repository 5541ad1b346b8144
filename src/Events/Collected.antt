-- ===== src/Events/Collected.antt =====
-- The loop of `Check` in internal/testevents/events.go: what its four variables hold after it.
use sink_production_suite.Prelude.{
  ℕ, ◌+◌, ◌%◌, ◌^◌, String, Bool, true, false, Option, none, some, List, [], ◌∷◌, ◌≡◌, ◌∙◌, ap,
  refl, inl, inr, arith, eq_iff, ◌==◌, string_eq, contains, Bool-cases, Option-cases, ◌⊎◌,
}
use sink_production_suite.Events.Map.{Flags, get, put, get-put}
use sink_production_suite.Events.Model.{
  Event, Decoded, entry, broken, Problem, ok, err, pass_without_run, Action, start, run, bad, pass,
  ignored, classify, Tally, key_of, pass_test, handle, collect,
}
use sink_production_suite.Events.Track.{Mark, set_mark, track}
use sink_production_suite.Events.Evidence.{
  run_case, package_case, pass_case, run_mark, package_mark, pass_mark, may_stand, ran, is_in_order,
}

abbrev is_there : Option Bool → Bool
is_there none = false
is_there (some b) = true

-- The keys of `started` are those of the tests that ran.
abbrev Sees : List String → Flags → Type 0
Sees seen m = (k : String) → is_there (get m k) ≡ contains seen k

abbrev pub more : Mark → ℕ → ℕ
more none n = n
more (some _) n = (n + 1) % 2 ^ 64

-- The variables after one event.
abbrev next : Action → Event → Tally → Tally
next a e t = record {
  started = set_mark t.started (run_case a e);
  passed = set_mark t.passed (pass_case a e);
  packages = set_mark t.packages (package_case a e);
  tests = more (pass_case a e) t.tests;
}

Sees-next :
    (a : Action) (e : Event) (t : Tally) (seen : List String)
    → Sees seen t.started
    → may_stand a e seen ≡ true
    → Sees (ran a e seen) (next a e t).started
unfolding set_mark
Sees-next start e t seen s h k = s k
Sees-next run e t seen s h k =
    ground
      (arith, get-put t.started (key_of e) k false, s k, eq_iff (key_of e) k, eq_iff k (key_of e))
Sees-next bad e t seen s h k = s k
Sees-next pass e t seen s h k = elim (Bool-cases (e.test == "")) [
  | inl hit ↦ ground (arith, hit, s k)
  | inr miss ↦
      ground (
        arith,
        miss,
        h,
        get-put t.started (key_of e) k true,
        s k,
        s (key_of e),
        eq_iff (key_of e) k,
      )
]
Sees-next ignored e t seen s h k = s k

pass_test-some :
    (e : Event) (t : Tally) (b : Bool)
    → get t.started (key_of e) ≡ some b
    → pass_test e t
      ≡ ok (record t {
        started = put t.started (key_of e) true;
        passed = put t.passed e.test true;
        tests = (t.tests + 1) % 2 ^ 64;
      })
unfolding pass_test
pass_test-some e t b h =
    ap
      (λ o. elim o [
        | none ↦ err (pass_without_run (key_of e))
        | some _ ↦ ok (record t {
          started = put t.started (key_of e) true;
          passed = put t.passed e.test true;
          tests = (t.tests + 1) % 2 ^ 64;
        })
      ])
      h

pass_test-none :
    (e : Event) (t : Tally)
    → get t.started (key_of e) ≡ none
    → pass_test e t ≡ err (pass_without_run (key_of e))
unfolding pass_test
pass_test-none e t h = rw (pass_test, h) refl

handle-may_stand :
    (a : Action) (e : Event) (t : Tally) (seen : List String)
    → Sees seen t.started
    → may_stand a e seen ≡ true
    → handle a e t ≡ ok (next a e t)
unfolding handle set_mark
handle-may_stand start e t seen s h = refl
handle-may_stand run e t seen s h = refl
handle-may_stand bad e t seen s h = cc
handle-may_stand pass e t seen s h = elim (Bool-cases (e.test == "")) [
  | inl hit ↦ rw hit refl
  | inr miss ↦ elim (Option-cases (get t.started (key_of e))) [
    | inl gone ↦ absurd (ground (arith, miss, h, gone, s (key_of e)))
    | inr (b, there) ↦ rw miss (pass_test-some e t b there)
  ]
]
handle-may_stand ignored e t seen s h = refl

handle-not_may_stand :
    (a : Action) (e : Event) (t : Tally) (seen : List String)
    → Sees seen t.started
    → may_stand a e seen ≡ false
    → (p : Problem) × (handle a e t ≡ err p)
unfolding handle
handle-not_may_stand start e t seen s h = cc
handle-not_may_stand run e t seen s h = cc
handle-not_may_stand bad e t seen s h = (_, refl)
handle-not_may_stand pass e t seen s h = elim (Bool-cases (e.test == "")) [
  | inl hit ↦ absurd (ground (arith, hit, h))
  | inr miss ↦ elim (Option-cases (get t.started (key_of e))) [
    | inl gone ↦ (pass_without_run (key_of e), rw miss (pass_test-none e t gone))
    | inr (b, there) ↦ absurd (ground (arith, miss, h, there, s (key_of e)))
  ]
]
handle-not_may_stand ignored e t seen s h = cc

abbrev pub counted : ℕ → List Decoded → ℕ
counted n [] = n
counted n (broken ∷ rest) = counted n rest
counted n (entry e ∷ rest) = counted (more (pass_mark e) n) rest

-- The variables after the loop.
abbrev pub tallied : Tally → List Decoded → Tally
tallied t l = record {
  started = track run_mark t.started l;
  passed = track pass_mark t.passed l;
  packages = track package_mark t.packages l;
  tests = counted t.tests l;
}

collect-handle :
    (t t' : Tally) (e : Event) (l : List Decoded)
    → handle (classify e.action) e t ≡ ok t'
    → collect t (entry e ∷ l) ≡ collect t' l
unfolding collect
collect-handle t t' e l h = ap (λ r. elim r [ ok t' ↦ collect t' l | err p ↦ err p ]) h

collect-handle_err :
    (t : Tally) (p : Problem) (e : Event) (l : List Decoded)
    → handle (classify e.action) e t ≡ err p
    → collect t (entry e ∷ l) ≡ err p
unfolding collect
collect-handle_err t p e l h = ap (λ r. elim r [ ok t' ↦ collect t' l | err p ↦ err p ]) h

collect-is_in_order :
    (t : Tally) (l : List Decoded) (seen : List String)
    → Sees seen t.started
    → is_in_order seen l ≡ true
    → collect t l ≡ ok (tallied t l)
unfolding collect is_in_order track
collect-is_in_order t [] seen s h = refl
collect-is_in_order t (broken ∷ l) seen s h = cc
collect-is_in_order t (entry e ∷ l) seen s h =
    let a = classify e.action in
    let stands : may_stand a e seen ≡ true = ground arith in
    collect-handle t (next a e t) e l (handle-may_stand a e t seen s stands)
    ∙ (collect-is_in_order (next a e t) l (ran a e seen) (Sees-next a e t seen s stands)
        (ground arith))

collect-not_is_in_order :
    (t : Tally) (l : List Decoded) (seen : List String)
    → Sees seen t.started
    → is_in_order seen l ≡ false
    → (p : Problem) × (collect t l ≡ err p)
unfolding collect is_in_order
collect-not_is_in_order t [] seen s h = cc
collect-not_is_in_order t (broken ∷ l) seen s h = (_, refl)
collect-not_is_in_order t (entry e ∷ l) seen s h =
    let a = classify e.action in
    elim (Bool-cases (may_stand a e seen)) [
      | inl stands ↦
          let (p, q) =
            collect-not_is_in_order (next a e t) l (ran a e seen) (Sees-next a e t seen s stands)
              (ground arith) in
          (p, collect-handle t (next a e t) e l (handle-may_stand a e t seen s stands) ∙ q)
      | inr not_here ↦
          let (p, q) = handle-not_may_stand a e t seen s not_here in
          (p, collect-handle_err t p e l q)
    ]

-- From no event, the loop ends without an error just where the events are in order.
pub collect_lem :
    (t : Tally) (l : List Decoded)
    → t.started ≡ []
    → ((is_in_order [] l ≡ true) × (collect t l ≡ ok (tallied t l)))
      ⊎ ((is_in_order [] l ≡ false) × ((p : Problem) × (collect t l ≡ err p)))
unfolding get
collect_lem t l h =
    let s : Sees [] t.started = λ k. rw h refl in
    elim (Bool-cases (is_in_order [] l)) [
      | inl hit ↦ inl (hit, collect-is_in_order t l [] s hit)
      | inr miss ↦ inr (miss, collect-not_is_in_order t l [] s miss)
    ]
