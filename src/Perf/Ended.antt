-- ===== src/Perf/Ended.antt =====
-- The calls of a run of tools/sink-perf/main.go as they ended, and what the samples of a second hold.
use sink_production_suite.Prelude.{
  ℕ, ◌+◌, ◌-◌, ◌/◌, ◌≤◌, Bool, true, false, ◌&&◌, List, [], ◌∷◌, ◌++◌, map, ◌≡◌, refl, ap, arith,
  eqb, bool_beq, length, if◌then◌else◌,
}
use sink_production_suite.Perf.Run.{Sample}

-- A call that has ended, with its times in nanoseconds from the start.
pub record Ended : Type 0 where
  pub due : ℕ
  pub wire_started : ℕ
  pub finished : ℕ
  pub success : Bool

abbrev pub latency : Ended → ℕ
latency e = e.finished - e.due

abbrev pub wire_time : Ended → ℕ
wire_time e = e.finished - e.wire_started

-- How many calls of a list pass a test.
unfoldable pub number_of : (Ended → Bool) → List Ended → ℕ
number_of test [] = 0
number_of test (e ∷ l) = (if test e then 1 else 0) + number_of test l

abbrev pub succeeds : Ended → Bool
succeeds e = e.success

-- The calls with an outcome that ended in a second.
abbrev pub ends_at : Bool → ℕ → Ended → Bool
ends_at outcome second e = eqb (e.finished / 1000000000) second && bool_beq e.success outcome

-- When the failures ended.
unfoldable pub failure_times : List Ended → List ℕ
failure_times [] = []
failure_times (e ∷ l) = if e.success then failure_times l else e.finished ∷ failure_times l

-- The count of an outcome in a sample.
abbrev pub tally : Bool → Sample → ℕ
tally true s = s.succeeded
tally false s = s.failed

-- What the samples hold for a second.
unfoldable pub tally_at : Bool → ℕ → List Sample → ℕ
tally_at outcome second [] = 0
tally_at outcome second (s ∷ l) =
    (if eqb s.second second then tally outcome s else 0) + tally_at outcome second l

pub number_of-append :
    (test : Ended → Bool) (l r : List Ended)
    → number_of test (l ++ r) ≡ number_of test l + number_of test r
unfolding number_of
number_of-append test [] r = omega arith
number_of-append test (e ∷ l) r = omega (arith, number_of-append test l r)

pub number_of_bound : (test : Ended → Bool) (l : List Ended) → number_of test l ≤ length l
unfolding number_of
number_of_bound test [] = omega arith
number_of_bound test (e ∷ l) = ground (arith, number_of_bound test l)

pub failure_times-append :
    (l r : List Ended) → failure_times (l ++ r) ≡ failure_times l ++ failure_times r
unfolding failure_times
failure_times-append [] r = refl
failure_times-append (e ∷ l) r = go e.success (failure_times-append l r)
  where
    go :
        (b : Bool)
        → failure_times (l ++ r) ≡ failure_times l ++ failure_times r
        → (if b then failure_times (l ++ r) else e.finished ∷ failure_times (l ++ r))
          ≡ (if b then failure_times l else e.finished ∷ failure_times l) ++ failure_times r
    go true h = h
    go false h = ap (λ t. e.finished ∷ t) h

pub map-append :
    {A : Type 0} (f : Ended → A) (l r : List Ended) → map f (l ++ r) ≡ map f l ++ map f r
map-append f [] r = refl
map-append f (e ∷ l) r = ap (λ t. f e ∷ t) (map-append f l r)
