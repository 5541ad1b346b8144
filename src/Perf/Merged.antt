-- ===== src/Perf/Merged.antt =====
-- The samples of two workers, put together by the second as `execute` of tools/sink-perf/main.go does it.
use sink_production_suite.Prelude.{
  ℕ, ◌+◌, ◌%◌, ◌^◌, ◌<◌, Bool, true, false, ◌||◌, List, [], ◌∷◌, map, ◌≡◌, ◌∙◌, refl, inl, inr,
  arith, eqb, eqb_iff, contains, nat_eq, Bool-cases, if◌then◌else◌,
}
use sink_production_suite.Reference.Unique.{IsDistinct}
use sink_production_suite.Perf.Run.{Sample}
use sink_production_suite.Perf.Ended.{tally, tally_at}
use sink_production_suite.Perf.Report.{add_second, add_seconds}

-- A sample is added to the one of its second, and to no other.
add_second_lem :
    (outcome : Bool) (x : ℕ) (s : Sample) (l : List Sample)
    → tally outcome s + tally_at outcome s.second l < 2 ^ 64
    → tally_at outcome x (add_second s l)
      ≡ (if eqb s.second x then tally outcome s else 0) + tally_at outcome x l
unfolding add_second tally_at
add_second_lem true x s [] h = ground arith
add_second_lem false x s [] h = ground arith
add_second_lem outcome x s (t ∷ l) h = elim (Bool-cases (eqb t.second s.second)) [
  | inl e ↦ rw e (added outcome ((eqb_iff t.second s.second).0 e) h)
  | inr e ↦ rw e (omega (arith, add_second_lem outcome x s l (omega arith)))
]
  where
    added :
        (b : Bool)
        → t.second ≡ s.second
        → tally b s + tally_at b s.second (t ∷ l) < 2 ^ 64
        → tally_at b x (
            record t {
              succeeded = (t.succeeded + s.succeeded) % 2 ^ 64;
              failed = (t.failed + s.failed) % 2 ^ 64;
            }
            ∷ l)
          ≡ (if eqb s.second x then tally b s else 0) + tally_at b x (t ∷ l)
    added true e h = ground (arith, e, h)
    added false e h = ground (arith, e, h)

pub add_seconds_lem :
    (outcome : Bool) (x : ℕ) (l made : List Sample)
    → ((y : ℕ) → tally_at outcome y l + tally_at outcome y made < 2 ^ 64)
    → tally_at outcome x (add_seconds l made) ≡ tally_at outcome x l + tally_at outcome x made
unfolding add_seconds tally_at
add_seconds_lem outcome x [] made h = omega arith
add_seconds_lem outcome x (s ∷ l) made h =
    let own : tally outcome s + tally_at outcome s.second made < 2 ^ 64 =
      ground (arith, h s.second, (eqb_iff s.second s.second).1 refl) in
    omega (
      arith,
      add_seconds_lem outcome x l (add_second s made)
          (λ y. omega (arith, h y, add_second_lem outcome y s made own)),
      add_second_lem outcome x s made own,
    )

contains-add_second :
    (s : Sample) (l : List Sample) (x : ℕ)
    → contains (map Sample.second (add_second s l)) x
      ≡ (eqb x s.second || contains (map Sample.second l) x)
unfolding add_second
contains-add_second s [] x = refl
contains-add_second s (t ∷ l) x = elim (Bool-cases (eqb t.second s.second)) [
  | inl e ↦ rw e (ground (arith, (eqb_iff t.second s.second).0 e))
  | inr e ↦ rw e (ground (arith, contains-add_second s l x))
]

add_second-IsDistinct :
    (s : Sample) (l : List Sample)
    → IsDistinct (map Sample.second l)
    → IsDistinct (map Sample.second (add_second s l))
unfolding add_second
add_second-IsDistinct s [] d = (refl, tt)
add_second-IsDistinct s (t ∷ l) (fresh, d) = elim (Bool-cases (eqb t.second s.second)) [
  | inl e ↦ rw e (fresh, d)
  | inr e ↦ rw e (contains-add_second s l t.second ∙ rw e fresh, add_second-IsDistinct s l d)
]

pub add_seconds-IsDistinct :
    (l made : List Sample)
    → IsDistinct (map Sample.second made)
    → IsDistinct (map Sample.second (add_seconds l made))
unfolding add_seconds
add_seconds-IsDistinct [] made d = d
add_seconds-IsDistinct (s ∷ l) made d =
    add_seconds-IsDistinct l (add_second s made) (add_second-IsDistinct s made d)
