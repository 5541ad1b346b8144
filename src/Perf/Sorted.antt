-- ===== src/Perf/Sorted.antt =====
-- What the sorts of tools/sink-perf leave: the same items, in ascending order.
use mathlib.Core.Path.{subst}
use sink_production_suite.Prelude.{
  ℕ, zero, suc, ◌+◌, ◌≤◌, Bool, false, some, List, [], ◌∷◌, map, ◌≡◌, ◌∙◌, ap, refl, inl, inr,
  arith, eqb, eqb_iff, ltb, get_elem?, contains, nat_eq, Bool-cases, if◌then◌else◌,
}
use mathlib.Core.Option.{some_inj}
use sink_production_suite.Reference.Unique.{IsDistinct}
use sink_production_suite.Perf.Run.{Sample}
use sink_production_suite.Perf.Collect.{insert, sort}
use sink_production_suite.Perf.Collected.{contains-insert, contains-sort}
use sink_production_suite.Perf.Percentile.{IsAscending}
use sink_production_suite.Perf.Ended.{tally_at}

-- How often a number occurs.
unfoldable pub occurrences : ℕ → List ℕ → ℕ
occurrences x [] = 0
occurrences x (y ∷ l) = (if eqb y x then 1 else 0) + occurrences x l

insert-occurrences :
    (x y : ℕ) (l : List ℕ) → occurrences x (insert (λ z. z) y l) ≡ occurrences x (y ∷ l)
unfolding insert occurrences
insert-occurrences x y [] = refl
insert-occurrences x y (z ∷ l) = elim (Bool-cases (ltb y z)) [
  | inl e ↦ rw e refl
  | inr e ↦ rw e (omega (arith, insert-occurrences x y l))
]

pub sort-occurrences : (x : ℕ) (l : List ℕ) → occurrences x (sort (λ z. z) l) ≡ occurrences x l
unfolding sort occurrences
sort-occurrences x [] = refl
sort-occurrences x (y ∷ l) =
    omega (arith, insert-occurrences x y (sort (λ z. z) l), sort-occurrences x l)

insert-tally_at :
    (outcome : Bool) (x : ℕ) (s : Sample) (l : List Sample)
    → tally_at outcome x (insert Sample.second s l) ≡ tally_at outcome x (s ∷ l)
unfolding insert tally_at
insert-tally_at outcome x s [] = refl
insert-tally_at outcome x s (t ∷ l) = elim (Bool-cases (ltb s.second t.second)) [
  | inl e ↦ rw e refl
  | inr e ↦ rw e (omega (arith, insert-tally_at outcome x s l))
]

pub sort-tally_at :
    (outcome : Bool) (x : ℕ) (l : List Sample)
    → tally_at outcome x (sort Sample.second l) ≡ tally_at outcome x l
unfolding sort tally_at
sort-tally_at outcome x [] = refl
sort-tally_at outcome x (s ∷ l) =
    omega (arith, insert-tally_at outcome x s (sort Sample.second l), sort-tally_at outcome x l)

module _ {R : Type 0} (index : R → ℕ) where
  insert-IsDistinct :
      (r : R) (l : List R)
      → contains (map index l) (index r) ≡ false
      → IsDistinct (map index l)
      → IsDistinct (map index (insert index r l))
  unfolding insert
  insert-IsDistinct r [] fresh d = (refl, tt)
  insert-IsDistinct r (x ∷ l) fresh (own, d) = elim (Bool-cases (ltb (index r) (index x))) [
    | inl e ↦ rw e (fresh, (own, d))
    | inr e ↦ rw e (
      contains-insert index r l (index x)
          ∙ ground (arith, own, fresh, eqb_iff (index x) (index r), eqb_iff (index r) (index x)),
      insert-IsDistinct r l (ground (arith, fresh)) d,
    )
  ]

  pub sort-IsDistinct :
      (l : List R) → IsDistinct (map index l) → IsDistinct (map index (sort index l))
  unfolding sort
  sort-IsDistinct [] d = tt
  sort-IsDistinct (r ∷ l) (fresh, d) =
      insert-IsDistinct r (sort index l) (contains-sort index l (index r) ∙ fresh)
        (sort-IsDistinct l d)

-- Ascending, from `low` on.
abbrev Climbs : ℕ → List ℕ → Type 0
Climbs low [] = Unit {0}
Climbs low (x ∷ l) = (low ≤ x) × Climbs x l

module _ {R : Type 0} (index : R → ℕ) where
  insert-Climbs :
      (r : R) (low : ℕ) (l : List R)
      → low ≤ index r
      → Climbs low (map index l)
      → Climbs low (map index (insert index r l))
  unfolding insert
  insert-Climbs r low [] h c = (h, tt)
  insert-Climbs r low (y ∷ l) h (a, c) = elim (Bool-cases (ltb (index r) (index y))) [
    | inl e ↦
        let first : Climbs low (map index (r ∷ y ∷ l)) = (h, (ground (arith, e), c)) in rw e first
    | inr e ↦
        let first : Climbs low (map index (y ∷ insert index r l)) =
          (a, insert-Climbs r (index y) l (ground (arith, e)) c) in
        rw e first
  ]

  sort-Climbs : (l : List R) → Climbs 0 (map index (sort index l))
  unfolding sort
  sort-Climbs [] = tt
  sort-Climbs (r ∷ l) = insert-Climbs r 0 (sort index l) (omega arith) (sort-Climbs l)

Climbs-from : (low : ℕ) (l : List ℕ) (i x : ℕ) → Climbs low l → get_elem? l i ≡ some x → low ≤ x
Climbs-from low [] i x c h = absurd (cc h)
Climbs-from low (y ∷ l) zero x (a, c) h = omega (arith, some_inj.0 h)
Climbs-from low (y ∷ l) (suc i) x (a, c) h = omega (arith, a, Climbs-from y l i x c h)

pub Climbs-IsAscending : (low : ℕ) (l : List ℕ) → Climbs low l → IsAscending l
Climbs-IsAscending low [] c i j x y h a b = absurd (cc a)
Climbs-IsAscending low (v ∷ l) (p, c) zero zero x y h a b =
    omega (arith, some_inj.0 a, some_inj.0 b)
Climbs-IsAscending low (v ∷ l) (p, c) zero (suc j) x y h a b =
    omega (arith, some_inj.0 a, Climbs-from v l j y c b)
Climbs-IsAscending low (v ∷ l) (p, c) (suc i) zero x y h a b = absurd (omega arith)
Climbs-IsAscending low (v ∷ l) (p, c) (suc i) (suc j) x y h a b =
    Climbs-IsAscending v l c i j x y (omega arith) a b

map_id : (l : List ℕ) → map (λ (x : ℕ). x) l ≡ l
map_id [] = refl
map_id (x ∷ l) = ap (λ t. x ∷ t) (map_id l)

pub sort-IsAscending :
    {R : Type 0} (index : R → ℕ) (l : List R) → IsAscending (map index (sort index l))
sort-IsAscending index l = Climbs-IsAscending 0 (map index (sort index l)) (sort-Climbs index l)

pub sort_numbers-IsAscending : (l : List ℕ) → IsAscending (sort (λ x. x) l)
sort_numbers-IsAscending l =
    Climbs-IsAscending 0 (sort (λ x. x) l)
      (subst (Climbs 0) (map_id (sort (λ x. x) l)) (sort-Climbs (λ x. x) l))
