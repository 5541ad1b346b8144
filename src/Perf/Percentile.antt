-- ===== src/Perf/Percentile.antt =====
-- `percentile` of tools/sink-perf/main.go, in nanoseconds. An index out of range is `none`.
use sink_production_suite.Prelude.{
  ℕ, ◌-◌, ◌*◌, ◌/◌, ◌≤◌, Option, some, List, [], ◌∷◌, ◌≡◌, refl, arith, length, get_elem?,
  get_elem?-some,
}
use native.Mathlib.Nat.{mul-le-mul_left}

unfoldable pub percentile : List ℕ → ℕ → Option ℕ
percentile [] percent = some 0
percentile (v ∷ values) percent = get_elem? (v ∷ values) ((length (v ∷ values) - 1) * percent / 100)

-- In ascending order.
abbrev pub IsAscending : List ℕ → Type 0
IsAscending l = (i j x y : ℕ) → i ≤ j → get_elem? l i ≡ some x → get_elem? l j ≡ some y → x ≤ y

index_bound : (n p : ℕ) → p ≤ 100 → n * p / 100 ≤ n
index_bound n p h = omega (arith, mul-le-mul_left n h)

-- For values in ascending order and percents up to 100, `percentile` returns, without an index out of range,
-- and a greater percent gives no smaller value.
pub percentile_lem :
    (values : List ℕ) (p q : ℕ)
    → IsAscending values
    → p ≤ q
    → q ≤ 100
    → (x : ℕ) × (y : ℕ) × (percentile values p ≡ some x) × (percentile values q ≡ some y) × (x ≤ y)
unfolding percentile
percentile_lem [] p q a h g = (0, 0, refl, refl, omega arith)
percentile_lem (v ∷ values) p q a h g =
    let l = v ∷ values in
    let n = length l - 1 in
    let (x, ex) = get_elem?-some l (n * p / 100) (omega (arith, index_bound n p (omega arith))) in
    let (y, ey) = get_elem?-some l (n * q / 100) (omega (arith, index_bound n q g)) in
    (x, y, ex, ey, a (n * p / 100) (n * q / 100) x y (omega (arith, mul-le-mul_left n h)) ex ey)
