-- ===== src/Perf/RunKeys.antt =====
-- The keys of a call of `(*worker).run` in tools/sink-perf/main.go: all different, and all the worker's.
use native.Mathlib.Nat.{mod-lt, mod-eq_of_lt, mod-eq-sub-mod}
use sink_production_suite.Prelude.{
  ℕ, zero, suc, ◌+◌, ◌-◌, ◌%◌, ◌≤◌, ◌<◌, false, List, ◌≡◌, ◌≢◌, ◌⊎◌, ltb→lt, ◌∙◌, refl, inl, inr,
  arith, map, eqb, eqb_iff, ltb, contains, nat_eq, All, Bool-cases,
}
use sink_production_suite.Reference.Unique.{IsDistinct}
use sink_production_suite.Perf.Partition.{range_from, call_keys}

-- A key of the call, with the wrap-around written out.
wrapped : (p i n : ℕ) → p < n → i < n → ((p + i) % n ≡ p + i) ⊎ (((p + i) % n) + n ≡ p + i)
wrapped p i n h g = elim (Bool-cases (ltb (p + i) n)) [
  | inl inside ↦ inl (mod-eq_of_lt (ltb→lt (p + i) n inside))
  | inr outside ↦
      let over : n ≤ p + i = ground (arith, outside) in
      let low : p + i - n < n = omega arith in
      inr (omega (arith, mod-eq-sub-mod over ∙ mod-eq_of_lt low))
]

apart_mod :
    (p i j n x y : ℕ)
    → i < j
    → j < n
    → ((x ≡ p + i) ⊎ (x + n ≡ p + i))
    → ((y ≡ p + j) ⊎ (y + n ≡ p + j))
    → x ≢ y
apart_mod p i j n x y h g (inl a) (inl b) e = omega arith
apart_mod p i j n x y h g (inl a) (inr b) e = omega arith
apart_mod p i j n x y h g (inr a) (inl b) e = omega arith
apart_mod p i j n x y h g (inr a) (inr b) e = omega arith

keys_differ : (p i j n : ℕ) → p < n → i < j → j < n → eqb ((p + i) % n) ((p + j) % n) ≡ false
keys_differ p i j n h g k =
    let a = wrapped p i n h (omega arith) in
    let b = wrapped p j n h k in
    elim (Bool-cases (eqb ((p + i) % n) ((p + j) % n))) [
      | inr differs ↦ differs
      | inl same ↦
          absurd (apart_mod p i j n ((p + i) % n) ((p + j) % n) g k a b ((eqb_iff _ _).0 same))
    ]

keys_from : ℕ → ℕ → ℕ → ℕ → List ℕ
keys_from p n first size = map (λ i. (p + i) % n) (range_from first size)

contains-keys_from :
    (p n i first size : ℕ)
    → p < n
    → i < first
    → first + size ≤ n
    → contains (keys_from p n first size) ((p + i) % n) ≡ false
unfolding keys_from range_from
contains-keys_from p n i first zero h g k = refl
contains-keys_from p n i first (suc size) h g k = ground (
  arith,
  keys_differ p i first n h g (omega arith),
  contains-keys_from p n i (suc first) size h (omega arith) (omega arith),
)

keys_from-IsDistinct :
    (p n first size : ℕ) → p < n → first + size ≤ n → IsDistinct (keys_from p n first size)
unfolding keys_from range_from
keys_from-IsDistinct p n first zero h k = tt
keys_from-IsDistinct p n first (suc size) h k = (
  contains-keys_from p n first (suc first) size h (omega arith) (omega arith),
  keys_from-IsDistinct p n (suc first) size h (omega arith),
)

keys_from-All : (p n first size : ℕ) → p < n → All (λ k. k < n) (keys_from p n first size)
unfolding keys_from range_from
keys_from-All p n first zero h = tt
keys_from-All p n first (suc size) h =
    (mod-lt (p + first) (omega arith), keys_from-All p n (suc first) size h)

-- A call of no more operations than the worker has keys names each key once, and only its own.
pub call_keys_lem :
    (p batch n : ℕ)
    → p < n
    → batch ≤ n
    → IsDistinct (call_keys p batch n) × All (λ k. k < n) (call_keys p batch n)
unfolding call_keys keys_from
call_keys_lem p batch n h k =
    (keys_from-IsDistinct p n 0 batch h (omega arith), keys_from-All p n 0 batch h)
