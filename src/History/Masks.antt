-- ===== src/History/Masks.antt =====
-- The masks of the search against lists of placed calls.
use Prim.Native.Nat.{bit_or}
use native.Mathlib.Nat.{pow-suc}
use sink_production_suite.Prelude.{
  ℕ, zero, suc, ◌+◌, ◌-◌, ◌^◌, ◌≤◌, ◌<◌, Bool, false, ◌&&◌, ◌||◌, Option, none, some, List, [], ◌∷◌,
  ◌≡◌, refl, arith, eqb, length, get_elem?, Bool-cases, inl, inr,
}
use sink_production_suite.Prelude.Bits.{bit, bit-bit_or, bit-pow, bit-zero, pow_pos}
use sink_production_suite.Prelude.Int.{ltb_ℤ}
use sink_production_suite.History.Model.{Entry}
use sink_production_suite.History.Search.{shift_one, all_calls, predecessors_from}

pow-le_of_le : (i n : ℕ) → i ≤ n → 2 ^ i ≤ 2 ^ n
pow-le_of_le zero n h = omega (arith, pow_pos n)
pow-le_of_le (suc i) zero h = absurd (omega arith)
pow-le_of_le (suc i) (suc n) h =
    omega (arith, pow-suc 2 i, pow-suc 2 n, pow-le_of_le i n (omega arith))

-- Below 64 the shift does not overflow.
pub shift_one_lem : (i : ℕ) → i < 64 → shift_one i ≡ 2 ^ i
unfolding shift_one
shift_one_lem i h = omega (arith, pow-le_of_le i 63 (omega arith))

pub all_calls_lem : (n : ℕ) → n < 64 → all_calls n ≡ 2 ^ n - 1
unfolding all_calls
all_calls_lem n h = omega (arith, pow-le_of_le n 63 (omega arith), pow_pos n)

abbrev pub ended_before : Entry → Option Entry → Bool
ended_before e none = false
ended_before e (some b) = ltb_ℤ b.end e.start

-- Whether call `k` is in the list, which begins at call `j`, and ended before `e` began.
abbrev is_before : Entry → List Entry → ℕ → ℕ → Bool
is_before e [] j k = false
is_before e (b ∷ l) j k = eqb j k && ltb_ℤ b.end e.start || is_before e l (suc j) k

bit-predecessors_from :
    (e : Entry) (j : ℕ) (l : List Entry) (mask k : ℕ)
    → j + length l ≤ 64
    → bit (predecessors_from e j l mask) k ≡ (bit mask k || is_before e l j k)
unfolding predecessors_from
bit-predecessors_from e j [] mask k h = ground arith
bit-predecessors_from e j (b ∷ l) mask k h = elim (Bool-cases (ltb_ℤ b.end e.start)) [
  | inl early ↦
      rw
        (
          early,
          bit-predecessors_from e (suc j) l (bit_or mask (shift_one j)) k (omega arith),
          bit-bit_or,
          shift_one_lem j (omega arith),
          bit-pow j k,
        )
        (ground arith)
  | inr late ↦ rw (late, bit-predecessors_from e (suc j) l mask k (omega arith)) (ground arith)
]

is_before-lt : (e : Entry) (l : List Entry) (j k : ℕ) → k < j → is_before e l j k ≡ false
is_before-lt e [] j k h = refl
is_before-lt e (b ∷ l) j k h = ground (arith, is_before-lt e l (suc j) k (omega arith))

is_before-get_elem? :
    (e : Entry) (l : List Entry) (j d : ℕ)
    → is_before e l j (j + d) ≡ ended_before e (get_elem? l d)
is_before-get_elem? e [] j d = refl
is_before-get_elem? e (b ∷ l) j zero =
    ground (arith, is_before-lt e l (suc j) (j + 0) (omega arith))
is_before-get_elem? e (b ∷ l) j (suc d) =
    let shifted : j + suc d ≡ suc j + d = omega arith in
    rw shifted (ground (arith, is_before-get_elem? e l (suc j) d))

-- Bit `k` of the predecessors of `e` says whether call `k` ended before `e` began.
pub bit-predecessors :
    (e : Entry) (l : List Entry) (k : ℕ)
    → length l ≤ 64
    → bit (predecessors_from e 0 l 0) k ≡ ended_before e (get_elem? l k)
bit-predecessors e l k h =
    let start : 0 + k ≡ k = omega arith in
    ground (
      arith,
      bit-zero k,
      bit-predecessors_from e 0 l 0 k (omega arith),
      (rw start at (is_before-get_elem? e l 0 k)),
    )
