-- ===== src/Prelude/Bits.antt =====
-- Sets of small numbers as the bits of a word: what the program's `|`, `&` and `1 << i` mean.
use Prim.Native.Nat.{
  ℕ, zero, suc, ◌+◌, ◌-◌, ◌*◌, ◌/◌, ◌%◌, ◌^◌, ◌≤◌, ◌<◌, min, max, bit_and, bit_or, digits,
  bit_and-bitwise, bit_or-bitwise,
}
use mathlib.Core.Path.{◌≡◌, refl, ap, ◌∙◌}
use mathlib.Core.Logic.{◌↔◌, inl, inr}
use mathlib.Core.Bool.{Bool, true, false, not, ◌&&◌, ◌||◌}
use native.Mathlib.Nat.{pow-suc}
use native.Mathlib.Omega.{arith}
use sink_production_suite.Prelude.Tests.{ltb, eqb, eqb_iff, Bool-cases}

-- Bit `i` of `x`.
abbrev pub bit : ℕ → ℕ → Bool
bit x zero = eqb (x % 2) 1
bit x (suc i) = bit (x / 2) i

-- Digits beyond the last one of the first number change nothing.
module _ (z : ℕ → ℕ) (f : ℕ → ℕ → ℕ) where
  digits-suc : (n a b : ℕ) → a ≤ n → digits z f (suc n) a b ≡ digits z f n a b
  digits-suc zero zero b h = refl
  digits-suc zero (suc a) b h = absurd (omega arith)
  digits-suc (suc n) zero b h = refl
  digits-suc (suc n) (suc a) b h =
      ap (λ (d : ℕ). d * 2 + f (suc a % 2) (b % 2)) (digits-suc n (suc a / 2) (b / 2) (omega arith))

  digits-add : (k n a b : ℕ) → a ≤ n → digits z f (k + n) a b ≡ digits z f n a b
  digits-add zero n a b h = let e : 0 + n ≡ n = omega arith in rw e refl
  digits-add (suc k) n a b h =
      let e : suc k + n ≡ suc (k + n) = omega arith in
      rw e (digits-suc (k + n) a b (omega arith) ∙ digits-add k n a b h)

  -- The lowest digit apart.
  digits_unfold :
      (a b : ℕ)
      → digits z f (suc a) (suc a) b
        ≡ digits z f (suc a / 2) (suc a / 2) (b / 2) * 2 + f (suc a % 2) (b % 2)
  digits_unfold a b =
      let e : a ≡ a - suc a / 2 + suc a / 2 = omega arith in
      let spare : digits z f a (suc a / 2) (b / 2) ≡ digits z f (suc a / 2) (suc a / 2) (b / 2) =
        ap (λ (n : ℕ). digits z f n (suc a / 2) (b / 2)) e
        ∙ digits-add (a - suc a / 2) (suc a / 2) (suc a / 2) (b / 2) (omega arith) in
      ap (λ (d : ℕ). d * 2 + f (suc a % 2) (b % 2)) spare

bit_and-half : (a b : ℕ) → bit_and a b ≡ bit_and (a / 2) (b / 2) * 2 + min (a % 2) (b % 2)
bit_and-half zero b = omega (arith, bit_and-bitwise 0 b, bit_and-bitwise 0 (b / 2))
bit_and-half (suc a) b = omega (
  arith,
  bit_and-bitwise (suc a) b,
  bit_and-bitwise (suc a / 2) (b / 2),
  digits_unfold (λ b. zero) min a b,
)

bit_or-half : (a b : ℕ) → bit_or a b ≡ bit_or (a / 2) (b / 2) * 2 + max (a % 2) (b % 2)
bit_or-half zero b = omega (arith, bit_or-bitwise 0 b, bit_or-bitwise 0 (b / 2))
bit_or-half (suc a) b = omega (
  arith,
  bit_or-bitwise (suc a) b,
  bit_or-bitwise (suc a / 2) (b / 2),
  digits_unfold (λ b. b) max a b,
)

bit_and-div : (a b : ℕ) → bit_and a b / 2 ≡ bit_and (a / 2) (b / 2)
bit_and-div a b = omega (arith, bit_and-half a b)

bit_or-div : (a b : ℕ) → bit_or a b / 2 ≡ bit_or (a / 2) (b / 2)
bit_or-div a b = omega (arith, bit_or-half a b)

pub bit-bit_and : (i a b : ℕ) → bit (bit_and a b) i ≡ (bit a i && bit b i)
bit-bit_and zero a b = ground (arith, bit_and-half a b)
bit-bit_and (suc i) a b = rw bit_and-div (bit-bit_and i (a / 2) (b / 2))

pub bit-bit_or : (i a b : ℕ) → bit (bit_or a b) i ≡ (bit a i || bit b i)
bit-bit_or zero a b = ground (arith, bit_or-half a b)
bit-bit_or (suc i) a b = rw bit_or-div (bit-bit_or i (a / 2) (b / 2))

pub bit-zero : (i : ℕ) → bit 0 i ≡ false
bit-zero zero = refl
bit-zero (suc i) = bit-zero i

pub bit-pow : (k i : ℕ) → bit (2 ^ k) i ≡ eqb k i
bit-pow zero zero = refl
bit-pow zero (suc i) = ground (arith, bit-zero i)
bit-pow (suc k) zero = ground (arith, pow-suc 2 k)
bit-pow (suc k) (suc i) = ground (arith, pow-suc 2 k, bit-pow k i)

pub pow_pos : (n : ℕ) → 0 < 2 ^ n
pow_pos zero = omega arith
pow_pos (suc n) = omega (arith, pow-suc 2 n, pow_pos n)

-- `2 ^ n - 1` is the set of all numbers below `n`.
pub bit-ones : (n i : ℕ) → bit (2 ^ n - 1) i ≡ ltb i n
bit-ones zero i = ground (arith, bit-zero i)
bit-ones (suc n) zero = ground (arith, pow-suc 2 n, pow_pos n)
bit-ones (suc n) (suc i) =
    let halved : (2 ^ suc n - 1) / 2 ≡ 2 ^ n - 1 = omega (arith, pow-suc 2 n, pow_pos n) in
    rw halved (ground (arith, bit-ones n i))

-- A word is determined by its bits.
bit_ext_fuel : (n a b : ℕ) → a ≤ n → b ≤ n → ((i : ℕ) → bit a i ≡ bit b i) → a ≡ b
bit_ext_fuel zero a b p q h = omega arith
bit_ext_fuel (suc n) a b p q h =
    ground (arith, h 0, bit_ext_fuel n (a / 2) (b / 2) (omega arith) (omega arith) (λ i. h (suc i)))

pub bit_ext : (a b : ℕ) → ((i : ℕ) → bit a i ≡ bit b i) → a ≡ b
bit_ext a b h = bit_ext_fuel (a + b) a b (omega arith) (omega arith) h

-- The test `x & (1 << i) != 0`.
pub bit_and-pow : (x i : ℕ) → eqb (bit_and x (2 ^ i)) 0 ≡ not (bit x i)
bit_and-pow x i = elim (Bool-cases (bit x i)) [
  | inl here ↦
      ground (
        arith,
        here,
        bit-bit_and i x (2 ^ i),
        bit-pow i i,
        bit-zero i,
        at_zero i (bit_and x (2 ^ i)),
      )
  | inr gone ↦
      let none_there : bit_and x (2 ^ i) ≡ 0 =
        bit_ext _ 0 (λ j.
          ground (arith, gone, bit-bit_and j x (2 ^ i), bit-pow i j, bit-zero j, same i j x)) in
      rw (gone, none_there)
]
  where
    at_zero : (i y : ℕ) → y ≡ 0 → bit y i ≡ false
    at_zero i y e = rw e (bit-zero i)

    same : (i j x : ℕ) → i ≡ j → bit x i ≡ bit x j
    same i j x e = rw e refl

-- The test `x & p == p`: every bit of `p` is one of `x`.
pub bit_and_subset :
    (p x : ℕ) → (eqb (bit_and p x) p ≡ true) ↔ ((i : ℕ) → bit p i ≡ true → bit x i ≡ true)
bit_and_subset p x = (forward, backward)
  where
    forward : eqb (bit_and p x) p ≡ true → (i : ℕ) → bit p i ≡ true → bit x i ≡ true
    forward h i there =
        let e : bit_and p x ≡ p = (eqb_iff _ p).0 h in
        let b : bit (bit_and p x) i ≡ true = rw e there in ground (arith, bit-bit_and i p x, b)

    backward : ((i : ℕ) → bit p i ≡ true → bit x i ≡ true) → eqb (bit_and p x) p ≡ true
    backward h = (eqb_iff _ p).1 (bit_ext _ p (λ i. ground (arith, bit-bit_and i p x, h i)))
