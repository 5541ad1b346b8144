-- ===== src/Perf/Partition.antt =====
-- The keys of each worker in `execute` of tools/sink-perf/main.go, the local key that `verify` computes,
-- and the keys of one call in `(*worker).run`.
use sink_production_suite.Prelude.{
  ℕ, zero, suc, ◌+◌, ◌-◌, ◌*◌, ◌/◌, ◌%◌, ◌≤◌, ◌<◌, Bool, true, false, Option, none, some, List, [],
  ◌∷◌, ◌≡◌, ◌∙◌, refl, sym, ap, inl, inr, arith, ltb, ltb→lt, lt→ltb, Bool-cases, if◌then◌else◌,
  length, get_elem?, nat_eq, map, length-map,
}
use native.Mathlib.Nat.{mul-le-mul_right, mul_comm, suc-mul, lt-div-mul-add, div-mul-le_self}
use mathlib.Core.Option.{some_inj}

-- `for n := range count`.
unfoldable pub range_from : ℕ → ℕ → List ℕ
range_from first zero = []
range_from first (suc n) = first ∷ range_from (suc first) n

-- `count` in `execute`: the number of keys of a worker.
unfoldable pub key_count : Bool → ℕ → ℕ → ℕ
key_count is_hot keys concurrency = if is_hot then keys else keys / concurrency

-- `entry.keys`.
unfoldable pub worker_keys : Bool → ℕ → ℕ → ℕ → List ℕ
unfolding range_from key_count
worker_keys is_hot keys concurrency index =
    let count = key_count is_hot keys concurrency in
    map (λ key. if is_hot then key else index * count + key) (range_from 0 count)

-- `localKey` in `verify`, with `none` for `continue`.
unfoldable pub local_key : Bool → ℕ → ℕ → ℕ → Option ℕ
local_key is_hot index count key =
    if is_hot
    then (if ltb key count then some key else none)
    else if ltb key (index * count)
    then none
    else if ltb (key - index * count) count
    then some (key - index * count)
    else none

-- `keys` in `run`.
unfoldable pub call_keys : ℕ → ℕ → ℕ → List ℕ
unfolding range_from
call_keys position batch count = map (λ index. (position + index) % count) (range_from 0 batch)

pub length-range_from : (first n : ℕ) → length (range_from first n) ≡ n
unfolding range_from
length-range_from first zero = refl
length-range_from first (suc n) = ap suc (length-range_from (suc first) n)

get_elem?-map-range_from :
    (f : ℕ → ℕ) (first n i : ℕ)
    → i < n
    → get_elem? (map f (range_from first n)) i ≡ some (f (first + i))
unfolding range_from
get_elem?-map-range_from f first zero i h = absurd (omega arith)
get_elem?-map-range_from f first (suc n) zero h = ap (λ x. some (f x)) (omega arith)
get_elem?-map-range_from f first (suc n) (suc i) h =
    get_elem?-map-range_from f (suc first) n i (omega arith) ∙ ap (λ x. some (f x)) (omega arith)

length-worker_keys :
    (hot : Bool) (keys c w : ℕ) → length (worker_keys hot keys c w) ≡ key_count hot keys c
unfolding worker_keys
length-worker_keys hot keys c w =
    length-map _ (range_from 0 (key_count hot keys c)) ∙ length-range_from 0 (key_count hot keys c)

not_ltb : (a b : ℕ) → ltb a b ≡ false → b ≤ a
not_ltb a b h = ground (arith, h)

ltb-of_le : (a b : ℕ) → b ≤ a → ltb a b ≡ false
ltb-of_le a b h = ground (arith, h)

local_key_hot : (w n g i : ℕ) → local_key true w n g ≡ some i → (g ≡ i) × (i < n)
unfolding local_key
local_key_hot w n g i h = elim (Bool-cases (ltb g n)) [
  | inl inside ↦
      let same : g ≡ i = some_inj.0 (sym (rw inside refl) ∙ h) in
      (same, omega (arith, ltb→lt _ _ inside))
  | inr outside ↦ absurd (ground (arith, outside, h))
]

owner_before : (w n c g : ℕ) → w * n ≤ g → g < c * n → w < c
owner_before w n c g low high = elim (Bool-cases (ltb w c)) [
  | inl before ↦ ltb→lt w c before
  | inr after ↦
      let more : c * n ≤ w * n = mul-le-mul_right n (not_ltb w c after) in absurd (omega arith)
]

owner_same : (v w n g : ℕ) → v * n ≤ g → g < v * n + n → w * n ≤ g → g < w * n + n → v ≡ w
owner_same v w n g a b c d =
    let below : v < suc w = owner_before v n (suc w) g a (omega (arith, suc-mul w n)) in
    let above : w < suc v = owner_before w n (suc v) g c (omega (arith, suc-mul v n)) in omega arith

local_key-some : (w n g i : ℕ) → local_key false w n g ≡ some i → (g ≡ w * n + i) × (i < n)
unfolding local_key
local_key-some w n g i h = elim (Bool-cases (ltb g (w * n))) [
  | inl low ↦ absurd (ground (arith, low, h))
  | inr at_least ↦ elim (Bool-cases (ltb (g - w * n) n)) [
    | inl inside ↦
        let same : g - w * n ≡ i = some_inj.0 (sym (rw (at_least, inside) refl) ∙ h) in
        let above = not_ltb g (w * n) at_least in (omega arith, omega (arith, ltb→lt _ _ inside))
    | inr outside ↦ absurd (ground (arith, at_least, outside, h))
  ]
]

some-local_key : (w n g i : ℕ) → g ≡ w * n + i → i < n → local_key false w n g ≡ some i
unfolding local_key
some-local_key w n g i e h =
    let above : ltb g (w * n) ≡ false = ltb-of_le g (w * n) (omega arith) in
    let same : g - w * n ≡ i = omega arith in rw (above, same, lt→ltb i n h)

-- The slot that `verify` reads for a key is the one where `execute` put the key.
pub worker_keys-local_key :
    (hot : Bool) (keys c w g i : ℕ)
    → local_key hot w (key_count hot keys c) g ≡ some i
    → get_elem? (worker_keys hot keys c w) i ≡ some g
unfolding worker_keys
worker_keys-local_key false keys c w g i h =
    let n = key_count false keys c in
    let (same, inside) = local_key-some w n g i h in
    get_elem?-map-range_from (λ key. w * n + key) 0 n i inside ∙ ap some (omega arith)
worker_keys-local_key true keys c w g i h =
    let n = key_count true keys c in
    let (same, inside) = local_key_hot w n g i h in
    get_elem?-map-range_from (λ key. key) 0 n i inside ∙ ap some (omega arith)

-- Where the workers share out the keys evenly, each key has exactly one worker.
pub local_key_unique :
    (n c g : ℕ)
    → g < n * c
    → (w : ℕ) × (w < c)
      × ((i : ℕ) × (local_key false w n g ≡ some i))
      × ((v j : ℕ) → local_key false v n g ≡ some j → v ≡ w)
local_key_unique zero c g h = absurd (omega arith)
local_key_unique (suc m) c g h =
    let n = suc m in
    let w = g / n in
    let low : w * n ≤ g = div-mul-le_self g n in
    let high : g < w * n + n = lt-div-mul-add (omega arith) in
    (
      w,
      owner_before w n c g low (omega (arith, mul_comm n c)),
      (g - w * n, some-local_key w n g (g - w * n) (omega arith) (omega arith)),
      λ v j e.
          let (same, inside) = local_key-some v n g j e in
          owner_same v w n g (omega arith) (omega arith) low high,
    )
