-- ===== src/Perf/Padding.antt =====
-- `randomPadding` and `(*worker).recordPadding` of tools/sink-perf/main.go. A text is the list of its
-- bytes, and `none` is a panic.
use Prim.Native.Nat.{bit_xor, max}
use sink_production_suite.Prelude.{
  ℕ, zero, suc, ◌+◌, ◌-◌, ◌*◌, ◌/◌, ◌%◌, ◌^◌, Bool, true, false, Option, none, some, List, [], ◌∷◌,
  eqb, ltb, leb, length, get_elem?, if◌then◌else◌,
}

abbrev pub Text : Type 0
Text = List ℕ

-- `alphabet[index]`: the small letters, the capital letters, the digits and two spaces.
unfoldable pub letter : ℕ → Option ℕ
letter index =
    if ltb index 26
    then some (97 + index)
    else if ltb index 52
    then some (65 + (index - 26))
    else if ltb index 62
    then some (48 + (index - 52))
    else if ltb index 64
    then some 32
    else none

abbrev pub first_state : ℕ → ℕ
first_state key = ((key + 1) % 2 ^ 64) * 11400714819323198485 % 2 ^ 64

-- The three lines of the loop that change `state`.
unfoldable pub next_state : ℕ → ℕ
next_state s0 =
    let s1 = bit_xor s0 (s0 / 2 ^ 12) in
    let s2 = bit_xor s1 (s1 * 2 ^ 25 % 2 ^ 64) in bit_xor s2 (s2 / 2 ^ 27)

abbrev pub letter_index : ℕ → ℕ
letter_index state = state * 2685821657736338717 % 2 ^ 64 / 2 ^ 58

unfoldable pub random_bytes : ℕ → ℕ → Option Text
unfolding letter next_state
random_bytes zero state = some []
random_bytes (suc size) state = elim (letter (letter_index (next_state state))) [
  | none ↦ none
  | some byte ↦ elim (random_bytes size (next_state state)) [
    | none ↦ none
    | some rest ↦ some (byte ∷ rest)
  ]
]

unfoldable pub random_padding : ℕ → ℕ → Option Text
unfolding random_bytes
random_padding size key = random_bytes size (first_state key)

-- The fields of the worker for its padding, and the settings.
pub record PaddingCache : Type 0 where
  pub entries : List (ℕ × Text)
  pub bytes : ℕ

pub record PaddingSettings : Type 0 where
  pub is_random : Bool
  pub size : ℕ
  pub concurrency : ℕ
  pub fixed : Text
  pub keys : List ℕ

unfoldable pub find : List (ℕ × Text) → ℕ → Option Text
find [] key = none
find ((k, text) ∷ rest) key = if eqb k key then some text else find rest key

-- 256 MiB for all workers together.
abbrev pub cache_limit : PaddingSettings → ℕ
cache_limit o = 268435456 / max 1 o.concurrency

-- A text that is not in the cache.
unfoldable pub add_padding : PaddingSettings → ℕ → Text → PaddingCache → PaddingCache
add_padding o key text c =
    if leb (c.bytes + length text) (cache_limit o)
    then record { entries = (key, text) ∷ c.entries; bytes = c.bytes + length text }
    else c

-- `randomPadding(opts.Padding, w.keys[key])`.
unfoldable pub own_padding : PaddingSettings → ℕ → Option Text
unfolding random_padding
own_padding o key = elim (get_elem? o.keys key) [ none ↦ none | some n ↦ random_padding o.size n ]

unfoldable pub record_padding : PaddingSettings → ℕ → PaddingCache → Option (Text × PaddingCache)
unfolding find add_padding own_padding
record_padding o key c = elim o.is_random [
  | false ↦ some (o.fixed, c)
  | true ↦ elim (find c.entries key) [
    | some text ↦ some (text, c)
    | none ↦ elim (own_padding o key) [
      | none ↦ none
      | some text ↦ some (text, add_padding o key text c)
    ]
  ]
]
