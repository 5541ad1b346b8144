-- ===== src/Perf/PaddingLaws.antt =====
-- The padding of tools/sink-perf/main.go: no index of the alphabet is out of range, and the cache gives the
-- padding of its record within its limit.
use sink_production_suite.Prelude.{
  ℕ, zero, suc, ◌+◌, ◌-◌, ◌≤◌, ◌<◌, true, none, some, List, [], ◌∷◌, ◌≡◌, ◌⊎◌, ◌∙◌, refl, sym, ap,
  inl, inr, arith, eqb, eqb_iff, ltb, leb, leb→le, length, get_elem?, All, Bool-cases, Option-cases,
}
use mathlib.Core.Option.{some_inj}
use sink_production_suite.Perf.Padding.{
  Text, letter, letter_index, first_state, next_state, random_bytes, random_padding, PaddingCache,
  PaddingSettings, find, cache_limit, add_padding, own_padding, record_padding,
}

-- A byte that the alphabet holds: a letter, a digit or a space.
abbrev pub IsLetter : ℕ → Type 0
IsLetter b = (b ≡ 32) ⊎ (((48 ≤ b) × (b ≤ 57)) ⊎ (((65 ≤ b) × (b ≤ 90)) ⊎ ((97 ≤ b) × (b ≤ 122))))

letter-IsLetter : (i : ℕ) → i < 64 → (b : ℕ) × (letter i ≡ some b) × IsLetter b
unfolding letter
letter-IsLetter i h = elim (Bool-cases (ltb i 26)) [
  | inl a ↦ (97 + i, rw a refl, inr (inr (inr (ground (arith, a), ground (arith, a)))))
  | inr a ↦ elim (Bool-cases (ltb i 52)) [
    | inl b ↦ (
      65 + (i - 26),
      rw (a, b) refl,
      inr (inr (inl (ground (arith, a, b), ground (arith, a, b)))),
    )
    | inr b ↦ elim (Bool-cases (ltb i 62)) [
      | inl c ↦
          (48 + (i - 52), rw (a, b, c) refl, inr (inl (ground (arith, b, c), ground (arith, b, c))))
      | inr c ↦ (32, ground (arith, a, b, c, h), inl refl)
    ]
  ]
]

letter_index_bound : (s : ℕ) → letter_index s < 64
letter_index_bound s = omega arith

random_bytes_step :
    (size s b : ℕ) (text : Text)
    → letter (letter_index (next_state s)) ≡ some b
    → random_bytes size (next_state s) ≡ some text
    → random_bytes (suc size) s ≡ some (b ∷ text)
unfolding random_bytes
random_bytes_step size s b text h g = rw (h, g, random_bytes) refl

random_bytes_lem :
    (size s : ℕ)
    → (text : Text) × (random_bytes size s ≡ some text) × (length text ≡ size) × All IsLetter text
unfolding random_bytes
random_bytes_lem zero s = ([], refl, refl, tt)
random_bytes_lem (suc size) s =
    let (b, there, good) =
      letter-IsLetter (letter_index (next_state s)) (letter_index_bound (next_state s)) in
    let (text, done, long, all) = random_bytes_lem size (next_state s) in
    (b ∷ text, random_bytes_step size s b text there done, ap suc long, (good, all))

-- For every size and key `randomPadding` returns, without an index out of range, a text of that size of
-- letters, digits and spaces.
pub random_padding_lem :
    (size key : ℕ)
    → (text : Text) × (random_padding size key ≡ some text)
      × (length text ≡ size)
      × All IsLetter text
unfolding random_padding
random_padding_lem size key = random_bytes_lem size (first_state key)

abbrev pub sum_of : List (ℕ × Text) → ℕ
sum_of [] = 0
sum_of ((k, text) ∷ rest) = length text + sum_of rest

-- A cache that is right: each text is the padding of its record, and the bytes are counted and limited.
pub record IsCache (o : PaddingSettings) (c : PaddingCache) : Type 0 where
  pub texts :
      (key : ℕ) (text : Text) → find c.entries key ≡ some text → own_padding o key ≡ some text
  pub bytes : c.bytes ≡ sum_of c.entries
  pub limit : c.bytes ≤ cache_limit o

record_padding-some :
    (o : PaddingSettings) (key : ℕ) (c : PaddingCache) (text : Text)
    → o.is_random ≡ true
    → find c.entries key ≡ some text
    → record_padding o key c ≡ some (text, c)
unfolding record_padding
record_padding-some o key c text h g = rw (h, g, record_padding) refl

record_padding-none :
    (o : PaddingSettings) (key : ℕ) (c : PaddingCache) (text : Text)
    → o.is_random ≡ true
    → find c.entries key ≡ none
    → own_padding o key ≡ some text
    → record_padding o key c ≡ some (text, add_padding o key text c)
unfolding record_padding
record_padding-none o key c text h g f = rw (h, g, f, record_padding) refl

add_padding-IsCache :
    (o : PaddingSettings) (key : ℕ) (c : PaddingCache) (text : Text)
    → IsCache o c
    → own_padding o key ≡ some text
    → IsCache o (add_padding o key text c)
unfolding add_padding find
add_padding-IsCache o key c text h e =
    elim (Bool-cases (leb (c.bytes + length text) (cache_limit o))) [
      | inr full ↦ rw full h
      | inl room ↦ rw room (record {
        texts = λ k t f. elim (Bool-cases (eqb key k)) [
          | inl here ↦
              let same : key ≡ k = (eqb_iff key k).0 here in
              let own : text ≡ t = some_inj.0 (sym (rw here refl) ∙ f) in rw (← same, ← own) e
          | inr other ↦ h.texts k t (sym (rw other refl) ∙ f)
        ];
        bytes = omega (arith, h.bytes);
        limit = leb→le _ _ room;
      })
    ]

own_padding_lem :
    (o : PaddingSettings) (key n : ℕ)
    → get_elem? o.keys key ≡ some n
    → own_padding o key ≡ random_padding o.size n
unfolding own_padding
own_padding_lem o key n h = rw (h, own_padding) refl

-- With random padding, a cache that is right and a key that the worker has, `recordPadding` returns the
-- padding of the record, and leaves a cache that is right.
pub record_padding-IsCache :
    (o : PaddingSettings) (key n : ℕ) (c : PaddingCache)
    → o.is_random ≡ true
    → get_elem? o.keys key ≡ some n
    → IsCache o c
    → (text : Text) × (c' : PaddingCache) × (record_padding o key c ≡ some (text, c'))
      × (random_padding o.size n ≡ some text)
      × IsCache o c'
record_padding-IsCache o key n c r k h =
    let own = own_padding_lem o key n k in
    elim (Option-cases (find c.entries key)) [
      | inr (text, there) ↦
          (text, c, record_padding-some o key c text r there, sym own ∙ h.texts key text there, h)
      | inl gone ↦
          let (text, made, _, _) = random_padding_lem o.size n in
          (
            text,
            add_padding o key text c,
            record_padding-none o key c text r gone (own ∙ made),
            made,
            add_padding-IsCache o key c text h (own ∙ made),
          )
    ]
