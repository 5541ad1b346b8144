-- ===== src/Reference/Unique.antt =====
-- What `appendUnique`, `uniqueStrings` and `keepTail` compute: the first item of each key, in
-- order, and the last items.
use sink_production_suite.Prelude.{
  true, false, not, ◌&&◌, ◌||◌, List, [], ◌∷◌, ◌++◌, ◌≡◌, refl, ◌∙◌, inl, inr, arith, HasEquality,
  is_same_refl, string_eq, contains, All, Bool-cases,
}

-- No element twice.
abbrev pub IsDistinct : {A : Type 0} ⦃e : HasEquality A⦄ → List A → Type 0
IsDistinct [] = Unit
IsDistinct (x ∷ xs) = (contains xs x ≡ false) × IsDistinct xs

-- The first occurrence of each key that is not seen before, in order.
unfoldable pub dedupe : {K : Type 0} ⦃e : HasEquality K⦄ → List K → List K → List K
dedupe seen [] = []
dedupe seen (k ∷ ks) = elim (contains seen k) [
  | true ↦ dedupe seen ks
  | false ↦ k ∷ dedupe (k ∷ seen) ks
]

module _ {K : Type 0} ⦃e : HasEquality K⦄ where
  abbrev pub AreOutside : List K → List K → Type 0
  AreOutside seen ks = All (λ k. contains seen k ≡ false) ks

  -- Every key of `js` is among `ks` or `seen`.
  abbrev pub AreKnown : List K → List K → List K → Type 0
  AreKnown seen ks js = All (λ j. (contains ks j || contains seen j) ≡ true) js

  pub dedupe_old :
      (seen ks : List K) (k : K) → contains seen k ≡ true → dedupe seen (k ∷ ks) ≡ dedupe seen ks
  unfolding dedupe
  dedupe_old seen ks k h = rw (h, dedupe)

  pub dedupe_new :
      (seen ks : List K) (k : K)
      → contains seen k ≡ false
      → dedupe seen (k ∷ ks) ≡ k ∷ dedupe (k ∷ seen) ks
  unfolding dedupe
  dedupe_new seen ks k h = rw (h, dedupe)

  pub contains-dedupe :
      (seen ks : List K) (k : K)
      → contains (dedupe seen ks) k ≡ (contains ks k && not (contains seen k))
  unfolding dedupe
  contains-dedupe seen [] k = refl
  contains-dedupe seen (x ∷ ks) k =
      ground (arith, contains-dedupe seen ks k, contains-dedupe (x ∷ seen) ks k, e.is_same_iff k x)

  pub dedupe-IsDistinct : (seen ks : List K) → IsDistinct (dedupe seen ks)
  unfolding dedupe
  dedupe-IsDistinct seen [] = tt
  dedupe-IsDistinct seen (x ∷ ks) = elim (Bool-cases (contains seen x)) [
    | inl old ↦ rw (dedupe_old seen ks x old) (dedupe-IsDistinct seen ks)
    | inr new ↦ rw (dedupe_new seen ks x new) (
      ground (arith, contains-dedupe (x ∷ seen) ks x, is_same_refl x),
      dedupe-IsDistinct (x ∷ seen) ks,
    )
  ]

  pub AreOutside-cons :
      (seen ks : List K) (k : K)
      → contains ks k ≡ false
      → AreOutside seen ks
      → AreOutside (k ∷ seen) ks
  AreOutside-cons seen [] k new h = tt
  AreOutside-cons seen (x ∷ ks) k new h = (
    ground (arith, e.is_same_iff x k, e.is_same_iff k x),
    AreOutside-cons seen ks k (ground arith) h.1,
  )

  pub dedupe_distinct :
      (seen ks : List K) → IsDistinct ks → AreOutside seen ks → dedupe seen ks ≡ ks
  unfolding dedupe
  dedupe_distinct seen [] d h = refl
  dedupe_distinct seen (k ∷ ks) d h = rw (
    dedupe_new seen ks k h.0,
    dedupe_distinct (k ∷ seen) ks d.1 (AreOutside-cons seen ks k d.0 h.1),
  )

  dedupe_all_seen : (seen js : List K) → AreKnown seen [] js → dedupe seen js ≡ []
  unfolding dedupe
  dedupe_all_seen seen [] h = refl
  dedupe_all_seen seen (j ∷ js) h = dedupe_old seen js j h.0 ∙ dedupe_all_seen seen js h.1

  pub AreKnown-skip :
      (seen ks js : List K) (k : K)
      → contains seen k ≡ true
      → AreKnown seen (k ∷ ks) js
      → AreKnown seen ks js
  AreKnown-skip seen ks [] k old h = tt
  AreKnown-skip seen ks (j ∷ js) k old h =
      (ground (arith, e.is_same_iff j k), AreKnown-skip seen ks js k old h.1)

  pub AreKnown-keep :
      (seen ks js : List K) (k : K) → AreKnown seen (k ∷ ks) js → AreKnown (k ∷ seen) ks js
  AreKnown-keep seen ks [] k h = tt
  AreKnown-keep seen ks (j ∷ js) k h = (ground arith, AreKnown-keep seen ks js k h.1)

  -- Keys that are known add nothing.
  pub dedupe_absorbs :
      (seen ks js : List K) → AreKnown seen ks js → dedupe seen (ks ++ js) ≡ dedupe seen ks
  unfolding dedupe
  dedupe_absorbs seen [] js h = dedupe_all_seen seen js h
  dedupe_absorbs seen (k ∷ ks) js h = elim (Bool-cases (contains seen k)) [
    | inl old ↦
        rw (dedupe_old seen (ks ++ js) k old, dedupe_old seen ks k old)
          (dedupe_absorbs seen ks js (AreKnown-skip seen ks js k old h))
    | inr new ↦ rw (
      dedupe_new seen (ks ++ js) k new,
      dedupe_new seen ks k new,
      dedupe_absorbs (k ∷ seen) ks js (AreKnown-keep seen ks js k h),
    )
  ]
