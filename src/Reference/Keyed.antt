-- ===== src/Reference/Keyed.antt =====
-- `appendUnique`, `uniqueStrings` and `keepTail` against the lists of keys.
use sink_production_suite.Prelude.{
  ℕ, zero, suc, true, false, Option, some, List, [], ◌∷◌, ◌++◌, ◌≡◌, refl, sym, ◌∙◌, inl, inr,
  HasEquality, string_eq, drop, contains, Bool-cases,
}
use sink_production_suite.Reference.Helpers.{keep_new}
use sink_production_suite.Reference.Unique.{
  IsDistinct, dedupe, AreOutside, AreKnown, dedupe_old, dedupe_new, AreOutside-cons, AreKnown-skip,
  AreKnown-keep,
}

-- The keys of the items, one by one: no key function panics.
abbrev pub Keyed : {A K : Type 0} → (A → Option K) → List A → List K → Type 0
Keyed key [] [] = Unit
Keyed key [] (k ∷ ks) = ⊥
Keyed key (x ∷ xs) [] = ⊥
Keyed key (x ∷ xs) (k ∷ ks) = (key x ≡ some k) × Keyed key xs ks

module _ {A K : Type 0} (key : A → Option K) where
  pub Keyed-append :
      (xs ys : List A) (ks js : List K)
      → Keyed key xs ks
      → Keyed key ys js
      → Keyed key (xs ++ ys) (ks ++ js)
  Keyed-append [] ys [] js h g = g
  Keyed-append (x ∷ xs) ys (k ∷ ks) js h g = (h.0, Keyed-append xs ys ks js h.1 g)
  Keyed-append [] ys (k ∷ ks) js h g = absurd h
  Keyed-append (x ∷ xs) ys [] js h g = absurd h

  pub Keyed-drop :
      (n : ℕ) (xs : List A) (ks : List K) → Keyed key xs ks → Keyed key (drop n xs) (drop n ks)
  Keyed-drop zero xs ks h = h
  Keyed-drop (suc n) [] [] h = tt
  Keyed-drop (suc n) (x ∷ xs) (k ∷ ks) h = Keyed-drop n xs ks h.1
  Keyed-drop (suc n) [] (k ∷ ks) h = absurd h
  Keyed-drop (suc n) (x ∷ xs) [] h = absurd h

module _ {A K : Type 0} ⦃e : HasEquality K⦄ (key : A → Option K) where
  -- The items have keys, and no key twice.
  abbrev pub IsUnique : List A → Type 0
  IsUnique xs = (ks : List K) × Keyed key xs ks × IsDistinct ks

  pub keep_old :
      (seen : List K) (x : A) (xs : List A) (k : K)
      → key x ≡ some k
      → contains seen k ≡ true
      → keep_new key seen (x ∷ xs) ≡ keep_new key seen xs
  unfolding keep_new
  keep_old seen x xs k h o = rw (h, o, keep_new)

  pub keep_fresh :
      (seen : List K) (x : A) (xs ys : List A) (k : K)
      → key x ≡ some k
      → contains seen k ≡ false
      → keep_new key (k ∷ seen) xs ≡ some ys
      → keep_new key seen (x ∷ xs) ≡ some (x ∷ ys)
  unfolding keep_new
  keep_fresh seen x xs ys k h o r = rw (h, o, r, keep_new)

  -- It returns where the keys are there, and its keys are the first occurrences.
  pub keep_new-dedupe :
      (seen : List K) (xs : List A) (ks : List K)
      → Keyed key xs ks
      → (ys : List A) × (keep_new key seen xs ≡ some ys) × Keyed key ys (dedupe seen ks)
  unfolding keep_new dedupe
  keep_new-dedupe seen [] [] h = ([], refl, tt)
  keep_new-dedupe seen (x ∷ xs) (k ∷ ks) h = elim (Bool-cases (contains seen k)) [
    | inl old ↦
        let (ys, r, g) = keep_new-dedupe seen xs ks h.1 in
        (ys, keep_old seen x xs k h.0 old ∙ r, rw (dedupe_old seen ks k old) g)
    | inr new ↦
        let (ys, r, g) = keep_new-dedupe (k ∷ seen) xs ks h.1 in
        (x ∷ ys, keep_fresh seen x xs ys k h.0 new r, rw (dedupe_new seen ks k new) (h.0, g))
  ]
  keep_new-dedupe seen [] (k ∷ ks) h = absurd h
  keep_new-dedupe seen (x ∷ xs) [] h = absurd h

  pub keep_new_distinct :
      (seen : List K) (xs : List A) (ks : List K)
      → Keyed key xs ks
      → IsDistinct ks
      → AreOutside seen ks
      → keep_new key seen xs ≡ some xs
  unfolding keep_new
  keep_new_distinct seen [] [] h d o = refl
  keep_new_distinct seen (x ∷ xs) (k ∷ ks) h d o =
      keep_fresh seen x xs xs k h.0 o.0
        (keep_new_distinct (k ∷ seen) xs ks h.1 d.1 (AreOutside-cons seen ks k d.0 o.1))
  keep_new_distinct seen [] (k ∷ ks) h d o = absurd h
  keep_new_distinct seen (x ∷ xs) [] h d o = absurd h

  keep_all_seen :
      (seen : List K) (xs : List A) (ks : List K)
      → Keyed key xs ks
      → AreKnown seen [] ks
      → keep_new key seen xs ≡ some []
  unfolding keep_new
  keep_all_seen seen [] [] h o = refl
  keep_all_seen seen (x ∷ xs) (k ∷ ks) h o =
      keep_old seen x xs k h.0 o.0 ∙ keep_all_seen seen xs ks h.1 o.1
  keep_all_seen seen [] (k ∷ ks) h o = absurd h
  keep_all_seen seen (x ∷ xs) [] h o = absurd h

  -- Items whose keys are known add nothing.
  pub keep_new_absorbs :
      (seen : List K) (xs ys : List A) (ks js : List K)
      → Keyed key xs ks
      → Keyed key ys js
      → AreKnown seen ks js
      → keep_new key seen (xs ++ ys) ≡ keep_new key seen xs
  unfolding keep_new
  keep_new_absorbs seen [] ys [] js h g o = keep_all_seen seen ys js g o
  keep_new_absorbs seen (x ∷ xs) ys (k ∷ ks) js h g o = elim (Bool-cases (contains seen k)) [
    | inl old ↦
        keep_old seen x (xs ++ ys) k h.0 old
        ∙ keep_new_absorbs seen xs ys ks js h.1 g (AreKnown-skip seen ks js k old o)
        ∙ sym (keep_old seen x xs k h.0 old)
    | inr new ↦
        let (zs, r, _) = keep_new-dedupe (k ∷ seen) xs ks h.1 in
        keep_fresh seen x (xs ++ ys) zs k h.0 new
          (keep_new_absorbs (k ∷ seen) xs ys ks js h.1 g (AreKnown-keep seen ks js k o) ∙ r)
        ∙ sym (keep_fresh seen x xs zs k h.0 new r)
  ]
  keep_new_absorbs seen [] ys (k ∷ ks) js h g o = absurd h
  keep_new_absorbs seen (x ∷ xs) ys [] js h g o = absurd h
