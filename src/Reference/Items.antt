-- ===== src/Reference/Items.antt =====
-- `if len(incoming) > 0 { current = appendUnique(current, incoming, key) }`, where it returns.
use mathlib.Core.Path.{subst}
use sink_production_suite.Prelude.{
  ◌+◌, ◌≤◌, String, false, Option, none, some, List, [], ◌∷◌, ◌++◌, ◌≡◌, refl, sym, ◌∙◌, inl, inr,
  HasEquality, string_eq, arith, contains, length, length-append, Bool-cases, Option-cases,
}
use sink_production_suite.Reference.Helpers.{append_unique, keep_new}
use sink_production_suite.Reference.Keyed.{Keyed, IsUnique, keep_old, keep_fresh}
use sink_production_suite.Reference.Collections.{
  append_unique_keys, append_unique_again, append_unique_reload,
}
use sink_production_suite.Reference.Offer.{merge_items}

module _ {A K : Type 0} ⦃e : HasEquality K⦄ (key : A → Option K) where
  keep_panics :
      (seen : List K) (x : A) (xs : List A) → key x ≡ none → keep_new key seen (x ∷ xs) ≡ none
  unfolding keep_new
  keep_panics seen x xs h = rw (h, keep_new)

  keep_panics_later :
      (seen : List K) (x : A) (xs : List A) (k : K)
      → key x ≡ some k
      → contains seen k ≡ false
      → keep_new key (k ∷ seen) xs ≡ none
      → keep_new key seen (x ∷ xs) ≡ none
  unfolding keep_new
  keep_panics_later seen x xs k h o r = rw (h, o, r, keep_new)

  -- Where the loop returns, no key function panicked, and the result is no longer than the input.
  pub keep_new-Keyed :
      (seen : List K) (xs : List A) {ys : List A}
      → keep_new key seen xs ≡ some ys
      → (ks : List K) × Keyed key xs ks × (length ys ≤ length xs)
  unfolding keep_new
  keep_new-Keyed seen [] h = ([], tt, ground arith)
  keep_new-Keyed seen (x ∷ xs) {ys} h = elim (Option-cases (key x)) [
    | inl gone ↦ absurd (cc (keep_panics seen x xs gone, h))
    | inr (k, there) ↦ elim (Bool-cases (contains seen k)) [
      | inl old ↦
          let (ks, g, short) =
            keep_new-Keyed seen xs (sym (keep_old key seen x xs k there old) ∙ h) in
          (k ∷ ks, (there, g), omega arith)
      | inr new ↦ elim (Option-cases (keep_new key (k ∷ seen) xs)) [
        | inl gone ↦ absurd (cc (keep_panics_later seen x xs k there new gone, h))
        | inr (zs, r) ↦
            let (ks, g, short) = keep_new-Keyed (k ∷ seen) xs r in
            let same : x ∷ zs ≡ ys = cc (keep_fresh key seen x xs zs k there new r, h) in
            (k ∷ ks, (there, g), rw (← same) (omega arith))
      ]
    ]
  ]

  pub Keyed-split :
      (xs ys : List A) (ks : List K)
      → Keyed key (xs ++ ys) ks
      → (front : List K) × (back : List K) × Keyed key xs front × Keyed key ys back
  Keyed-split [] ys ks h = ([], ks, tt, h)
  Keyed-split (x ∷ xs) ys (k ∷ ks) h =
      let (front, back, f, g) = Keyed-split xs ys ks h.1 in (k ∷ front, back, (h.0, f), g)
  Keyed-split (x ∷ xs) ys [] h = absurd h

  -- Where `appendUnique` returns, its result has no key twice, is as long as both slices at most,
  -- and another delivery of the same items returns it again.
  pub append_unique_returned :
      (current incoming ys : List A)
      → append_unique key current incoming ≡ some ys
      → IsUnique key ys
        × (length ys ≤ length current + length incoming)
        × (append_unique key ys incoming ≡ some ys)
  unfolding append_unique
  append_unique_returned current incoming ys r =
      let (ks, keyed, short) = keep_new-Keyed [] (current ++ incoming) r in
      let (front, back, f, g) = Keyed-split current incoming ks keyed in
      let (zs, js, r', keyed', d, _) = append_unique_keys key current incoming front back f g in
      let same : zs ≡ ys = cc (r, r') in
      (
        subst (IsUnique key) same (js, keyed', d),
        omega (arith, length-append {0} current incoming),
        append_unique_again key current incoming ys front back f g r,
      )

module _ {A : Type 0} (key : A → Option String) where
  pub merge_items_load : (xs : List A) → IsUnique key xs → merge_items key [] xs ≡ some xs
  unfolding merge_items
  merge_items_load [] u = refl
  merge_items_load (x ∷ xs) u = append_unique_reload key (x ∷ xs) u

  pub merge_items_returned :
      (current incoming ys : List A)
      → IsUnique key current
      → merge_items key current incoming ≡ some ys
      → IsUnique key ys
        × (length ys ≤ length current + length incoming)
        × (merge_items key ys incoming ≡ some ys)
  unfolding merge_items
  merge_items_returned current [] ys u r =
      let same : current ≡ ys = cc r in (subst (IsUnique key) same u, rw same (omega arith), refl)
  merge_items_returned current (x ∷ incoming) ys u r =
      append_unique_returned key current (x ∷ incoming) ys r
