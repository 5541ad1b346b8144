-- ===== src/Perf/Collected.antt =====
-- The results that tools/sink-perf/stream_collect.go collects stand in the order of their operations.
use mathlib.Core.Path.{subst}
use sink_production_suite.Prelude.{
  ℕ, zero, suc, ◌+◌, ◌<◌, ◌≤◌, String, false, ◌||◌, Option, none, some, List, [], ◌∷◌, ◌++◌, map,
  ◌≡◌, ◌⊎◌, ◌∙◌, refl, sym, ap, inl, inr, arith, eqb_iff, ltb, ltb→lt, length, get_elem?, contains,
  nat_eq, All, Bool-cases, if◌then◌else◌, ◌==◌, append-nil, append_assoc,
}
use sink_production_suite.Reference.Unique.{IsDistinct}
use sink_production_suite.Perf.Collect.{streamed, insert, sort, receive, collect}

module _ {R : Type 0} (index : R → ℕ) where
  abbrev pub IsIn : R → List R → Type 0
  IsIn r [] = ⊥
  IsIn r (x ∷ l) = (r ≡ x) ⊎ IsIn r l

  -- The results of all frames.
  unfoldable pub sent : List (List R) → List R
  sent [] = []
  sent (frame ∷ rest) = frame ++ sent rest

  receive-sent :
      (frames : List (List R)) (results : List R)
      → receive index frames results ≡ results ++ sent frames
  unfolding receive sent
  receive-sent [] results = sym (append-nil results)
  receive-sent (frame ∷ rest) results =
      receive-sent rest (results ++ frame) ∙ append_assoc results frame (sent rest)

  length-insert : (r : R) (l : List R) → length (insert index r l) ≡ suc (length l)
  unfolding insert
  length-insert r [] = refl
  length-insert r (x ∷ l) = ground (arith, length-insert r l)

  pub length-sort : (l : List R) → length (sort index l) ≡ length l
  unfolding sort
  length-sort [] = refl
  length-sort (r ∷ l) = length-insert r (sort index l) ∙ ap suc (length-sort l)

  insert-IsIn : (r x : R) (l : List R) → IsIn r (insert index x l) → (r ≡ x) ⊎ IsIn r l
  unfolding insert
  insert-IsIn r x [] h = h
  insert-IsIn r x (y ∷ l) h = elim (Bool-cases (ltb (index x) (index y))) [
    | inl e ↦ subst (λ b. IsIn r (if b then x ∷ y ∷ l else y ∷ insert index x l)) e h
    | inr e ↦ elim (subst (λ b. IsIn r (if b then x ∷ y ∷ l else y ∷ insert index x l)) e h) [
      | inl here ↦ inr (inl here)
      | inr there ↦ elim (insert-IsIn r x l there) [ inl a ↦ inl a | inr b ↦ inr (inr b) ]
    ]
  ]

  sort-IsIn : (r : R) (l : List R) → IsIn r (sort index l) → IsIn r l
  unfolding sort
  sort-IsIn r [] h = h
  sort-IsIn r (x ∷ l) h = elim (insert-IsIn r x (sort index l) h) [
    | inl a ↦ inl a
    | inr b ↦ inr (sort-IsIn r l b)
  ]

  -- Ascending, from `low` on, and below `high`.
  abbrev Rises : ℕ → ℕ → List R → Type 0
  Rises low high [] = Unit {0}
  Rises low high (r ∷ l) = (low ≤ index r) × (index r < high) × Rises (suc (index r)) high l

  insert-Rises :
      (r : R) (l : List R) (low high : ℕ)
      → low ≤ index r
      → index r < high
      → contains (map index l) (index r) ≡ false
      → Rises low high l
      → Rises low high (insert index r l)
  unfolding insert
  insert-Rises r [] low high a b d h = (a, b, tt)
  insert-Rises r (x ∷ l) low high a b d (p, q, h) = elim (Bool-cases (ltb (index r) (index x))) [
    | inl e ↦ let whole : Rises low high (r ∷ x ∷ l) = (a, b, (ltb→lt _ _ e, q, h)) in rw e whole
    | inr e ↦
        let after : suc (index x) ≤ index r = ground (arith, e, d, eqb_iff (index r) (index x)) in
        let whole : Rises low high (x ∷ insert index r l) =
          (p, q, insert-Rises r l (suc (index x)) high after b (ground (arith, d)) h) in
        rw e whole
  ]

  pub contains-insert :
      (r : R) (l : List R) (k : ℕ)
      → contains (map index (insert index r l)) k ≡ (k == index r || contains (map index l) k)
  unfolding insert
  contains-insert r [] k = refl
  contains-insert r (x ∷ l) k = elim (Bool-cases (ltb (index r) (index x))) [
    | inl e ↦ rw e refl
    | inr e ↦ rw e (ground (arith, contains-insert r l k))
  ]

  pub contains-sort :
      (l : List R) (k : ℕ) → contains (map index (sort index l)) k ≡ contains (map index l) k
  unfolding sort
  contains-sort [] k = refl
  contains-sort (r ∷ l) k =
      contains-insert r (sort index l) k ∙ ap (λ b. k == index r || b) (contains-sort l k)

  sort-Rises :
      (l : List R) (high : ℕ)
      → IsDistinct (map index l)
      → All (λ r. index r < high) l
      → Rises 0 high (sort index l)
  unfolding sort
  sort-Rises [] high d h = tt
  sort-Rises (r ∷ l) high (d, rest) (h, all) =
      insert-Rises r (sort index l) 0 high (omega arith) h (contains-sort l (index r) ∙ d)
        (sort-Rises l high rest all)

  Rises-length : (l : List R) (low high : ℕ) → low ≤ high → Rises low high l → low + length l ≤ high
  Rises-length [] low high h g = omega arith
  Rises-length (r ∷ l) low high h (a, b, g) =
      omega (arith, Rises-length l (suc (index r)) high (omega arith) g)

  first_index :
      (r : R) (l : List R) (low : ℕ)
      → low ≤ index r
      → Rises (suc (index r)) (low + suc (length l)) l
      → index r < low + suc (length l)
      → index r ≡ low + 0
  first_index r l low a h b =
      omega (arith, Rises-length l (suc (index r)) (low + suc (length l)) (omega arith) h)

  Rises-at :
      (l : List R) (low i : ℕ)
      → Rises low (low + length l) l
      → i < length l
      → (r : R) × (get_elem? l i ≡ some r) × (index r ≡ low + i) × IsIn r l
  Rises-at [] low i h g = absurd (omega arith)
  Rises-at (r ∷ l) low zero (a, b, h) g = (r, refl, first_index r l low a h b, inl refl)
  Rises-at (r ∷ l) low (suc i) (a, b, h) g =
      let first : index r ≡ low = omega (arith, first_index r l low a h b) in
      let later : Rises (suc low) (low + suc (length l)) l =
        subst (λ k. Rises (suc k) (low + suc (length l)) l) first h in
      let (x, e, k, there) =
        Rises-at l (suc low) i (subst (λ k. Rises (suc low) k l) (omega arith) later)
          (omega (arith, g)) in
      (x, e, omega (arith, k), inr there)

  -- Where the stream brings a result for each operation once, below their number, and in any order and any
  -- frames, the collected results are as many, without an error, and the i-th of them is one that was sent
  -- for operation i.
  pub collect-at :
      (frames : List (List R))
      → IsDistinct (map index (sent frames))
      → All (λ r. index r < length (sent frames)) (sent frames)
      → let (error, results) = collect index (streamed frames none) in
        (error ≡ none)
        × (length results ≡ length (sent frames))
        × ((i : ℕ)
            → i < length (sent frames)
            → (r : R) × (get_elem? results i ≡ some r) × (index r ≡ i) × IsIn r (sent frames))
  unfolding collect
  collect-at frames d h =
      let all = sent frames in
      let same : receive index frames [] ≡ all = receive-sent frames [] in
      let long = length-sort all in
      let rises = sort-Rises all (length all) d h in
      subst
        (λ l.
          (◌≡◌ {A = Option String} none none)
          × (length (sort index l) ≡ length all)
          × ((i : ℕ)
              → i < length all
              → (r : R) × (get_elem? (sort index l) i ≡ some r) × (index r ≡ i) × IsIn r all))
        (sym same)
        (
          refl,
          long,
          λ i g.
              let (r, e, k, there) =
                Rises-at (sort index all) 0 i
                  (subst (λ n. Rises 0 n (sort index all)) (omega (arith, long)) rises)
                  (omega (arith, long, g)) in
              (r, e, omega (arith, k), sort-IsIn r all there),
        )
