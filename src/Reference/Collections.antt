-- ===== src/Reference/Collections.antt =====
-- What the callers of `appendUnique`, `uniqueStrings` and `keepTail` rely on.
use Prim.Native.Nat.{min}
use sink_production_suite.Prelude.{
  ℕ, zero, suc, ◌-◌, ◌≤◌, String, Bool, true, false, not, ◌&&◌, ◌||◌, Option, some, List, [], ◌∷◌,
  ◌++◌, ◌≡◌, refl, ◌∙◌, inl, inr, arith, leb, HasEquality, ◌==◌, is_same_refl, string_eq, length,
  length-drop, drop, take, take-append-drop, leb→le, le→leb, contains, contains-append, Bool-cases,
  if◌then◌else◌, eq_iff,
}
use mathlib.Core.Path.{subst}
use sink_production_suite.Reference.Helpers.{
  append_unique, keep_new_strings, unique_strings, keep_tail,
}
use sink_production_suite.Reference.Unique.{
  IsDistinct, dedupe, AreOutside, AreKnown, contains-dedupe, dedupe-IsDistinct, dedupe_distinct,
  dedupe_absorbs,
}
use sink_production_suite.Reference.Keyed.{
  Keyed, Keyed-append, Keyed-drop, IsUnique, keep_new-dedupe, keep_new_distinct, keep_new_absorbs,
}

module _ {K : Type 0} ⦃e : HasEquality K⦄ where
  -- Nothing is outside the empty list.
  pub AreOutside-nil : (ks : List K) → AreOutside [] ks
  AreOutside-nil [] = tt
  AreOutside-nil (k ∷ ks) = (refl, AreOutside-nil ks)

  -- What was deduplicated together with `js` knows `js`.
  AreKnown-of :
      (zs js : List K) → ((j : K) → contains js j ≡ true → contains zs j ≡ true) → AreKnown [] zs js
  AreKnown-of zs [] h = tt
  AreKnown-of zs (j ∷ js) h =
      (ground (arith, h j, is_same_refl j), AreKnown-of zs js (λ k m. h k (ground (arith, m))))

  pub AreKnown-dedupe : (ks js : List K) → AreKnown [] (dedupe [] (ks ++ js)) js
  AreKnown-dedupe ks js =
      AreKnown-of (dedupe [] (ks ++ js)) js
        (λ j m. ground (arith, m, contains-dedupe [] (ks ++ js) j, contains-append ks js j))

module _ {A K : Type 0} ⦃e : HasEquality K⦄ (key : A → Option K) where
  -- Where no key function panics, `appendUnique` returns: no key stands twice in the result, and
  -- its keys are those of both slices.
  pub append_unique_keys :
      (current incoming : List A) (ks js : List K)
      → Keyed key current ks
      → Keyed key incoming js
      → (ys : List A) × (zs : List K) × (append_unique key current incoming ≡ some ys)
        × Keyed key ys zs
        × IsDistinct zs
        × ((k : K) → contains zs k ≡ (contains ks k || contains js k))
  unfolding append_unique
  append_unique_keys current incoming ks js h g =
      let (ys, r, keyed) =
        keep_new-dedupe key [] (current ++ incoming) (ks ++ js)
          (Keyed-append key current incoming ks js h g) in
      (
        ys,
        dedupe [] (ks ++ js),
        r,
        keyed,
        dedupe-IsDistinct [] (ks ++ js),
        λ k. ground (arith, contains-dedupe [] (ks ++ js) k, contains-append ks js k),
      )

  -- Delivering the same items once more changes nothing.
  pub append_unique_again :
      (current incoming ys : List A) (ks js : List K)
      → Keyed key current ks
      → Keyed key incoming js
      → append_unique key current incoming ≡ some ys
      → append_unique key ys incoming ≡ some ys
  unfolding append_unique
  append_unique_again current incoming ys ks js h g r =
      let zs = dedupe [] (ks ++ js) in
      let (ys', r', keyed') =
        keep_new-dedupe key [] (current ++ incoming) (ks ++ js)
          (Keyed-append key current incoming ks js h g) in
      let same : ys' ≡ ys = cc (r, r') in
      let keyed : Keyed key ys zs = subst (λ l. Keyed key l zs) same keyed' in
      keep_new_absorbs key [] ys incoming zs js keyed g (AreKnown-dedupe ks js)
      ∙ keep_new_distinct key [] ys zs keyed (dedupe-IsDistinct [] (ks ++ js)) (AreOutside-nil zs)

  -- A slice without repeated keys is its own merge into nothing.
  pub append_unique_reload : (xs : List A) → IsUnique key xs → append_unique key [] xs ≡ some xs
  unfolding append_unique
  append_unique_reload xs (ks, h, d) = keep_new_distinct key [] xs ks h d (AreOutside-nil ks)

-- The strings that `uniqueStrings` does not skip.
unfoldable pub without_empty : Bool → List String → List String
without_empty remove_empty [] = []
without_empty remove_empty (s ∷ l) =
    let rest = without_empty remove_empty l in if remove_empty && s == "" then rest else s ∷ rest

keep_new_strings-dedupe :
    (b : Bool) (seen l : List String) → keep_new_strings b seen l ≡ dedupe seen (without_empty b l)
unfolding keep_new_strings dedupe without_empty
keep_new_strings-dedupe b seen [] = refl
keep_new_strings-dedupe b seen (s ∷ l) =
    ground (arith, keep_new_strings-dedupe b seen l, keep_new_strings-dedupe b (s ∷ seen) l)

pub unique_strings-dedupe :
    (l : List String) (b : Bool) → unique_strings l b ≡ dedupe [] (without_empty b l)
unfolding unique_strings
unique_strings-dedupe l b = keep_new_strings-dedupe b [] l

contains-without_empty :
    (b : Bool) (l : List String) (s : String)
    → contains (without_empty b l) s ≡ (contains l s && not (b && s == ""))
unfolding without_empty
contains-without_empty b [] s = refl
contains-without_empty b (t ∷ l) s = ground (arith, contains-without_empty b l s, eq_iff s t)

-- `uniqueStrings` keeps each string once, and drops only the empty one, where it is asked to.
pub unique_strings_lem :
    (l : List String) (b : Bool)
    → IsDistinct (unique_strings l b)
      × ((s : String) → contains (unique_strings l b) s ≡ (contains l s && not (b && s == "")))
unique_strings_lem l b = rw unique_strings-dedupe (
  dedupe-IsDistinct [] (without_empty b l),
  λ s. ground (arith, contains-dedupe [] (without_empty b l) s, contains-without_empty b l s),
)

pub keep_tail-drop :
    {A : Type 0} (items : List A) (limit : ℕ)
    → keep_tail items limit ≡ drop (length items - limit) items
unfolding keep_tail
keep_tail-drop items limit = elim (Bool-cases (leb (length items) limit)) [
  | inl fits ↦
      let nothing : length items - limit ≡ 0 = omega (arith, leb→le _ _ fits) in rw (fits, nothing)
  | inr more ↦ rw more
]

-- `keepTail` keeps the last items, at most `limit` of them and no fewer than it may.
pub keep_tail_lem :
    {A : Type 0} (items : List A) (limit : ℕ)
    → (length (keep_tail items limit) ≡ min limit (length items))
      × (dropped : List A) × (dropped ++ keep_tail items limit ≡ items)
keep_tail_lem items limit = (
  rw (keep_tail-drop items limit, length-drop) (omega arith),
  take (length items - limit) items,
  rw (keep_tail-drop items limit) (take-append-drop (length items - limit) items),
)

pub keep_tail_short :
    {A : Type 0} (items : List A) (limit : ℕ) → length items ≤ limit → keep_tail items limit ≡ items
unfolding keep_tail
keep_tail_short items limit h = rw (le→leb _ _ h)

IsDistinct-drop :
    {K : Type 0} ⦃e : HasEquality K⦄ (n : ℕ) (ks : List K) → IsDistinct ks → IsDistinct (drop n ks)
IsDistinct-drop zero ks d = d
IsDistinct-drop (suc n) [] d = tt
IsDistinct-drop (suc n) (k ∷ ks) d = IsDistinct-drop n ks d.1

pub keep_tail-IsUnique :
    {A K : Type 0} ⦃e : HasEquality K⦄ (key : A → Option K) (items : List A) (limit : ℕ)
    → IsUnique key items
    → IsUnique key (keep_tail items limit)
keep_tail-IsUnique key items limit (ks, h, d) =
    let n = length items - limit in
    rw (keep_tail-drop items limit) (drop n ks, Keyed-drop key n items ks h, IsDistinct-drop n ks d)

without_empty-append :
    (b : Bool) (xs ys : List String)
    → without_empty b (xs ++ ys) ≡ without_empty b xs ++ without_empty b ys
unfolding without_empty
without_empty-append b [] ys = refl
without_empty-append b (s ∷ xs) ys = ground (arith, without_empty-append b xs ys)

without_empty_fixed :
    (b : Bool) (l : List String) → (b ≡ true → contains l "" ≡ false) → without_empty b l ≡ l
unfolding without_empty
without_empty_fixed b [] h = refl
without_empty_fixed true (s ∷ l) h =
    ground (
      arith,
      h refl,
      eq_iff s "",
      eq_iff "" s,
      without_empty_fixed true l (λ p. ground (arith, h p)),
    )
without_empty_fixed false (s ∷ l) h = ground (arith, without_empty_fixed false l (λ p. cc))

-- Once more the same strings: nothing changes.
pub unique_strings_again :
    (current incoming : List String) (b : Bool)
    → unique_strings (unique_strings (current ++ incoming) b ++ incoming) b
      ≡ unique_strings (current ++ incoming) b
unique_strings_again current incoming b =
    let ks = without_empty b current in
    let js = without_empty b incoming in
    let zs = dedupe [] (ks ++ js) in
    let clean : without_empty b zs ≡ zs = without_empty_fixed b zs (λ p. ground (
      arith,
      p,
      contains-dedupe [] (ks ++ js) "",
      contains-append ks js "",
      contains-without_empty b current "",
      contains-without_empty b incoming "",
      is_same_refl {K = String} "",
    )) in
    simp (unique_strings-dedupe, without_empty-append, clean)
      (dedupe_absorbs [] zs js (AreKnown-dedupe ks js)
        ∙ dedupe_distinct [] zs (dedupe-IsDistinct [] (ks ++ js)) (AreOutside-nil zs))

pub unique_strings_reload :
    (l : List String) (b : Bool)
    → IsDistinct l
    → (b ≡ true → contains l "" ≡ false)
    → unique_strings l b ≡ l
unique_strings_reload l b d h =
    rw (unique_strings-dedupe, without_empty_fixed b l h)
      (dedupe_distinct [] l d (AreOutside-nil l))
