-- ===== src/Reference/Helpers.antt =====
-- internal/reference/helpers.go, and `replaceString` and `replaceSlice` of
-- internal/reference/product.go. `none` is a panic: a key function panics on a nil pointer, and on a
-- value that `json.Marshal` refuses. A nil slice and an empty one are both `[]`.
use sink_production_suite.Prelude.{
  ℕ, ◌-◌, String, Bool, true, false, ◌&&◌, ◌||◌, Option, none, some, List, [], ◌∷◌, ◌++◌, leb,
  HasEquality, ◌==◌, string_eq, length, drop, contains, if◌then◌else◌,
}

-- A chain of calls that may panic.
infixl 5 ◌>>=◌
abbrev pub ◌>>=◌ {ℓ κ} : {A : Type ℓ} {B : Type κ} → Option A → (A → Option B) → Option B
none >>= f = none
some a >>= f = f a

module _ {A K : Type 0} ⦃e : HasEquality K⦄ (key : A → Option K) where
  -- The loop of `appendUnique`; `seen` holds the keys of the items kept so far.
  unfoldable pub keep_new : List K → List A → Option (List A)
  keep_new seen [] = some []
  keep_new seen (item ∷ rest) = elim (key item) [
    | none ↦ none
    | some k ↦ elim (contains seen k) [
      | true ↦ keep_new seen rest
      | false ↦ elim (keep_new (k ∷ seen) rest) [ none ↦ none | some kept ↦ some (item ∷ kept) ]
    ]
  ]

  unfoldable pub append_unique : List A → List A → Option (List A)
  unfolding keep_new
  append_unique current incoming = keep_new [] (current ++ incoming)

-- The loop of `uniqueStrings`.
unfoldable pub keep_new_strings : Bool → List String → List String → List String
keep_new_strings remove_empty seen [] = []
keep_new_strings remove_empty seen (item ∷ rest) =
    elim (remove_empty && item == "" || contains seen item) [
      | true ↦ keep_new_strings remove_empty seen rest
      | false ↦ item ∷ keep_new_strings remove_empty (item ∷ seen) rest
    ]

unfoldable pub unique_strings : List String → Bool → List String
unfolding keep_new_strings
unique_strings items remove_empty = keep_new_strings remove_empty [] items

unfoldable pub keep_tail {ℓ} : {A : Type ℓ} → List A → ℕ → List A
keep_tail items limit =
    if leb (length items) limit then items else drop (length items - limit) items

unfoldable pub replace_string : String → String → String
replace_string target incoming = if incoming == "" then target else incoming

unfoldable pub replace_slice {ℓ} : {A : Type ℓ} → List A → List A → List A
replace_slice target [] = target
replace_slice target (x ∷ incoming) = x ∷ incoming

-- `encoding/json` on one Go type.
pub record Codec (A : Type 0) : Type 0 where
  pub marshal : A → Option String
  pub unmarshal : String → Option A

-- `cloneJSON`: a nil pointer is its own clone, and an error of the codec is a panic.
unfoldable pub clone_json : {A : Type 0} → Codec A → Option A → Option (Option A)
clone_json codec none = some none
clone_json codec (some value) = do
  encoded ← codec.marshal value
  result ← codec.unmarshal encoded
  some (some result)

-- The encoding and the hash are those of other packages.
unfoldable pub json_digest {ℓ} :
    {A : Type ℓ} → (A → Option String) → (String → String) → A → Option String
json_digest marshal sha1 value = marshal value >>= λ encoded. some (sha1 encoded)
