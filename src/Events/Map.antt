-- ===== src/Events/Map.antt =====
-- A Go `map[string]bool`, each key once. The order of an iteration is that of the list; in Go it is
-- not fixed, and decides here only which of several keys an error names.
use sink_production_suite.Prelude.{
  String, Bool, true, false, ◌||◌, Option, none, some, List, [], ◌∷◌, map, ◌≡◌, ◌≢◌, refl, arith,
  eq_iff, ◌==◌, string_eq, contains, if◌then◌else◌,
}

abbrev pub Flags : Type 0
Flags = List (String × Bool)

-- `m[k]`, with `none` for a missing key.
unfoldable pub get : Flags → String → Option Bool
get [] k = none
get ((j, v) ∷ m) k = if j == k then some v else get m k

-- `m[k] = v`.
unfoldable pub put : Flags → String → Bool → Flags
put [] k v = (k, v) ∷ []
put ((j, w) ∷ m) k v = if j == k then (k, v) ∷ m else (j, w) ∷ put m k v

-- The first key of an iteration whose value is false.
unfoldable pub first_false : Flags → Option String
first_false [] = none
first_false ((j, v) ∷ m) = if v then first_false m else some j

abbrev keys : Flags → List String
keys = map (λ e. e.0)

abbrev AreDistinct : List String → Type 0
AreDistinct [] = Unit
AreDistinct (k ∷ ks) = (contains ks k ≡ false) × AreDistinct ks

-- The lists that stand for maps: no key twice.
abbrev pub IsMap : Flags → Type 0
IsMap m = AreDistinct (keys m)

pub get-put :
    (m : Flags) (k j : String) (v : Bool) → get (put m k v) j ≡ (if k == j then some v else get m j)
unfolding get put
get-put [] k j v = refl
get-put ((i, w) ∷ m) k j v = ground (arith, eq_iff k j, eq_iff i k, eq_iff i j, get-put m k j v)

contains-put :
    (m : Flags) (k j : String) (v : Bool)
    → contains (keys (put m k v)) j ≡ (j == k || contains (keys m) j)
unfolding put
contains-put [] k j v = refl
contains-put ((i, w) ∷ m) k j v =
    ground (arith, eq_iff j k, eq_iff i k, eq_iff j i, contains-put m k j v)

pub put-IsMap : (m : Flags) (k : String) (v : Bool) → IsMap m → IsMap (put m k v)
unfolding put
put-IsMap [] k v h = (refl, tt)
put-IsMap ((i, w) ∷ m) k v h = ground (arith, eq_iff i k, put-IsMap m k v h.1, contains-put m k i v)

pub get-none : (m : Flags) (k : String) → contains (keys m) k ≡ false → get m k ≡ none
unfolding get
get-none [] k h = refl
get-none ((i, w) ∷ m) k h = ground (arith, eq_iff k i, eq_iff i k, get-none m k)

-- The iteration finds no false value just where no key has one.
pub first_false-none :
    (m : Flags) → IsMap m → first_false m ≡ none → (k : String) → get m k ≢ some false
unfolding first_false get
first_false-none [] d h k e = cc
first_false-none ((i, w) ∷ m) d h k e =
    ground (arith, eq_iff i k, first_false-none m d.1 (ground arith) k)

pub none-first_false :
    (m : Flags) → IsMap m → ((k : String) → get m k ≢ some false) → first_false m ≡ none
unfolding first_false get
none-first_false [] d h = refl
none-first_false ((i, true) ∷ m) d h =
    none-first_false m d.1 (λ k e. h k (ground (arith, e, eq_iff i k, eq_iff k i, get-none m k)))
none-first_false ((i, false) ∷ m) d h = absurd (h i (ground (arith, eq_iff i i)))
