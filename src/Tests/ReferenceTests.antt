-- ===== src/Tests/ReferenceTests.antt =====
-- Two offers in the manner of internal/fixture/fixture.go, with instants as numbers and a codec that
-- knows the offers of this file.
use sink_production_suite.Prelude.{
  ℕ, String, true, ◌&&◌, ◌||◌, not, Option, none, some, List, [], ◌∷◌, ◌++◌, ◌≡◌, refl, arith,
  length, contains, ◌==◌, string_eq, if◌then◌else◌,
}
use sink_production_suite.Reference.Helpers.{
  append_unique, unique_strings, keep_tail, replace_string, replace_slice, Codec, clone_json,
}
use sink_production_suite.Reference.Unique.{IsDistinct}
use sink_production_suite.Reference.Keyed.{Keyed}
use sink_production_suite.Reference.Collections.{
  append_unique_keys, append_unique_again, unique_strings_lem, keep_tail_lem,
}
use sink_production_suite.Reference.Model.{Address, Offer, no_offer, no_tracking}
use sink_production_suite.Reference.Offer.{
  address_key, contact_key, merge_items, merge_strings, replace_pointer, replace_number,
  first_found, merge_tracking_ids, merge_fields, merge_offer,
}
use sink_production_suite.Reference.OfferRound.{IsMerged}
use sink_production_suite.Reference.OfferLaws.{merge_offer_normal, merge_offer_redelivered}

program : Unit {0}
unfolding append_unique unique_strings keep_tail replace_string replace_slice clone_json address_key
    contact_key merge_items merge_strings replace_pointer replace_number first_found
    merge_tracking_ids merge_fields merge_offer
program = tt

abbrev street : String → Option Address
street raw =
    some (record { raw = raw; street = ""; city = ""; state = ""; country = "US"; zip_code = "" })

abbrev current : Offer ℕ
current = record (no_offer ℕ) {
  uid = "shop";
  uids = "legacy" ∷ [];
  name = "Old shop";
  bio = "old bio";
  addresses = street "1 Main St" ∷ [];
  comment_count = 9;
  sold = 10;
  first_found_at = some 3;
  evicted_at = some 5;
  has_paypal = true;
}

abbrev incoming : Offer ℕ
incoming = record (no_offer ℕ) {
  uid = "shop";
  uids = "alias" ∷ "legacy" ∷ [];
  name = "New shop";
  addresses = street "1 Main St" ∷ street "2 High St" ∷ [];
  tracking_ids = some (record no_tracking { hotjar = "h" ∷ "h" ∷ [] });
}

abbrev merged : Offer ℕ
merged = record (no_offer ℕ) {
  uid = "shop";
  uids = "legacy" ∷ "alias" ∷ [];
  name = "New shop";
  bio = "old bio";
  addresses = street "1 Main St" ∷ street "2 High St" ∷ [];
  sold = 10;
  first_found_at = some 3;
  last_found_at = some 7;
  tracking_ids = some (record no_tracking { hotjar = "h" ∷ [] });
}

abbrev utc : ℕ → ℕ
utc t = t

abbrev codec : Codec (Offer ℕ)
codec = record {
  marshal = λ o.
      some
        (if o.name == "Old shop" then "current" else if o.bio == "" then "incoming" else "merged");
  unmarshal = λ s.
      (if s == "current"
        then some current
        else if s == "incoming"
        then some incoming
        else if s == "merged"
        then some merged
        else none);
}

merge_runs : merge_offer utc codec (some current) (some incoming) 7 ≡ some merged
unfolding program
merge_runs = refl

merge_offer_normal_example :
    IsMerged merged
    × (merged.last_found_at ≡ some 7)
    × ((f : ℕ) × (merged.first_found_at ≡ some f))
    × (merged.evicted_at ≡ none)
merge_offer_normal_example =
    merge_offer_normal utc codec (some current) (some incoming) 7 merged merge_runs

merge_offer_redelivered_example :
    merge_offer utc codec (some merged) (some incoming) 8
    ≡ some (record merged { last_found_at = some 8 })
merge_offer_redelivered_example =
    merge_offer_redelivered utc codec (some current) incoming merged 7 8 ("current", refl, refl)
      ("incoming", refl, refl) ("merged", refl, refl) (omega arith) merge_runs

-- A string as its own key.
abbrev own_key : String → Option String
own_key s = some s

append_runs : append_unique own_key ("a" ∷ []) ("b" ∷ "a" ∷ []) ≡ some ("a" ∷ "b" ∷ [])
unfolding program
append_runs = refl

append_unique_keys_example :
    (ys : List String) × (zs : List String) × (append_unique own_key ("a" ∷ []) ("b" ∷ "a" ∷ [])
      ≡ some ys)
    × Keyed own_key ys zs
    × IsDistinct zs
    × ((k : String) → contains zs k ≡ (contains ("a" ∷ []) k || contains ("b" ∷ "a" ∷ []) k))
append_unique_keys_example =
    append_unique_keys own_key ("a" ∷ []) ("b" ∷ "a" ∷ []) ("a" ∷ []) ("b" ∷ "a" ∷ []) (refl, tt)
      (refl, (refl, tt))

append_unique_again_example :
    append_unique own_key ("a" ∷ "b" ∷ []) ("b" ∷ "a" ∷ []) ≡ some ("a" ∷ "b" ∷ [])
append_unique_again_example =
    append_unique_again own_key ("a" ∷ []) ("b" ∷ "a" ∷ []) ("a" ∷ "b" ∷ []) ("a" ∷ [])
      ("b" ∷ "a" ∷ []) (refl, tt) (refl, (refl, tt)) append_runs

unique_strings_lem_example :
    IsDistinct (unique_strings ("" ∷ "a" ∷ "a" ∷ []) true)
    × ((s : String)
        → contains (unique_strings ("" ∷ "a" ∷ "a" ∷ []) true) s
          ≡ (contains ("" ∷ "a" ∷ "a" ∷ []) s && not (true && s == "")))
unique_strings_lem_example = unique_strings_lem ("" ∷ "a" ∷ "a" ∷ []) true

abbrev three : List ℕ
three = 1 ∷ 2 ∷ 3 ∷ []

keep_tail_lem_example :
    (length (keep_tail three 2) ≡ 2) × (dropped : List ℕ) × (dropped ++ keep_tail three 2 ≡ three)
keep_tail_lem_example = keep_tail_lem three 2
