-- ===== src/Tests/ProductTests.antt =====
-- Two products in the manner of internal/fixture/fixture.go, with instants, floating-point numbers
-- and maps as numbers, a hash that keeps its input and a codec that knows the products of this file.
use sink_production_suite.Prelude.{
  ℕ, String, true, ◌&&◌, ◌||◌, not, Option, none, some, [], ◌∷◌, ◌≡◌, refl, contains, eqb, ◌==◌,
  string_eq, if◌then◌else◌,
}
use sink_production_suite.Reference.Helpers.{
  append_unique, unique_strings, keep_tail, replace_string, replace_slice, Codec, clone_json,
  json_digest,
}
use sink_production_suite.Reference.Model.{ProductSold, ProductStock, Product, no_product}
use sink_production_suite.Reference.Offer.{
  merge_items, merge_strings, replace_pointer, replace_number, first_found,
}
use sink_production_suite.Reference.Product.{
  Calls, record_at_text, product_sold_key, product_stock_key, product_comment_key,
  product_offer_key, merge_product_offers, merge_uids, merge_brand, merge_product_fields,
  merge_product_one, merge_product_at, merge_current_product, merge_product,
}
use sink_production_suite.Reference.ProductRound.{IsMergedProduct}
use sink_production_suite.Reference.ProductLaws.{
  merge_product_normal, knows, knows_any, merge_product-knows,
}

program : Unit {0}
unfolding append_unique unique_strings keep_tail replace_string replace_slice clone_json json_digest
    merge_items merge_strings replace_pointer replace_number first_found record_at_text
    product_sold_key product_stock_key product_comment_key product_offer_key merge_product_offers
    merge_uids merge_brand merge_product_fields merge_product_one merge_product_at
    merge_current_product merge_product
program = tt

abbrev calls : Calls ℕ ℕ ℕ
calls = record {
  utc = λ t. t;
  to_upper = λ s. if s == "acme" then "ACME" else s;
  decimal = λ n. (if eqb n 0 then "0" else "n");
  hexadecimal = λ s. s;
  format_date = λ t. "2006-01-02";
  variables_len = λ v. v;
  marshal_variables = λ v. some "variables";
  marshal_comment = λ c. some "comment";
  sha1 = λ s. s;
}

abbrev sold : ℕ → Option (ProductSold ℕ)
sold n = some (record { sold = n; period_hours = 0; record_at = some 1 })

abbrev stock : ℕ → Option (ProductStock ℕ)
stock v = some (record { stock = 3; variables = v })

abbrev current : Product ℕ ℕ ℕ
current = record (no_product ℕ ℕ ℕ) {
  uid = "old";
  uids = "legacy" ∷ [];
  title = "Shoe";
  brand = "acme";
  solds = sold 0 ∷ sold 0 ∷ [];
  stocks = stock 0 ∷ [];
  comment_count = 4;
  languages = "en" ∷ [];
  from_maybe = true;
  first_found_at = some 3;
  evicted_at = some 5;
}

abbrev incoming : Product ℕ ℕ ℕ
incoming = record (no_product ℕ ℕ ℕ) {
  uid = "new";
  uids = "legacy" ∷ "" ∷ [];
  title = "Boot";
  solds = sold 2 ∷ sold 0 ∷ [];
  stocks = stock 1 ∷ [];
  languages = "en" ∷ "de" ∷ [];
  available = true;
}

abbrev merged : Product ℕ ℕ ℕ
merged = record (no_product ℕ ℕ ℕ) {
  uid = "new";
  uids = "old" ∷ "legacy" ∷ "new" ∷ [];
  title = "Boot";
  brand = "ACME";
  solds = sold 0 ∷ sold 2 ∷ [];
  stocks = stock 0 ∷ stock 1 ∷ [];
  comment_count = 4;
  languages = "en" ∷ "de" ∷ [];
  available = true;
  first_found_at = some 3;
  last_found_at = some 7;
}

abbrev codec : Codec (Product ℕ ℕ ℕ)
codec = record {
  marshal = λ p. some p.title;
  unmarshal =
      λ s. (if s == "Shoe" then some current else if s == "Boot" then some incoming else none);
}

merge_runs : merge_product calls codec (some current) (some incoming) 7 ≡ some merged
unfolding program
merge_runs = refl

nil_runs : merge_product calls codec (some current) none 7 ≡ none
unfolding program
nil_runs = refl

clone_runs : clone_json codec (some current) ≡ some (some current)
unfolding program
clone_runs = refl

merge_product_normal_example :
    IsMergedProduct calls merged
    × (merged.last_found_at ≡ some 7)
    × ((f : ℕ) × (merged.first_found_at ≡ some f))
    × (merged.evicted_at ≡ none)
merge_product_normal_example =
    merge_product_normal calls codec (some current) (some incoming) 7 merged merge_runs

merge_product-knows_example :
    ((s : String)
      → contains merged.uids s
        ≡ (not (s == "") && (knows_any (some current) s || knows incoming s)))
    × (merged.uid ≡ replace_string "old" "new")
    × (merged.available ≡ true)
    × (merged.sold_by_platform ≡ incoming.sold_by_platform)
merge_product-knows_example =
    merge_product-knows calls codec (some current) incoming 7 merged clone_runs ("Boot", refl, refl)
      merge_runs
