-- ===== src/Reference/Product.antt =====
-- internal/reference/product.go: the merge of products. `none` is a panic.
use Prim.Native.String.{◌++◌ as str_append}
use sink_production_suite.Prelude.{
  ℕ, String, true, Option, none, some, List, [], ◌∷◌, ◌++◌, eqb, ◌==◌, string_eq, if◌then◌else◌,
}
use sink_production_suite.Reference.Helpers.{
  ◌>>=◌, append_unique, unique_strings, keep_tail, replace_string, replace_slice, Codec, clone_json,
  json_digest,
}
use sink_production_suite.Reference.Model.{
  ProductSold, ProductStock, ProductComment, ProductOffer, Product, no_product,
}
use sink_production_suite.Reference.Offer.{
  merge_items, merge_strings, replace_pointer, replace_number, first_found,
}

-- The calls of other packages: `Time.UTC`, `strings.ToUpper`, `fmt` for a `%d` and a `%x`,
-- `Time.Format`, `len` of a map, `json.Marshal` and `sha1.Sum`, whose bytes are a string here.
pub record Calls (Time Float Variables : Type 0) : Type 0 where
  pub utc : Time → Time
  pub to_upper : String → String
  pub decimal : ℕ → String
  pub hexadecimal : String → String
  pub format_date : Time → String
  pub variables_len : Variables → ℕ
  pub marshal_variables : Variables → Option String
  pub marshal_comment : Option (ProductComment Time Float) → Option String
  pub sha1 : String → String

module _ {Time Float Variables : Type 0} (calls : Calls Time Float Variables) where
  -- `recordAt` of `productSoldKey`.
  unfoldable pub record_at_text : Option Time → String
  record_at_text none = ""
  record_at_text (some t) = calls.format_date t

  unfoldable pub product_sold_key : Option (ProductSold Time) → Option String
  product_sold_key none = none
  product_sold_key (some item) = some (
      str_append
        (str_append
          (str_append (str_append (calls.decimal item.sold) "-") (calls.decimal item.period_hours))
          "-")
        (record_at_text item.record_at))

  unfoldable pub product_stock_key : Option (ProductStock Variables) → Option String
  product_stock_key none = none
  product_stock_key (some item) =
      let key = calls.decimal item.stock in
      if eqb (calls.variables_len item.variables) 0
      then some key
      else json_digest calls.marshal_variables calls.sha1 item.variables >>= λ digest.
          some (str_append key (calls.hexadecimal digest))

  unfoldable pub product_comment_key : Option (ProductComment Time Float) → Option String
  product_comment_key item = json_digest calls.marshal_comment calls.sha1 item

  unfoldable pub product_offer_key : Option (ProductOffer Time Float Variables) → Option String
  product_offer_key none = none
  product_offer_key (some item) = some item.uid

  -- The offers of the incoming product stand before those already there.
  unfoldable pub merge_product_offers :
      List (Option (ProductOffer Time Float Variables))
      → List (Option (ProductOffer Time Float Variables))
      → Option (List (Option (ProductOffer Time Float Variables)))
  merge_product_offers current [] = some current
  merge_product_offers current (x ∷ incoming) =
      append_unique product_offer_key [] ((x ∷ incoming) ++ current)

  -- The identifiers of one round.
  unfoldable pub merge_uids :
      Product Time Float Variables → Product Time Float Variables → List String
  merge_uids p incoming =
      unique_strings
        (((p.uids ++ (p.uid ∷ [])) ++ (if incoming.uid == "" then [] else incoming.uid ∷ []))
          ++ incoming.uids)
        true

  unfoldable pub merge_brand : String → String → String
  merge_brand current incoming = if incoming == "" then current else calls.to_upper incoming

  -- One round of the loop of `MergeAt`, once the four keyed lists are merged.
  unfoldable pub merge_product_fields :
      Time
      → Product Time Float Variables
      → Product Time Float Variables
      → List (Option (ProductSold Time))
      → List (Option (ProductStock Variables))
      → List (Option (ProductComment Time Float))
      → List (Option (ProductOffer Time Float Variables))
      → Product Time Float Variables
  merge_product_fields observed_at p incoming solds stocks comments offers = record p {
    uid = replace_string p.uid incoming.uid;
    uids = merge_uids p incoming;
    platform = replace_string p.platform incoming.platform;
    country = replace_string p.country incoming.country;
    id = replace_string p.id incoming.id;
    url = replace_string p.url incoming.url;
    title = replace_string p.title incoming.title;
    description = replace_string p.description incoming.description;
    condition = replace_string p.condition incoming.condition;
    category = replace_slice p.category incoming.category;
    gallery = replace_slice p.gallery incoming.gallery;
    brand = merge_brand p.brand incoming.brand;
    solds = keep_tail solds 20;
    prices = replace_slice p.prices incoming.prices;
    stocks = keep_tail stocks 20;
    comment_count = replace_number p.comment_count incoming.comment_count;
    comments = keep_tail comments 20;
    rating = replace_pointer p.rating incoming.rating;
    offers = keep_tail offers 50;
    allowed_countries = merge_strings p.allowed_countries incoming.allowed_countries;
    restricted_countries = merge_strings p.restricted_countries incoming.restricted_countries;
    last_found_at = some (calls.utc observed_at);
    first_found_at = first_found p.first_found_at incoming.first_found_at (calls.utc observed_at);
    evicted_at = replace_pointer p.evicted_at incoming.evicted_at;
    hostnames = replace_slice p.hostnames incoming.hostnames;
    ecommerce_class = replace_string p.ecommerce_class incoming.ecommerce_class;
    pto_class = replace_slice p.pto_class incoming.pto_class;
    brands = replace_slice p.brands incoming.brands;
    translated_text = replace_string p.translated_text incoming.translated_text;
    languages = merge_strings p.languages incoming.languages;
    countries_from_ip = merge_strings p.countries_from_ip incoming.countries_from_ip;
    serial_number = replace_string p.serial_number incoming.serial_number;
    sold_by_platform = incoming.sold_by_platform;
    available = incoming.available;
  }

  -- One round of the loop; a nil product panics.
  unfoldable pub merge_product_one :
      Time
      → Product Time Float Variables
      → Option (Product Time Float Variables)
      → Option (Product Time Float Variables)
  merge_product_one observed_at p none = none
  merge_product_one observed_at p (some incoming) = do
    solds ← merge_items product_sold_key p.solds incoming.solds
    stocks ← merge_items product_stock_key p.stocks incoming.stocks
    comments ← merge_items product_comment_key p.comments incoming.comments
    offers ← merge_product_offers p.offers incoming.offers
    some (merge_product_fields observed_at p incoming solds stocks comments offers)

  -- `(*Product).MergeAt`.
  unfoldable pub merge_product_at :
      Time
      → Product Time Float Variables
      → List (Option (Product Time Float Variables))
      → Option (Product Time Float Variables)
  unfolding merge_product_one
  merge_product_at observed_at p [] = some p
  merge_product_at observed_at p (incoming ∷ products) =
      merge_product_one observed_at p incoming >>= λ p'. merge_product_at observed_at p' products

  -- `if currentCopy != nil { result.MergeAt(observedAt, currentCopy) }`.
  unfoldable pub merge_current_product :
      Time
      → Product Time Float Variables
      → Option (Product Time Float Variables)
      → Option (Product Time Float Variables)
  unfolding merge_product_at
  merge_current_product observed_at result none = some result
  merge_current_product observed_at result (some current) =
      merge_product_at observed_at result (some current ∷ [])

  unfoldable pub merge_product :
      Codec (Product Time Float Variables)
      → Option (Product Time Float Variables)
      → Option (Product Time Float Variables)
      → Time
      → Option (Product Time Float Variables)
  unfolding merge_current_product merge_product_at
  merge_product codec current incoming observed_at = do
    current_copy ← clone_json codec current
    result ← merge_current_product observed_at (no_product Time Float Variables) current_copy
    incoming_copy ← clone_json codec incoming
    merged ← merge_product_at observed_at result (incoming_copy ∷ [])
    some (record merged { evicted_at = none })
