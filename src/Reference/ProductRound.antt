-- ===== src/Reference/ProductRound.antt =====
-- One round of the loop of `(*Product).MergeAt` in internal/reference/product.go.
use mathlib.Core.Option.{some_inj}
use mathlib.Core.Path.{subst}
use sink_production_suite.Prelude.{
  ◌≤◌, String, true, false, not, ◌&&◌, ◌||◌, Option, none, some, List, [], ◌∷◌, ◌++◌, ◌≡◌, refl,
  ◌∙◌, string_eq, arith, eq_iff, ◌==◌, contains, contains-append, length, if◌then◌else◌,
}
use sink_production_suite.Reference.Helpers.{◌>>=◌, replace_string}
use sink_production_suite.Reference.Unique.{IsDistinct}
use sink_production_suite.Reference.Keyed.{IsUnique}
use sink_production_suite.Reference.Collections.{
  keep_tail_lem, keep_tail-IsUnique, unique_strings_lem,
}
use sink_production_suite.Reference.Model.{
  ProductSold, ProductStock, ProductComment, ProductOffer, Product, no_product,
}
use sink_production_suite.Reference.Merging.{merge_strings-IsDistinct, first_found-some}
use sink_production_suite.Reference.Offer.{merge_items}
use sink_production_suite.Reference.Items.{append_unique_returned, merge_items_returned}
use sink_production_suite.Reference.OfferRound.{>>=-eq-some}
use sink_production_suite.Reference.Product.{
  Calls, product_sold_key, product_stock_key, product_comment_key, product_offer_key,
  merge_product_offers, merge_uids, merge_product_fields, merge_product_one, merge_product_at,
}

module _ {Time Float Variables : Type 0} (calls : Calls Time Float Variables) where
  -- What every product is that the merge loop leaves.
  pub record IsMergedProduct (p : Product Time Float Variables) : Type 0 where
    pub uids : IsDistinct p.uids
    pub no_empty_uid : contains p.uids "" ≡ false
    pub own_uid : (p.uid == "" || contains p.uids p.uid) ≡ true
    pub solds : IsUnique (product_sold_key calls) p.solds
    pub few_solds : length p.solds ≤ 20
    pub stocks : IsUnique (product_stock_key calls) p.stocks
    pub few_stocks : length p.stocks ≤ 20
    pub comments : IsUnique (product_comment_key calls) p.comments
    pub few_comments : length p.comments ≤ 20
    pub offers : IsUnique (product_offer_key calls) p.offers
    pub few_offers : length p.offers ≤ 50
    pub allowed_countries : IsDistinct p.allowed_countries
    pub restricted_countries : IsDistinct p.restricted_countries
    pub languages : IsDistinct p.languages
    pub countries_from_ip : IsDistinct p.countries_from_ip
    pub from_maybe : p.from_maybe ≡ false

  pub no_product-IsMergedProduct : IsMergedProduct (no_product Time Float Variables)
  no_product-IsMergedProduct = record {
    uids = tt;
    no_empty_uid = refl;
    own_uid = refl;
    solds = ([], tt, tt);
    few_solds = omega arith;
    stocks = ([], tt, tt);
    few_stocks = omega arith;
    comments = ([], tt, tt);
    few_comments = omega arith;
    offers = ([], tt, tt);
    few_offers = omega arith;
    allowed_countries = tt;
    restricted_countries = tt;
    languages = tt;
    countries_from_ip = tt;
    from_maybe = refl;
  }

  -- The identifiers after a round are those of both products, the empty string excepted.
  pub contains-merge_uids :
      (p i : Product Time Float Variables) (s : String)
      → contains (merge_uids calls p i) s ≡ (
          not (s == "") && (contains p.uids s || (s == p.uid || (s == i.uid || contains i.uids s))))
  unfolding merge_uids
  contains-merge_uids p i s =
      let own = (if i.uid == "" then [] else i.uid ∷ []) in
      ground (
        arith,
        (unique_strings_lem (((p.uids ++ (p.uid ∷ [])) ++ own) ++ i.uids) true).1 s,
        contains-append ((p.uids ++ (p.uid ∷ [])) ++ own) i.uids s,
        contains-append (p.uids ++ (p.uid ∷ [])) own s,
        contains-append p.uids (p.uid ∷ []) s,
        eq_iff i.uid "",
        eq_iff s "",
        eq_iff s i.uid,
      )

  merge_product_offers_returned :
      (current incoming offers : List (Option (ProductOffer Time Float Variables)))
      → IsUnique (product_offer_key calls) current
      → merge_product_offers calls current incoming ≡ some offers
      → IsUnique (product_offer_key calls) offers
  unfolding merge_product_offers
  merge_product_offers_returned current [] offers u r =
      subst (IsUnique (product_offer_key calls)) (some_inj.0 r) u
  merge_product_offers_returned current (x ∷ incoming) offers u r =
      (append_unique_returned (product_offer_key calls) [] ((x ∷ incoming) ++ current) offers r).0

  -- A round that returns merged the four keyed lists.
  record MergedLists (p i : Product Time Float Variables) : Type 0 where
    solds : List (Option (ProductSold Time))
    stocks : List (Option (ProductStock Variables))
    comments : List (Option (ProductComment Time Float))
    offers : List (Option (ProductOffer Time Float Variables))
    has_solds : merge_items (product_sold_key calls) p.solds i.solds ≡ some solds
    has_stocks : merge_items (product_stock_key calls) p.stocks i.stocks ≡ some stocks
    has_comments : merge_items (product_comment_key calls) p.comments i.comments ≡ some comments
    has_offers : merge_product_offers calls p.offers i.offers ≡ some offers

  merge_product_one_inv :
      (t : Time) (p i m : Product Time Float Variables)
      → merge_product_one calls t p (some i) ≡ some m
      → (l : MergedLists p i) × (merge_product_fields calls t p i l.solds l.stocks l.comments
            l.offers
          ≡ m)
  unfolding merge_product_one
  merge_product_one_inv t p i m h =
      let (solds, hs, h1) =
        >>=-eq-some (merge_items (product_sold_key calls) p.solds i.solds) _ h in
      let (stocks, hk, h2) =
        >>=-eq-some (merge_items (product_stock_key calls) p.stocks i.stocks) _ h1 in
      let (comments, hc, h3) =
        >>=-eq-some (merge_items (product_comment_key calls) p.comments i.comments) _ h2 in
      let (offers, ho, h4) = >>=-eq-some (merge_product_offers calls p.offers i.offers) _ h3 in
      (
        record {
          solds = solds;
          stocks = stocks;
          comments = comments;
          offers = offers;
          has_solds = hs;
          has_stocks = hk;
          has_comments = hc;
          has_offers = ho;
        },
        some_inj.0 h4,
      )

  merge_product_fields-IsMergedProduct :
      (t : Time) (p i : Product Time Float Variables) (l : MergedLists p i)
      → IsMergedProduct p
      → IsMergedProduct (merge_product_fields calls t p i l.solds l.stocks l.comments l.offers)
  unfolding merge_product_fields replace_string
  merge_product_fields-IsMergedProduct t p i l h = record {
    uids = (unfold merge_uids in (unique_strings_lem _ true).0);
    no_empty_uid = contains-merge_uids p i "" ∙ ground arith;
    own_uid = ground (
      arith,
      contains-merge_uids p i p.uid,
      contains-merge_uids p i i.uid,
      eq_iff i.uid "",
      eq_iff p.uid p.uid,
      eq_iff i.uid i.uid,
    );
    solds =
        keep_tail-IsUnique (product_sold_key calls) l.solds 20
          (merge_items_returned (product_sold_key calls) p.solds i.solds l.solds h.solds
            l.has_solds).0;
    few_solds = omega (arith, (keep_tail_lem l.solds 20).0);
    stocks =
        keep_tail-IsUnique (product_stock_key calls) l.stocks 20
          (merge_items_returned (product_stock_key calls) p.stocks i.stocks l.stocks h.stocks
            l.has_stocks).0;
    few_stocks = omega (arith, (keep_tail_lem l.stocks 20).0);
    comments =
        keep_tail-IsUnique (product_comment_key calls) l.comments 20
          (merge_items_returned (product_comment_key calls) p.comments i.comments l.comments
            h.comments l.has_comments).0;
    few_comments = omega (arith, (keep_tail_lem l.comments 20).0);
    offers =
        keep_tail-IsUnique (product_offer_key calls) l.offers 50
          (merge_product_offers_returned p.offers i.offers l.offers h.offers l.has_offers);
    few_offers = omega (arith, (keep_tail_lem l.offers 50).0);
    allowed_countries =
        merge_strings-IsDistinct p.allowed_countries i.allowed_countries h.allowed_countries;
    restricted_countries =
        merge_strings-IsDistinct p.restricted_countries i.restricted_countries
          h.restricted_countries;
    languages = merge_strings-IsDistinct p.languages i.languages h.languages;
    countries_from_ip =
        merge_strings-IsDistinct p.countries_from_ip i.countries_from_ip h.countries_from_ip;
    from_maybe = h.from_maybe;
  }

  pub merge_product_one-IsMergedProduct :
      (t : Time) (p i m : Product Time Float Variables)
      → IsMergedProduct p
      → merge_product_one calls t p (some i) ≡ some m
      → IsMergedProduct m
  merge_product_one-IsMergedProduct t p i m h r =
      let (l, e) = merge_product_one_inv t p i m r in
      subst IsMergedProduct e (merge_product_fields-IsMergedProduct t p i l h)

  -- The times, the flags and the identifiers of a round.
  pub merge_product_one_times :
      (t : Time) (p i m : Product Time Float Variables)
      → merge_product_one calls t p (some i) ≡ some m
      → (m.last_found_at ≡ some (calls.utc t))
        × ((f : Time) × (m.first_found_at ≡ some f))
        × (m.available ≡ i.available)
        × (m.sold_by_platform ≡ i.sold_by_platform)
        × (m.uid ≡ replace_string p.uid i.uid)
        × (m.uids ≡ merge_uids calls p i)
  merge_product_one_times t p i m r =
      let (l, e) = merge_product_one_inv t p i m r in
      subst
        (λ (m : Product Time Float Variables).
          (m.last_found_at ≡ some (calls.utc t))
          × ((f : Time) × (m.first_found_at ≡ some f))
          × (m.available ≡ i.available)
          × (m.sold_by_platform ≡ i.sold_by_platform)
          × (m.uid ≡ replace_string p.uid i.uid)
          × (m.uids ≡ merge_uids calls p i))
        e
        (unfold merge_product_fields in
          (
            refl,
            first_found-some p.first_found_at i.first_found_at (calls.utc t),
            refl,
            refl,
            refl,
            refl,
          ))

  pub merge_product_at_one :
      (t : Time) (p : Product Time Float Variables) (i : Option (Product Time Float Variables))
      → merge_product_at calls t p (i ∷ []) ≡ merge_product_one calls t p i
  unfolding merge_product_at
  merge_product_at_one t p i = go (merge_product_one calls t p i)
    where
      go : (o : Option (Product Time Float Variables)) → (o >>= λ p'. some p') ≡ o
      go none = refl
      go (some p') = refl
