-- ===== src/Reference/ProductLaws.antt =====
-- The product that `MergeProduct` returns.
use mathlib.Core.Option.{some_inj}
use mathlib.Core.Path.{subst}
use sink_production_suite.Prelude.{
  String, Bool, false, not, ◌&&◌, ◌||◌, Option, none, some, [], ◌∷◌, ◌≡◌, refl, sym, ap, ◌∙◌,
  string_eq, arith, eq_iff, ◌==◌, contains,
}
use sink_production_suite.Reference.Helpers.{Codec, clone_json, replace_string}
use sink_production_suite.Reference.Model.{Product, no_product}
use sink_production_suite.Reference.Product.{
  Calls, merge_product_one, merge_product_at, merge_current_product, merge_product,
}
use sink_production_suite.Reference.OfferRound.{>>=-eq-some, RoundTrips, clone_json_lem}
use sink_production_suite.Reference.ProductRound.{
  IsMergedProduct, no_product-IsMergedProduct, contains-merge_uids,
  merge_product_one-IsMergedProduct, merge_product_one_times, merge_product_at_one,
}

module _ {Time Float Variables : Type 0} where
  -- The identifiers of a product: its own, and those that it has collected.
  abbrev pub knows : Product Time Float Variables → String → Bool
  knows p s = s == p.uid || contains p.uids s

  abbrev pub knows_any : Option (Product Time Float Variables) → String → Bool
  knows_any none s = false
  knows_any (some p) s = knows p s

  abbrev pub own_uid : Option (Product Time Float Variables) → String
  own_uid none = ""
  own_uid (some p) = p.uid

module _ {Time Float Variables : Type 0} (calls : Calls Time Float Variables) where
  -- What a merge that returns did: a clone of each product, one round for each, and the reset of
  -- `EvictedAt`.
  record Returned (codec : Codec (Product Time Float Variables))
      (current incoming : Option (Product Time Float Variables)) (t : Time)
      (r : Product Time Float Variables) : Type 0 where
    copy : Option (Product Time Float Variables)
    base : Product Time Float Variables
    new : Product Time Float Variables
    merged : Product Time Float Variables
    copied : clone_json codec current ≡ some copy
    started : merge_current_product calls t (no_product Time Float Variables) copy ≡ some base
    copied_new : clone_json codec incoming ≡ some (some new)
    finished : merge_product_one calls t base (some new) ≡ some merged
    reset : record merged { evicted_at = none } ≡ r

  merge_product_inv :
      (codec : Codec (Product Time Float Variables))
      (current incoming : Option (Product Time Float Variables)) (t : Time)
      (r : Product Time Float Variables)
      → merge_product calls codec current incoming t ≡ some r
      → Returned codec current incoming t r
  unfolding merge_product
  merge_product_inv codec current incoming t r h =
      let (copy, copied, h1) = >>=-eq-some (clone_json codec current) _ h in
      let (base, started, h2) =
        >>=-eq-some (merge_current_product calls t (no_product Time Float Variables) copy) _ h1 in
      let (new, copied_new, h3) = >>=-eq-some (clone_json codec incoming) _ h2 in
      let (merged, finished, h4) = >>=-eq-some (merge_product_at calls t base (new ∷ [])) _ h3 in
      known copy base merged copied started new copied_new
        (sym (merge_product_at_one calls t base new) ∙ finished) (some_inj.0 h4)
    where
      known :
          (copy : Option (Product Time Float Variables))
          (base merged : Product Time Float Variables)
          → clone_json codec current ≡ some copy
          → merge_current_product calls t (no_product Time Float Variables) copy ≡ some base
          → (new : Option (Product Time Float Variables)) → clone_json codec incoming ≡ some new
          → merge_product_one calls t base new ≡ some merged
          → record merged { evicted_at = none } ≡ r
          → Returned codec current incoming t r
      known copy base merged copied started none copied_new finished reset =
          absurd (unfold merge_product_one in (cc))
      known copy base merged copied started (some new) copied_new finished reset = record {
        copy = copy;
        base = base;
        new = new;
        merged = merged;
        copied = copied;
        started = started;
        copied_new = copied_new;
        finished = finished;
        reset = reset;
      }

  merge_current_product-some :
      (t : Time) (c o : Product Time Float Variables)
      → merge_current_product calls t (no_product Time Float Variables) (some c) ≡ some o
      → merge_product_one calls t (no_product Time Float Variables) (some c) ≡ some o
  unfolding merge_current_product
  merge_current_product-some t c o h =
      sym (merge_product_at_one calls t (no_product Time Float Variables) (some c)) ∙ h

  merge_current_product-none :
      (t : Time) (o : Product Time Float Variables)
      → merge_current_product calls t (no_product Time Float Variables) none ≡ some o
      → no_product Time Float Variables ≡ o
  unfolding merge_current_product
  merge_current_product-none t o h = some_inj.0 h

  merge_current_product-IsMergedProduct :
      (t : Time) (current : Option (Product Time Float Variables))
      (o : Product Time Float Variables)
      → merge_current_product calls t (no_product Time Float Variables) current ≡ some o
      → IsMergedProduct calls o
  merge_current_product-IsMergedProduct t none o h =
      subst (IsMergedProduct calls) (merge_current_product-none t o h)
        (no_product-IsMergedProduct calls)
  merge_current_product-IsMergedProduct t (some c) o h =
      merge_product_one-IsMergedProduct calls t (no_product Time Float Variables) c o
        (no_product-IsMergedProduct calls) (merge_current_product-some t c o h)

  evicted_at_reset-IsMergedProduct :
      (m : Product Time Float Variables)
      → IsMergedProduct calls m
      → IsMergedProduct calls (record m { evicted_at = none })
  evicted_at_reset-IsMergedProduct m h = record {
    uids = h.uids;
    no_empty_uid = h.no_empty_uid;
    own_uid = h.own_uid;
    solds = h.solds;
    few_solds = h.few_solds;
    stocks = h.stocks;
    few_stocks = h.few_stocks;
    comments = h.comments;
    few_comments = h.few_comments;
    offers = h.offers;
    few_offers = h.few_offers;
    allowed_countries = h.allowed_countries;
    restricted_countries = h.restricted_countries;
    languages = h.languages;
    countries_from_ip = h.countries_from_ip;
    from_maybe = h.from_maybe;
  }

  -- Every product that `MergeProduct` returns has at most 20 solds, stocks and comments and 50
  -- offers, each key once, each identifier once, with its own and without the empty one, each
  -- country and language once, `FromMaybe` unset, the time of this observation as the last finding,
  -- some time of the first one, and no eviction.
  pub merge_product_normal :
      (codec : Codec (Product Time Float Variables))
      (current incoming : Option (Product Time Float Variables)) (t : Time)
      (r : Product Time Float Variables)
      → merge_product calls codec current incoming t ≡ some r
      → IsMergedProduct calls r
        × (r.last_found_at ≡ some (calls.utc t))
        × ((f : Time) × (r.first_found_at ≡ some f))
        × (r.evicted_at ≡ none)
  merge_product_normal codec current incoming t r h =
      let inv = merge_product_inv codec current incoming t r h in
      let base = merge_current_product-IsMergedProduct t inv.copy inv.base inv.started in
      let m =
        merge_product_one-IsMergedProduct calls t inv.base inv.new inv.merged base inv.finished in
      let (last, first, _, _, _, _) =
        merge_product_one_times calls t inv.base inv.new inv.merged inv.finished in
      subst
        (λ (r : Product Time Float Variables).
          IsMergedProduct calls r
          × (r.last_found_at ≡ some (calls.utc t))
          × ((f : Time) × (r.first_found_at ≡ some f))
          × (r.evicted_at ≡ none))
        inv.reset (evicted_at_reset-IsMergedProduct inv.merged m, last, first, refl)

  merge_current_product-knows :
      (t : Time) (current : Option (Product Time Float Variables))
      (o : Product Time Float Variables)
      → merge_current_product calls t (no_product Time Float Variables) current ≡ some o
      → (o.uid ≡ own_uid current)
        × ((s : String) → (not (s == "") && knows o s) ≡ (not (s == "") && knows_any current s))
  unfolding replace_string
  merge_current_product-knows t none o h =
      subst
        (λ (o : Product Time Float Variables).
          (o.uid ≡ "") × ((s : String) → (not (s == "") && knows o s) ≡ (not (s == "") && false)))
        (merge_current_product-none t o h) (refl, λ s. ground arith)
  merge_current_product-knows t (some c) o h =
      let zero_product = no_product Time Float Variables in
      let (_, _, _, _, own, all) =
        merge_product_one_times calls t zero_product c o (merge_current_product-some t c o h) in
      let same : o.uid ≡ c.uid = ground (arith, own, eq_iff c.uid "") in
      (
        same,
        λ s. ground (
          arith,
          ap (λ l. contains l s) all,
          contains-merge_uids calls zero_product c s,
          ap (λ u. s == u) same,
          eq_iff s "",
        ),
      )

  -- Where the codec round-trips on both products, the result has exactly the identifiers of both,
  -- the empty one excepted, its own is the incoming one, or else the current one, and its two flags
  -- are the incoming ones.
  pub merge_product-knows :
      (codec : Codec (Product Time Float Variables))
      (current : Option (Product Time Float Variables)) (incoming : Product Time Float Variables)
      (t : Time) (r : Product Time Float Variables)
      → clone_json codec current ≡ some current
      → RoundTrips codec incoming
      → merge_product calls codec current (some incoming) t ≡ some r
      → ((s : String)
          → contains r.uids s ≡ (not (s == "") && (knows_any current s || knows incoming s)))
        × (r.uid ≡ replace_string (own_uid current) incoming.uid)
        × (r.available ≡ incoming.available)
        × (r.sold_by_platform ≡ incoming.sold_by_platform)
  merge_product-knows codec current incoming t r hc hi h =
      let inv = merge_product_inv codec current (some incoming) t r h in
      let same_copy : inv.copy ≡ current = some_inj.0 (sym inv.copied ∙ hc) in
      let same_new : inv.new ≡ incoming =
        some_inj.0 (some_inj.0 (sym inv.copied_new ∙ clone_json_lem codec incoming hi)) in
      let (own, all) = merge_current_product-knows t current inv.base (
        ap (merge_current_product calls t (no_product Time Float Variables)) (sym same_copy)
        ∙ inv.started) in
      let finished : merge_product_one calls t inv.base (some incoming) ≡ some inv.merged =
        ap (λ p. merge_product_one calls t inv.base (some p)) (sym same_new) ∙ inv.finished in
      let (_, _, available, sold, uid, uids) =
        merge_product_one_times calls t inv.base incoming inv.merged finished in
      subst
        (λ (r : Product Time Float Variables).
          ((s : String)
            → contains r.uids s ≡ (not (s == "") && (knows_any current s || knows incoming s)))
          × (r.uid ≡ replace_string (own_uid current) incoming.uid)
          × (r.available ≡ incoming.available)
          × (r.sold_by_platform ≡ incoming.sold_by_platform))
        inv.reset
        (
          λ s. ground (
            arith,
            ap (λ l. contains l s) uids,
            contains-merge_uids calls inv.base incoming s,
            all s,
          ),
          uid ∙ ap (λ u. replace_string u incoming.uid) own,
          available,
          sold,
        )
