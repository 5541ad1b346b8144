-- ===== src/Reference/OfferLaws.antt =====
-- The offer that `MergeOffer` returns.
use sink_production_suite.Prelude.{
  ℕ, ◌+◌, ◌≤◌, Option, none, some, [], ◌∷◌, ◌≡◌, refl, sym, ap, ◌∙◌, string_eq, arith, length,
}
use mathlib.Core.Option.{some_inj}
use mathlib.Core.Path.{subst}
use sink_production_suite.Reference.Helpers.{Codec, clone_json}
use sink_production_suite.Reference.Collections.{keep_tail_lem}
use sink_production_suite.Reference.Model.{Offer, no_offer}
use sink_production_suite.Reference.Offer.{
  address_key, merge_fields, merge_one, merge_at, merge_current, merge_offer,
}
use sink_production_suite.Reference.Items.{merge_items_returned}
use sink_production_suite.Reference.OfferRound.{
  >>=-eq-some, RoundTrips, clone_json_lem, IsMerged, no_offer-IsMerged, merge_one_inv,
  merge_one-IsMerged, merge_one_load, merge_one_again, merge_one_times, merge_at_one, settled,
}

module _ {Time : Type 0} (utc : Time → Time) where
  -- What a merge that returns did: a clone of each offer, one round for each, and the reset of
  -- `EvictedAt`.
  record Returned (codec : Codec (Offer Time)) (current incoming : Option (Offer Time)) (t : Time)
      (r : Offer Time) : Type 0 where
    copy : Option (Offer Time)
    base : Offer Time
    new : Option (Offer Time)
    merged : Offer Time
    copied : clone_json codec current ≡ some copy
    started : merge_current utc t (no_offer Time) copy ≡ some base
    copied_new : clone_json codec incoming ≡ some new
    finished : merge_one utc t base new ≡ some merged
    reset : record merged { evicted_at = none } ≡ r

  merge_offer_inv :
      (codec : Codec (Offer Time)) (current incoming : Option (Offer Time)) (t : Time)
      (r : Offer Time)
      → merge_offer utc codec current incoming t ≡ some r
      → Returned codec current incoming t r
  unfolding merge_offer
  merge_offer_inv codec current incoming t r h =
      let (copy, copied, h1) = >>=-eq-some (clone_json codec current) _ h in
      let (base, started, h2) = >>=-eq-some (merge_current utc t (no_offer Time) copy) _ h1 in
      let (new, copied_new, h3) = >>=-eq-some (clone_json codec incoming) _ h2 in
      let (merged, finished, h4) = >>=-eq-some (merge_at utc t base (new ∷ [])) _ h3 in
      record {
        copy = copy;
        base = base;
        new = new;
        merged = merged;
        copied = copied;
        started = started;
        copied_new = copied_new;
        finished = sym (merge_at_one utc t base new) ∙ finished;
        reset = some_inj.0 h4;
      }

  abbrev address_count : Option (Offer Time) → ℕ
  address_count none = 0
  address_count (some o) = length o.addresses

  merge_current-IsMerged :
      (t : Time) (current : Option (Offer Time)) (o : Offer Time)
      → merge_current utc t (no_offer Time) current ≡ some o
      → IsMerged o × (length o.addresses ≤ address_count current)
  unfolding merge_current
  merge_current-IsMerged t none o h =
      subst (λ o. IsMerged o × (length o.addresses ≤ 0)) (some_inj.0 h)
        (no_offer-IsMerged, omega arith)
  merge_current-IsMerged t (some c) o h =
      let r : merge_one utc t (no_offer Time) (some c) ≡ some o =
        sym (merge_at_one utc t (no_offer Time) (some c)) ∙ h in
      let (ads, cs, ha, hc, e) = merge_one_inv utc t (no_offer Time) c o r in
      let (_, shorter, _) = merge_items_returned address_key [] c.addresses ads ([], tt, tt) ha in
      (
        merge_one-IsMerged utc t (no_offer Time) c o no_offer-IsMerged r,
        subst (λ (o : Offer Time). length o.addresses ≤ length c.addresses) e
            (unfold merge_fields in omega (arith, (keep_tail_lem ads 10).0)),
      )

  -- The calls of `MergeOffer`, one after the other.
  merge_offer_runs :
      (codec : Codec (Offer Time)) (current incoming copy new : Option (Offer Time)) (t : Time)
      (base m : Offer Time)
      → clone_json codec current ≡ some copy
      → merge_current utc t (no_offer Time) copy ≡ some base
      → clone_json codec incoming ≡ some new
      → merge_one utc t base new ≡ some m
      → merge_offer utc codec current incoming t ≡ some (record m { evicted_at = none })
  unfolding merge_offer
  merge_offer_runs codec current incoming copy new t base m p q u v =
      rw (p, q, u, merge_at_one utc t base new ∙ v)

  merge_current-some :
      (t : Time) (c o : Offer Time)
      → merge_one utc t (no_offer Time) (some c) ≡ some o
      → merge_current utc t (no_offer Time) (some c) ≡ some o
  unfolding merge_current
  merge_current-some t c o h = merge_at_one utc t (no_offer Time) (some c) ∙ h

  -- What every call of `MergeOffer` that returns gives: at most ten addresses, no repeated
  -- identifier, address or contact, the time of this observation as the last finding, some time of
  -- the first one, no eviction, and the zero values of the two fields that no merge carries over.
  pub merge_offer_normal :
      (codec : Codec (Offer Time)) (current incoming : Option (Offer Time)) (t : Time)
      (r : Offer Time)
      → merge_offer utc codec current incoming t ≡ some r
      → IsMerged r
        × (r.last_found_at ≡ some (utc t))
        × ((f : Time) × (r.first_found_at ≡ some f))
        × (r.evicted_at ≡ none)
  merge_offer_normal codec current incoming t r h =
      let inv = merge_offer_inv codec current incoming t r h in
      normal inv.base inv.new inv.merged inv.reset
        (merge_current-IsMerged t inv.copy inv.base inv.started).0 inv.finished
    where
      normal :
          (base : Offer Time) (new : Option (Offer Time)) (merged : Offer Time)
          → record merged { evicted_at = none } ≡ r
          → IsMerged base
          → merge_one utc t base new ≡ some merged
          → IsMerged r
            × (r.last_found_at ≡ some (utc t))
            × ((f : Time) × (r.first_found_at ≡ some f))
            × (r.evicted_at ≡ none)
      normal base none merged e b f = absurd (unfold merge_one in (cc))
      normal base (some i) merged e b f =
          let (ads, cs, ha, hc, fields) = merge_one_inv utc t base i merged f in
          let m = merge_one-IsMerged utc t base i merged b f in
          subst
            (λ (r : Offer Time).
              IsMerged r
              × (r.last_found_at ≡ some (utc t))
              × ((f : Time) × (r.first_found_at ≡ some f))
              × (r.evicted_at ≡ none))
            e
            (
              record {
                uids = m.uids;
                addresses = m.addresses;
                few_addresses = m.few_addresses;
                contacts = m.contacts;
                tracking_ids = m.tracking_ids;
                comment_count = m.comment_count;
                from_maybe = m.from_maybe;
              },
              (merge_one_times utc t base i merged f).0,
              (merge_one_times utc t base i merged f).1,
              refl,
            )

  abbrev pub AllRoundTrip : Codec (Offer Time) → Option (Offer Time) → Type 0
  AllRoundTrip codec none = Unit
  AllRoundTrip codec (some o) = RoundTrips codec o

  clone_all :
      (codec : Codec (Offer Time)) (o : Option (Offer Time))
      → AllRoundTrip codec o
      → clone_json codec o ≡ some o
  unfolding clone_json
  clone_all codec none h = refl
  clone_all codec (some o) h = clone_json_lem codec o h

  -- Redelivery: to merge the same offer again into the merged one, at any later observation, changes
  -- the time of the last finding and nothing else, where the addresses of both fit into ten.
  pub merge_offer_redelivered :
      (codec : Codec (Offer Time)) (current : Option (Offer Time)) (incoming r : Offer Time)
      (t t' : Time)
      → AllRoundTrip codec current
      → RoundTrips codec incoming
      → RoundTrips codec r
      → address_count current + length incoming.addresses ≤ 10
      → merge_offer utc codec current (some incoming) t ≡ some r
      → merge_offer utc codec (some r) (some incoming) t'
        ≡ some (record r { last_found_at = some (utc t') })
  merge_offer_redelivered codec current incoming r t t' rc ri rr room h =
      let inv = merge_offer_inv codec current (some incoming) t r h in
      let same_copy : inv.copy ≡ current =
        some_inj.0 (sym inv.copied ∙ clone_all codec current rc) in
      let same_new : inv.new ≡ some incoming =
        some_inj.0 (sym inv.copied_new ∙ clone_json_lem codec incoming ri) in
      let (merged_base, few) = merge_current-IsMerged t inv.copy inv.base inv.started in
      let few' : length inv.base.addresses ≤ address_count current =
        subst (λ c. length inv.base.addresses ≤ address_count c) same_copy few in
      let finished : merge_one utc t inv.base (some incoming) ≡ some inv.merged =
        ap (merge_one utc t inv.base) (sym same_new) ∙ inv.finished in
      let (m', again, settles) =
        merge_one_again utc t t' inv.base incoming inv.merged merged_base (omega arith) finished in
      let (merged_r, _, (f, first), _) = merge_offer_normal codec current (some incoming) t r h in
      let loaded : merge_one utc t' (no_offer Time) (some r) ≡ some (settled utc t' inv.merged) =
        merge_one_load utc t' r f merged_r first
        ∙ ap (λ (o : Offer Time). some (record o { last_found_at = some (utc t') }))
            (sym inv.reset) in
      merge_offer_runs codec (some r) (some incoming) (some r) (some incoming) t'
        (settled utc t' inv.merged) m' (clone_json_lem codec r rr)
        (merge_current-some t' r (settled utc t' inv.merged) loaded)
        (clone_json_lem codec incoming ri) again
      ∙ ap some (
          (λ i. record m' {
            last_found_at =
                (merge_one_times utc t' (settled utc t' inv.merged) incoming m' again).0 i;
            evicted_at = none;
          })
          ∙ settles
          ∙ ap (λ (o : Offer Time). record o { last_found_at = some (utc t') }) inv.reset)
