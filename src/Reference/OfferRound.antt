-- ===== src/Reference/OfferRound.antt =====
-- One round of `(*Offer).MergeAt` of internal/reference/offer.go.
use sink_production_suite.Prelude.{
  ◌+◌, ◌≤◌, String, false, Option, none, some, List, [], ◌∷◌, ◌≡◌, refl, sym, ap, ◌∙◌, inl, inr,
  string_eq, arith, length, Option-cases,
}
use mathlib.Core.Option.{some_inj}
use mathlib.Core.Path.{subst}
use sink_production_suite.Reference.Helpers.{◌>>=◌, keep_tail, Codec, clone_json}
use sink_production_suite.Reference.Unique.{IsDistinct}
use sink_production_suite.Reference.Keyed.{IsUnique}
use sink_production_suite.Reference.Collections.{keep_tail_lem, keep_tail_short, keep_tail-IsUnique}
use sink_production_suite.Reference.Model.{Address, Contact, Offer, no_offer}
use sink_production_suite.Reference.Offer.{
  address_key, contact_key, merge_items, merge_fields, first_found, merge_one, merge_at,
}
use sink_production_suite.Reference.Merging.{
  AreTidy, replace_string_load, replace_string_again, replace_slice_load, replace_slice_again,
  replace_pointer_load, replace_pointer_again, replace_number_load, replace_number_again,
  first_found_load, first_found-some, first_found_again, merge_strings_load, merge_strings_again,
  merge_strings-IsDistinct, merge_tracking_ids-AreTidy, merge_tracking_ids_load,
  merge_tracking_ids_again,
}
use sink_production_suite.Reference.Items.{merge_items_load, merge_items_returned}

pub >>=-eq-some :
    {A B : Type 0} (m : Option A) (f : A → Option B) {b : B}
    → (m >>= f) ≡ some b
    → (a : A) × (m ≡ some a) × (f a ≡ some b)
>>=-eq-some none f h = absurd (cc)
>>=-eq-some (some a) f h = (a, refl, h)

-- The documented behaviour of `encoding/json` on one value: it decodes to what was encoded.
abbrev pub RoundTrips : {A : Type 0} → Codec A → A → Type 0
RoundTrips codec a = (s : String) × (codec.marshal a ≡ some s) × (codec.unmarshal s ≡ some a)

pub clone_json_lem :
    {A : Type 0} (codec : Codec A) (a : A)
    → RoundTrips codec a
    → clone_json codec (some a) ≡ some (some a)
unfolding clone_json
clone_json_lem codec a (s, m, u) = rw (m, u)

module _ {Time : Type 0} where
  -- What every offer is that the merge loop leaves: the keyed lists are merged once, and `MergeAt`
  -- does not touch the two fields that it has no line for.
  pub record IsMerged (o : Offer Time) : Type 0 where
    pub uids : IsDistinct o.uids
    pub addresses : IsUnique address_key o.addresses
    pub few_addresses : length o.addresses ≤ 10
    pub contacts : IsUnique contact_key o.contacts
    pub tracking_ids : AreTidy o.tracking_ids
    pub comment_count : o.comment_count ≡ 0
    pub from_maybe : o.from_maybe ≡ false

  pub no_offer-IsMerged : IsMerged (no_offer Time)
  no_offer-IsMerged = record {
    uids = tt;
    addresses = ([], tt, tt);
    few_addresses = omega arith;
    contacts = ([], tt, tt);
    tracking_ids = tt;
    comment_count = refl;
    from_maybe = refl;
  }

module _ {Time : Type 0} (utc : Time → Time) where
  -- A round that returns merged both keyed lists.
  pub merge_one_inv :
      (t : Time) (o i m : Offer Time)
      → merge_one utc t o (some i) ≡ some m
      → (ads : List (Option Address)) × (cs : List (Option Contact)) × (merge_items address_key
            o.addresses i.addresses
          ≡ some ads)
        × (merge_items contact_key o.contacts i.contacts ≡ some cs)
        × (merge_fields utc t o i ads cs ≡ m)
  unfolding merge_one
  merge_one_inv t o i m h =
      let (ads, ha, h') = >>=-eq-some (merge_items address_key o.addresses i.addresses) _ h in
      let (cs, hc, h'') = >>=-eq-some (merge_items contact_key o.contacts i.contacts) _ h' in
      (ads, cs, ha, hc, some_inj.0 h'')

  merge_one_of :
      (t : Time) (o i : Offer Time) (ads : List (Option Address)) (cs : List (Option Contact))
      → merge_items address_key o.addresses i.addresses ≡ some ads
      → merge_items contact_key o.contacts i.contacts ≡ some cs
      → merge_one utc t o (some i) ≡ some (merge_fields utc t o i ads cs)
  unfolding merge_one
  merge_one_of t o i ads cs ha hc = rw (ha, hc)

  merge_fields-IsMerged :
      (t : Time) (o i : Offer Time) (ads : List (Option Address)) (cs : List (Option Contact))
      → IsMerged o
      → IsUnique address_key ads
      → IsUnique contact_key cs
      → IsMerged (merge_fields utc t o i ads cs)
  unfolding merge_fields
  merge_fields-IsMerged t o i ads cs h ua uc = record {
    uids = merge_strings-IsDistinct o.uids i.uids h.uids;
    addresses = keep_tail-IsUnique address_key ads 10 ua;
    few_addresses = omega (arith, (keep_tail_lem ads 10).0);
    contacts = uc;
    tracking_ids = merge_tracking_ids-AreTidy o.tracking_ids i.tracking_ids h.tracking_ids;
    comment_count = h.comment_count;
    from_maybe = h.from_maybe;
  }

  pub merge_one-IsMerged :
      (t : Time) (o i m : Offer Time)
      → IsMerged o
      → merge_one utc t o (some i) ≡ some m
      → IsMerged m
  merge_one-IsMerged t o i m h r =
      let (ads, cs, ha, hc, e) = merge_one_inv t o i m r in
      subst IsMerged e (
        merge_fields-IsMerged t o i ads cs h
          (merge_items_returned address_key o.addresses i.addresses ads h.addresses ha).0
          (merge_items_returned contact_key o.contacts i.contacts cs h.contacts hc).0)

  load_fields :
      (t : Time) (o : Offer Time) (f : Time)
      → IsMerged o
      → o.first_found_at ≡ some f
      → merge_fields utc t (no_offer Time) o o.addresses o.contacts
        ≡ record o { last_found_at = some (utc t) }
  unfolding merge_fields
  load_fields t o f h found = λ i. record {
    uid = replace_string_load o.uid i;
    uids = merge_strings_load o.uids h.uids i;
    platform = replace_string_load o.platform i;
    id = replace_string_load o.id i;
    name = replace_string_load o.name i;
    url = replace_string_load o.url i;
    country = replace_string_load o.country i;
    business_name = replace_string_load o.business_name i;
    addresses = keep_tail_short o.addresses 10 h.few_addresses i;
    contacts = o.contacts;
    bio = replace_string_load o.bio i;
    member_since = replace_pointer_load o.member_since i;
    sold = replace_number_load o.sold i;
    comment_count = sym h.comment_count i;
    follower_count = replace_number_load o.follower_count i;
    product_count = replace_number_load o.product_count i;
    from_maybe = sym h.from_maybe i;
    first_found_at =
        (ap (λ x. first_found none x (utc t)) found ∙ first_found_load f (utc t) ∙ sym found) i;
    last_found_at = some (utc t);
    evicted_at = replace_pointer_load o.evicted_at i;
    hostnames = replace_slice_load o.hostnames i;
    tracking_ids = merge_tracking_ids_load o.tracking_ids h.tracking_ids i;
    has_paypal = o.has_paypal;
  }

  -- To merge such an offer into nothing loads it, with a new time of the last finding.
  pub merge_one_load :
      (t : Time) (o : Offer Time) (f : Time)
      → IsMerged o
      → o.first_found_at ≡ some f
      → merge_one utc t (no_offer Time) (some o) ≡ some (record o { last_found_at = some (utc t) })
  unfolding merge_one
  merge_one_load t o f h found =
      rw
        (
          merge_items_load address_key o.addresses h.addresses,
          merge_items_load contact_key o.contacts h.contacts,
        )
        (ap some (load_fields t o f h found))

  -- What `MergeOffer` returns of a merged offer, found last at `t`.
  abbrev pub settled : Time → Offer Time → Offer Time
  settled t o = record o { last_found_at = some (utc t); evicted_at = none }

  again_fields :
      (t t' : Time) (o b : Offer Time) (ads : List (Option Address)) (cs : List (Option Contact))
      → settled t' (merge_fields utc t' (settled t' (merge_fields utc t o b ads cs)) b ads cs)
        ≡ settled t' (merge_fields utc t o b ads cs)
  unfolding merge_fields
  again_fields t t' o b ads cs = λ i. record {
    uid = replace_string_again o.uid b.uid i;
    uids = merge_strings_again o.uids b.uids i;
    platform = replace_string_again o.platform b.platform i;
    id = replace_string_again o.id b.id i;
    name = replace_string_again o.name b.name i;
    url = replace_string_again o.url b.url i;
    country = replace_string_again o.country b.country i;
    business_name = replace_string_again o.business_name b.business_name i;
    addresses = keep_tail ads 10;
    contacts = cs;
    bio = replace_string_again o.bio b.bio i;
    member_since = replace_pointer_again o.member_since b.member_since i;
    sold = replace_number_again o.sold b.sold i;
    comment_count = o.comment_count;
    follower_count = replace_number_again o.follower_count b.follower_count i;
    product_count = replace_number_again o.product_count b.product_count i;
    from_maybe = o.from_maybe;
    first_found_at =
        first_found_again o.first_found_at b.first_found_at b.first_found_at (utc t) (utc t') i;
    last_found_at = some (utc t');
    evicted_at = none;
    hostnames = replace_slice_again o.hostnames b.hostnames i;
    tracking_ids = merge_tracking_ids_again o.tracking_ids b.tracking_ids i;
    has_paypal = b.has_paypal;
  }

  -- A second round with the same offer changes the time of the last finding only, where no address
  -- was cut off.
  pub merge_one_again :
      (t t' : Time) (o b m : Offer Time)
      → IsMerged o
      → length o.addresses + length b.addresses ≤ 10
      → merge_one utc t o (some b) ≡ some m
      → (m' : Offer Time) × (merge_one utc t' (settled t' m) (some b) ≡ some m')
        × (settled t' m' ≡ settled t' m)
  merge_one_again t t' o b m h room r =
      let (ads, cs, ha, hc, e) = merge_one_inv t o b m r in
      let (ua, shorter, ha') =
        merge_items_returned address_key o.addresses b.addresses ads h.addresses ha in
      let (uc, _, hc') = merge_items_returned contact_key o.contacts b.contacts cs h.contacts hc in
      let whole : keep_tail ads 10 ≡ ads = keep_tail_short ads 10 (omega arith) in
      subst
        (λ m.
          (m' : Offer Time) × (merge_one utc t' (settled t' m) (some b) ≡ some m')
          × (settled t' m' ≡ settled t' m))
        e
        (
          merge_fields utc t' (settled t' (merge_fields utc t o b ads cs)) b ads cs,
          merge_one_of t' (settled t' (merge_fields utc t o b ads cs)) b ads cs
              (unfold merge_fields in (ap (λ l. merge_items address_key l b.addresses) whole ∙ ha'))
              (unfold merge_fields in hc'),
          again_fields t t' o b ads cs,
        )

  pub merge_at_one :
      (t : Time) (o : Offer Time) (i : Option (Offer Time))
      → merge_at utc t o (i ∷ []) ≡ merge_one utc t o i
  unfolding merge_at
  merge_at_one t o i = elim (Option-cases (merge_one utc t o i)) [
    | inl gone ↦ rw gone
    | inr (m, there) ↦ rw there
  ]

  pub merge_one_times :
      (t : Time) (o i m : Offer Time)
      → merge_one utc t o (some i) ≡ some m
      → (m.last_found_at ≡ some (utc t)) × ((f : Time) × (m.first_found_at ≡ some f))
  merge_one_times t o i m h =
      let (ads, cs, ha, hc, e) = merge_one_inv t o i m h in
      subst
        (λ (m : Offer Time).
          (m.last_found_at ≡ some (utc t)) × ((f : Time) × (m.first_found_at ≡ some f)))
        e
        (unfold merge_fields in (refl, first_found-some o.first_found_at i.first_found_at (utc t)))
