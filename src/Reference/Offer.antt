-- ===== src/Reference/Offer.antt =====
-- internal/reference/offer.go: the merge of offers. `none` is a panic.
use Prim.Native.String.{◌++◌ as str_append}
use sink_production_suite.Prelude.{
  ℕ, String, false, Option, none, some, List, [], ◌∷◌, ◌++◌, eqb, string_eq, if◌then◌else◌,
}
use sink_production_suite.Reference.Helpers.{
  ◌>>=◌, append_unique, unique_strings, keep_tail, replace_string, replace_slice, Codec, clone_json,
}
use sink_production_suite.Reference.Model.{
  Address, Contact, TrackingIds, Offer, no_tracking, no_offer,
}

-- `item.Raw + item.Country`, and `fmt.Sprintf("%s%s", item.Type, item.Value)`.
unfoldable pub address_key : Option Address → Option String
address_key none = none
address_key (some item) = some (str_append item.raw item.country)

unfoldable pub contact_key : Option Contact → Option String
contact_key none = none
contact_key (some item) = some (str_append item.type_ item.value)

-- `if len(incoming) > 0 { current = appendUnique(current, incoming, key) }`.
unfoldable pub merge_items : {A : Type 0} → (A → Option String) → List A → List A → Option (List A)
merge_items key current [] = some current
merge_items key current (x ∷ incoming) = append_unique key current (x ∷ incoming)

-- `mergeTrackingField`, and the same lines for other lists of strings.
unfoldable pub merge_strings : List String → List String → List String
merge_strings current [] = current
merge_strings current (s ∷ incoming) = unique_strings (current ++ (s ∷ incoming)) false

-- `if incoming != nil { current = incoming }`, and the same for a number that is not 0.
unfoldable pub replace_pointer : {A : Type 0} → Option A → Option A → Option A
replace_pointer current none = current
replace_pointer current (some a) = some a

unfoldable pub replace_number : ℕ → ℕ → ℕ
replace_number current incoming = if eqb incoming 0 then current else incoming

-- The two tests on `FirstFoundAt`: the first value that is there, else the stamp.
unfoldable pub first_found : {Time : Type 0} → Option Time → Option Time → Time → Option Time
first_found (some t) incoming stamp = some t
first_found none (some t) stamp = some t
first_found none none stamp = some stamp

abbrev pub merge_tracking_fields : TrackingIds → TrackingIds → TrackingIds
merge_tracking_fields o i = record {
  google_analytics_ua = merge_strings o.google_analytics_ua i.google_analytics_ua;
  google_analytics_ga4 = merge_strings o.google_analytics_ga4 i.google_analytics_ga4;
  google_tag_manager = merge_strings o.google_tag_manager i.google_tag_manager;
  google_ad_sense = merge_strings o.google_ad_sense i.google_ad_sense;
  facebook_pixel = merge_strings o.facebook_pixel i.facebook_pixel;
  hotjar = merge_strings o.hotjar i.hotjar;
  yandex_metrica = merge_strings o.yandex_metrica i.yandex_metrica;
  facebook_domain_verification =
      merge_strings o.facebook_domain_verification i.facebook_domain_verification;
  pinterest_domain_verify = merge_strings o.pinterest_domain_verify i.pinterest_domain_verify;
  yandex_verification = merge_strings o.yandex_verification i.yandex_verification;
  bing_site_verification = merge_strings o.bing_site_verification i.bing_site_verification;
  script_urls = merge_strings o.script_urls i.script_urls;
  inline_script_hashes = merge_strings o.inline_script_hashes i.inline_script_hashes;
}

unfoldable pub merge_tracking_ids : Option TrackingIds → Option TrackingIds → Option TrackingIds
merge_tracking_ids offer none = offer
merge_tracking_ids none (some incoming) = some (merge_tracking_fields no_tracking incoming)
merge_tracking_ids (some offer) (some incoming) = some (merge_tracking_fields offer incoming)

module _ {Time : Type 0} (utc : Time → Time) where
  -- One round of the loop of `MergeAt`, once the two keyed lists are merged.
  unfoldable pub merge_fields :
      Time → Offer Time → Offer Time → List (Option Address) → List (Option Contact) → Offer Time
  merge_fields observed_at o incoming addresses contacts = record o {
    uid = replace_string o.uid incoming.uid;
    uids = merge_strings o.uids incoming.uids;
    platform = replace_string o.platform incoming.platform;
    id = replace_string o.id incoming.id;
    name = replace_string o.name incoming.name;
    url = replace_string o.url incoming.url;
    country = replace_string o.country incoming.country;
    business_name = replace_string o.business_name incoming.business_name;
    addresses = keep_tail addresses 10;
    contacts = contacts;
    bio = replace_string o.bio incoming.bio;
    member_since = replace_pointer o.member_since incoming.member_since;
    sold = replace_number o.sold incoming.sold;
    follower_count = replace_number o.follower_count incoming.follower_count;
    product_count = replace_number o.product_count incoming.product_count;
    last_found_at = some (utc observed_at);
    first_found_at = first_found o.first_found_at incoming.first_found_at (utc observed_at);
    evicted_at = replace_pointer o.evicted_at incoming.evicted_at;
    hostnames = replace_slice o.hostnames incoming.hostnames;
    tracking_ids = merge_tracking_ids o.tracking_ids incoming.tracking_ids;
    has_paypal = incoming.has_paypal;
  }

  -- One round of the loop; a nil offer panics.
  unfoldable pub merge_one : Time → Offer Time → Option (Offer Time) → Option (Offer Time)
  merge_one observed_at o none = none
  merge_one observed_at o (some incoming) = do
    addresses ← merge_items address_key o.addresses incoming.addresses
    contacts ← merge_items contact_key o.contacts incoming.contacts
    some (merge_fields observed_at o incoming addresses contacts)

  -- `(*Offer).MergeAt`.
  unfoldable pub merge_at : Time → Offer Time → List (Option (Offer Time)) → Option (Offer Time)
  unfolding merge_one
  merge_at observed_at o [] = some o
  merge_at observed_at o (incoming ∷ offers) =
      merge_one observed_at o incoming >>= λ o'. merge_at observed_at o' offers

  -- `if currentCopy != nil { result.MergeAt(observedAt, currentCopy) }`.
  unfoldable pub merge_current : Time → Offer Time → Option (Offer Time) → Option (Offer Time)
  unfolding merge_at
  merge_current observed_at result none = some result
  merge_current observed_at result (some current) = merge_at observed_at result (some current ∷ [])

  unfoldable pub merge_offer :
      Codec (Offer Time) → Option (Offer Time) → Option (Offer Time) → Time → Option (Offer Time)
  unfolding merge_current merge_at
  merge_offer codec current incoming observed_at = do
    current_copy ← clone_json codec current
    result ← merge_current observed_at (no_offer Time) current_copy
    incoming_copy ← clone_json codec incoming
    merged ← merge_at observed_at result (incoming_copy ∷ [])
    some (record merged { evicted_at = none })
