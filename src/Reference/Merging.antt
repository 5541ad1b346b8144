-- ===== src/Reference/Merging.antt =====
-- One field at a time: a merge into an empty field loads it, and a second merge of the same value
-- changes nothing.
use sink_production_suite.Prelude.{
  ℕ, String, false, Option, none, some, List, [], ◌∷◌, ◌++◌, ◌≡◌, refl, ap, string_eq, arith,
  eq_iff,
}
use sink_production_suite.Reference.Helpers.{replace_string, replace_slice}
use sink_production_suite.Reference.Unique.{IsDistinct}
use sink_production_suite.Reference.Collections.{
  unique_strings_lem, unique_strings_again, unique_strings_reload,
}
use sink_production_suite.Reference.Model.{TrackingIds, no_tracking}
use sink_production_suite.Reference.Offer.{
  merge_strings, replace_pointer, replace_number, first_found, merge_tracking_fields,
  merge_tracking_ids,
}

pub replace_string_load : (s : String) → replace_string "" s ≡ s
unfolding replace_string
replace_string_load s = ground (arith, eq_iff s "")

pub replace_string_again :
    (a b : String) → replace_string (replace_string a b) b ≡ replace_string a b
unfolding replace_string
replace_string_again a b = ground arith

pub replace_slice_load {ℓ} : {A : Type ℓ} (l : List A) → replace_slice [] l ≡ l
unfolding replace_slice
replace_slice_load [] = refl
replace_slice_load (x ∷ l) = refl

pub replace_slice_again {ℓ} :
    {A : Type ℓ} (a b : List A) → replace_slice (replace_slice a b) b ≡ replace_slice a b
unfolding replace_slice
replace_slice_again a [] = refl
replace_slice_again a (x ∷ b) = refl

pub replace_pointer_load : {A : Type 0} (a : Option A) → replace_pointer none a ≡ a
unfolding replace_pointer
replace_pointer_load none = refl
replace_pointer_load (some a) = refl

pub replace_pointer_again :
    {A : Type 0} (a b : Option A) → replace_pointer (replace_pointer a b) b ≡ replace_pointer a b
unfolding replace_pointer
replace_pointer_again a none = refl
replace_pointer_again a (some b) = refl

pub replace_number_load : (n : ℕ) → replace_number 0 n ≡ n
unfolding replace_number
replace_number_load n = ground arith

pub replace_number_again : (a b : ℕ) → replace_number (replace_number a b) b ≡ replace_number a b
unfolding replace_number
replace_number_again a b = ground arith

pub first_found_load : {T : Type 0} (t s : T) → first_found none (some t) s ≡ some t
unfolding first_found
first_found_load t s = refl

pub first_found-some :
    {T : Type 0} (a b : Option T) (s : T) → (t : T) × (first_found a b s ≡ some t)
unfolding first_found
first_found-some (some t) b s = (t, refl)
first_found-some none (some t) s = (t, refl)
first_found-some none none s = (s, refl)

pub first_found_again :
    {T : Type 0} (a b c : Option T) (s s' : T)
    → first_found (first_found a b s) c s' ≡ first_found a b s
unfolding first_found
first_found_again (some t) b c s s' = refl
first_found_again none (some t) c s s' = refl
first_found_again none none c s s' = refl

pub merge_strings_load : (l : List String) → IsDistinct l → merge_strings [] l ≡ l
unfolding merge_strings
merge_strings_load [] d = refl
merge_strings_load (s ∷ l) d = unique_strings_reload (s ∷ l) false d (λ e. cc)

pub merge_strings_again :
    (a b : List String) → merge_strings (merge_strings a b) b ≡ merge_strings a b
unfolding merge_strings
merge_strings_again a [] = refl
merge_strings_again a (s ∷ b) = unique_strings_again a (s ∷ b) false

pub merge_strings-IsDistinct : (a b : List String) → IsDistinct a → IsDistinct (merge_strings a b)
unfolding merge_strings
merge_strings-IsDistinct a [] d = d
merge_strings-IsDistinct a (s ∷ b) d = (unique_strings_lem (a ++ (s ∷ b)) false).0

-- Every list of the tracking identifiers is without repetition.
pub record IsTidy (t : TrackingIds) : Type 0 where
  pub google_analytics_ua : IsDistinct t.google_analytics_ua
  pub google_analytics_ga4 : IsDistinct t.google_analytics_ga4
  pub google_tag_manager : IsDistinct t.google_tag_manager
  pub google_ad_sense : IsDistinct t.google_ad_sense
  pub facebook_pixel : IsDistinct t.facebook_pixel
  pub hotjar : IsDistinct t.hotjar
  pub yandex_metrica : IsDistinct t.yandex_metrica
  pub facebook_domain_verification : IsDistinct t.facebook_domain_verification
  pub pinterest_domain_verify : IsDistinct t.pinterest_domain_verify
  pub yandex_verification : IsDistinct t.yandex_verification
  pub bing_site_verification : IsDistinct t.bing_site_verification
  pub script_urls : IsDistinct t.script_urls
  pub inline_script_hashes : IsDistinct t.inline_script_hashes

abbrev pub AreTidy : Option TrackingIds → Type 0
AreTidy none = Unit
AreTidy (some t) = IsTidy t

no_tracking-IsTidy : IsTidy no_tracking
no_tracking-IsTidy = record {
  google_analytics_ua = tt;
  google_analytics_ga4 = tt;
  google_tag_manager = tt;
  google_ad_sense = tt;
  facebook_pixel = tt;
  hotjar = tt;
  yandex_metrica = tt;
  facebook_domain_verification = tt;
  pinterest_domain_verify = tt;
  yandex_verification = tt;
  bing_site_verification = tt;
  script_urls = tt;
  inline_script_hashes = tt;
}

merge_tracking-IsTidy : (a b : TrackingIds) → IsTidy a → IsTidy (merge_tracking_fields a b)
merge_tracking-IsTidy a b h = record {
  google_analytics_ua =
      merge_strings-IsDistinct a.google_analytics_ua b.google_analytics_ua h.google_analytics_ua;
  google_analytics_ga4 =
      merge_strings-IsDistinct a.google_analytics_ga4 b.google_analytics_ga4 h.google_analytics_ga4;
  google_tag_manager =
      merge_strings-IsDistinct a.google_tag_manager b.google_tag_manager h.google_tag_manager;
  google_ad_sense = merge_strings-IsDistinct a.google_ad_sense b.google_ad_sense h.google_ad_sense;
  facebook_pixel = merge_strings-IsDistinct a.facebook_pixel b.facebook_pixel h.facebook_pixel;
  hotjar = merge_strings-IsDistinct a.hotjar b.hotjar h.hotjar;
  yandex_metrica = merge_strings-IsDistinct a.yandex_metrica b.yandex_metrica h.yandex_metrica;
  facebook_domain_verification =
      merge_strings-IsDistinct a.facebook_domain_verification b.facebook_domain_verification
        h.facebook_domain_verification;
  pinterest_domain_verify =
      merge_strings-IsDistinct a.pinterest_domain_verify b.pinterest_domain_verify
        h.pinterest_domain_verify;
  yandex_verification =
      merge_strings-IsDistinct a.yandex_verification b.yandex_verification h.yandex_verification;
  bing_site_verification =
      merge_strings-IsDistinct a.bing_site_verification b.bing_site_verification
        h.bing_site_verification;
  script_urls = merge_strings-IsDistinct a.script_urls b.script_urls h.script_urls;
  inline_script_hashes =
      merge_strings-IsDistinct a.inline_script_hashes b.inline_script_hashes h.inline_script_hashes;
}

pub merge_tracking_ids-AreTidy :
    (a b : Option TrackingIds) → AreTidy a → AreTidy (merge_tracking_ids a b)
unfolding merge_tracking_ids
merge_tracking_ids-AreTidy a none h = h
merge_tracking_ids-AreTidy none (some b) h = merge_tracking-IsTidy no_tracking b no_tracking-IsTidy
merge_tracking_ids-AreTidy (some a) (some b) h = merge_tracking-IsTidy a b h

merge_tracking_load : (t : TrackingIds) → IsTidy t → merge_tracking_fields no_tracking t ≡ t
merge_tracking_load t h = λ i. record {
  google_analytics_ua = merge_strings_load t.google_analytics_ua h.google_analytics_ua i;
  google_analytics_ga4 = merge_strings_load t.google_analytics_ga4 h.google_analytics_ga4 i;
  google_tag_manager = merge_strings_load t.google_tag_manager h.google_tag_manager i;
  google_ad_sense = merge_strings_load t.google_ad_sense h.google_ad_sense i;
  facebook_pixel = merge_strings_load t.facebook_pixel h.facebook_pixel i;
  hotjar = merge_strings_load t.hotjar h.hotjar i;
  yandex_metrica = merge_strings_load t.yandex_metrica h.yandex_metrica i;
  facebook_domain_verification =
      merge_strings_load t.facebook_domain_verification h.facebook_domain_verification i;
  pinterest_domain_verify =
      merge_strings_load t.pinterest_domain_verify h.pinterest_domain_verify i;
  yandex_verification = merge_strings_load t.yandex_verification h.yandex_verification i;
  bing_site_verification = merge_strings_load t.bing_site_verification h.bing_site_verification i;
  script_urls = merge_strings_load t.script_urls h.script_urls i;
  inline_script_hashes = merge_strings_load t.inline_script_hashes h.inline_script_hashes i;
}

merge_tracking_again :
    (a b : TrackingIds)
    → merge_tracking_fields (merge_tracking_fields a b) b ≡ merge_tracking_fields a b
merge_tracking_again a b = λ i. record {
  google_analytics_ua = merge_strings_again a.google_analytics_ua b.google_analytics_ua i;
  google_analytics_ga4 = merge_strings_again a.google_analytics_ga4 b.google_analytics_ga4 i;
  google_tag_manager = merge_strings_again a.google_tag_manager b.google_tag_manager i;
  google_ad_sense = merge_strings_again a.google_ad_sense b.google_ad_sense i;
  facebook_pixel = merge_strings_again a.facebook_pixel b.facebook_pixel i;
  hotjar = merge_strings_again a.hotjar b.hotjar i;
  yandex_metrica = merge_strings_again a.yandex_metrica b.yandex_metrica i;
  facebook_domain_verification =
      merge_strings_again a.facebook_domain_verification b.facebook_domain_verification i;
  pinterest_domain_verify =
      merge_strings_again a.pinterest_domain_verify b.pinterest_domain_verify i;
  yandex_verification = merge_strings_again a.yandex_verification b.yandex_verification i;
  bing_site_verification = merge_strings_again a.bing_site_verification b.bing_site_verification i;
  script_urls = merge_strings_again a.script_urls b.script_urls i;
  inline_script_hashes = merge_strings_again a.inline_script_hashes b.inline_script_hashes i;
}

pub merge_tracking_ids_load : (t : Option TrackingIds) → AreTidy t → merge_tracking_ids none t ≡ t
unfolding merge_tracking_ids
merge_tracking_ids_load none h = refl
merge_tracking_ids_load (some t) h = ap some (merge_tracking_load t h)

pub merge_tracking_ids_again :
    (a b : Option TrackingIds)
    → merge_tracking_ids (merge_tracking_ids a b) b ≡ merge_tracking_ids a b
unfolding merge_tracking_ids
merge_tracking_ids_again a none = refl
merge_tracking_ids_again none (some b) = ap some (merge_tracking_again no_tracking b)
merge_tracking_ids_again (some a) (some b) = ap some (merge_tracking_again a b)
