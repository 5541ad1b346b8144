-- ===== src/Reference/Model.antt =====
-- internal/reference/model.go. A pointer is an `Option`, a slice a `List` (nil and empty are one),
-- an `int64` its two's complement pattern. Instants, floating-point numbers and the maps
-- `map[string]any` are parameters: the merges only move them.
use sink_production_suite.Prelude.{ℕ, String, Bool, false, Option, none, List, []}

pub record Rating (Float : Type 0) : Type 0 where
  pub score : Float
  pub count : ℕ
  pub description : String

pub record ProductPrice (Time Float Variables : Type 0) : Type 0 where
  pub currency : String
  pub price : Float
  pub dollar : Float
  pub variables : Variables
  pub date : Option Time

pub record Image : Type 0 where
  pub url : String
  pub key : String

pub record ProductSold (Time : Type 0) : Type 0 where
  pub sold : ℕ
  pub period_hours : ℕ
  pub record_at : Option Time

pub record ProductStock (Variables : Type 0) : Type 0 where
  pub stock : ℕ
  pub variables : Variables

pub record ProductComment (Time Float : Type 0) : Type 0 where
  pub score : Float
  pub title : String
  pub description : String
  pub customer_name : String
  pub customer_profile : String
  pub customer_rating_score : Float
  pub location : String
  pub currency : String
  pub price : Float
  pub date : Option Time

pub record ProductOffer (Time Float Variables : Type 0) : Type 0 where
  pub id : String
  pub uid : String
  pub uids : List String
  pub url : String
  pub name : String
  pub expiry_detected_at : Option Time
  pub product_url : String
  pub product_price : List (Option (ProductPrice Time Float Variables))
  pub has_paypal : Bool

pub record PtoClass : Type 0 where
  pub class_code : String
  pub goods_code : String
  pub goods_description : String

pub record Product (Time Float Variables : Type 0) : Type 0 where
  pub uid : String
  pub uids : List String
  pub platform : String
  pub country : String
  pub id : String
  pub url : String
  pub title : String
  pub description : String
  pub condition : String
  pub category : List String
  pub gallery : List (Option Image)
  pub brand : String
  pub solds : List (Option (ProductSold Time))
  pub prices : List (Option (ProductPrice Time Float Variables))
  pub stocks : List (Option (ProductStock Variables))
  pub comment_count : ℕ
  pub comments : List (Option (ProductComment Time Float))
  pub rating : Option (Rating Float)
  pub offers : List (Option (ProductOffer Time Float Variables))
  pub allowed_countries : List String
  pub restricted_countries : List String
  pub serial_number : String
  pub languages : List String
  pub countries_from_ip : List String
  pub sold_by_platform : Bool
  pub from_maybe : Bool
  pub available : Bool
  pub first_found_at : Option Time
  pub last_found_at : Option Time
  pub evicted_at : Option Time
  pub hostnames : List String
  pub ecommerce_class : String
  pub pto_class : List (Option PtoClass)
  pub brands : List String
  pub translated_text : String

pub record Address : Type 0 where
  pub raw : String
  pub street : String
  pub city : String
  pub state : String
  pub country : String
  pub zip_code : String

pub record Contact : Type 0 where
  pub type_ : String
  pub value : String

pub record TrackingIds : Type 0 where
  pub google_analytics_ua : List String
  pub google_analytics_ga4 : List String
  pub google_tag_manager : List String
  pub google_ad_sense : List String
  pub facebook_pixel : List String
  pub hotjar : List String
  pub yandex_metrica : List String
  pub facebook_domain_verification : List String
  pub pinterest_domain_verify : List String
  pub yandex_verification : List String
  pub bing_site_verification : List String
  pub script_urls : List String
  pub inline_script_hashes : List String

pub record Offer (Time : Type 0) : Type 0 where
  pub uid : String
  pub uids : List String
  pub platform : String
  pub id : String
  pub name : String
  pub url : String
  pub country : String
  pub business_name : String
  pub addresses : List (Option Address)
  pub contacts : List (Option Contact)
  pub bio : String
  pub member_since : Option Time
  pub sold : ℕ
  pub comment_count : ℕ
  pub follower_count : ℕ
  pub product_count : ℕ
  pub from_maybe : Bool
  pub first_found_at : Option Time
  pub last_found_at : Option Time
  pub evicted_at : Option Time
  pub hostnames : List String
  pub tracking_ids : Option TrackingIds
  pub has_paypal : Bool

-- `&TrackingIDs{}`, `&Offer{}`, `&Product{}`.
abbrev pub no_tracking : TrackingIds
no_tracking = record {
  google_analytics_ua = [];
  google_analytics_ga4 = [];
  google_tag_manager = [];
  google_ad_sense = [];
  facebook_pixel = [];
  hotjar = [];
  yandex_metrica = [];
  facebook_domain_verification = [];
  pinterest_domain_verify = [];
  yandex_verification = [];
  bing_site_verification = [];
  script_urls = [];
  inline_script_hashes = [];
}

abbrev pub no_offer : (Time : Type 0) → Offer Time
no_offer Time = record {
  uid = "";
  uids = [];
  platform = "";
  id = "";
  name = "";
  url = "";
  country = "";
  business_name = "";
  addresses = [];
  contacts = [];
  bio = "";
  member_since = none;
  sold = 0;
  comment_count = 0;
  follower_count = 0;
  product_count = 0;
  from_maybe = false;
  first_found_at = none;
  last_found_at = none;
  evicted_at = none;
  hostnames = [];
  tracking_ids = none;
  has_paypal = false;
}

abbrev pub no_product : (Time Float Variables : Type 0) → Product Time Float Variables
no_product Time Float Variables = record {
  uid = "";
  uids = [];
  platform = "";
  country = "";
  id = "";
  url = "";
  title = "";
  description = "";
  condition = "";
  category = [];
  gallery = [];
  brand = "";
  solds = [];
  prices = [];
  stocks = [];
  comment_count = 0;
  comments = [];
  rating = none;
  offers = [];
  allowed_countries = [];
  restricted_countries = [];
  serial_number = "";
  languages = [];
  countries_from_ip = [];
  sold_by_platform = false;
  from_maybe = false;
  available = false;
  first_found_at = none;
  last_found_at = none;
  evicted_at = none;
  hostnames = [];
  ecommerce_class = "";
  pto_class = [];
  brands = [];
  translated_text = "";
}
