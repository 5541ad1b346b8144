-- ===== src/Perf/Settings.antt =====
-- The settings of tools/sink-perf/main.go and `validateSettings`. An `int` or a `time.Duration` is an
-- integer; a floating-point rate and the match of the data set's name are parameters.
use Prim.Native.Nat.{max}
use sink_production_suite.Prelude.{
  ℕ, ◌+◌, ◌-◌, ◌*◌, ◌/◌, String, Bool, false, not, ◌&&◌, ◌||◌, Option, none, some, List, [], ◌∷◌,
  ◌==◌, string_eq, contains, if◌then◌else◌,
}
use sink_production_suite.Prelude.Int.{ℤ, pos, pos_part, ltb_ℤ, leb_ℤ, int_eq}

pub record Settings (Float : Type 0) : Type 0 where
  pub address : String
  pub search_endpoint : String
  pub dataset : String
  pub store : String
  pub workload : String
  pub concurrency : ℤ
  pub keys : ℤ
  pub hot_keys : ℤ
  pub padding : ℤ
  pub random_padding : Bool
  pub full_incoming : Bool
  pub fields : ℤ
  pub batch : ℤ
  pub duration : ℤ
  pub timeout : ℤ
  pub rate : Float
  pub visible : Bool
  pub return_document : Bool
  pub replicas : ℤ
  pub shards : ℤ
  pub search_flush_mib : ℤ
  pub active_shards : String
  pub connections : ℤ
  pub warm_connections : Bool
  pub cold_mapping : Bool
  pub error_backoff : ℤ
  pub dns_min_interval : ℤ

pub data SettingsError : Type 0 where
  bad_dataset bad_store unknown_workload bad_count_load bad_load_limits hot_upsert bad_key_limits
        bad_flush bad_active_shards bad_fields negative_interval batch_exceeds_keys :
      SettingsError

-- The first test that holds decides.
unfoldable pub first_error : List (Bool × SettingsError) → Option SettingsError
first_error [] = none
first_error ((is_wrong, e) ∷ rest) = if is_wrong then some e else first_error rest

-- The tests of one condition.
unfoldable pub any : List Bool → Bool
any [] = false
any (b ∷ l) = b || any l

-- `opts.X < low || opts.X > high`.
abbrev pub is_outside : ℕ → ℕ → ℤ → Bool
is_outside low high x = ltb_ℤ x (pos low) || ltb_ℤ (pos high) x

-- `perWorker`, where the tests have shown that the three numbers are positive.
abbrev pub per_worker : ℕ → ℕ → ℕ → ℕ
per_worker batch keys concurrency = max batch ((keys + concurrency - 1) / concurrency)

pub data Checked (Float : Type 0) : Type 0 where
  valid : Settings Float → Checked Float
  refused : SettingsError → Checked Float

module _ {Float : Type 0} where
  unfoldable pub set_keys : Settings Float → Settings Float
  set_keys o = if ltb_ℤ (pos 0) o.hot_keys then record o { keys = o.hot_keys } else record o {
    keys = pos (
        per_worker (pos_part o.batch) (pos_part o.keys) (pos_part o.concurrency)
        * pos_part o.concurrency);
  }

  abbrev pub check_batch : Settings Float → Checked Float
  check_batch o = if ltb_ℤ o.keys o.batch then refused batch_exceeds_keys else valid o

module _ {Float : Type 0} (match_name : String → Bool) (is_negative : Float → Bool) where
  abbrev pub limit_tests : Settings Float → List Bool
  limit_tests o =
      is_outside 1 4096 o.concurrency
      ∷ is_outside 1 1000 o.batch
      ∷ is_outside 1 1000000 o.keys
      ∷ ltb_ℤ o.hot_keys (pos 0)
      ∷ is_outside 0 1048576 o.padding
      ∷ leb_ℤ o.duration (pos 0)
      ∷ leb_ℤ o.timeout (pos 0)
      ∷ is_negative o.rate
      ∷ is_outside 1 128 o.connections
      ∷ []

  unfoldable pub has_bad_limits : Settings Float → Bool
  unfolding any
  has_bad_limits o = any (limit_tests o)

  -- The tests before the keys are set, in their order.
  unfoldable pub settings_tests : Settings Float → List (Bool × SettingsError)
  settings_tests o =
      (not (match_name o.dataset), bad_dataset)
      ∷ (not (o.store == "mongo") && not (o.store == "search"), bad_store)
      ∷ (
        not (
            contains ("merge" ∷ "heavy-merge" ∷ "upsert" ∷ "read" ∷ "count" ∷ "mixed" ∷ [])
              o.workload),
        unknown_workload,
      )
      ∷ (
        o.workload == "count" && (not (o.store == "mongo") || not (o.batch == pos 1)),
        bad_count_load,
      )
      ∷ (has_bad_limits o, bad_load_limits)
      ∷ (ltb_ℤ (pos 0) o.hot_keys && o.workload == "upsert", hot_upsert)
      ∷ (
        ltb_ℤ (pos 1000000) o.hot_keys || (ltb_ℤ o.shards (pos 1) || is_outside 0 2 o.replicas),
        bad_key_limits,
      )
      ∷ (ltb_ℤ o.search_flush_mib (pos 0), bad_flush)
      ∷ (
        not (o.active_shards == "")
            && (not (o.active_shards == "1") && not (o.active_shards == "all")),
        bad_active_shards,
      )
      ∷ (is_outside 0 1000 o.fields, bad_fields)
      ∷ (ltb_ℤ o.error_backoff (pos 0) || ltb_ℤ o.dns_min_interval (pos 0), negative_interval)
      ∷ []

  -- `validateSettings`, with the settings that it leaves in `*opts`.
  unfoldable pub validate_settings : Settings Float → Checked Float
  unfolding first_error settings_tests set_keys
  validate_settings o = elim (first_error (settings_tests o)) [
    | some e ↦ refused e
    | none ↦ check_batch (set_keys o)
  ]
