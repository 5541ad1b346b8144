-- ===== src/Tests/PerfTests.antt =====
-- Two workers with two records each, and a call of which one operation is applied.
use mathlib.Core.Path.{subst}
use mathlib.Core.Option.{some_inj}
use sink_production_suite.Prelude.{
  contains, nat_eq, List, ap, sym, ℕ, zero, suc, ◌+◌, ◌<◌, ◌^◌, String, Bool, true, false, none,
  some, [], ◌∷◌, ◌≡◌, refl, inl, inr, arith, eqb, ◌==◌, string_eq, if◌then◌else◌,
}
use sink_production_suite.Prelude.Int.{pos, negsuc}
use sink_production_suite.Perf.Settings.{
  Settings, first_error, any, has_bad_limits, settings_tests, set_keys, valid, refused,
  validate_settings, bad_load_limits,
}
use sink_production_suite.Perf.Valid.{IsValid, validate_settings-IsValid}
use sink_production_suite.Perf.Partition.{range_from, key_count, worker_keys, local_key}
use sink_production_suite.Perf.Worker.{
  bump, add_sample, set_at, get_or, Worker, WriteResult, WriteCalls, Reply, replied,
  may_have_committed, is_applied, mark_pending, is_expected, note_failure, note_applied,
  note_returned, write_result, write_results, write_operations, write_reply, write, reconcile,
}
use sink_production_suite.Perf.Slots.{InStep, count_of}
use sink_production_suite.Perf.Settled.{AreSettled, IsKept, write-AreSettled}
use sink_production_suite.Perf.Served.{Carries, IsEncoder, IsServed, IsServedWrite, write-InStep}

program : Unit {0}
unfolding first_error any has_bad_limits settings_tests set_keys validate_settings range_from
    key_count worker_keys local_key bump add_sample set_at get_or may_have_committed is_applied
    mark_pending is_expected note_failure note_applied note_returned write_result write_results
    write_operations write_reply write reconcile
program = tt

abbrev asked : Settings ℕ
asked = record {
  address = "a";
  search_endpoint = "";
  dataset = "perf-a";
  store = "mongo";
  workload = "merge";
  concurrency = pos 2;
  keys = pos 3;
  hot_keys = pos 0;
  padding = pos 0;
  random_padding = false;
  full_incoming = false;
  fields = pos 0;
  batch = pos 1;
  duration = pos 1;
  timeout = pos 1;
  rate = 0;
  visible = false;
  return_document = false;
  replicas = pos 0;
  shards = pos 1;
  search_flush_mib = pos 0;
  active_shards = "1";
  connections = pos 1;
  warm_connections = true;
  cold_mapping = false;
  error_backoff = pos 0;
  dns_min_interval = pos 0;
}

abbrev match_name : String → Bool
match_name s = s == "perf-a"

abbrev is_negative : ℕ → Bool
is_negative rate = false

validate_runs :
    validate_settings match_name is_negative asked ≡ valid (record asked { keys = pos 4 })
unfolding program
validate_runs = refl

negative_runs :
    validate_settings match_name is_negative (record asked { batch = negsuc 0 })
    ≡ refused bad_load_limits
unfolding program
negative_runs = refl

validate_settings-IsValid_example : IsValid asked (record asked { keys = pos 4 })
validate_settings-IsValid_example =
    validate_settings-IsValid match_name is_negative asked (record asked { keys = pos 4 })
      validate_runs

worker_keys_runs : worker_keys false 4 2 1 ≡ 2 ∷ 3 ∷ []
unfolding program
worker_keys_runs = refl

abbrev worker : Worker
worker = record {
  counts = 3 ∷ 0 ∷ [];
  pending = false ∷ false ∷ [];
  errors = [];
  operation_failures = [];
  ops = 3;
  reads = 0;
  returned = 0;
}

abbrev applied : WriteResult ℕ ℕ
applied = record {
  status = "WRITE_STATUS_APPLIED";
  code = "FAILURE_CODE_UNSPECIFIED";
  failure_text = "";
  stored = none;
  payload_length = 0;
}

abbrev unavailable : WriteResult ℕ ℕ
unavailable = record applied { status = "WRITE_STATUS_FAILED"; code = "FAILURE_CODE_UNAVAILABLE" }

abbrev calls : WriteCalls ℕ ℕ (ℕ × ℕ)
calls = record {
  return_document = false;
  cut = λ s. s;
  record_padding = λ k. "";
  seen_by_writer = λ n. n;
  has_own_fields = λ n. true;
  encode = λ k n. some (k, n);
  send = λ l. replied (applied ∷ unavailable ∷ []);
}

abbrev after : Worker
after = record worker {
  counts = 4 ∷ 0 ∷ [];
  pending = false ∷ true ∷ [];
  errors = ("WRITE_STATUS_FAILED:FAILURE_CODE_UNAVAILABLE", 1) ∷ [];
  operation_failures = ("WRITE_STATUS_FAILED:FAILURE_CODE_UNAVAILABLE", "") ∷ [];
  ops = 4;
}

write_runs : write calls (0 ∷ 1 ∷ []) worker ≡ (false, after)
unfolding program
write_runs = refl

abbrev carries : Carries (ℕ × ℕ)
carries = record { slot = λ o. o.0; sequence = λ o. o.1 }

encoder : IsEncoder carries calls.encode
encoder k n o h =
    let e : (k, n) ≡ o = some_inj.0 h in (ap (λ t. t.0) (sym e), ap (λ t. t.1) (sym e))

abbrev held : ℕ → ℕ
held k = if eqb k 0 then 4 else count_of worker k

few_counts : (k : ℕ) → count_of worker k + 1 < 2 ^ 64
unfolding program
few_counts zero = omega arith
few_counts (suc zero) = omega arith
few_counts (suc (suc k)) = omega arith

abbrev reply : Reply (WriteResult ℕ ℕ)
reply = replied (applied ∷ unavailable ∷ [])

abbrev operations : List (ℕ × ℕ)
operations = (0, 4) ∷ (1, 1) ∷ []

answered : IsServed carries operations reply (count_of worker) held
unfolding program
answered = record {
  others = λ k outside. ground (arith, outside);
  unclear = (inr refl, (inl refl, tt));
  took = (
    record { applied = λ h. refl; refused = λ h g. absurd (g refl); unclear = inr refl },
    (record { applied = λ h. cc h; refused = λ h g. refl; unclear = inl refl }, tt),
  );
}

served : IsServedWrite carries calls encoder (0 ∷ 1 ∷ []) worker (count_of worker) held
unfolding program
served = (
  λ h. absurd (cc h),
  λ os h.
      let e : operations ≡ os = some_inj.0 h in
      subst (λ l. IsServed carries l reply (count_of worker) held) e answered,
)

write-InStep_example : InStep (write calls (0 ∷ 1 ∷ []) worker).1 held
write-InStep_example =
    write-InStep carries calls encoder (0 ∷ 1 ∷ []) worker (count_of worker) held (refl, (refl, tt))
      ((omega arith, omega arith), ((omega arith, omega arith), tt)) few_counts served
      (λ k. inl refl)

sent_runs : write_operations calls (0 ∷ 1 ∷ []) worker ≡ some operations
unfolding program
sent_runs = refl

write-AreSettled_example :
    AreSettled (0 ∷ 1 ∷ []) (applied ∷ unavailable ∷ []) worker (write calls (0 ∷ 1 ∷ []) worker).1
    × ((k : ℕ)
        → contains (0 ∷ 1 ∷ []) k ≡ false
        → IsKept k worker (write calls (0 ∷ 1 ∷ []) worker).1)
write-AreSettled_example =
    write-AreSettled calls (0 ∷ 1 ∷ []) worker operations (applied ∷ unavailable ∷ [])
      (refl, (refl, tt)) ((omega arith, omega arith), ((omega arith, omega arith), tt)) few_counts
      sent_runs refl refl
