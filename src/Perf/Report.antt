-- ===== src/Perf/Report.antt =====
-- The sums of `execute` in tools/sink-perf/main.go over the workers that have run, and the percentiles.
use sink_production_suite.Prelude.{
  ℕ, String, string_eq, ◌==◌, ◌+◌, ◌%◌, ◌^◌, Option, none, some, List, [], ◌∷◌, ◌++◌, eqb,
  if◌then◌else◌,
}
use sink_production_suite.Perf.Worker.{Counters}
use sink_production_suite.Perf.Run.{Sample, Runner}
use sink_production_suite.Perf.Collect.{sort}
use sink_production_suite.Perf.Percentile.{percentile}

-- The fields of the report that the loop over the workers makes, with the latencies.
pub record Report : Type 0 where
  pub rpcs : ℕ
  pub succeeded : ℕ
  pub operations : ℕ
  pub reads : ℕ
  pub returned : ℕ
  pub errors : Counters
  pub latencies : List ℕ
  pub wire : List ℕ
  pub seconds : List Sample

-- The four times of the report.
pub record Times : Type 0 where
  pub p50 : ℕ
  pub p95 : ℕ
  pub p99 : ℕ
  pub longest : ℕ

-- One sample of a worker, into the samples of all.
unfoldable pub add_second : Sample → List Sample → List Sample
add_second s [] =
    record {
      second = s.second;
      succeeded = (0 + s.succeeded) % 2 ^ 64;
      failed = (0 + s.failed) % 2 ^ 64;
    }
    ∷ []
add_second s (x ∷ rest) =
    if eqb x.second s.second
    then record x {
      succeeded = (x.succeeded + s.succeeded) % 2 ^ 64;
      failed = (x.failed + s.failed) % 2 ^ 64;
    }
      ∷ rest
    else x ∷ add_second s rest

unfoldable pub add_seconds : List Sample → List Sample → List Sample
unfolding add_second
add_seconds [] made = made
add_seconds (s ∷ rest) made = add_seconds rest (add_second s made)

-- `result.Errors[code] += count`.
unfoldable pub add_error : String → ℕ → Counters → Counters
add_error code n [] = (code, (0 + n) % 2 ^ 64) ∷ []
add_error code n ((c, k) ∷ rest) =
    if c == code then (c, (k + n) % 2 ^ 64) ∷ rest else (c, k) ∷ add_error code n rest

unfoldable pub add_errors : Counters → Counters → Counters
unfolding add_error
add_errors [] made = made
add_errors ((code, n) ∷ rest) made = add_errors rest (add_error code n made)

unfoldable pub add_worker : Runner → Report → Report
unfolding add_seconds add_errors
add_worker w r = record {
  rpcs = (r.rpcs + w.rpcs) % 2 ^ 64;
  succeeded = (r.succeeded + w.succeeded) % 2 ^ 64;
  operations = (r.operations + w.worker.ops) % 2 ^ 64;
  reads = (r.reads + w.worker.reads) % 2 ^ 64;
  returned = (r.returned + w.worker.returned) % 2 ^ 64;
  errors = add_errors w.worker.errors r.errors;
  latencies = r.latencies ++ w.latencies;
  wire = r.wire ++ w.wire;
  seconds = add_seconds w.seconds r.seconds;
}

unfoldable pub add_workers : List Runner → Report → Report
unfolding add_worker
add_workers [] r = r
add_workers (w ∷ rest) r = add_workers rest (add_worker w r)

abbrev pub empty_report : Report
empty_report = record {
  rpcs = 0;
  succeeded = 0;
  operations = 0;
  reads = 0;
  returned = 0;
  errors = [];
  latencies = [];
  wire = [];
  seconds = [];
}

-- The report, with its three lists in ascending order.
unfoldable pub summarise : List Runner → Report
unfolding add_workers sort
summarise workers =
    let r = add_workers workers empty_report in
    record r {
      latencies = sort (λ x. x) r.latencies;
      wire = sort (λ x. x) r.wire;
      seconds = sort Sample.second r.seconds;
    }

-- `none` is an index out of range.
unfoldable pub times_of : List ℕ → Option Times
times_of latencies = elim (percentile latencies 50) [
  | none ↦ none
  | some a ↦ elim (percentile latencies 95) [
    | none ↦ none
    | some b ↦ elim (percentile latencies 99) [
      | none ↦ none
      | some c ↦ elim (percentile latencies 100) [
        | none ↦ none
        | some d ↦ some (record { p50 = a; p95 = b; p99 = c; longest = d })
      ]
    ]
  ]
]
