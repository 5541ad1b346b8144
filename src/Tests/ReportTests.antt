-- ===== src/Tests/ReportTests.antt =====
-- A report of two workers.
use sink_production_suite.Prelude.{ℕ, ◌≤◌, Bool, true, false, some, List, [], ◌∷◌, ◌≡◌, refl, arith}
use sink_production_suite.Perf.Worker.{Worker}
use sink_production_suite.Perf.Run.{Runner}
use sink_production_suite.Perf.Ended.{Ended, number_of, ends_at, failure_times, tally_at}
use sink_production_suite.Perf.RunBooks.{AreBooks}
use sink_production_suite.Perf.Report.{summarise, times_of, Times}
use sink_production_suite.Perf.Reported.{calls_of, runners_of, AreTotals, summarise-AreTotals}

abbrev idle_worker : Worker
idle_worker = record {
  counts = [];
  pending = [];
  errors = [];
  operation_failures = [];
  ops = 0;
  reads = 0;
  returned = 0;
}

-- A call that fails and one that succeeds, both in the second after the start.
abbrev calls : List Ended
calls =
    record { due = 1000000000; wire_started = 1000000005; finished = 1000000009; success = false }
    ∷ record { due = 1000000010; wire_started = 1000000011; finished = 1000000013; success = true }
    ∷ []

abbrev runner : Runner
runner = record {
  worker = idle_worker;
  position = 0;
  iteration = 2;
  rpcs = 2;
  succeeded = 1;
  latencies = 9 ∷ 3 ∷ [];
  wire = 4 ∷ 2 ∷ [];
  seconds = record { second = 1; succeeded = 1; failed = 1 } ∷ [];
  failures = 1000000009 ∷ [];
}

-- One call that succeeds, in the second of the start.
abbrev early_call : Ended
early_call = record { due = 0; wire_started = 1; finished = 5; success = true }

abbrev early_runner : Runner
early_runner = record {
  worker = idle_worker;
  position = 0;
  iteration = 1;
  rpcs = 1;
  succeeded = 1;
  latencies = 5 ∷ [];
  wire = 4 ∷ [];
  seconds = record { second = 0; succeeded = 1; failed = 0 } ∷ [];
  failures = [];
}

runner-AreBooks : AreBooks calls runner
unfolding number_of failure_times tally_at
runner-AreBooks = record {
  rpcs = refl;
  succeeded = refl;
  latencies = refl;
  wire = refl;
  failures = refl;
  seconds = λ outcome second. seconds outcome second;
  samples = (refl, tt);
}
  where
    seconds :
        (outcome : Bool) (second : ℕ)
        → tally_at outcome second runner.seconds ≡ number_of (ends_at outcome second) calls
    seconds true second = ground arith
    seconds false second = ground arith

early-AreBooks : AreBooks (early_call ∷ []) early_runner
unfolding number_of failure_times tally_at
early-AreBooks = record {
  rpcs = refl;
  succeeded = refl;
  latencies = refl;
  wire = refl;
  failures = refl;
  seconds = λ outcome second. seconds outcome second;
  samples = (refl, tt);
}
  where
    seconds :
        (outcome : Bool) (second : ℕ)
        → tally_at outcome second early_runner.seconds
          ≡ number_of (ends_at outcome second) (early_call ∷ [])
    seconds true second = ground arith
    seconds false second = ground arith

abbrev workers : List (List Ended × Runner)
workers = (calls, runner) ∷ (early_call ∷ [], early_runner) ∷ []

sorted : (summarise (runners_of workers)).latencies ≡ 3 ∷ 5 ∷ 9 ∷ []
unfolding summarise runners_of
sorted = refl

summarise-AreTotals_example :
    AreTotals (calls_of workers) (summarise (runners_of workers))
    × ((t : Times) × (times_of (summarise (runners_of workers)).latencies ≡ some t)
        × (t.p50 ≤ t.p95)
        × (t.p95 ≤ t.p99)
        × (t.p99 ≤ t.longest))
summarise-AreTotals_example =
    summarise-AreTotals workers (unfold calls_of in omega arith)
      (runner-AreBooks, (early-AreBooks, tt))
