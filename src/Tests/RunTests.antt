-- ===== src/Tests/RunTests.antt =====
-- Two workers with one record each: a run of three calls, and the reconciliation of its records.
use mathlib.Core.Path.{subst}
use mathlib.Core.Option.{some_inj}
use sink_production_suite.Prelude.{
  ap, sym, ℕ, zero, suc, ◌+◌, ◌<◌, ◌^◌, Bool, true, false, none, some, List, [], ◌∷◌, ◌≡◌, ◌⊎◌,
  refl, inl, inr, arith, contains, nat_eq,
}
use sink_production_suite.Perf.Partition.{range_from, local_key, call_keys}
use sink_production_suite.Perf.Worker.{
  bump, add_sample, set_at, get_or, Worker, Document, WriteResult, Reply, rpc_error, replied,
  may_have_committed, is_applied, mark_pending, is_expected, note_failure, note_applied,
  note_returned, write_result, write_results, write_operations, write_reply, write, read_result,
  read_results, read, reconcile,
}
use sink_production_suite.Perf.Slots.{InStep, count_of}
use sink_production_suite.Perf.Verify.{
  Counted, VerifyCalls, check_workers, is_record, check_record, check_results, any_limited,
  is_exhausted, is_limited, batch_keys, check_reply, verify_round, verify_loop, verify, verified,
  mismatch, failed,
}
use sink_production_suite.Perf.Records.{IsReconciled}
use sink_production_suite.Perf.Verified.{truthful}
use sink_production_suite.Perf.Reconciled.{IsHonest, verify-IsReconciled}
use sink_production_suite.Perf.Run.{
  call_kind, count, counted, note_second, Call, RunSettings, Runner, run_call, note_call, run_step,
  run,
}
use sink_production_suite.Perf.Served.{Carries, IsEncoder, IsServed}
use sink_production_suite.Perf.RunLaws.{IsServedRun, run-InStep}
use sink_production_suite.Perf.Ended.{number_of, failure_times, tally_at}
use sink_production_suite.Perf.RunBooks.{AreBooks, ended_calls, run-AreBooks}

program : Unit {0}
unfolding range_from local_key call_keys bump add_sample set_at get_or may_have_committed is_applied
    mark_pending is_expected note_failure note_applied note_returned write_result write_results
    write_operations write_reply write read_result read_results read reconcile check_workers
    is_record check_record check_results any_limited is_exhausted is_limited batch_keys check_reply
    verify_round verify_loop verify call_kind count note_second run_call note_call run_step run
    number_of failure_times tally_at ended_calls
program = tt

abbrev workers : List Counted
workers =
    record { index = 0; key_count = 1; counts = 2 ∷ []; pending = false ∷ [] }
    ∷ record { index = 1; key_count = 1; counts = 0 ∷ []; pending = true ∷ [] }
    ∷ []

-- The sequence of the owner stands for all of `Seen`.
abbrev store : ℕ → Document ℕ ℕ
store zero = record { value = 2; padding = "x"; seen = 2; fields = 0 }
store (suc k) = record { value = 1; padding = "x"; seen = 1; fields = 0 }

abbrev verify_calls : VerifyCalls ℕ ℕ
verify_calls = record {
  is_hot = false;
  keys = 2;
  padding_size = 1;
  seen_by = λ seen index. seen;
  padding_of = λ k. "x";
  has_fields = λ f. true;
  read = λ n keys. truthful store keys;
}

verify_runs : verify verify_calls workers ≡ verified 1
unfolding program
verify_runs = refl

honest : IsHonest verify_calls store
honest n keys = inl refl

verify-IsReconciled_example :
    (((c : ℕ) × (verify verify_calls workers ≡ verified c))
      × ((k : ℕ) → k < 2 → IsReconciled verify_calls workers k (store k)))
    ⊎ (((verify verify_calls workers ≡ mismatch) ⊎ (verify verify_calls workers ≡ failed))
        × (((k : ℕ) → k < 2 → IsReconciled verify_calls workers k (store k)) → ⊥))
verify-IsReconciled_example = verify-IsReconciled verify_calls store workers honest

abbrev applied : WriteResult ℕ ℕ
applied = record {
  status = "WRITE_STATUS_APPLIED";
  code = "FAILURE_CODE_UNSPECIFIED";
  failure_text = "";
  stored = none;
  payload_length = 0;
}

abbrev settings : RunSettings ℕ ℕ (ℕ × ℕ)
settings = record {
  workload = "mixed";
  batch = 1;
  all_keys = 2;
  own_keys = 1;
  write_calls = record {
    return_document = false;
    cut = λ s. s;
    record_padding = λ k. "";
    seen_by_writer = λ n. n;
    has_own_fields = λ n. true;
    encode = λ k n. some (k, n);
    send = λ l. rpc_error "Unavailable";
  };
}

abbrev call : Reply (WriteResult ℕ ℕ) → Call ℕ ℕ (ℕ × ℕ)
call answer = record {
  write_answer = λ l. answer;
  read_answer = replied (record { status = "READ_STATUS_FOUND"; payload_length = 3 } ∷ []);
  count_answer = counted false 2;
  due = 0;
  wire_started = 1;
  finished = 5;
}

abbrev worker : ℕ → Bool → Worker
worker n b = record {
  counts = n ∷ [];
  pending = b ∷ [];
  errors = [];
  operation_failures = [];
  ops = 0;
  reads = 0;
  returned = 0;
}

abbrev start : Runner
start = record {
  worker = worker 0 false;
  position = 0;
  iteration = 0;
  rpcs = 0;
  succeeded = 0;
  latencies = [];
  wire = [];
  seconds = [];
  failures = [];
}

-- A read, a write whose reply is lost, and the same write again.
abbrev calls : List (Call ℕ ℕ (ℕ × ℕ))
calls = call (rpc_error "x") ∷ call (rpc_error "Unavailable") ∷ call (replied (applied ∷ [])) ∷ []

run_runs : (run settings start calls).worker.counts ≡ 1 ∷ []
unfolding program
run_runs = refl

lost_runs :
    (run settings start (call (rpc_error "x") ∷ call (rpc_error "Unavailable") ∷ [])).worker.pending
    ≡ true ∷ []
unfolding program
lost_runs = refl

start-AreBooks : AreBooks [] start
unfolding program
start-AreBooks = record {
  rpcs = refl;
  succeeded = refl;
  latencies = refl;
  wire = refl;
  failures = refl;
  seconds = λ outcome second. refl;
  samples = tt;
}

run-AreBooks_example : AreBooks (ended_calls settings start calls) (run settings start calls)
run-AreBooks_example = run-AreBooks settings [] start calls (omega arith) start-AreBooks

-- What the server holds after the lost write.
abbrev held : ℕ → ℕ
held zero = 1
held (suc k) = 0

unchanged : (w : Worker) → w.counts ≡ 0 ∷ [] → (k : ℕ) → count_of w k + 1 < 2 ^ 64
unfolding program
unchanged w h zero = rw h (omega arith)
unchanged w h (suc k) = rw h (omega arith)

abbrev carries : Carries (ℕ × ℕ)
carries = record { slot = λ o. o.0; sequence = λ o. o.1 }

encoder : IsEncoder carries settings.write_calls.encode
encoder k n o h =
    let e : (k, n) ≡ o = some_inj.0 h in (ap (λ t. t.0) (sym e), ap (λ t. t.1) (sym e))

-- The one operation that is sent, twice.
abbrev sent : List (ℕ × ℕ)
sent = (0, 1) ∷ []

abbrev first : List ℕ
first = 0 ∷ []

others : (k : ℕ) → contains first k ≡ false → held k ≡ 0
others zero h = cc
others (suc k) h = refl

lost : IsServed {Seen = ℕ} {Fields = ℕ} carries sent (rpc_error "Unavailable") (λ k. 0) held
lost = record { others = others; unclear = (inr refl, tt); took = tt }

applied_again : IsServed carries sent (replied (applied ∷ [])) held held
applied_again = record {
  others = λ k h. refl;
  unclear = (inl refl, tt);
  took = (record { applied = λ h. refl; refused = λ a b. refl; unclear = inl refl }, tt);
}

served : IsServedRun settings carries encoder start calls (λ k. 0) held
unfolding program
served = (
  λ k. 0,
  unchanged (worker 0 false) refl,
  λ k. refl,
  (
    held,
    unchanged (worker 0 false) refl,
    (
      λ h. absurd (cc h),
      λ os h.
          let e : sent ≡ os = some_inj.0 h in
          subst
            (λ l.
              IsServed {Seen = ℕ} {Fields = ℕ} carries l (rpc_error "Unavailable") (λ k. 0) held)
            e lost,
    ),
    (
      held,
      unchanged (worker 0 true) refl,
      (
        λ h. absurd (cc h),
        λ os h.
            let e : sent ≡ os = some_inj.0 h in
            subst
              (λ l. IsServed {Seen = ℕ} {Fields = ℕ} carries l (replied (applied ∷ [])) held held) e
              applied_again,
      ),
      λ k. refl,
    ),
  ),
)

in_step : InStep start.worker (λ k. 0)
unfolding program
in_step zero = inl refl
in_step (suc k) = inl refl

run-InStep_example : InStep (run settings start calls).worker held
run-InStep_example =
    run-InStep settings carries encoder start calls (λ k. 0) held (omega arith)
      (record { slots = (refl, refl); position = omega arith }) served in_step
