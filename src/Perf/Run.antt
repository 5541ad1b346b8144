-- ===== src/Perf/Run.antt =====
-- `(*worker).run` and `(*worker).count` of tools/sink-perf/main.go. The clock, the tickets and the context
-- decide when the loop ends: a run is the list of its calls. Times are nanoseconds from the start.
use sink_production_suite.Prelude.{
  ℕ, ◌+◌, ◌-◌, ◌/◌, ◌%◌, ◌^◌, String, Bool, true, false, not, ◌&&◌, ◌||◌, List, [], ◌∷◌, ◌++◌, eqb,
  ltb, length, ◌==◌, string_eq, if◌then◌else◌,
}
use sink_production_suite.Perf.Partition.{call_keys}
use sink_production_suite.Perf.Worker.{
  bump, Worker, WriteResult, WriteCalls, Reply, ReadResult, read, write,
}

pub data CallKind : Type 0 where
  counting reading writing : CallKind

-- The call of an iteration.
unfoldable pub call_kind : String → ℕ → CallKind
call_kind workload iteration =
    if workload == "count"
    then counting
    else if workload == "read" || (workload == "mixed" && eqb (iteration % 5) 0)
    then reading
    else writing

-- What a count gives: its command is not encoded, an error, or whether it is estimated and the number.
pub data CountReply : Type 0 where
  not_encoded : CountReply
  count_error : String → CountReply
  counted : Bool → ℕ → CountReply

-- `(*worker).count`, of `keys` records.
unfoldable pub count : ℕ → CountReply → Worker → Bool × Worker
count keys not_encoded w = (false, record w { errors = bump w.errors "encode_count" })
count keys (count_error code) w = (false, record w { errors = bump w.errors code })
count keys (counted is_estimated n) w =
    if is_estimated || not (eqb n keys)
    then (false, record w { errors = bump w.errors "incorrect_count" })
    else (true, record w { ops = (w.ops + 1) % 2 ^ 64; reads = (w.reads + 1) % 2 ^ 64 })

-- `secondReport`.
pub record Sample : Type 0 where
  pub second : ℕ
  pub succeeded : ℕ
  pub failed : ℕ

abbrev pub add_call : Bool → Sample → Sample
add_call true sample = record sample { succeeded = (sample.succeeded + 1) % 2 ^ 64 }
add_call false sample = record sample { failed = (sample.failed + 1) % 2 ^ 64 }

-- The sample of a second, a new one if there is none.
unfoldable pub note_second : ℕ → Bool → List Sample → List Sample
note_second second success [] =
    add_call success (record { second = second; succeeded = 0; failed = 0 }) ∷ []
note_second second success (sample ∷ rest) =
    if eqb sample.second second
    then add_call success sample ∷ rest
    else sample ∷ note_second second success rest

-- One iteration, as its surroundings decide it: the replies, and the times.
pub record Call (Seen Fields Operation : Type 0) : Type 0 where
  pub write_answer : List Operation → Reply (WriteResult Seen Fields)
  pub read_answer : Reply ReadResult
  pub count_answer : CountReply
  pub due : ℕ
  pub wire_started : ℕ
  pub finished : ℕ

pub record RunSettings (Seen Fields Operation : Type 0) : Type 0 where
  pub workload : String
  pub batch : ℕ
  pub all_keys : ℕ
  pub own_keys : ℕ
  pub write_calls : WriteCalls Seen Fields Operation

-- The variables of `run`, and the fields of the worker that only `run` changes.
pub record Runner : Type 0 where
  pub worker : Worker
  pub position : ℕ
  pub iteration : ℕ
  pub rpcs : ℕ
  pub succeeded : ℕ
  pub latencies : List ℕ
  pub wire : List ℕ
  pub seconds : List Sample
  pub failures : List ℕ

module _ {Seen Fields Operation : Type 0} (o : RunSettings Seen Fields Operation) where
  abbrev pub run_keys : Runner → List ℕ
  run_keys r = call_keys r.position o.batch o.own_keys

  -- The call itself.
  unfoldable pub run_call : CallKind → Runner → Call Seen Fields Operation → Bool × Worker
  unfolding count read write
  run_call counting r c = count o.all_keys c.count_answer r.worker
  run_call reading r c = read (run_keys r) c.read_answer r.worker
  run_call writing r c =
      write (record o.write_calls { send = c.write_answer }) (run_keys r) r.worker

  -- The books after a call.
  unfoldable pub note_call : Runner → Call Seen Fields Operation → Bool → Worker → Runner
  unfolding note_second
  note_call r c success w = record {
    worker = w;
    position = (r.position + o.batch) % o.own_keys;
    iteration = (r.iteration + 1) % 2 ^ 64;
    rpcs = (r.rpcs + 1) % 2 ^ 64;
    succeeded = if success then (r.succeeded + 1) % 2 ^ 64 else r.succeeded;
    latencies = r.latencies ++ ((c.finished - c.due) ∷ []);
    wire = r.wire ++ ((c.finished - c.wire_started) ∷ []);
    seconds = note_second (c.finished / 1000000000) success r.seconds;
    failures =
        if not success && ltb (length r.failures) 8
        then r.failures ++ (c.finished ∷ [])
        else r.failures;
  }

  unfoldable pub run_step : Runner → Call Seen Fields Operation → Runner
  unfolding call_kind run_call note_call
  run_step r c =
      let (success, w) = run_call (call_kind o.workload r.iteration) r c in note_call r c success w

  unfoldable pub run : Runner → List (Call Seen Fields Operation) → Runner
  unfolding run_step
  run r [] = r
  run r (c ∷ calls) = run (run_step r c) calls
