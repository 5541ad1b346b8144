-- ===== src/Perf/RunLaws.antt =====
-- A run of `(*worker).run` in tools/sink-perf/main.go keeps the worker in step with the server.
use native.Mathlib.Nat.{mod-lt}
use sink_production_suite.Prelude.{
  ℕ, ◌+◌, ◌^◌, ◌≤◌, ◌<◌, List, [], ◌∷◌, ◌≡◌, ◌∙◌, ap, arith, length, nat_eq,
}
use sink_production_suite.Perf.Worker.{Worker, WriteCalls, read}
use sink_production_suite.Perf.Slots.{InStep, count_of}
use sink_production_suite.Perf.Served.{Carries, IsEncoder, IsServedWrite, write-InStep}
use sink_production_suite.Perf.Run.{
  CallKind, counting, reading, writing, call_kind, Call, RunSettings, Runner, run_keys, run_call,
  note_call, run_step, run, count,
}
use sink_production_suite.Perf.RunKeys.{call_keys_lem}
use sink_production_suite.Perf.RunSlots.{
  SameSlots, count-SameSlots, read-SameSlots, SameSlots-InStep, HasSlots, AreSlots-of,
  write-HasSlots,
}

module _ {Seen Fields Operation : Type 0} (o : RunSettings Seen Fields Operation)
    (carries : Carries Operation) (encoder : IsEncoder carries o.write_calls.encode) where
  abbrev write_calls : Call Seen Fields Operation → WriteCalls Seen Fields Operation
  write_calls c = record o.write_calls { send = c.write_answer }

  -- What the server holds before and after a call. The operations of a write are served; nothing else changes
  -- what the server holds.
  abbrev pub IsServedCall :
      Runner → Call Seen Fields Operation → CallKind → (ℕ → ℕ) → (ℕ → ℕ) → Type 0
  IsServedCall r c counting p q = (k : ℕ) → q k ≡ p k
  IsServedCall r c reading p q = (k : ℕ) → q k ≡ p k
  IsServedCall r c writing p q =
      IsServedWrite carries (write_calls c) encoder (run_keys o r) r.worker p q

  -- The same for a run, where no count reaches its bound.
  abbrev pub IsServedRun : Runner → List (Call Seen Fields Operation) → (ℕ → ℕ) → (ℕ → ℕ) → Type 0
  IsServedRun r [] p q = (k : ℕ) → q k ≡ p k
  IsServedRun r (c ∷ calls) p q =
      (m : ℕ → ℕ) × ((k : ℕ) → count_of r.worker k + 1 < 2 ^ 64)
      × IsServedCall r c (call_kind o.workload r.iteration) p m
      × IsServedRun (run_step o r c) calls m q

  -- A runner with a slot for each of its keys.
  pub record IsReady (r : Runner) : Type 0 where
    pub slots : HasSlots o.own_keys r.worker
    pub position : r.position < o.own_keys

  same_InStep : (w : Worker) (p q : ℕ → ℕ) → ((k : ℕ) → q k ≡ p k) → InStep w p → InStep w q
  same_InStep w p q e h k = rw (e k) (h k)

  SameSlots-HasSlots : (n : ℕ) (v w : Worker) → SameSlots v w → HasSlots n w → HasSlots n v
  SameSlots-HasSlots n v w (a, b) (c, d) = (ap length a ∙ c, ap length b ∙ d)

  run_call-InStep :
      (r : Runner) (c : Call Seen Fields Operation) (kind : CallKind) (p q : ℕ → ℕ)
      → o.batch ≤ o.own_keys
      → IsReady r
      → ((k : ℕ) → count_of r.worker k + 1 < 2 ^ 64)
      → IsServedCall r c kind p q
      → InStep r.worker p
      → InStep (run_call o kind r c).1 q × HasSlots o.own_keys (run_call o kind r c).1
  unfolding run_call
  run_call-InStep r c counting p q b ready small e h =
      let v = (count o.all_keys c.count_answer r.worker).1 in
      let same = count-SameSlots o.all_keys c.count_answer r.worker in
      (
        SameSlots-InStep v r.worker q same (same_InStep r.worker p q e h),
        SameSlots-HasSlots o.own_keys v r.worker same ready.slots,
      )
  run_call-InStep r c reading p q b ready small e h =
      let v = (read (run_keys o r) c.read_answer r.worker).1 in
      let same = read-SameSlots (run_keys o r) c.read_answer r.worker in
      (
        SameSlots-InStep v r.worker q same (same_InStep r.worker p q e h),
        SameSlots-HasSlots o.own_keys v r.worker same ready.slots,
      )
  run_call-InStep r c writing p q b ready small served h =
      let keys = run_keys o r in
      let (d, own) = call_keys_lem r.position o.batch o.own_keys ready.position b in
      (
        write-InStep carries (write_calls c) encoder keys r.worker p q d
            (AreSlots-of o.own_keys r.worker keys ready.slots own) small served h,
        write-HasSlots (write_calls c) o.own_keys keys r.worker ready.slots,
      )

  run_step-InStep :
      (r : Runner) (c : Call Seen Fields Operation) (p q : ℕ → ℕ)
      → o.batch ≤ o.own_keys
      → IsReady r
      → ((k : ℕ) → count_of r.worker k + 1 < 2 ^ 64)
      → IsServedCall r c (call_kind o.workload r.iteration) p q
      → InStep r.worker p
      → InStep (run_step o r c).worker q × IsReady (run_step o r c)
  unfolding run_step note_call
  run_step-InStep r c p q b ready small served h =
      let (a, slots) =
        run_call-InStep r c (call_kind o.workload r.iteration) p q b ready small served h in
      (
        a,
        record {
          slots = slots;
          position = mod-lt (r.position + o.batch) (omega (arith, ready.position));
        },
      )

  -- Where the worker has a slot for each of its keys and its position is one of them, a call has no more
  -- operations than the worker has keys, no count reaches its bound, the encoding keeps the slot and the sequence of an operation, and the server stores each operation that it gets at
  -- most once, with the sequence in it, and answers truly, a worker that starts in step with the server is
  -- in step with it after any run of reads, counts and writes.
  pub run-InStep :
      (r : Runner) (calls : List (Call Seen Fields Operation)) (p q : ℕ → ℕ)
      → o.batch ≤ o.own_keys
      → IsReady r
      → IsServedRun r calls p q
      → InStep r.worker p
      → InStep (run o r calls).worker q
  unfolding run
  run-InStep r [] p q b ready e h = same_InStep r.worker p q e h
  run-InStep r (c ∷ calls) p q b ready (m, small, served, rest) h =
      let (a, ready') = run_step-InStep r c p m b ready small served h in
      run-InStep (run_step o r c) calls m q b ready' rest a
