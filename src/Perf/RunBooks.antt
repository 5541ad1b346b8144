-- ===== src/Perf/RunBooks.antt =====
-- The books of `(*worker).run` in tools/sink-perf/main.go: every call is counted once, in all and in its
-- second, its times are kept, and the first eight failures.
use mathlib.Core.Path.{subst}
use sink_production_suite.Prelude.{
  ℕ, zero, suc, ◌+◌, ◌/◌, ◌^◌, ◌<◌, Bool, true, false, ◌&&◌, ◌||◌, List, [], ◌∷◌, ◌++◌, map, ◌≡◌,
  ◌∙◌, sym, ap, refl, inl, inr, arith, eqb, eqb_iff, bool_beq, ltb, length, length-append, take,
  contains, nat_eq, Bool-cases, append_assoc, append-nil, if◌then◌else◌,
}
use sink_production_suite.Reference.Unique.{IsDistinct}
use sink_production_suite.Perf.Worker.{Worker}
use sink_production_suite.Perf.Run.{
  call_kind, Sample, add_call, note_second, Call, RunSettings, Runner, run_call, note_call,
  run_step, run,
}
use sink_production_suite.Perf.Ended.{
  Ended, latency, wire_time, number_of, succeeds, ends_at, failure_times, tally_at,
  number_of-append, number_of_bound, failure_times-append, map-append,
}

-- A call is counted in the sample of its second, with its outcome, and in no other.
note_second_lem :
    (outcome success : Bool) (second x : ℕ) (l : List Sample)
    → tally_at outcome x l + 1 < 2 ^ 64
    → tally_at outcome x (note_second second success l)
      ≡ tally_at outcome x l + (if eqb second x && bool_beq success outcome then 1 else 0)
unfolding note_second tally_at
note_second_lem true true second x [] h = ground arith
note_second_lem true false second x [] h = ground arith
note_second_lem false true second x [] h = ground arith
note_second_lem false false second x [] h = ground arith
note_second_lem outcome success second x (s ∷ l) h = elim (Bool-cases (eqb s.second second)) [
  | inl here ↦ rw here (added outcome success ((eqb_iff s.second second).0 here) h)
  | inr later ↦ rw later (omega (arith, note_second_lem outcome success second x l (omega arith)))
]
  where
    added :
        (a b : Bool)
        → s.second ≡ second
        → tally_at a x (s ∷ l) + 1 < 2 ^ 64
        → tally_at a x (add_call b s ∷ l)
          ≡ tally_at a x (s ∷ l) + (if eqb second x && bool_beq b a then 1 else 0)
    added true true e h = ground (arith, e, h)
    added true false e h = ground (arith, e, h)
    added false true e h = ground (arith, e, h)
    added false false e h = ground (arith, e, h)

add_call-second : (b : Bool) (s : Sample) → (add_call b s).second ≡ s.second
add_call-second true s = refl
add_call-second false s = refl

contains-note_second :
    (second : ℕ) (success : Bool) (l : List Sample) (x : ℕ)
    → contains (map Sample.second (note_second second success l)) x
      ≡ (eqb x second || contains (map Sample.second l) x)
unfolding note_second
contains-note_second second true [] x = refl
contains-note_second second false [] x = refl
contains-note_second second success (s ∷ l) x = elim (Bool-cases (eqb s.second second)) [
  | inl here ↦
      rw (here, add_call-second success s) (ground (arith, (eqb_iff s.second second).0 here))
  | inr later ↦ rw later (ground (arith, contains-note_second second success l x))
]

-- Each second keeps one sample.
note_second-IsDistinct :
    (second : ℕ) (success : Bool) (l : List Sample)
    → IsDistinct (map Sample.second l)
    → IsDistinct (map Sample.second (note_second second success l))
unfolding note_second
note_second-IsDistinct second true [] h = (refl, tt)
note_second-IsDistinct second false [] h = (refl, tt)
note_second-IsDistinct second success (s ∷ l) (fresh, h) = elim (Bool-cases (eqb s.second second)) [
  | inl here ↦ rw (here, add_call-second success s) (fresh, h)
  | inr later ↦ rw later (
    contains-note_second second success l s.second ∙ rw later fresh,
    note_second-IsDistinct second success l h,
  )
]

take-nil : (n : ℕ) → take {A = ℕ} n [] ≡ []
take-nil zero = refl
take-nil (suc n) = refl

-- The first `n` items with one more item at the end.
take-snoc :
    (n : ℕ) (l : List ℕ) (t : ℕ)
    → take n (l ++ (t ∷ []))
      ≡ (if ltb (length (take n l)) n then take n l ++ (t ∷ []) else take n l)
take-snoc zero l t = refl
take-snoc (suc n) [] t =
    let room : ltb 0 (suc n) ≡ true = ground arith in rw room (ap (λ r. t ∷ r) (take-nil n))
take-snoc (suc n) (x ∷ l) t = elim (Bool-cases (ltb (length (take n l)) n)) [
  | inl room ↦
      let also : ltb (suc (length (take n l))) (suc n) ≡ true = ground (arith, room) in
      rw also (ap (λ r. x ∷ r) (take-snoc n l t ∙ rw room refl))
  | inr full ↦
      let also : ltb (suc (length (take n l))) (suc n) ≡ false = ground (arith, full) in
      rw also (ap (λ r. x ∷ r) (take-snoc n l t ∙ rw full refl))
]

-- The books after the calls `done`: each is counted in all and in its second, with its outcome, and in one
-- sample; its two times are kept, and when the first eight failures ended.
pub record AreBooks (done : List Ended) (r : Runner) : Type 0 where
  pub rpcs : r.rpcs ≡ length done
  pub succeeded : r.succeeded ≡ number_of succeeds done
  pub latencies : r.latencies ≡ map latency done
  pub wire : r.wire ≡ map wire_time done
  pub failures : r.failures ≡ take 8 (failure_times done)
  pub seconds :
      (outcome : Bool) (second : ℕ)
      → tally_at outcome second r.seconds ≡ number_of (ends_at outcome second) done
  pub samples : IsDistinct (map Sample.second r.seconds)

module _ {Seen Fields Operation : Type 0} (o : RunSettings Seen Fields Operation) where
  -- A call as it ended, with its outcome.
  abbrev pub ended : Call Seen Fields Operation → Bool → Ended
  ended c success = record {
    due = c.due;
    wire_started = c.wire_started;
    finished = c.finished;
    success = success;
  }

  note_call-failures :
      (done : List Ended) (r : Runner) (c : Call Seen Fields Operation) (success : Bool)
      (w : Worker)
      → r.failures ≡ take 8 (failure_times done)
      → (note_call o r c success w).failures
        ≡ take 8 (failure_times (done ++ (ended c success ∷ [])))
  unfolding note_call failure_times
  note_call-failures done r c true w h =
      let same = failure_times-append done (ended c true ∷ []) ∙ append-nil (failure_times done) in
      h ∙ ap (take 8) (sym same)
  note_call-failures done r c false w h = rw (h) (
      sym (take-snoc 8 (failure_times done) c.finished)
      ∙ ap (take 8) (sym (failure_times-append done (ended c false ∷ []))))

  note_call-succeeded :
      (done : List Ended) (r : Runner) (c : Call Seen Fields Operation) (success : Bool)
      (w : Worker)
      → length done + 1 < 2 ^ 64
      → r.succeeded ≡ number_of succeeds done
      → (note_call o r c success w).succeeded ≡ number_of succeeds (done ++ (ended c success ∷ []))
  unfolding note_call number_of
  note_call-succeeded done r c true w h e = omega (
    arith,
    e,
    h,
    number_of-append succeeds done (ended c true ∷ []),
    number_of_bound succeeds done,
  )
  note_call-succeeded done r c false w h e =
      omega (arith, e, number_of-append succeeds done (ended c false ∷ []))

  note_call-seconds :
      (done : List Ended) (r : Runner) (c : Call Seen Fields Operation) (success : Bool)
      (w : Worker) (outcome : Bool) (second : ℕ)
      → length done + 1 < 2 ^ 64
      → tally_at outcome second r.seconds ≡ number_of (ends_at outcome second) done
      → tally_at outcome second (note_call o r c success w).seconds
        ≡ number_of (ends_at outcome second) (done ++ (ended c success ∷ []))
  unfolding note_call number_of
  note_call-seconds done r c success w outcome second h e =
      let test = ends_at outcome second in
      omega (
        arith,
        note_second_lem outcome success (c.finished / 1000000000) second r.seconds
            (omega (arith, e, h, number_of_bound test done)),
        number_of-append test done (ended c success ∷ []),
        e,
      )

  note_call-AreBooks :
      (done : List Ended) (r : Runner) (c : Call Seen Fields Operation) (success : Bool)
      (w : Worker)
      → length done + 1 < 2 ^ 64
      → AreBooks done r
      → AreBooks (done ++ (ended c success ∷ [])) (note_call o r c success w)
  unfolding note_call
  note_call-AreBooks done r c success w h b =
      let more = ended c success ∷ [] in
      record {
        rpcs = omega (arith, b.rpcs, length-append done more, h);
        succeeded = note_call-succeeded done r c success w h b.succeeded;
        latencies = rw (b.latencies) (sym (map-append latency done more));
        wire = rw (b.wire) (sym (map-append wire_time done more));
        failures = note_call-failures done r c success w b.failures;
        seconds = λ outcome second.
            note_call-seconds done r c success w outcome second h (b.seconds outcome second);
        samples = note_second-IsDistinct (c.finished / 1000000000) success r.seconds b.samples;
      }

  -- The calls of a run as they end, one after the other.
  unfoldable pub ended_calls : Runner → List (Call Seen Fields Operation) → List Ended
  ended_calls r [] = []
  ended_calls r (c ∷ calls) =
      ended c (run_call o (call_kind o.workload r.iteration) r c).0
      ∷ ended_calls (run_step o r c) calls

  run_step-AreBooks :
      (done : List Ended) (r : Runner) (c : Call Seen Fields Operation)
      → length done + 1 < 2 ^ 64
      → AreBooks done r
      → AreBooks
          (done ++ (ended c (run_call o (call_kind o.workload r.iteration) r c).0 ∷ []))
          (run_step o r c)
  unfolding run_step
  run_step-AreBooks done r c h b =
      let x = run_call o (call_kind o.workload r.iteration) r c in
      note_call-AreBooks done r c x.0 x.1 h b

  -- Where the books hold the calls made before, after a run, of fewer than 2 ^ 64 calls in all, each call is counted once, in all and in the sample of the
  -- second in which it ended, as a success or a failure as it ended, and each second has one sample; the
  -- latencies and the wire times are those of the calls, in their order, and the failures are the times at
  -- which the first eight failed.
  pub run-AreBooks :
      (done : List Ended) (r : Runner) (calls : List (Call Seen Fields Operation))
      → length done + length calls < 2 ^ 64
      → AreBooks done r
      → AreBooks (done ++ ended_calls r calls) (run o r calls)
  unfolding run ended_calls
  run-AreBooks done r [] h b = subst (λ l. AreBooks l r) (sym (append-nil done)) b
  run-AreBooks done r (c ∷ calls) h b =
      let now = ended c (run_call o (call_kind o.workload r.iteration) r c).0 in
      let rest = ended_calls (run_step o r c) calls in
      subst (λ l. AreBooks l (run o (run_step o r c) calls)) (append_assoc done (now ∷ []) rest)
        (run-AreBooks (done ++ (now ∷ [])) (run_step o r c) calls
          (omega (arith, h, length-append done (now ∷ [])))
          (run_step-AreBooks done r c (omega (arith, h)) b))
