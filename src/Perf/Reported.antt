-- ===== src/Perf/Reported.antt =====
-- The report of `execute` in tools/sink-perf/main.go has each call of the workers once, and its percentiles are
-- in order.
use mathlib.Core.Path.{subst}
use sink_production_suite.Prelude.{
  ℕ, ◌+◌, ◌^◌, ◌<◌, ◌≤◌, Bool, some, List, [], ◌∷◌, ◌++◌, map, ◌≡◌, ◌∙◌, refl, sym, ap, arith,
  length, length-append, All, nat_eq, append_assoc, append-nil,
}
use mathlib.Core.Option.{some_inj}
use sink_production_suite.Reference.Unique.{IsDistinct}
use sink_production_suite.Perf.Run.{Sample, Runner}
use sink_production_suite.Perf.Ended.{
  Ended, latency, wire_time, number_of, succeeds, ends_at, tally_at, number_of-append,
  number_of_bound, map-append,
}
use sink_production_suite.Perf.RunBooks.{AreBooks}
use sink_production_suite.Perf.Merged.{add_seconds_lem, add_seconds-IsDistinct}
use sink_production_suite.Perf.Collect.{sort}
use sink_production_suite.Perf.Sorted.{
  occurrences, sort-occurrences, sort-tally_at, sort-IsDistinct, sort-IsAscending,
  sort_numbers-IsAscending,
}
use sink_production_suite.Perf.Percentile.{IsAscending, percentile, percentile_lem}
use sink_production_suite.Perf.Report.{
  Report, Times, add_worker, add_workers, empty_report, summarise, times_of,
}

-- The sums of a report over the calls `all`, before its lists are sorted.
record AreSums (all : List Ended) (r : Report) : Type 0 where
  rpcs : r.rpcs ≡ length all
  succeeded : r.succeeded ≡ number_of succeeds all
  latencies : r.latencies ≡ map latency all
  wire : r.wire ≡ map wire_time all
  seconds :
      (outcome : Bool) (second : ℕ)
      → tally_at outcome second r.seconds ≡ number_of (ends_at outcome second) all
  samples : IsDistinct (map Sample.second r.seconds)

add_worker-AreSums :
    (all done : List Ended) (w : Runner) (r : Report)
    → length all + length done < 2 ^ 64
    → AreBooks done w
    → AreSums all r
    → AreSums (all ++ done) (add_worker w r)
unfolding add_worker
add_worker-AreSums all done w r h b t = record {
  rpcs = omega (arith, h, t.rpcs, b.rpcs, length-append all done);
  succeeded = omega (
    arith,
    h,
    t.succeeded,
    b.succeeded,
    number_of-append succeeds all done,
    number_of_bound succeeds all,
    number_of_bound succeeds done,
  );
  latencies = cc (t.latencies, b.latencies, map-append latency all done);
  wire = cc (t.wire, b.wire, map-append wire_time all done);
  seconds = λ outcome second.
      let test = ends_at outcome in
      omega (
        arith,
        t.seconds outcome second,
        b.seconds outcome second,
        number_of-append (test second) all done,
        add_seconds_lem outcome second w.seconds r.seconds (λ y. omega (
          arith,
          h,
          t.seconds outcome y,
          b.seconds outcome y,
          number_of_bound (test y) all,
          number_of_bound (test y) done,
        )),
      );
  samples = add_seconds-IsDistinct w.seconds r.seconds t.samples;
}

-- The calls of all workers, each with the calls that it made.
unfoldable pub calls_of : List (List Ended × Runner) → List Ended
calls_of [] = []
calls_of ((done, w) ∷ rest) = done ++ calls_of rest

unfoldable pub runners_of : List (List Ended × Runner) → List Runner
runners_of [] = []
runners_of ((done, w) ∷ rest) = w ∷ runners_of rest

abbrev pub HaveBooks : List (List Ended × Runner) → Type 0
HaveBooks workers = All (λ (x : List Ended × Runner). AreBooks x.0 x.1) workers

add_workers-AreSums :
    (all : List Ended) (workers : List (List Ended × Runner)) (r : Report)
    → length all + length (calls_of workers) < 2 ^ 64
    → HaveBooks workers
    → AreSums all r
    → AreSums (all ++ calls_of workers) (add_workers (runners_of workers) r)
unfolding add_workers calls_of runners_of
add_workers-AreSums all [] r h b t = subst (λ l. AreSums l r) (sym (append-nil all)) t
add_workers-AreSums all ((done, w) ∷ rest) r h (b, books) t =
    let long = length-append done (calls_of rest) in
    subst (λ l. AreSums l (add_workers (runners_of rest) (add_worker w r)))
      (append_assoc all done (calls_of rest))
      (add_workers-AreSums (all ++ done) rest (add_worker w r)
        (omega (arith, h, long, length-append all done)) books
        (add_worker-AreSums all done w r (omega (arith, h, long)) b t))

times_of_lem :
    (l : List ℕ) (a b c d : ℕ)
    → percentile l 50 ≡ some a
    → percentile l 95 ≡ some b
    → percentile l 99 ≡ some c
    → percentile l 100 ≡ some d
    → times_of l ≡ some (record { p50 = a; p95 = b; p99 = c; longest = d })
unfolding times_of
times_of_lem l a b c d ea eb ec ed = rw (ea, eb, ec, ed, times_of) refl

-- The percentiles of a sorted list exist and are in order.
AreOrdered : List ℕ → Type 0
AreOrdered l =
    (t : Times) × (times_of l ≡ some t) × (t.p50 ≤ t.p95) × (t.p95 ≤ t.p99) × (t.p99 ≤ t.longest)

times_of-sort : (l : List ℕ) → AreOrdered (sort (λ x. x) l)
unfolding AreOrdered
times_of-sort l =
    let s = sort (λ x. x) l in
    let up = sort_numbers-IsAscending l in
    let (a, b, ea, eb, h) = percentile_lem s 50 95 up (omega arith) (omega arith) in
    let (b', c, eb', ec, g) = percentile_lem s 95 99 up (omega arith) (omega arith) in
    let (c', d, ec', ed, k) = percentile_lem s 99 100 up (omega arith) (omega arith) in
    let same_b : b' ≡ b = some_inj.0 (sym eb' ∙ eb) in
    let same_c : c' ≡ c = some_inj.0 (sym ec' ∙ ec) in
    (
      record { p50 = a; p95 = b; p99 = c; longest = d },
      times_of_lem s a b c d ea eb ec ed,
      h,
      omega (arith, g, same_b),
      omega (arith, k, same_c),
    )

-- The report of the calls `all`: it counts each, has the latency and the wire time of each once, in ascending
-- order, and for each second one sample, in ascending order, that counts the calls that ended in it.
pub record AreTotals (all : List Ended) (r : Report) : Type 0 where
  pub rpcs : r.rpcs ≡ length all
  pub succeeded : r.succeeded ≡ number_of succeeds all
  pub latencies : (x : ℕ) → occurrences x r.latencies ≡ occurrences x (map latency all)
  pub latencies_order : IsAscending r.latencies
  pub wire : (x : ℕ) → occurrences x r.wire ≡ occurrences x (map wire_time all)
  pub wire_order : IsAscending r.wire
  pub seconds :
      (outcome : Bool) (second : ℕ)
      → tally_at outcome second r.seconds ≡ number_of (ends_at outcome second) all
  pub samples : IsDistinct (map Sample.second r.seconds)
  pub seconds_order : IsAscending (map Sample.second r.seconds)

-- Where the books of each worker are right and there are fewer than 2 ^ 64 calls in all, the report counts the
-- calls of all workers and their successes; it has the latency and the wire time of each call once, in
-- ascending order; for each second it has one sample, in ascending order, with the successes and the
-- failures that ended in it; and the percentiles of its latencies exist and are in order.
pub summarise-AreTotals :
    (workers : List (List Ended × Runner))
    → length (calls_of workers) < 2 ^ 64
    → HaveBooks workers
    → AreTotals (calls_of workers) (summarise (runners_of workers))
      × ((t : Times) × (times_of (summarise (runners_of workers)).latencies ≡ some t)
          × (t.p50 ≤ t.p95)
          × (t.p95 ≤ t.p99)
          × (t.p99 ≤ t.longest))
unfolding summarise AreOrdered
summarise-AreTotals workers h books =
    let r = add_workers (runners_of workers) empty_report in
    let none_yet : AreSums [] empty_report =
      unfold tally_at number_of in
      record {
        rpcs = refl;
        succeeded = refl;
        latencies = refl;
        wire = refl;
        seconds = λ outcome second. refl;
        samples = tt;
      } in
    let t = add_workers-AreSums [] workers empty_report (omega (arith, h)) books none_yet in
    (
      record {
        rpcs = t.rpcs;
        succeeded = t.succeeded;
        latencies = λ x. sort-occurrences x r.latencies ∙ ap (occurrences x) t.latencies;
        latencies_order = sort_numbers-IsAscending r.latencies;
        wire = λ x. sort-occurrences x r.wire ∙ ap (occurrences x) t.wire;
        wire_order = sort_numbers-IsAscending r.wire;
        seconds =
            λ outcome second. sort-tally_at outcome second r.seconds ∙ t.seconds outcome second;
        samples = sort-IsDistinct Sample.second r.seconds t.samples;
        seconds_order = sort-IsAscending Sample.second r.seconds;
      },
      times_of-sort r.latencies,
    )
