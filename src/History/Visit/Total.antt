-- ===== src/History/Visit/Total.antt =====
-- `visit` owes what `Answer` says, at every fuel above the number of calls not yet visited.
use sink_production_suite.Prelude.{
  ℕ, zero, suc, ◌-◌, ◌^◌, ◌≤◌, Bool, true, false, ◌||◌, Option, List, ◌≡◌, inl, inr, ◌≢◌, arith,
  eqb, eqb_iff, leb, length, length-map, contains, Bool-cases,
}
use mathlib.Core.Path.{subst}
use sink_production_suite.History.Steps.{with_predecessors}
use sink_production_suite.History.Model.{Entry}
use sink_production_suite.History.Search.{
  SearchState, search_beq, search_beq_iff, search_eq, Memo, visit, conclude, reject, budget,
}
use sink_production_suite.History.Visit.{
  InRange, Live, Dead, IsFaithful, Answer, Visits, SomeLive, AllDead,
}
use sink_production_suite.History.Visit.Loop.{loop-Answer, table, Live-all, Live-some, Dead-all}

module _ (history : List Entry) (small : length history ≤ 24) where
  abbrev all : ℕ
  all = 2 ^ length history - 1

  reverse_test : (c s : SearchState) → search_beq c s ≡ false → search_beq s c ≡ false
  reverse_test c s h = ground arith

  reject-IsFaithful :
      (c : SearchState) (m : Memo)
      → IsFaithful history small m
      → (m.exhausted ≡ false → Dead history small c)
      → IsFaithful history small (reject c m)
  reject-IsFaithful c m ok dead e s there = elim (Bool-cases (search_beq c s)) [
    | inl this ↦ subst (Dead history small) ((search_beq_iff c s).0 this) (dead e)
    | inr other ↦ ok e s (elim (Bool-cases (contains m.rejected c)) [
      | inl old ↦ rw old at there
      | inr new ↦ rw (new, reverse_test c s other) at there
    ])
  ]

  -- What `visit` does after its loop.
  conclude-Answer :
      (c : SearchState) (m : Memo) (r : Option (Bool × Memo))
      → InRange (length history) c.visited
      → c.visited ≢ all
      → Answer history small
          (SomeLive history small c 0 (table history small))
          (AllDead history small c 0 (table history small))
          m
          r
      → Answer history small (Live history small c) (Dead history small c) m (conclude c r)
  conclude-Answer c m r range more a = elim (Bool-cases a.found) [
    | inl t ↦ record {
      found = true;
      memo = a.memo;
      returned = rw (a.returned, t);
      faithful = a.faithful;
      mono = a.mono;
      sound = λ f. Live-some history small c (a.sound t);
      complete = λ f. absurd (cc);
    }
    | inr t ↦
        let dead : a.memo.exhausted ≡ false → Dead history small c =
          λ e. Dead-all history small c range more (a.complete t e) in
        record {
          found = false;
          memo = reject c a.memo;
          returned = rw (a.returned, t);
          faithful = reject-IsFaithful c a.memo a.faithful dead;
          mono = a.mono;
          sound = λ f. absurd (cc);
          complete = λ f e. dead e;
        }
  ]

  pub visit-Answer : (fuel : ℕ) → Visits history small (visit (table history small) all fuel) fuel
  unfolding visit
  visit-Answer zero c m range enough ok = absurd (omega arith)
  visit-Answer (suc fuel) c m range enough ok = elim (Bool-cases (eqb c.visited all)) [
    | inl done ↦ record {
      found = true;
      memo = m;
      returned = rw done;
      faithful = ok;
      mono = λ e. e;
      sound = λ f. Live-all history small c ((eqb_iff _ _).0 done);
      complete = λ f. absurd (cc);
    }
    | inr more ↦ elim (Bool-cases (contains m.rejected c || m.exhausted)) [
      | inl cut ↦ record {
        found = false;
        memo = m;
        returned = rw (more, cut);
        faithful = ok;
        mono = λ e. e;
        sound = λ f. absurd (cc);
        complete = λ f e. ok e c (ground arith);
      }
      | inr go ↦ elim (Bool-cases (leb budget (length m.rejected))) [
        | inl out ↦ record {
          found = false;
          memo = record m { exhausted = true };
          returned = rw (more, go, out);
          faithful = λ e. absurd (cc);
          mono = λ e. absurd (cc);
          sound = λ f. absurd (cc);
          complete = λ f e. absurd (cc);
        }
        | inr within ↦
            rw (more, go, within)
              (conclude-Answer c m _ range (λ e. cc (more, (eqb_iff _ _).1 e))
                (loop-Answer history small (visit (table history small) all fuel) fuel
                  (visit-Answer fuel) c 0 (table history small) m
                  (omega (arith, length-map (with_predecessors history) history)) range
                  (omega arith) ok))
      ]
    ]
  ]
