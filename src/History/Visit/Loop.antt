-- ===== src/History/Visit/Loop.antt =====
-- The loop over the calls, and then `visit` itself, owe what `Answer` says.
use sink_production_suite.Prelude.{
  ℕ, zero, suc, ◌+◌, ◌-◌, ◌^◌, ◌≤◌, Bool, true, false, Option, some, List, [], ◌∷◌, map, ◌≡◌, ◌≢◌,
  refl, ◌∙◌, inl, inr, arith, length, get_elem?, nat_eq, Bool-cases, Option-cases,
}
use mathlib.Core.Path.{subst}
use sink_production_suite.Prelude.Bits.{bit_ext, bit-ones}
use sink_production_suite.History.Model.{Entry}
use sink_production_suite.History.Search.{SearchState, search_eq, Memo, step, try_from}
use sink_production_suite.History.Steps.{Holds-cons, with_predecessors, step_sound, step_complete}
use sink_production_suite.History.Visit.{
  free, InRange, Live, Dead, IsFaithful, Answer, after, Visits, SomeLive, AllDead, AllDead-cons,
  SomeLive-cons, try_skip, try_found, try_later, next_ok,
}

get_elem?-map :
    {A B : Type 0} (f : A → B) (xs : List A) (i : ℕ) {a : A}
    → get_elem? xs i ≡ some a
    → get_elem? (map f xs) i ≡ some (f a)
get_elem?-map f [] i h = cc
get_elem?-map f (x ∷ xs) zero h = ground arith
get_elem?-map f (x ∷ xs) (suc i) h = get_elem?-map f xs i h

get_elem?-map_inv :
    {A B : Type 0} (f : A → B) (xs : List A) (i : ℕ) {b : B}
    → get_elem? (map f xs) i ≡ some b
    → (a : A) × (get_elem? xs i ≡ some a) × (b ≡ f a)
get_elem?-map_inv f [] i h = absurd (cc)
get_elem?-map_inv f (x ∷ xs) zero h = (x, refl, ground arith)
get_elem?-map_inv f (x ∷ xs) (suc i) h = get_elem?-map_inv f xs i h

module _ (history : List Entry) (small : length history ≤ 24) where
  pub loop-Answer :
      (v : SearchState → Memo → Option (Bool × Memo)) (fuel : ℕ)
      → Visits history small v fuel
      → (c : SearchState) (i : ℕ) (rest : List (Entry × ℕ)) (m : Memo)
      → i + length rest ≤ length history
      → InRange (length history) c.visited
      → free (length history) c.visited ≤ fuel
      → IsFaithful history small m
      → Answer history small
          (SomeLive history small c i rest)
          (AllDead history small c i rest)
          m
          (try_from v i rest c m)
  unfolding try_from
  loop-Answer v fuel ih c i [] m fits range enough ok = record {
    found = false;
    memo = m;
    returned = refl;
    faithful = ok;
    mono = λ e. e;
    sound = λ e. absurd (cc);
    complete = λ f e k j x next p at s. absurd (cc);
  }
  loop-Answer v fuel ih c i (x ∷ rest) m fits range enough ok = elim (Option-cases (step c i x)) [
    | inl skip ↦
        let a = loop-Answer v fuel ih c (suc i) rest m (omega arith) range enough ok in
        record {
          found = a.found;
          memo = a.memo;
          returned = try_skip history small v c i x rest m skip ∙ a.returned;
          faithful = a.faithful;
          mono = a.mono;
          sound = λ f. SomeLive-cons history small c i x rest (a.sound f);
          complete = λ f e. AllDead-cons history small c i x rest (λ next s. cc) (a.complete f e);
        }
    | inr (next, go) ↦
        let (range', enough') =
          next_ok history small fuel c next i x (omega arith) range enough go in
        let b = ih next m range' enough' ok in
        elim (Bool-cases b.found) [
          | inl yes' ↦ record {
            found = true;
            memo = b.memo;
            returned =
                try_found history small v c i x rest m next b.memo go (rw yes' at (b.returned));
            faithful = b.faithful;
            mono = b.mono;
            sound = λ f. (0, i, x, next, omega arith, refl, go, b.sound yes');
            complete = λ f. absurd (cc);
          }
          | inr no' ↦
              let a =
                loop-Answer v fuel ih c (suc i) rest b.memo (omega arith) range enough b.faithful in
              record {
                found = a.found;
                memo = a.memo;
                returned =
                    try_later history small v c i x rest m next b.memo go (rw no' at (b.returned))
                    ∙ a.returned;
                faithful = a.faithful;
                mono = λ e. b.mono (a.mono e);
                sound = λ f. SomeLive-cons history small c i x rest (a.sound f);
                complete = λ f e.
                    AllDead-cons history small c i x rest
                      (λ next' s.
                        let same : next ≡ next' = cc (go, s) in
                        subst (Dead history small) same (b.complete no' (a.mono e)))
                      (a.complete f e);
              }
        ]
  ]

  -- The calls, each with its predecessors.
  abbrev pub table : List (Entry × ℕ)
  table = map (with_predecessors history) history

  -- A search state that holds every call: the empty order goes on from it.
  pub Live-all : (c : SearchState) → c.visited ≡ 2 ^ length history - 1 → Live history small c
  Live-all c e placed holds = ([], λ i lt. ground (arith, holds i, bit-ones (length history) i, e))

  -- What the loop found is an order that goes on.
  pub Live-some : (c : SearchState) → SomeLive history small c 0 table → Live history small c
  Live-some c (k, j, x, next, e, at, s, live) placed holds =
      let (call, there, same) = get_elem?-map_inv (with_predecessors history) history k at in
      let at_k : j ≡ k = omega arith in
      let (may, moved) =
        step_sound history small c next placed k call holds there (rw (← same, ← at_k) s) in
      let (order, legal) =
        subst (Live history small) moved live (k ∷ placed) (Holds-cons c.visited k placed holds) in
      (k ∷ order, (call, may, legal))

  -- If all that the loop may visit is dead, so is the state, unless it holds every call.
  pub Dead-all :
      (c : SearchState)
      → InRange (length history) c.visited
      → c.visited ≢ 2 ^ length history - 1
      → AllDead history small c 0 table
      → Dead history small c
  Dead-all c range more dead placed holds [] legal =
      more
        (bit_ext _ _ (λ j. ground (arith, holds j, legal j, range j, bit-ones (length history) j)))
  Dead-all c range more dead placed holds (i ∷ order) (call, may, legal) =
      dead i i (with_predecessors history call) (after history small c i call) (omega arith)
        (get_elem?-map (with_predecessors history) history i may.is_call)
        (step_complete history small c placed i call holds may) (i ∷ placed)
        (Holds-cons c.visited i placed holds) order legal
