-- ===== src/History/Verdicts.antt =====
-- What each verdict of `Check` says of the history.
use sink_production_suite.Prelude.{
  ℕ, suc, ◌-◌, ◌^◌, ◌≤◌, Bool, true, false, not, ◌&&◌, ◌||◌, some, List, [], ◌∷◌, map, ◌≡◌, ◌≢◌,
  ◌↔◌, ◌⊎◌, refl, ap, sym, ◌∙◌, inl, inr, arith, ltb, eqb, length, contains, All, Bool-cases,
}
use sink_production_suite.Prelude.Bits.{bit-zero}
use sink_production_suite.Prelude.Int.{ℤ, pos, int_eq, ◌<ℤ◌, leb_ℤ}
use sink_production_suite.History.Model.{Kind, State, Entry, is_known}
use sink_production_suite.History.Search.{
  Failure, no_legal_order, budget_exhausted, bad_length, bad_initial, invalid_entry,
  unknown_operation, Verdict, accepted, failed, out_of_fuel, Prepared, ready, invalid, prepare,
  visit, verdict, check, Memo, SearchState,
}
use sink_production_suite.History.Legal.{IsExplanation}
use sink_production_suite.History.Masks.{all_calls_lem}
use sink_production_suite.History.Steps.{with_predecessors}
use sink_production_suite.History.Visit.{free-zero, Answer, Live, Dead}
use sink_production_suite.History.Visit.Loop.{table}
use sink_production_suite.History.Visit.Total.{visit-Answer}

abbrev pub IsValidEntry : Entry → Type 0
IsValidEntry e = (pos 0 <ℤ e.start) × (e.start <ℤ e.end) × (is_known e.kind ≡ true)

-- No identity is among those before it.
abbrev pub AreNew : List ℤ → List Entry → Type 0
AreNew ids [] = Unit
AreNew ids (e ∷ l) = (contains ids e.id ≡ false) × AreNew (e.id ∷ ids) l

-- The input that the search is for.
pub record IsWellFormed (initial : State) (history : List Entry) : Type 0 where
  pub nonempty : 1 ≤ length history
  pub bounded : length history ≤ 24
  pub initial_ok : initial.found ≡ false → initial.counter ≡ 0
  pub entries : All IsValidEntry history
  pub distinct : AreNew [] history

-- A verdict of the search, and no refusal of the input.
abbrev pub IsSearched : Verdict → Type 0
IsSearched accepted = Unit
IsSearched (failed no_legal_order) = Unit
IsSearched (failed budget_exhausted) = Unit
IsSearched _ = ⊥

prepare_valid :
    (history : List Entry) (i : ℕ) (ids : List ℤ) (l : List Entry)
    → All IsValidEntry l
    → AreNew ids l
    → prepare history i ids l ≡ ready (map (with_predecessors history) l)
unfolding prepare
prepare_valid history i ids [] h d = refl
prepare_valid history i ids (e ∷ l) h d =
    ground (arith, prepare_valid history (suc i) (e.id ∷ ids) l h.1 d.1)

Prepared-cases :
    (p : Prepared) → ((f : Failure) × (p ≡ invalid f)) ⊎ ((l : List (Entry × ℕ)) × (p ≡ ready l))
Prepared-cases (invalid f) = inl (f, refl)
Prepared-cases (ready l) = inr (l, refl)

-- What the first loop refuses an entry for.
prepare_invalid :
    (history : List Entry) (i : ℕ) (ids : List ℤ) (l : List Entry) {f : Failure}
    → prepare history i ids l ≡ invalid f
    → ((j : ℕ) × (f ≡ invalid_entry j)) ⊎ ((k : Kind) × (f ≡ unknown_operation k))
unfolding prepare
prepare_invalid history i ids [] h = absurd (ground arith)
prepare_invalid history i ids (e ∷ l) {f} h =
    elim (Bool-cases (contains ids e.id || (leb_ℤ e.start (pos 0) || leb_ℤ e.end e.start))) [
      | inl t ↦ inl (i, ground (arith, t))
      | inr t ↦ elim (Bool-cases (is_known e.kind)) [
        | inr k ↦ inr (e.kind, ground (arith, t, k))
        | inl k ↦ elim (Prepared-cases (prepare history (suc i) (e.id ∷ ids) l)) [
          | inl (g, bad) ↦
              let same : g ≡ f = ground (arith, t, k, bad) in
              prepare_invalid history (suc i) (e.id ∷ ids) l (bad ∙ ap invalid same)
          | inr (others, good) ↦ absurd (ground (arith, t, k, good))
        ]
      ]
    ]

not-IsSearched :
    (f : Failure)
    → ((j : ℕ) × (f ≡ invalid_entry j)) ⊎ ((k : Kind) × (f ≡ unknown_operation k))
    → ¬ IsSearched (failed f)
not-IsSearched f (inl (j, e)) s = rw e at s
not-IsSearched f (inr (k, e)) s = rw e at s

prepare_ready :
    (history : List Entry) (i : ℕ) (ids : List ℤ) (l : List Entry) {calls : List (Entry × ℕ)}
    → prepare history i ids l ≡ ready calls
    → (calls ≡ map (with_predecessors history) l) × All IsValidEntry l × AreNew ids l
unfolding prepare
prepare_ready history i ids [] h = (ground arith, tt, tt)
prepare_ready history i ids (e ∷ l) h =
    elim (Prepared-cases (prepare history (suc i) (e.id ∷ ids) l)) [
      | inl (f, bad) ↦ absurd (ground (arith, bad))
      | inr (others, good) ↦
          let (same, valid, new) = prepare_ready history (suc i) (e.id ∷ ids) l good in
          (
            ground (arith, good, same),
            ((ground (arith, good), ground (arith, good), ground (arith, good)), valid),
            (ground (arith, good), new),
          )
    ]

abbrev start : State → SearchState
start initial = record { visited = 0; value = initial }

abbrev no_memory : Memo
no_memory = record { rejected = []; exhausted = false }

-- The search of a well-formed history.
searched :
    (initial : State) (history : List Entry) (small : length history ≤ 24)
    → Answer history small
        (Live history small (start initial))
        (Dead history small (start initial))
        no_memory
        (visit
          (table history small)
          (2 ^ length history - 1)
          (suc (length history))
          (start initial)
          no_memory)
searched initial history small =
    visit-Answer history small (suc (length history)) (start initial) no_memory
      (λ j h. absurd (ground (arith, bit-zero j))) (omega (arith, free-zero (length history)))
      (λ e s h. absurd (ground arith))

-- `Check` on a well-formed history is the search.
check_searches :
    (initial : State) (history : List Entry)
    → IsWellFormed initial history
    → check initial history
      ≡ verdict (
          visit
            (map (with_predecessors history) history)
            (2 ^ length history - 1)
            (suc (length history))
            (start initial)
            no_memory)
unfolding check
check_searches initial history w = ground (
  arith,
  w.initial_ok,
  all_calls_lem (length history) (omega arith),
  prepare_valid history 0 [] history w.entries w.distinct,
)

-- A history is refused, or well formed.
check_cases :
    (initial : State) (history : List Entry)
    → ((f : Failure) × (check initial history ≡ failed f) × (¬ IsSearched (failed f)))
      ⊎ IsWellFormed initial history
unfolding check
check_cases initial history =
    elim (Bool-cases (eqb (length history) 0 || ltb 24 (length history))) [
      | inl bad ↦ inl (bad_length, rw bad, λ s. s)
      | inr fits ↦ elim (Bool-cases (not initial.found && not (eqb initial.counter 0))) [
        | inl bad ↦ inl (bad_initial, rw (fits, bad), λ s. s)
        | inr known ↦ elim (Prepared-cases (prepare history 0 [] history)) [
          | inl (f, bad) ↦ inl (
            f,
            rw (fits, known, bad),
            not-IsSearched f (prepare_invalid history 0 [] history bad),
          )
          | inr (calls, good) ↦
              let (same, valid, new) = prepare_ready history 0 [] history good in
              inr (record {
                nonempty = ground arith;
                bounded = ground arith;
                initial_ok = ground arith;
                entries = valid;
                distinct = new;
              })
        ]
      ]
    ]

IsWellFormed-of_searched :
    (initial : State) (history : List Entry)
    → IsSearched (check initial history)
    → IsWellFormed initial history
IsWellFormed-of_searched initial history h = elim (check_cases initial history) [
  | inl (f, e, refused) ↦ absurd (refused (rw e at h))
  | inr w ↦ w
]

-- `Check` refuses an input just where it is not well formed: between 1 and 24 calls, an absent
-- initial state with counter 0, known kinds, a new identity for each entry, and intervals that
-- begin after time 0 and end later than they begin. In all other cases its verdict is one of the
-- search: acceptance, no legal order, or an exhausted budget.
pub check_searches_iff :
    (initial : State) (history : List Entry)
    → IsSearched (check initial history) ↔ IsWellFormed initial history
check_searches_iff initial history = (IsWellFormed-of_searched initial history, backward)
  where
    backward : IsWellFormed initial history → IsSearched (check initial history)
    backward w =
        let a = searched initial history w.bounded in
        rw (check_searches initial history w, a.returned) (by_cases a.found a.memo)
      where
        by_cases : (found : Bool) (m : Memo) → IsSearched (verdict (some (found, m)))
        by_cases true m = tt
        by_cases false m = elim (Bool-cases m.exhausted) [ inl e ↦ rw e tt | inr e ↦ rw e tt ]

-- The search ends: `Check` never runs out of the fuel of its model.
pub check-total : (initial : State) (history : List Entry) → check initial history ≢ out_of_fuel
check-total initial history h = elim (check_cases initial history) [
  | inl (f, e, refused) ↦ cc (h, e)
  | inr w ↦
      let a = searched initial history w.bounded in
      ended a.found a.memo (sym (check_searches initial history w ∙ ap verdict a.returned) ∙ h)
]
  where
    ended : (found : Bool) (m : Memo) → verdict (some (found, m)) ≢ out_of_fuel
    ended found m = λ e. ground arith

-- An accepted history has an order of all its calls that respects real time and explains every
-- result.
pub check_sound :
    (initial : State) (history : List Entry)
    → check initial history ≡ accepted
    → (order : List ℕ) × IsExplanation history initial order
check_sound initial history h =
    let w = (check_searches_iff initial history).0 (rw h tt) in
    let a = searched initial history w.bounded in
    a.sound (ground (arith, check_searches initial history w, a.returned)) [] (λ j. bit-zero j)

-- A history that is rejected for want of a legal order has none.
pub check_complete :
    (initial : State) (history : List Entry)
    → check initial history ≡ failed no_legal_order
    → (order : List ℕ) → ¬ IsExplanation history initial order
check_complete initial history h =
    let w = (check_searches_iff initial history).0 (rw h tt) in
    let a = searched initial history w.bounded in
    a.complete (ground (arith, check_searches initial history w, a.returned))
      (ground (arith, check_searches initial history w, a.returned)) [] (λ j. bit-zero j)
