-- ===== src/History/Legal.antt =====
-- What a sequential explanation of a history is, with no masks, no memory and no budget.
use sink_production_suite.Prelude.{
  ℕ, ◌<◌, ◌≡◌, true, false, some, List, [], ◌∷◌, length, get_elem?, contains, nat_eq,
}
use sink_production_suite.Prelude.Int.{◌<ℤ◌}
use sink_production_suite.History.Model.{State, Entry, apply}

module _ (history : List Entry) where
  -- Call `i` may come next after the calls `placed` in state `s`: it is not placed, each call that
  -- ended before it began is, and it returns what it would return alone in that state.
  pub record MayCome (placed : List ℕ) (s : State) (i : ℕ) (e : Entry) : Type 0 where
    pub is_call : get_elem? history i ≡ some e
    pub is_new : contains placed i ≡ false
    pub in_time :
        (j : ℕ) (before : Entry)
        → get_elem? history j ≡ some before
        → before.end <ℤ e.start
        → contains placed j ≡ true
    pub explained : (apply s e).1 ≡ e.result

  -- `order` goes on from there through every call that is left.
  abbrev pub Legal : List ℕ → State → List ℕ → Type 0
  Legal placed s [] = (i : ℕ) → i < length history → contains placed i ≡ true
  Legal placed s (i ∷ order) =
      (e : Entry) × MayCome placed s i e × Legal (i ∷ placed) (apply s e).0 order

  -- An order of all calls that respects real time and explains every result.
  abbrev pub IsExplanation : State → List ℕ → Type 0
  IsExplanation initial order = Legal [] initial order
