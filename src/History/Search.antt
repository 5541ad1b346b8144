-- ===== src/History/Search.antt =====
-- `Check` of internal/historycheck/history.go: the validation loop, and the search with its memory
-- of rejected states and its budget. A `uint64` is a number below 2 ^ 64.
use Prim.Native.Nat.{bit_and, bit_or}
use sink_production_suite.Prelude.{
  ℕ, zero, suc, ◌+◌, ◌-◌, ◌*◌, ◌%◌, ◌^◌, Bool, true, false, not, ◌&&◌, ◌||◌, Option, none, some,
  List, [], ◌∷◌, ◌≡◌, ◌↔◌, arith, ltb, leb, eqb, length, contains, HasEquality, if◌then◌else◌,
}
use sink_production_suite.Prelude.Int.{ℤ, pos, ltb_ℤ, leb_ℤ, int_eq}
use sink_production_suite.History.Model.{Kind, State, Entry, state_beq, result_beq, is_known, apply}

pub data Failure : Type 0 where
  bad_length bad_initial : Failure
  invalid_entry : ℕ → Failure
  unknown_operation : Kind → Failure
  budget_exhausted no_legal_order : Failure

-- `nil`, an error, or a search that was cut off (which `check-total` excludes).
pub data Verdict : Type 0 where
  accepted : Verdict
  failed : Failure → Verdict
  out_of_fuel : Verdict

pub record SearchState : Type 0 where
  pub visited : ℕ
  pub value : State

abbrev pub search_beq : SearchState → SearchState → Bool
search_beq a b = eqb a.visited b.visited && state_beq a.value b.value

pub search_beq_iff : (a b : SearchState) → (search_beq a b ≡ true) ↔ (a ≡ b)
search_beq_iff a b = ground arith

instance abbrev pub search_eq : HasEquality SearchState
search_eq = record { is_same = search_beq; is_same_iff = search_beq_iff }

-- The variables that the closure `visit` writes: `rejected` and `exhausted`.
pub record Memo : Type 0 where
  pub rejected : List SearchState
  pub exhausted : Bool

-- `uint64(1) << i`.
unfoldable pub shift_one : ℕ → ℕ
shift_one i = 1 * 2 ^ i % 2 ^ 64

-- The inner loop: `predecessors[i]`, from index `j` on.
unfoldable pub predecessors_from : Entry → ℕ → List Entry → ℕ → ℕ
unfolding shift_one
predecessors_from e j [] mask = mask
predecessors_from e j (before ∷ rest) mask =
    predecessors_from e (suc j) rest
      (if ltb_ℤ before.end e.start then bit_or mask (shift_one j) else mask)

pub data Prepared : Type 0 where
  invalid : Failure → Prepared
  ready : List (Entry × ℕ) → Prepared

-- The entries not yet seen, each with its predecessors.
abbrev pub prepend : Entry × ℕ → Prepared → Prepared
prepend x (invalid f) = invalid f
prepend x (ready l) = ready (x ∷ l)

-- The first loop of `Check`, from entry `i` on; `ids` holds the identities seen so far.
unfoldable pub prepare : List Entry → ℕ → List ℤ → List Entry → Prepared
unfolding predecessors_from
prepare history i ids [] = ready []
prepare history i ids (e ∷ rest) =
    let others = prepare history (suc i) (e.id ∷ ids) rest in
    if contains ids e.id || (leb_ℤ e.start (pos 0) || leb_ℤ e.end e.start)
    then invalid (invalid_entry i)
    else if not (is_known e.kind)
    then invalid (unknown_operation e.kind)
    else prepend (e, predecessors_from e 0 history 0) others

-- The guards of the loop in `visit`: the state after call `i`, or `none` for `continue`.
unfoldable pub step : SearchState → ℕ → Entry × ℕ → Option SearchState
step current i (e, before) =
    if not (eqb (bit_and current.visited (shift_one i)) 0)
      || not (eqb (bit_and before current.visited) before)
    then none
    else (let (value, result) = apply current.value e in
        if result_beq result e.result
        then some (record { visited = bit_or current.visited (shift_one i); value = value })
        else none)

abbrev pub budget : ℕ
budget = 250000

-- `rejected[current] = true`.
abbrev pub reject : SearchState → Memo → Memo
reject s m = record m { rejected = if contains m.rejected s then m.rejected else s ∷ m.rejected }

-- The loop of `visit`, from call `i` on, with `visit` for the recursive calls.
unfoldable pub try_from :
    (SearchState → Memo → Option (Bool × Memo))
    → ℕ
    → List (Entry × ℕ)
    → SearchState
    → Memo
    → Option (Bool × Memo)
unfolding step
try_from visit i [] current m = some (false, m)
try_from visit i (x ∷ rest) current m = elim (step current i x) [
  | none ↦ try_from visit (suc i) rest current m
  | some next ↦ elim (visit next m) [
    | none ↦ none
    | some (found, m') ↦ elim found [
      | true ↦ some (true, m')
      | false ↦ try_from visit (suc i) rest current m'
    ]
  ]
]

-- What `visit` does after its loop.
abbrev pub conclude : SearchState → Option (Bool × Memo) → Option (Bool × Memo)
conclude current none = none
conclude current (some (true, m)) = some (true, m)
conclude current (some (false, m)) = some (false, reject current m)

-- `visit`; `none` means that the fuel ran out.
unfoldable pub visit : List (Entry × ℕ) → ℕ → ℕ → SearchState → Memo → Option (Bool × Memo)
unfolding try_from
visit calls complete zero current m = none
visit calls complete (suc fuel) current m =
    if eqb current.visited complete
    then some (true, m)
    else if contains m.rejected current || m.exhausted
    then some (false, m)
    else if leb budget (length m.rejected)
    then some (false, record m { exhausted = true })
    else conclude current (try_from (visit calls complete fuel) 0 calls current m)

abbrev pub verdict : Option (Bool × Memo) → Verdict
verdict none = out_of_fuel
verdict (some (true, m)) = accepted
verdict (some (false, m)) = if m.exhausted then failed budget_exhausted else failed no_legal_order

-- `uint64(1)<<len(history) - 1`.
unfoldable pub all_calls : ℕ → ℕ
unfolding shift_one
all_calls n = (shift_one n + 2 ^ 64 - 1) % 2 ^ 64

abbrev pub search : State → ℕ → Prepared → Verdict
search initial n (invalid f) = failed f
search initial n (ready calls) = verdict (
    visit calls (all_calls n) (suc n) (record { visited = 0; value = initial })
      (record { rejected = []; exhausted = false }))

unfoldable pub check : State → List Entry → Verdict
unfolding prepare visit all_calls
check initial history =
    let n = length history in
    if eqb n 0 || ltb 24 n
    then failed bad_length
    else if not initial.found && not (eqb initial.counter 0)
    then failed bad_initial
    else search initial n (prepare history 0 [] history)
