-- ===== src/History/Steps.antt =====
-- One step of the search against one step of a legal order.
use Prim.Native.Nat.{bit_or}
use sink_production_suite.Prelude.{
  ℕ, ◌^◌, ◌≤◌, ◌<◌, true, false, some, List, ◌∷◌, ◌≡◌, inl, inr, arith, length, get_elem?,
  get_elem?-lt, contains, nat_eq, Option-cases,
}
use sink_production_suite.Prelude.Bits.{bit, bit-bit_or, bit-pow, bit_and-pow, bit_and_subset}
use sink_production_suite.Prelude.Int.{◌<ℤ◌}
use sink_production_suite.History.Model.{State, Entry, apply, result_beq_iff}
use sink_production_suite.History.Search.{SearchState, predecessors_from, step}
use sink_production_suite.History.Legal.{MayCome}
use sink_production_suite.History.Masks.{shift_one_lem, bit-predecessors}

-- The mask holds just the placed calls.
abbrev pub Holds : ℕ → List ℕ → Type 0
Holds v placed = (j : ℕ) → bit v j ≡ contains placed j

-- What `Check` hands to its search: each entry with its predecessors.
abbrev pub with_predecessors : List Entry → Entry → Entry × ℕ
with_predecessors history e = (e, predecessors_from e 0 history 0)

pub Holds-cons :
    (v i : ℕ) (placed : List ℕ) → Holds v placed → Holds (bit_or v (2 ^ i)) (i ∷ placed)
Holds-cons v i placed h j = rw (bit-bit_or, bit-pow i j, h j) (ground arith)

-- A state that the search moves to has one more bit, a new one.
pub step_next :
    (c next : SearchState) (i : ℕ) (x : Entry × ℕ)
    → i < 64
    → step c i x ≡ some next
    → (bit c.visited i ≡ false)
      × (next ≡ record { visited = bit_or c.visited (2 ^ i); value = (apply c.value x.0).0 })
unfolding step
step_next c next i x lt h = (
  ground (arith, shift_one_lem i lt, bit_and-pow c.visited i),
  ground (arith, shift_one_lem i lt),
)

module _ (history : List Entry) (small : length history ≤ 24) where
  in_time_iff :
      (v : ℕ) (placed : List ℕ) (e : Entry)
      → Holds v placed
      → ((j : ℕ) → bit (predecessors_from e 0 history 0) j ≡ true → bit v j ≡ true)
      → (j : ℕ) (before : Entry) → get_elem? history j ≡ some before
      → before.end <ℤ e.start
      → contains placed j ≡ true
  in_time_iff v placed e holds h j before at early =
      ground (arith, holds j, h j, bit-predecessors e history j (omega arith))

  subset_of_in_time :
      (v : ℕ) (placed : List ℕ) (s : State) (i : ℕ) (e : Entry)
      → Holds v placed
      → MayCome history placed s i e
      → (j : ℕ) → bit (predecessors_from e 0 history 0) j ≡ true
      → bit v j ≡ true
  subset_of_in_time v placed s i e holds may j there = elim (Option-cases (get_elem? history j)) [
    | inl gone ↦ absurd (ground (arith, gone, bit-predecessors e history j (omega arith)))
    | inr (b, at) ↦
        ground (arith, holds j, may.in_time j b at, at, bit-predecessors e history j (omega arith))
  ]

  -- What the search may visit next, a legal order may place next.
  pub step_sound :
      (c next : SearchState) (placed : List ℕ) (i : ℕ) (e : Entry)
      → Holds c.visited placed
      → get_elem? history i ≡ some e
      → step c i (with_predecessors history e) ≡ some next
      → MayCome history placed c.value i e
        × (next ≡ record { visited = bit_or c.visited (2 ^ i); value = (apply c.value e).0 })
  unfolding step
  step_sound c next placed i e holds at h =
      let lt : i < 64 = omega (arith, get_elem?-lt history i at) in
      let p = predecessors_from e 0 history 0 in
      let subset = bit_and_subset p c.visited in
      (
        record {
          is_call = at;
          is_new = ground (arith, shift_one_lem i lt, bit_and-pow c.visited i, holds i);
          in_time =
              in_time_iff c.visited placed e holds (subset.0 (ground (arith, shift_one_lem i lt)));
          explained = ground (arith, result_beq_iff (apply c.value e).1 e.result);
        },
        ground (arith, shift_one_lem i lt),
      )

  -- What a legal order may place next, the search may visit next.
  pub step_complete :
      (c : SearchState) (placed : List ℕ) (i : ℕ) (e : Entry)
      → Holds c.visited placed
      → MayCome history placed c.value i e
      → step c i (with_predecessors history e)
        ≡ some (record { visited = bit_or c.visited (2 ^ i); value = (apply c.value e).0 })
  unfolding step
  step_complete c placed i e holds may =
      let lt : i < 64 = omega (arith, get_elem?-lt history i may.is_call) in
      let p = predecessors_from e 0 history 0 in
      ground (
        arith,
        shift_one_lem i lt,
        bit_and-pow c.visited i,
        holds i,
        may.is_new,
        may.explained,
        (bit_and_subset p c.visited).1 (subset_of_in_time c.visited placed c.value i e holds may),
        result_beq_iff (apply c.value e).1 e.result,
      )
