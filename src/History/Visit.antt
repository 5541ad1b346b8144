-- ===== src/History/Visit.antt =====
-- The search of `Check`: it ends within its fuel, what it accepts has a legal order, and what it
-- rejects without running out of its budget has none.
pub mod Loop
pub mod Total
use Prim.Native.Nat.{bit_or}
use sink_production_suite.Prelude.{
  ℕ, zero, suc, ◌+◌, ◌-◌, ◌^◌, ◌≤◌, ◌<◌, Bool, true, false, ◌||◌, Option, none, some, List, [], ◌∷◌,
  map, ◌≡◌, refl, sym, ap, ◌⊎◌, inl, inr, arith, ltb, eqb, eqb_iff, leb, length, get_elem?,
  get_elem?-lt, contains, nat_eq, Bool-cases, Option-cases, if◌then◌else◌,
}
use sink_production_suite.Prelude.Bits.{bit, bit-bit_or, bit-pow, bit_ext, bit-ones}
use sink_production_suite.History.Model.{State, Entry, apply}
use sink_production_suite.History.Search.{
  SearchState, search_beq_iff, search_eq, Memo, step, try_from, visit, conclude, reject, budget,
}
use sink_production_suite.History.Legal.{MayCome, Legal}
use sink_production_suite.History.Steps.{
  Holds, Holds-cons, with_predecessors, step_sound, step_complete, step_next,
}

-- The calls below `n` that the mask does not hold.
pub free : ℕ → ℕ → ℕ
free zero v = 0
free (suc n) v = free n v + (if bit v n then 0 else 1)

pub free-zero : (n : ℕ) → free n 0 ≤ n
unfolding free
free-zero zero = omega arith
free-zero (suc n) = ground (arith, free-zero n)

free_same : (n v w : ℕ) → ((j : ℕ) → j < n → bit w j ≡ bit v j) → free n w ≡ free n v
unfolding free
free_same zero v w h = refl
free_same (suc n) v w h = rw (h n (omega arith), free_same n v w (λ j p. h j (omega arith)))

free-cons : (n v i : ℕ) → i < n → bit v i ≡ false → free n (bit_or v (2 ^ i)) + 1 ≡ free n v
unfolding free
free-cons zero v i h gone = absurd (omega arith)
free-cons (suc n) v i h gone = elim (Bool-cases (eqb i n)) [
  | inl last ↦ ground (
    arith,
    bit-bit_or n v (2 ^ i),
    bit-pow i n,
    free_same n v (bit_or v (2 ^ i)) (λ j p. ground (arith, bit-bit_or j v (2 ^ i), bit-pow i j)),
    ap (bit v) ((eqb_iff i n).0 last),
  )
  | inr below ↦
      ground (arith, bit-bit_or n v (2 ^ i), bit-pow i n, free-cons n v i (ground arith) gone)
]

-- Every bit of the mask is one of a call.
abbrev pub InRange : ℕ → ℕ → Type 0
InRange n v = (j : ℕ) → bit v j ≡ true → j < n

InRange-cons : (n v i : ℕ) → i < n → InRange n v → InRange n (bit_or v (2 ^ i))
InRange-cons n v i h r j there = ground (arith, bit-bit_or j v (2 ^ i), bit-pow i j, r j)

module _ (history : List Entry) (small : length history ≤ 24) where
  abbrev pub n : ℕ
  n = length history

  abbrev pub calls : List (Entry × ℕ)
  calls = map (with_predecessors history) history

  -- Some order goes on from the search state; none does.
  abbrev pub Live : SearchState → Type 0
  Live c =
      (placed : List ℕ)
      → Holds c.visited placed
      → (order : List ℕ) × Legal history placed c.value order

  abbrev pub Dead : SearchState → Type 0
  Dead c =
      (placed : List ℕ)
      → Holds c.visited placed
      → (order : List ℕ) → ¬ Legal history placed c.value order

  abbrev pub IsFaithful : Memo → Type 0
  IsFaithful m = m.exhausted ≡ false → (s : SearchState) → contains m.rejected s ≡ true → Dead s

  -- What a call of `visit` or of its loop owes, for what it reports of `L` and `D`.
  pub record Answer (L D : Type 0) (m : Memo) (r : Option (Bool × Memo)) : Type 0 where
    pub found : Bool
    pub memo : Memo
    pub returned : r ≡ some (found, memo)
    pub faithful : IsFaithful memo
    pub mono : memo.exhausted ≡ false → m.exhausted ≡ false
    pub sound : found ≡ true → L
    pub complete : found ≡ false → memo.exhausted ≡ false → D

  -- The state after call `i`.
  abbrev pub after : SearchState → ℕ → Entry → SearchState
  after c i e = record { visited = bit_or c.visited (2 ^ i); value = (apply c.value e).0 }

  abbrev pub Visits : (SearchState → Memo → Option (Bool × Memo)) → ℕ → Type 0
  Visits v fuel =
      (c : SearchState) (m : Memo)
      → InRange n c.visited
      → free n c.visited < fuel
      → IsFaithful m
      → Answer (Live c) (Dead c) m (v c m)

  -- The loop has something to visit that lives; all that it may visit is dead.
  abbrev pub SomeLive : SearchState → ℕ → List (Entry × ℕ) → Type 0
  SomeLive c i rest =
      (k : ℕ) × (j : ℕ) × (x : Entry × ℕ) × (next : SearchState) × (j ≡ i + k)
      × (get_elem? rest k ≡ some x)
      × (step c j x ≡ some next)
      × Live next

  abbrev pub AllDead : SearchState → ℕ → List (Entry × ℕ) → Type 0
  AllDead c i rest =
      (k j : ℕ) (x : Entry × ℕ) (next : SearchState)
      → j ≡ i + k
      → get_elem? rest k ≡ some x
      → step c j x ≡ some next
      → Dead next

  AllDead-cons :
      (c : SearchState) (i : ℕ) (x : Entry × ℕ) (rest : List (Entry × ℕ))
      → ((next : SearchState) → step c i x ≡ some next → Dead next)
      → AllDead c (suc i) rest
      → AllDead c i (x ∷ rest)
  AllDead-cons c i x rest first others zero j y next e at s =
      first next (cc (s, at, (let e' : j ≡ i = omega arith in e')))
  AllDead-cons c i x rest first others (suc k) j y next e at s =
      others k j y next (omega arith) at s

  SomeLive-cons :
      (c : SearchState) (i : ℕ) (x : Entry × ℕ) (rest : List (Entry × ℕ))
      → SomeLive c (suc i) rest
      → SomeLive c i (x ∷ rest)
  SomeLive-cons c i x rest (k, j, y, next, e, at, s, live) =
      (suc k, j, y, next, omega arith, at, s, live)

  -- What the loop computes at its first call.
  module _ (v : SearchState → Memo → Option (Bool × Memo)) (c : SearchState) (i : ℕ) (x : Entry × ℕ)
      (rest : List (Entry × ℕ)) (m : Memo) where
    try_skip : step c i x ≡ none → try_from v i (x ∷ rest) c m ≡ try_from v (suc i) rest c m
    unfolding try_from
    try_skip h = rw (h, try_from)

    try_found :
        (next : SearchState) (m' : Memo)
        → step c i x ≡ some next
        → v next m ≡ some (true, m')
        → try_from v i (x ∷ rest) c m ≡ some (true, m')
    unfolding try_from
    try_found next m' h r = rw (h, r, try_from)

    try_later :
        (next : SearchState) (m' : Memo)
        → step c i x ≡ some next
        → v next m ≡ some (false, m')
        → try_from v i (x ∷ rest) c m ≡ try_from v (suc i) rest c m'
    unfolding try_from
    try_later next m' h r = rw (h, r, try_from)

  next_ok :
      (fuel : ℕ) (c next : SearchState) (i : ℕ) (x : Entry × ℕ)
      → i < n
      → InRange n c.visited
      → free n c.visited ≤ fuel
      → step c i x ≡ some next
      → InRange n next.visited × (free n next.visited < fuel)
  next_ok fuel c next i x lt range enough h =
      let (fresh, e) = step_next c next i x (omega arith) h in
      rw e (InRange-cons n c.visited i lt range, omega (arith, free-cons n c.visited i lt fresh))
