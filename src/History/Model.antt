-- ===== src/History/Model.antt =====
-- The data of internal/historycheck/history.go, and `apply`, the sequential specification of one
-- call. A Go `int` that is added to is its two's complement pattern, a number below 2 ^ 64, so `+`
-- wraps; the times are compared only, and are signed integers.
use sink_production_suite.Prelude.{
  ℕ, ◌+◌, ◌%◌, ◌^◌, String, Bool, true, false, ◌&&◌, ◌≡◌, ◌↔◌, arith, eqb, bool_beq, HasEquality,
  if◌then◌else◌,
}
use sink_production_suite.Prelude.Int.{ℤ}

-- `type Kind string`: the six constants, and any other text.
pub data Kind : Type 0 where
  read set create replace add delete : Kind
  other : String → Kind

pub record State : Type 0 where
  pub found : Bool
  pub counter : ℕ

pub record Result : Type 0 where
  pub applied : Bool
  pub conflict : Bool
  pub state : State

pub record Entry : Type 0 where
  pub id : ℤ
  pub client : ℤ
  pub start : ℤ
  pub end : ℤ
  pub kind : Kind
  pub input : ℕ
  pub result : Result

abbrev pub state_beq : State → State → Bool
state_beq a b = bool_beq a.found b.found && eqb a.counter b.counter

unfoldable pub result_beq : Result → Result → Bool
result_beq a b =
    bool_beq a.applied b.applied && (bool_beq a.conflict b.conflict && state_beq a.state b.state)

pub state_beq_iff : (a b : State) → (state_beq a b ≡ true) ↔ (a ≡ b)
state_beq_iff a b = ground arith

pub result_beq_iff : (a b : Result) → (result_beq a b ≡ true) ↔ (a ≡ b)
unfolding result_beq
result_beq_iff a b = ground arith

instance abbrev pub state_eq : HasEquality State
state_eq = record { is_same = state_beq; is_same_iff = state_beq_iff }

abbrev pub absent : State
absent = record { found = false; counter = 0 }

-- `Result{Applied: applied}`.
abbrev pub outcome : Bool → Result
outcome applied = record { applied = applied; conflict = false; state = absent }

-- `entry.Kind == Add || entry.Kind == Replace`.
abbrev pub may_conflict : Kind → Bool
may_conflict add = true
may_conflict replace = true
may_conflict _ = false

-- The case `default:` of the switch in `Check`.
abbrev pub is_known : Kind → Bool
is_known (other k) = false
is_known _ = true

unfoldable pub add_int : ℕ → ℕ → ℕ
add_int a b = (a + b) % 2 ^ 64

-- The switch of `apply`. A kind that is none of the six leaves the state, and counts as applied.
unfoldable pub apply_kind : Kind → State → ℕ → State × Result
unfolding add_int
apply_kind read s n = (s, record (outcome false) { state = s })
apply_kind delete s n = (absent, outcome true)
apply_kind create s n =
    if s.found then (s, outcome false) else (record { found = true; counter = n }, outcome true)
apply_kind replace s n =
    if s.found then (record s { counter = n }, outcome true) else (s, outcome false)
apply_kind set s n = (record { found = true; counter = n }, outcome true)
apply_kind add s n = (record { found = true; counter = add_int s.counter n }, outcome true)
apply_kind (other k) s n = (s, outcome true)

unfoldable pub apply : State → Entry → State × Result
unfolding apply_kind
apply s e =
    if e.result.conflict && may_conflict e.kind
    then (s, record (outcome false) { conflict = true })
    else apply_kind e.kind s e.input
