-- ===== src/States/Model.antt =====
-- The sequential model of internal/statecheck/model.go. A document's counter and a step's value are `int64`
-- in two's complement, numbers below 2 ^ 64. The names of the client's constants are strings; its documents,
-- operations and programs are data here, which its constructors build without an error.
use sink_production_suite.Prelude.{
  ℕ, ◌+◌, ◌%◌, ◌^◌, String, Bool, true, false, not, ◌&&◌, ◌||◌, Option, none, some, eqb, leb, ◌==◌,
  string_eq, if◌then◌else◌,
}

pub record Document : Type 0 where
  pub counter : ℕ
  pub label : String

pub record Step : Type 0 where
  pub kind : ℕ
  pub key : ℕ
  pub value : ℕ

pub record Expectation : Type 0 where
  pub status : String
  pub code : String

-- `map[int]document`.
abbrev pub Documents : Type 0
Documents = ℕ → Option Document

abbrev pub set_document : Documents → ℕ → Document → Documents
set_document docs key d k = if eqb k key then some d else docs k

abbrev pub remove_document : Documents → ℕ → Documents
remove_document docs key k = if eqb k key then none else docs k

abbrev pub exists : Option Document → Bool
exists none = false
exists (some d) = true

-- The value of a key that may be missing.
abbrev pub document_or_zero : Option Document → Document
document_or_zero none = record { counter = 0; label = "" }
document_or_zero (some d) = d

abbrev pub applied : Expectation
applied = record { status = "WriteApplied"; code = "" }

abbrev pub precondition : Expectation
precondition = record { status = "WritePreconditionFailed"; code = "FailurePreconditionFailed" }

abbrev pub invalid_argument : Expectation
invalid_argument = record { status = "WriteFailed"; code = "FailureInvalidArgument" }

-- The switch on the kind of a step.
unfoldable pub want : ℕ → Bool → Expectation
want kind is_there =
    if eqb kind 0 || eqb kind 2
    then (if eqb kind 0 && is_there || eqb kind 2 && not is_there then precondition else applied)
    else if eqb kind 4
    then invalid_argument
    else applied

pub data Mode : Type 0 where
  create upsert replace : Mode

pub data Program : Type 0 where
  add_program invalid_program : Program

pub data Operation : Type 0 where
  put : ℕ → Document → Mode → Operation
  merge : ℕ → Document → Program → Operation

-- `modes[kind]`, for kinds up to 2.
abbrev pub mode_of : ℕ → Mode
mode_of kind = if eqb kind 0 then create else if eqb kind 1 then upsert else replace

-- `label` is `fmt.Sprintf("value-%d", value)`.
module _ (label : ℕ → String) where
  abbrev pub step_document : Step → Document
  step_document s = record { counter = s.value; label = label s.value }

  -- The document that a step leaves, where it is applied.
  unfoldable pub next_document : Step → Option Document → Document
  next_document s current =
      if eqb s.kind 3
      then (let d = document_or_zero current in
          record d { counter = (d.counter + s.value) % 2 ^ 64 })
      else step_document s

  -- What the model does with a write step.
  unfoldable pub model_step : Step → Documents → Expectation × Documents
  unfolding want next_document
  model_step s docs =
      let e = want s.kind (exists (docs s.key)) in
      (
        e,
        if e.status == "WriteApplied"
            then set_document docs s.key (next_document s (docs s.key))
            else docs,
      )

  unfoldable pub make_operation : Step → Operation
  make_operation s =
      if leb s.kind 2
      then put s.key (step_document s) (mode_of s.kind)
      else merge s.key (step_document s) (if eqb s.kind 4 then invalid_program else add_program)
