-- ===== src/States/Server.antt =====
-- The server that internal/statecheck/model.go expects: one that performs the operations of its calls one
-- after the other, and answers each of them at its place.
use sink_production_suite.Prelude.{
  ℕ, suc, ◌+◌, ◌%◌, ◌^◌, ◌≡◌, String, false, Option, none, some, List, [], ◌∷◌, eqb, leb,
  if◌then◌else◌,
}
use sink_production_suite.States.Model.{
  Document, Expectation, Documents, Mode, Program, Operation, set_document, remove_document,
  applied, precondition, invalid_argument, Step, make_operation, create, upsert, replace,
  add_program, invalid_program, put, merge,
}
use sink_production_suite.States.Run.{WriteResult, ReadResult, Client}

pub data Outcome : Type 0 where
  stored : Document → Outcome
  precondition_failed failed : Outcome

-- What the two programs do with the stored document, where there is one.
unfoldable pub run_program : Program → Document → Option Document → Outcome
run_program add_program incoming none =
    stored (record { counter = (0 + incoming.counter) % 2 ^ 64; label = "" })
run_program add_program incoming (some d) =
    stored (record { counter = (d.counter + incoming.counter) % 2 ^ 64; label = d.label })
run_program invalid_program incoming d = failed

unfoldable pub put_outcome : Mode → Document → Option Document → Outcome
put_outcome create new none = stored new
put_outcome create new (some d) = precondition_failed
put_outcome upsert new d = stored new
put_outcome replace new none = precondition_failed
put_outcome replace new (some d) = stored new

abbrev pub key_of : Operation → ℕ
key_of (put key d mode) = key
key_of (merge key d program) = key

unfoldable pub outcome : Operation → Documents → Outcome
unfolding put_outcome run_program
outcome (put key d mode) docs = put_outcome mode d (docs key)
outcome (merge key d program) docs = run_program program d (docs key)

abbrev pub effect : ℕ → Outcome → Documents → Documents
effect key (stored d) docs = set_document docs key d
effect key precondition_failed docs = docs
effect key failed docs = docs

abbrev pub expectation : Outcome → Expectation
expectation (stored d) = applied
expectation precondition_failed = precondition
expectation failed = invalid_argument

abbrev pub answer : ℕ → Outcome → WriteResult
answer i (stored d) = record { operation_index = i; status = "WriteApplied"; failure = none }
answer i precondition_failed = record {
  operation_index = i;
  status = "WritePreconditionFailed";
  failure = some (record { code = "FailurePreconditionFailed"; retryable = false });
}
answer i failed = record {
  operation_index = i;
  status = "WriteFailed";
  failure = some (record { code = "FailureInvalidArgument"; retryable = false });
}

-- The outcomes of operations performed in order, and the documents after them.
unfoldable pub outcomes : List Operation → Documents → List Outcome
outcomes [] docs = []
outcomes (o ∷ rest) docs = outcome o docs ∷ outcomes rest (effect (key_of o) (outcome o docs) docs)

unfoldable pub perform : List Operation → Documents → Documents
perform [] docs = docs
perform (o ∷ rest) docs = perform rest (effect (key_of o) (outcome o docs) docs)

unfoldable pub answers : ℕ → List Outcome → List WriteResult
answers i [] = []
answers i (o ∷ rest) = answer i o ∷ answers (suc i) rest

unfoldable pub deletions : ℕ → List ℕ → List WriteResult
deletions i [] = []
deletions i (key ∷ rest) =
    record { operation_index = i; status = "DeleteApplied"; failure = none }
    ∷ deletions (suc i) rest

unfoldable pub remove_all : List ℕ → Documents → Documents
remove_all [] docs = docs
remove_all (key ∷ rest) docs = remove_all rest (remove_document docs key)

abbrev pub reading : ℕ → Option Document → ReadResult
reading i none = record {
  operation_index = i;
  status = "ReadNotFound";
  has_failure = false;
  decoded = none;
}
reading i (some d) = record {
  operation_index = i;
  status = "ReadFound";
  has_failure = false;
  decoded = some d;
}

unfoldable pub readings : ℕ → List ℕ → Documents → List ReadResult
readings i [] docs = []
readings i (key ∷ rest) docs = reading i (docs key) ∷ readings (suc i) rest docs

-- A client of a sequential server whose documents are `view` of its state.
pub record IsSequential {S : Type 0} (c : Client S) (view : S → Documents) : Type 0 where
  pub write_answer :
      (s : S) (os : List Operation) → (c.write s os).0 ≡ some (answers 0 (outcomes os (view s)))
  pub write_view : (s : S) (os : List Operation) → view (c.write s os).1 ≡ perform os (view s)
  pub delete_answer : (s : S) (keys : List ℕ) → (c.delete s keys).0 ≡ some (deletions 0 keys)
  pub delete_view : (s : S) (keys : List ℕ) → view (c.delete s keys).1 ≡ remove_all keys (view s)
  pub read_answer : (s : S) (keys : List ℕ) → (c.read s keys).0 ≡ some (readings 0 keys (view s))
  pub read_view : (s : S) (keys : List ℕ) → view (c.read s keys).1 ≡ view s

-- The documents after the steps of a sequence, each performed on its own.
module _ (label : ℕ → String) where
  unfoldable pub step_effect : Step → Documents → Documents
  step_effect s docs =
      if leb 5 s.kind
      then (if eqb s.kind 5 then remove_document docs s.key else docs)
      else perform (make_operation label s ∷ []) docs

  unfoldable pub after : List Step → Documents → Documents
  after [] docs = docs
  after (s ∷ rest) docs = after rest (step_effect s docs)
