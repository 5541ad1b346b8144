-- ===== src/States/Writes.antt =====
-- The model of internal/statecheck/model.go and the server of States.Server perform the same writes, and a
-- check accepts what that server answers.
use sink_production_suite.Prelude.{
  ℕ, zero, suc, ◌<◌, String, true, Option, none, some, List, [], ◌∷◌, ◌++◌, map, ◌≡◌, refl, arith,
  string_eq, eqb_iff,
}
use sink_production_suite.States.Model.{
  Document, Step, Documents, want, next_document, model_step, Operation, make_operation,
}
use sink_production_suite.States.Run.{
  has_no_failure, is_failure, is_wanted, are_wanted, document_beq, is_read, are_read, are_deleted,
}
use sink_production_suite.States.Server.{
  Outcome, stored, precondition_failed, failed, run_program, put_outcome, key_of, outcome, effect,
  expectation, answer, outcomes, perform, answers, deletions, reading, readings,
}

is_wanted-answer : (i : ℕ) (o : Outcome) → is_wanted i (expectation o) (answer i o) ≡ true
unfolding is_wanted has_no_failure is_failure
is_wanted-answer i (stored d) = ground arith
is_wanted-answer i precondition_failed = ground arith
is_wanted-answer i failed = ground arith

pub are_wanted-answers :
    (i : ℕ) (os : List Outcome) → are_wanted i (map expectation os) (answers i os) ≡ true
unfolding are_wanted answers
are_wanted-answers i [] = refl
are_wanted-answers i (o ∷ rest) = rw (is_wanted-answer i o) (are_wanted-answers (suc i) rest)

is_read-reading : (i : ℕ) (d : Option Document) → is_read i d (reading i d) ≡ true
unfolding is_read document_beq
is_read-reading i none = ground arith
is_read-reading i (some d) =
    ground
      (arith, (eqb_iff d.counter d.counter).1 refl, (string_eq.is_same_iff d.label d.label).1 refl)

pub are_read-readings :
    (i : ℕ) (keys : List ℕ) (docs : Documents) → are_read i keys docs (readings i keys docs) ≡ true
unfolding are_read readings
are_read-readings i [] docs = refl
are_read-readings i (k ∷ rest) docs =
    rw (is_read-reading i (docs k)) (are_read-readings (suc i) rest docs)

pub are_deleted-deletions : (i : ℕ) (keys : List ℕ) → are_deleted i (deletions i keys) ≡ true
unfolding are_deleted deletions has_no_failure
are_deleted-deletions i [] = refl
are_deleted-deletions i (k ∷ rest) = rw (are_deleted-deletions (suc i) rest) (ground arith)

pub outcomes-append :
    (os : List Operation) (o : Operation) (docs : Documents)
    → outcomes (os ++ (o ∷ [])) docs ≡ outcomes os docs ++ (outcome o (perform os docs) ∷ [])
unfolding outcomes perform
outcomes-append [] o docs = refl
outcomes-append (p ∷ rest) o docs =
    rw (outcomes-append rest o (effect (key_of p) (outcome p docs) docs)) refl

pub perform-append :
    (os : List Operation) (o : Operation) (docs : Documents)
    → perform (os ++ (o ∷ [])) docs
      ≡ effect (key_of o) (outcome o (perform os docs)) (perform os docs)
unfolding perform
perform-append [] o docs = refl
perform-append (p ∷ rest) o docs = perform-append rest o (effect (key_of p) (outcome p docs) docs)

module _ (label : ℕ → String) where
  AreSame : Step → Documents → Type 0
  AreSame s docs = model_step label s docs ≡ (
    expectation (outcome (make_operation label s) docs),
    effect (key_of (make_operation label s)) (outcome (make_operation label s) docs) docs,
  )

  -- A write step of the model is the operation that is sent for it.
  AreSame-kind :
      (k key value : ℕ) (docs : Documents) (d : Option Document)
      → docs key ≡ d
      → k < 5
      → AreSame (record { kind = k; key = key; value = value }) docs
  unfolding AreSame model_step make_operation want next_document outcome put_outcome run_program
  AreSame-kind zero key value docs none e h = rw e refl
  AreSame-kind zero key value docs (some d) e h = rw e refl
  AreSame-kind (suc zero) key value docs d e h = refl
  AreSame-kind (suc (suc zero)) key value docs none e h = rw e refl
  AreSame-kind (suc (suc zero)) key value docs (some d) e h = rw e refl
  AreSame-kind (suc (suc (suc zero))) key value docs none e h = rw e refl
  AreSame-kind (suc (suc (suc zero))) key value docs (some d) e h = rw e refl
  AreSame-kind (suc (suc (suc (suc zero)))) key value docs d e h = refl
  AreSame-kind (suc (suc (suc (suc (suc k))))) key value docs d e h = absurd (omega arith)

  pub model_step_lem :
      (s : Step) (docs : Documents)
      → s.kind < 5
      → model_step label s docs ≡ (
        expectation (outcome (make_operation label s) docs),
        effect (key_of (make_operation label s)) (outcome (make_operation label s) docs) docs,
      )
  unfolding AreSame
  model_step_lem s docs h = AreSame-kind s.kind s.key s.value docs (docs s.key) refl h
