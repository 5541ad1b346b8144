-- ===== src/States/Run.antt =====
-- `runSequence` and `checkState` of internal/statecheck/model.go against a client, whose calls may change
-- its state. `none` of a call is an error of the RPC.
use sink_production_suite.Prelude.{
  ℕ, suc, String, Bool, true, false, not, ◌&&◌, ◌||◌, Option, none, some, List, [], ◌∷◌, ◌++◌, eqb,
  leb, ltb, length, ◌==◌, string_eq, if◌then◌else◌,
}
use sink_production_suite.States.Model.{
  Document, Step, Expectation, Documents, remove_document, Operation, model_step, make_operation,
}

pub record Failure : Type 0 where
  pub code : String
  pub retryable : Bool

pub record WriteResult : Type 0 where
  pub operation_index : ℕ
  pub status : String
  pub failure : Option Failure

pub record ReadResult : Type 0 where
  pub operation_index : ℕ
  pub status : String
  pub has_failure : Bool
  pub decoded : Option Document

-- The client.
pub record Client (S : Type 0) : Type 0 where
  pub write : S → List Operation → Option (List WriteResult) × S
  pub delete : S → List ℕ → Option (List WriteResult) × S
  pub read : S → List ℕ → Option (List ReadResult) × S

-- The check of one write result.
unfoldable pub is_failure : String → Option Failure → Bool
is_failure code none = false
is_failure code (some f) = f.code == code && not f.retryable

unfoldable pub has_no_failure : Option Failure → Bool
has_no_failure none = true
has_no_failure (some f) = false

unfoldable pub is_wanted : ℕ → Expectation → WriteResult → Bool
unfolding is_failure has_no_failure
is_wanted i e r =
    (eqb r.operation_index i && r.status == e.status)
    && (if e.status == "WriteApplied"
        then has_no_failure r.failure
        else is_failure e.code r.failure)

-- The loop over the expectations, from index `i` on.
unfoldable pub are_wanted : ℕ → List Expectation → List WriteResult → Bool
unfolding is_wanted
are_wanted i [] [] = true
are_wanted i [] (r ∷ results) = false
are_wanted i (e ∷ expected) [] = false
are_wanted i (e ∷ expected) (r ∷ results) = is_wanted i e r && are_wanted (suc i) expected results

unfoldable pub document_beq : Document → Document → Bool
document_beq a b = eqb a.counter b.counter && a.label == b.label

-- The check of one read result against the model's document.
unfoldable pub is_read : ℕ → Option Document → ReadResult → Bool
unfolding document_beq
is_read i none r = eqb r.operation_index i && (r.status == "ReadNotFound" && not r.has_failure)
is_read i (some d) r =
    (eqb r.operation_index i && (r.status == "ReadFound" && not r.has_failure))
    && elim r.decoded [ none ↦ false | some actual ↦ document_beq actual d ]

unfoldable pub are_read : ℕ → List ℕ → Documents → List ReadResult → Bool
unfolding is_read
are_read i [] docs [] = true
are_read i [] docs (r ∷ results) = false
are_read i (k ∷ keys) docs [] = false
are_read i (k ∷ keys) docs (r ∷ results) =
    is_read i (docs k) r && are_read (suc i) keys docs results

-- The keys of every check: reordered, and one of them twice.
abbrev pub checked_keys : List ℕ
checked_keys = 2 ∷ 0 ∷ 1 ∷ 0 ∷ []

-- The results of a duplicate delete.
unfoldable pub are_deleted : ℕ → List WriteResult → Bool
unfolding has_no_failure
are_deleted i [] = true
are_deleted i (r ∷ results) =
    (eqb r.operation_index i && (r.status == "DeleteApplied" && has_no_failure r.failure))
    && are_deleted (suc i) results

-- The variables of `runSequence`, with the state of the client.
pub record Progress (S : Type 0) : Type 0 where
  pub client : S
  pub docs : Documents
  pub operations : List Operation
  pub expected : List Expectation

-- `none` is a fatal error of the test, or the panic of `addresses[key]` for a key that is not below 3.
infixl 5 ◌>>=◌
abbrev pub ◌>>=◌ : {A B : Type 0} → Option A → (A → Option B) → Option B
none >>= f = none
some a >>= f = f a

abbrev pub require : Bool → Option (Unit {0})
require true = some tt
require false = none

module _ {S : Type 0} (c : Client S) where
  -- A result of a call that must succeed.
  unfoldable pub check_state : Documents → S → Option S
  unfolding are_read
  check_state docs s =
      let (answer, s') = c.read s checked_keys in
      do results ← answer; _ ← require (are_read 0 checked_keys docs results); some s'

  unfoldable pub send : List Operation → List Expectation → S → Option S
  unfolding are_wanted
  send operations expected s =
      let (answer, s') = c.write s operations in
      do results ← answer; _ ← require (are_wanted 0 expected results); some s'

  -- The closure `flush`.
  unfoldable pub flush : Progress S → Option (Progress S)
  unfolding send check_state
  flush p = elim p.operations [
    | [] ↦ some p
    | _ ∷ _ ↦ do
      sent ← send p.operations p.expected p.client
      checked ← check_state p.docs sent
      some (record p { client = checked; operations = []; expected = [] })
  ]

  unfoldable pub delete_twice : ℕ → Progress S → Option (Progress S)
  unfolding are_deleted
  delete_twice key p =
      let (answer, s') = c.delete p.client (key ∷ key ∷ []) in
      do
        _ ← require (ltb key 3)
        results ← answer
        _ ← require (eqb (length results) 2 && are_deleted 0 results)
        some (record p { client = s'; docs = remove_document p.docs key })

  -- A step that is no write: a flush, a delete for kind 5, and a check.
  unfoldable pub other_step : Step → Progress S → Option (Progress S)
  unfolding flush delete_twice check_state
  other_step step p = do
    flushed ← flush p
    deleted ← (if eqb step.kind 5 then delete_twice step.key flushed else some flushed)
    checked ← check_state deleted.docs deleted.client
    some (record deleted { client = checked })

  module _ (label : ℕ → String) (batch_size : ℕ) where
    -- The variables after a write step, before the flush.
    unfoldable pub add_step : Step → Progress S → Progress S
    unfolding model_step make_operation
    add_step step p =
        let (e, docs) = model_step label step p.docs in
        record p {
          docs = docs;
          operations = p.operations ++ (make_operation label step ∷ []);
          expected = p.expected ++ (e ∷ []);
        }

    -- One round, with whether it is the last.
    unfoldable pub round : Step → Bool → Progress S → Option (Progress S)
    unfolding other_step flush add_step
    round step is_last p =
        if leb 5 step.kind
        then other_step step p
        else (require (ltb step.key 3) >>= λ _.
            let p' = add_step step p in
            if leb batch_size (length p'.operations) || is_last then flush p' else some p')

    abbrev is_empty : List Step → Bool
    is_empty [] = true
    is_empty (_ ∷ _) = false

    unfoldable pub run_steps : List Step → Progress S → Option (Progress S)
    unfolding round
    run_steps [] p = some p
    run_steps (step ∷ rest) p = round step (is_empty rest) p >>= run_steps rest

    unfoldable pub run_sequence : List Step → S → Option (Progress S)
    unfolding run_steps
    run_sequence steps s =
        run_steps steps (record { client = s; docs = λ k. none; operations = []; expected = [] })
