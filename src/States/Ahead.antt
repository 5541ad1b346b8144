-- ===== src/States/Ahead.antt =====
-- The operations of `runSequence` of internal/statecheck/model.go that wait for their call.
use mathlib.Core.Path.{fun_ext}
use sink_production_suite.Prelude.{
  ℕ, String, false, List, [], ◌∷◌, ◌++◌, map, ◌≡◌, ap, refl, arith, eqb, leb, inl, inr, Bool-cases,
}
use sink_production_suite.States.Model.{
  Step, Documents, model_step, make_operation, remove_document,
}
use sink_production_suite.States.Run.{Client, Progress, add_step}
use sink_production_suite.States.Server.{
  expectation, outcomes, perform, outcome, effect, key_of, remove_all, step_effect,
}
use sink_production_suite.States.Writes.{outcomes-append, perform-append, model_step_lem}

-- A second removal changes nothing.
pub removed_twice :
    (key : ℕ) (docs : Documents) → remove_all (key ∷ key ∷ []) docs ≡ remove_document docs key
unfolding remove_all
removed_twice key docs =
    fun_ext (λ k. elim (Bool-cases (eqb k key)) [ inl e ↦ rw e refl | inr e ↦ rw e refl ])

pub map-append :
    {A B : Type 0} (f : A → B) (l : List A) (x : A) → map f (l ++ (x ∷ [])) ≡ map f l ++ (f x ∷ [])
map-append f [] x = refl
map-append f (y ∷ l) x = ap (λ t. f y ∷ t) (map-append f l x)

-- The operations that wait have the outcomes that are expected where a server holds `held`, and lead to
-- the model's documents.
pub record IsAhead {S : Type 0} (p : Progress S) (held : Documents) : Type 0 where
  pub expected : p.expected ≡ map expectation (outcomes p.operations held)
  pub docs : p.docs ≡ perform p.operations held

module _ {S : Type 0} (c : Client S) (label : ℕ → String) (batch : ℕ) where
  add_step_parts :
      (s : Step) (p : Progress S)
      → let p' = add_step c label batch s p in
        let m = model_step label s p.docs in
        (p'.docs ≡ m.1)
        × (p'.expected ≡ p.expected ++ (m.0 ∷ []))
        × (p'.operations ≡ p.operations ++ (make_operation label s ∷ []))
        × (p'.client ≡ p.client)
  unfolding add_step model_step
  add_step_parts s p = (refl, refl, refl, refl)

  pub add_step-client : (s : Step) (p : Progress S) → (add_step c label batch s p).client ≡ p.client
  unfolding add_step
  add_step-client s p = refl

  write_effect :
      (s : Step) (docs : Documents)
      → leb 5 s.kind ≡ false
      → let o = make_operation label s in
        step_effect label s docs ≡ effect (key_of o) (outcome o docs) docs
  unfolding step_effect perform
  write_effect s docs h = rw h refl

  pub add_step-IsAhead :
      (s : Step) (p : Progress S) (held : Documents)
      → leb 5 s.kind ≡ false
      → IsAhead p held
      → IsAhead (add_step c label batch s p) held
        × ((add_step c label batch s p).docs ≡ step_effect label s p.docs)
  add_step-IsAhead s p v h ahead =
      let o = make_operation label s in
      let (a1, a2, a3, a4) = add_step_parts s p in
      let e = model_step_lem label s p.docs (ground (arith, h)) in
      let e0 = ap (λ t. t.0) e in
      let e1 = ap (λ t. t.1) e in
      let grown = outcomes-append p.operations o v in
      let mapped =
        map-append expectation (outcomes p.operations v) (outcome o (perform p.operations v)) in
      let done = perform-append p.operations o v in
      let w = write_effect s p.docs h in
      (
        record {
          expected = cc (a2, a3, e0, grown, mapped, ahead.expected, ahead.docs);
          docs = cc (a1, a3, e1, done, ahead.docs);
        },
        cc (a1, e1, w),
      )
