-- ===== src/States/Checks.antt =====
-- `runSequence` of internal/statecheck/model.go passes against a sequential server.
use sink_production_suite.Prelude.{
  ◌<◌, lt→ltb, ℕ, some, List, [], ◌∷◌, map, ◌≡◌, ◌∙◌, sym, ap, refl, length,
}
use sink_production_suite.States.Model.{Expectation, Documents, Operation, remove_document}
use sink_production_suite.States.Run.{
  ◌>>=◌, Client, Progress, checked_keys, check_state, send, flush, delete_twice,
}
use sink_production_suite.States.Server.{
  expectation, outcomes, perform, deletions, remove_all, IsSequential,
}
use sink_production_suite.States.Ahead.{IsAhead, removed_twice}
use sink_production_suite.States.Writes.{
  are_wanted-answers, are_read-readings, are_deleted-deletions,
}

module _ {S : Type 0} (c : Client S) (view : S → Documents) (law : IsSequential c view) where
  check_state-view :
      (docs : Documents) (s : S)
      → view s ≡ docs
      → (s' : S) × (check_state c docs s ≡ some s') × (view s' ≡ docs)
  unfolding check_state
  check_state-view docs s h = (
    (c.read s checked_keys).1,
    rw (law.read_answer s checked_keys, h, are_read-readings 0 checked_keys docs) refl,
    law.read_view s checked_keys ∙ h,
  )

  send-view :
      (os : List Operation) (es : List Expectation) (s : S)
      → es ≡ map expectation (outcomes os (view s))
      → (s' : S) × (send c os es s ≡ some s') × (view s' ≡ perform os (view s))
  unfolding send
  send-view os es s h = (
    (c.write s os).1,
    rw (law.write_answer s os, h, are_wanted-answers 0 (outcomes os (view s))) refl,
    law.write_view s os,
  )

  -- Nothing waits.
  pub record IsEven (p : Progress S) : Type 0 where
    pub operations : p.operations ≡ []
    pub expected : p.expected ≡ []
    pub docs : view p.client ≡ p.docs

  pub IsEven-IsAhead : (p : Progress S) → IsEven p → IsAhead p (view p.client)
  unfolding outcomes perform
  IsEven-IsAhead p h = record {
    expected = rw (h.operations) (h.expected);
    docs = rw (h.operations) (sym h.docs);
  }

  pub flush-IsEven :
      (s : S) (docs : Documents) (os : List Operation) (es : List Expectation)
      → let p : Progress S = record { client = s; docs = docs; operations = os; expected = es } in
        IsAhead p (view p.client)
        → (p' : Progress S) × (flush c p ≡ some p') × IsEven p' × (p'.docs ≡ docs)
  unfolding flush outcomes perform
  flush-IsEven s docs [] es h = (
    record { client = s; docs = docs; operations = []; expected = es },
    refl,
    record { operations = refl; expected = h.expected; docs = sym h.docs },
    refl,
  )
  flush-IsEven s docs (o ∷ rest) es h =
      let (s1, sent, same) = send-view (o ∷ rest) es s h.expected in
      let (s2, checked, same2) = check_state-view docs s1 (same ∙ sym h.docs) in
      (
        record { client = s2; docs = docs; operations = []; expected = [] },
        rw (sent, checked) refl,
        record { operations = refl; expected = refl; docs = same2 },
        refl,
      )

  pub delete_twice-IsEven :
      (key : ℕ) (p : Progress S)
      → key < 3
      → IsEven p
      → (p' : Progress S) × (delete_twice c key p ≡ some p')
        × IsEven p'
        × (p'.docs ≡ remove_document p.docs key)
  unfolding delete_twice
  delete_twice-IsEven key p small h =
      let answer = law.delete_answer p.client (key ∷ key ∷ []) in
      let two : length (deletions 0 (key ∷ key ∷ [])) ≡ 2 = unfold deletions in refl in
      (
        record p {
          client = (c.delete p.client (key ∷ key ∷ [])).1;
          docs = remove_document p.docs key;
        },
        rw (lt→ltb _ _ small, answer, two, are_deleted-deletions 0 (key ∷ key ∷ [])) refl,
        record {
          operations = h.operations;
          expected = h.expected;
          docs =
              law.delete_view p.client (key ∷ key ∷ [])
              ∙ ap (remove_all (key ∷ key ∷ [])) h.docs
              ∙ removed_twice key p.docs;
        },
        refl,
      )

  pub check-IsEven :
      (p : Progress S)
      → IsEven p
      → (p' : Progress S) × ((check_state c p.docs p.client >>= λ s. some (record p { client = s }))
          ≡ some p')
        × IsEven p'
        × (p'.docs ≡ p.docs)
  check-IsEven p h =
      let (s, checked, same) = check_state-view p.docs p.client h.docs in
      (
        record p { client = s },
        rw checked refl,
        record { operations = h.operations; expected = h.expected; docs = same },
        refl,
      )
