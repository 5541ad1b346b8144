-- ===== src/States/Passes.antt =====
-- `runSequence` of internal/statecheck/model.go passes against a sequential server, whatever the steps
-- and the batch size are.
use sink_production_suite.Prelude.{
  ◌<◌, lt→ltb, All, ℕ, String, Option, Bool, true, false, none, some, List, [], ◌∷◌, ◌≡◌, ◌∙◌, ap,
  refl, arith, eqb, leb, length, if◌then◌else◌, inl, inr, Bool-cases, ◌||◌,
}
use sink_production_suite.States.Model.{Step, Documents}
use sink_production_suite.States.Run.{
  Client, Progress, delete_twice, other_step, add_step, round, run_steps, run_sequence,
}
use sink_production_suite.States.Server.{outcomes, perform, IsSequential, after, step_effect}
use sink_production_suite.States.Ahead.{IsAhead, add_step-IsAhead}
use sink_production_suite.States.Checks.{
  IsEven, IsEven-IsAhead, flush-IsEven, delete_twice-IsEven, check-IsEven,
}

module _ {S : Type 0} (c : Client S) (view : S → Documents) (law : IsSequential c view)
    (label : ℕ → String) (batch : ℕ) where
  Reaches : Step → Progress S → Option (Progress S) → (Progress S → Type 0) → Type 0
  Reaches s p r Q =
      (p' : Progress S) × (r ≡ some p') × Q p' × (p'.docs ≡ step_effect label s p.docs)

  deleted-IsEven :
      (s : Step) (p : Progress S)
      → leb 5 s.kind ≡ true
      → s.key < 3
      → IsEven c view law p
      → Reaches s p (if eqb s.kind 5 then delete_twice c s.key p else some p) (IsEven c view law)
  unfolding Reaches step_effect
  deleted-IsEven s p h small even = elim (Bool-cases (eqb s.kind 5)) [
    | inl e ↦
        let (p', a, b, d) = delete_twice-IsEven c view law s.key p small even in
        (p', rw e a, b, rw (e, h) d)
    | inr e ↦ (p, rw e refl, even, rw (e, h) refl)
  ]

  other_step-IsEven :
      (s : Step) (p : Progress S)
      → leb 5 s.kind ≡ true
      → s.key < 3
      → IsAhead p (view p.client)
      → Reaches s p (other_step c s p) (IsEven c view law)
  unfolding other_step Reaches
  other_step-IsEven s p h small ahead =
      let (p1, a1, b1, d1) =
        flush-IsEven c view law p.client p.docs p.operations p.expected ahead in
      let (p2, a2, b2, d2) = deleted-IsEven s p1 h small b1 in
      let (p3, a3, b3, d3) = check-IsEven c view law p2 b2 in
      (p3, rw (a1, a2) a3, b3, d3 ∙ d2 ∙ ap (step_effect label s) d1)

  -- After a round the operations that wait are those that are expected; after the last, none waits.
  Follows : Step → Bool → Progress S → Type 0
  Follows s is_last p =
      Reaches s p (round c label batch s is_last p)
        (λ p'. IsAhead p' (view p'.client) × (is_last ≡ true → IsEven c view law p'))

  round-Follows :
      (s : Step) (is_last : Bool) (p : Progress S)
      → s.key < 3
      → IsAhead p (view p.client)
      → Follows s is_last p
  unfolding Follows Reaches round
  round-Follows s is_last p small ahead = elim (Bool-cases (leb 5 s.kind)) [
    | inl h ↦
        let (p', a, even, d) = other_step-IsEven s p h small ahead in
        (p', rw h a, (IsEven-IsAhead c view law p' even, λ _. even), d)
    | inr h ↦
        let p1 = add_step c label batch s p in
        let (ahead1, d1) = add_step-IsAhead c label batch s p (view p.client) h ahead in
        elim (Bool-cases (leb batch (length p1.operations) || is_last)) [
          | inl full ↦
              let (p', a, even, d) =
                flush-IsEven c view law p1.client p1.docs p1.operations p1.expected ahead1 in
              (
                p',
                rw (h, lt→ltb _ _ small, full) a,
                (IsEven-IsAhead c view law p' even, λ _. even),
                d ∙ d1,
              )
          | inr few ↦ (
            p1,
            rw (h, lt→ltb _ _ small, few) refl,
            (ahead1, λ e. absurd (ground (arith, few, e))),
            d1,
          )
        ]
  ]

  run_steps-IsEven :
      (steps : List Step) (p : Progress S)
      → All (λ s. s.key < 3) steps
      → IsAhead p (view p.client)
      → (steps ≡ [] → IsEven c view law p)
      → (p' : Progress S) × (run_steps c label batch steps p ≡ some p')
        × IsEven c view law p'
        × (p'.docs ≡ after label steps p.docs)
  unfolding run_steps after Follows Reaches
  run_steps-IsEven [] p small ahead even = (p, refl, even refl, refl)
  run_steps-IsEven (s ∷ []) p (small, rest_small) ahead even =
      let (p1, a, (ahead1, even1), d) = round-Follows s true p small ahead in
      let (p2, b, even2, d2) = run_steps-IsEven [] p1 rest_small ahead1 (λ _. even1 refl) in
      (p2, rw a b, even2, d2 ∙ ap (after label []) d)
  run_steps-IsEven (s ∷ t ∷ rest) p (small, rest_small) ahead even =
      let (p1, a, (ahead1, even1), d) = round-Follows s false p small ahead in
      let (p2, b, even2, d2) =
        run_steps-IsEven (t ∷ rest) p1 rest_small ahead1 (λ e. absurd (cc e)) in
      (p2, rw a b, even2, d2 ∙ ap (after label (t ∷ rest)) d)

  -- Against a server that performs the operations in order and answers truly, `runSequence` from no
  -- documents passes, whatever the steps on keys below 3 and the batch size are; at its end no operation waits, and the
  -- server and the model hold the documents that the steps leave one by one.
  pub run_sequence-IsEven :
      (steps : List Step) (s : S)
      → All (λ step. step.key < 3) steps
      → view s ≡ (λ k. none)
      → (p : Progress S) × (run_sequence c label batch steps s ≡ some p)
        × (p.operations ≡ [])
        × (view p.client ≡ after label steps (λ k. none))
        × (p.docs ≡ after label steps (λ k. none))
  unfolding run_sequence outcomes perform
  run_sequence-IsEven steps s small h =
      let even : IsEven c view law
          (record { client = s; docs = λ k. none; operations = []; expected = [] }) =
        record { operations = refl; expected = refl; docs = h } in
      let (p, a, b, d) =
        run_steps-IsEven steps
          (record { client = s; docs = λ k. none; operations = []; expected = [] }) small
          (IsEven-IsAhead c view law _ even) (λ _. even) in
      (p, a, b.operations, b.docs ∙ d, d)
