-- ===== src/States/Refines.antt =====
-- `runSequence` of internal/statecheck/model.go passes only where every answer that it got is that of a
-- sequential server.
use mathlib.Core.Path.{subst}
use sink_production_suite.Prelude.{
  ltb, ℕ, String, Bool, true, false, none, some, List, [], ◌∷◌, ◌≡◌, ◌∙◌, ap, refl, arith, eqb, leb,
  length, if◌then◌else◌, inl, inr, Bool-cases, ◌||◌,
}
use sink_production_suite.States.Model.{Step, make_operation}
use sink_production_suite.States.Run.{
  require, Client, Progress, check_state, flush, delete_twice, other_step, add_step, round,
  run_steps, run_sequence,
}
use sink_production_suite.States.Server.{outcomes, perform, after, step_effect}
use sink_production_suite.States.Ahead.{add_step-IsAhead}
use sink_production_suite.States.Verdicts.{bind-some}
use sink_production_suite.States.Detects.{
  begun, IsChecked, IsChecked-Answered, check_state-IsChecked, IsRunning, IsIdle, IsIdle-IsRunning,
  IsFlushed, is_some, is_some-append, flush-IsFlushed, delete_twice-IsIdle,
}

module _ {S : Type 0} (c : Client S) (start : S) (label : ℕ → String) (batch : ℕ) where
  -- What holds after a round for `step`.
  record IsDone (s : Step) (is_last : Bool) (p p' : Progress S) : Type 0 where
    running : IsRunning c start p'
    docs : p'.docs ≡ step_effect label s p.docs
    last : is_last ≡ true → (p'.operations ≡ []) × IsChecked c start p'.client p'.docs

  deleted-IsIdle :
      (s : Step) (p p' : Progress S)
      → leb 5 s.kind ≡ true
      → IsIdle c start p
      → (if eqb s.kind 5 then delete_twice c s.key p else some p) ≡ some p'
      → IsIdle c start p' × (p'.docs ≡ step_effect label s p.docs)
  unfolding step_effect
  deleted-IsIdle s p p' h idle e = elim (Bool-cases (eqb s.kind 5)) [
    | inl k ↦
        let (a, b) =
          delete_twice-IsIdle c start s.key p p' idle
            (subst (λ b. (if b then delete_twice c s.key p else some p) ≡ some p') k e) in
        (a, rw (k, h) b)
    | inr k ↦
        let same : p ≡ p' = cc (k, e) in
        subst (λ q. IsIdle c start q × (q.docs ≡ step_effect label s p.docs)) same
          (idle, rw (k, h) refl)
  ]

  other_step-IsDone :
      (s : Step) (is_last : Bool) (p p' : Progress S)
      → leb 5 s.kind ≡ true
      → IsRunning c start p
      → other_step c s p ≡ some p'
      → IsDone s is_last p p'
  unfolding other_step IsFlushed
  other_step-IsDone s is_last p p' h run e =
      let (p1, flushed, e1) = bind-some (flush c p) _ p' e in
      let (p2, deleted, e2) =
        bind-some (if eqb s.kind 5 then delete_twice c s.key p1 else some p1) _ p' e1 in
      let (s3, checked, e3) = bind-some (check_state c p2.docs p2.client) _ p' e2 in
      let (idle1, d1, _) = flush-IsFlushed c start p p1 run flushed in
      let (idle2, d2) = deleted-IsIdle s p1 p2 h idle1 deleted in
      let last = check_state-IsChecked c start p2.client s3 p2.docs idle2.seen checked in
      let p3 : Progress S = record p2 { client = s3 } in
      let same : p3 ≡ p' = cc e3 in
      let idle3 : IsIdle c start p3 = record {
        operations = idle2.operations;
        expected = idle2.expected;
        seen = IsChecked-Answered c start s3 p2.docs last;
      } in
      subst (IsDone s is_last p) same (record {
        running = IsIdle-IsRunning c start p3 idle3;
        docs = d2 ∙ ap (step_effect label s) d1;
        last = λ _. (idle2.operations, last);
      })

  add_step-IsRunning :
      (s : Step) (p : Progress S)
      → leb 5 s.kind ≡ false
      → IsRunning c start p
      → IsRunning c start (add_step c label batch s p)
        × ((add_step c label batch s p).docs ≡ step_effect label s p.docs)
        × (is_some (add_step c label batch s p).operations ≡ true)
  unfolding add_step
  add_step-IsRunning s p h run =
      let (ahead, d) = add_step-IsAhead c label batch s p run.held h run.ahead in
      (
        record { held = run.held; ahead = ahead; seen = run.seen },
        d,
        is_some-append p.operations (make_operation label s),
      )

  write-IsDone :
      (s : Step) (is_last : Bool) (p p' : Progress S)
      → leb 5 s.kind ≡ false
      → IsRunning c start p
      → let p1 = add_step c label batch s p in
        (if leb batch (length p1.operations) || is_last then flush c p1 else some p1) ≡ some p'
        → IsDone s is_last p p'
  unfolding IsFlushed
  write-IsDone s is_last p p' h run e =
      let p1 = add_step c label batch s p in
      let (run1, d, more) = add_step-IsRunning s p h run in
      elim (Bool-cases (leb batch (length p1.operations) || is_last)) [
        | inl full ↦
            let (idle, d1, last) = flush-IsFlushed c start p1 p' run1 (cc (full, e)) in
            record {
              running = IsIdle-IsRunning c start p' idle;
              docs = d1 ∙ d;
              last = λ _. (idle.operations, last more);
            }
        | inr few ↦
            let same : p1 ≡ p' = cc (few, e) in
            subst (IsDone s is_last p) same
              (record { running = run1; docs = d; last = λ l. absurd (ground (arith, few, l)) })
      ]

  round-IsDone :
      (s : Step) (is_last : Bool) (p p' : Progress S)
      → IsRunning c start p
      → round c label batch s is_last p ≡ some p'
      → IsDone s is_last p p'
  unfolding round
  round-IsDone s is_last p p' run e = elim (Bool-cases (leb 5 s.kind)) [
    | inl h ↦ other_step-IsDone s is_last p p' h run (cc (h, e))
    | inr h ↦
        let next =
          if leb batch (length (add_step c label batch s p).operations) || is_last
          then flush c (add_step c label batch s p)
          else some (add_step c label batch s p) in
        let (_, _, e1) = bind-some (require (ltb s.key 3)) (λ _. next) p' (cc (h, e)) in
        write-IsDone s is_last p p' h run e1
  ]

  run_steps-IsChecked :
      (s : Step) (rest : List Step) (p p' : Progress S)
      → IsRunning c start p
      → run_steps c label batch (s ∷ rest) p ≡ some p'
      → (p'.operations ≡ [])
        × (p'.docs ≡ after label (s ∷ rest) p.docs)
        × IsChecked c start p'.client p'.docs
  unfolding run_steps after
  run_steps-IsChecked s [] p p' run e =
      let (p1, a, b) = bind-some (round c label batch s true p) _ p' e in
      let done = round-IsDone s true p p1 run a in
      let same : p1 ≡ p' = cc b in
      subst
        (λ q.
          (q.operations ≡ [])
          × (q.docs ≡ step_effect label s p.docs)
          × IsChecked c start q.client q.docs)
        same ((done.last refl).0, done.docs, (done.last refl).1)
  run_steps-IsChecked s (t ∷ rest) p p' run e =
      let (p1, a, b) = bind-some (round c label batch s false p) _ p' e in
      let done = round-IsDone s false p p1 run a in
      let (x, y, z) = run_steps-IsChecked t rest p1 p' done.running b in
      (x, y ∙ ap (after label (t ∷ rest)) done.docs, z)

  -- Where `runSequence` passes with some step, no operation waits, and its documents are those that the
  -- steps leave one by one. Each of its calls, to any server, was answered as one would be answered that
  -- performs the operations in order, from no documents on, and the last call read just those documents.
  pub run_sequence-IsChecked :
      (s : Step) (rest : List Step) (p : Progress S)
      → run_sequence c label batch (s ∷ rest) start ≡ some p
      → (p.operations ≡ [])
        × (p.docs ≡ after label (s ∷ rest) (λ k. none))
        × IsChecked c start p.client p.docs
  unfolding run_sequence outcomes perform
  run_sequence-IsChecked s rest p h =
      run_steps-IsChecked s rest
        (record { client = start; docs = λ k. none; operations = []; expected = [] }) p
        (record {
          held = λ k. none;
          ahead = record { expected = refl; docs = refl };
          seen = begun (λ k. none) refl;
        })
        h
