-- ===== src/States/Detects.antt =====
-- What the calls of internal/statecheck/model.go are answered where they pass.

use mathlib.Core.Path.{subst}
use sink_production_suite.Prelude.{
  ltb, ℕ, Bool, true, false, none, some, List, [], ◌∷◌, ◌++◌, map, ◌≡◌, sym, refl, arith, eqb,
  eqb_iff, length, ◌&&◌,
}
use sink_production_suite.States.Model.{Expectation, Documents, Operation, remove_document}
use sink_production_suite.States.Run.{
  require, Client, Progress, ReadResult, checked_keys, are_wanted, are_read, are_deleted,
  check_state, send, flush, delete_twice,
}
use sink_production_suite.States.Server.{
  expectation, outcomes, perform, answers, deletions, remove_all,
}
use sink_production_suite.States.Ahead.{IsAhead, removed_twice}
use sink_production_suite.States.Verdicts.{
  bind-some, require-true, are_wanted→answers, are_deleted→deletions, are_read-AreReadings,
  AreReadings,
}

-- The calls from a state of the client to another, each answered as a sequential server would that
-- starts with no documents; and the documents that it would hold then.
pub data Answered {S : Type 0} (c : Client S) (start : S) : S → Documents → Type 0 where
  begun : (docs : Documents) → docs ≡ (λ k. none) → Answered c start start docs
  wrote :
      (s s' : S) (docs docs' : Documents) (os : List Operation)
      → Answered c start s docs
      → c.write s os ≡ (some (answers 0 (outcomes os docs)), s')
      → docs' ≡ perform os docs
      → Answered c start s' docs'
  deleted :
      (s s' : S) (docs docs' : Documents) (keys : List ℕ)
      → Answered c start s docs
      → c.delete s keys ≡ (some (deletions 0 keys), s')
      → docs' ≡ remove_all keys docs
      → Answered c start s' docs'
  was_read :
      (s s' : S) (docs : Documents) (keys : List ℕ) (results : List ReadResult)
      → Answered c start s docs
      → c.read s keys ≡ (some results, s')
      → AreReadings 0 keys docs results
      → Answered c start s' docs

unfoldable pub is_some : List Operation → Bool
is_some [] = false
is_some (o ∷ rest) = true

pub is_some-append : (l : List Operation) (o : Operation) → is_some (l ++ (o ∷ [])) ≡ true
unfolding is_some
is_some-append [] o = refl
is_some-append (p ∷ l) o = refl

module _ {S : Type 0} (c : Client S) (start : S) where
  -- The last call was the check of a state.
  abbrev pub IsChecked : S → Documents → Type 0
  IsChecked s' docs =
      (s : S) × (results : List ReadResult) × Answered c start s docs
      × (c.read s checked_keys ≡ (some results, s'))
      × AreReadings 0 checked_keys docs results

  pub IsChecked-Answered : (s : S) (docs : Documents) → IsChecked s docs → Answered c start s docs
  IsChecked-Answered s' docs (s, results, a, b, d) = was_read s s' docs checked_keys results a b d

  pub check_state-IsChecked :
      (s s' : S) (docs : Documents)
      → Answered c start s docs
      → check_state c docs s ≡ some s'
      → IsChecked s' docs
  unfolding check_state
  check_state-IsChecked s s' docs seen h =
      let (results, a, b) = bind-some (c.read s checked_keys).0 _ s' h in
      let (u, d, e) = bind-some (require (are_read 0 checked_keys docs results)) _ s' b in
      let good = are_read-AreReadings 0 checked_keys docs results (require-true _ u d) in
      (s, results, seen, cc (a, e), good)

  send-Answered :
      (s s' : S) (os : List Operation) (es : List Expectation) (docs : Documents)
      → Answered c start s docs
      → es ≡ map expectation (outcomes os docs)
      → send c os es s ≡ some s'
      → Answered c start s' (perform os docs)
  unfolding send
  send-Answered s s' os es docs seen same h =
      let (results, a, b) = bind-some (c.write s os).0 _ s' h in
      let (u, d, e) = bind-some (require (are_wanted 0 es results)) _ s' b in
      let good =
        are_wanted→answers 0 (outcomes os docs) results
          (subst (λ l. are_wanted 0 l results ≡ true) same (require-true _ u d)) in
      wrote s s' docs (perform os docs) os seen (cc (a, e, good)) refl

  -- The variables between two rounds.
  pub record IsRunning (p : Progress S) : Type 0 where
    pub held : Documents
    pub ahead : IsAhead p held
    pub seen : Answered c start p.client held

  -- Nothing waits.
  pub record IsIdle (p : Progress S) : Type 0 where
    pub operations : p.operations ≡ []
    pub expected : p.expected ≡ []
    pub seen : Answered c start p.client p.docs

  pub IsIdle-IsRunning : (p : Progress S) → IsIdle p → IsRunning p
  unfolding outcomes perform
  IsIdle-IsRunning p h = record {
    held = p.docs;
    ahead = record { expected = rw (h.operations) (h.expected); docs = rw (h.operations) refl };
    seen = h.seen;
  }

  unfoldable pub IsFlushed : Documents → Bool → Progress S → Type 0
  IsFlushed docs is_sent p =
      IsIdle p × (p.docs ≡ docs) × (is_sent ≡ true → IsChecked p.client p.docs)

  flush-nothing :
      (s : S) (docs : Documents) (es : List Expectation) (held : Documents) (p' : Progress S)
      → let p : Progress S = record { client = s; docs = docs; operations = []; expected = es } in
        IsAhead p held → Answered c start s held → flush c p ≡ some p' → IsFlushed docs false p'
  unfolding flush outcomes perform IsFlushed
  flush-nothing s docs es held p' ahead seen h =
      let p : Progress S = record { client = s; docs = docs; operations = []; expected = es } in
      let e : p ≡ p' = cc h in
      subst (IsFlushed docs false) e (
        record { operations = refl; expected = ahead.expected; seen = rw (ahead.docs) seen },
        refl,
        λ absent. absurd (cc absent),
      )

  flush-something :
      (s : S) (docs : Documents) (o : Operation) (rest : List Operation) (es : List Expectation)
      (held : Documents) (p' : Progress S)
      → let p : Progress S = record {
        client = s;
        docs = docs;
        operations = o ∷ rest;
        expected = es;
      } in
        IsAhead p held → Answered c start s held → flush c p ≡ some p' → IsFlushed docs true p'
  unfolding flush IsFlushed
  flush-something s docs o rest es held p' ahead seen h =
      let (s1, sent, h1) = bind-some (send c (o ∷ rest) es s) _ p' h in
      let (s2, checked, h2) = bind-some (check_state c docs s1) _ p' h1 in
      let seen1 = send-Answered s s1 (o ∷ rest) es held seen (ahead.expected) sent in
      let last =
        check_state-IsChecked s1 s2 docs (subst (Answered c start s1) (sym ahead.docs) seen1)
          checked in
      let p2 : Progress S = record { client = s2; docs = docs; operations = []; expected = [] } in
      let e : p2 ≡ p' = cc h2 in
      subst (IsFlushed docs true) e (
        record { operations = refl; expected = refl; seen = IsChecked-Answered s2 docs last },
        refl,
        λ _. last,
      )

  pub flush-IsFlushed :
      (p p' : Progress S)
      → IsRunning p
      → flush c p ≡ some p'
      → IsFlushed p.docs (is_some p.operations) p'
  unfolding is_some
  flush-IsFlushed p p' h e = go p.client p.docs p.operations p.expected h.ahead h.seen e
    where
      go :
          (s : S) (docs : Documents) (os : List Operation) (es : List Expectation)
          → let q : Progress S = record {
            client = s;
            docs = docs;
            operations = os;
            expected = es;
          } in
            IsAhead q h.held
            → Answered c start s h.held
            → flush c q ≡ some p'
            → IsFlushed docs (is_some os) p'
      go s docs [] es ahead seen e = flush-nothing s docs es h.held p' ahead seen e
      go s docs (o ∷ rest) es ahead seen e = flush-something s docs o rest es h.held p' ahead seen e

  pub delete_twice-IsIdle :
      (key : ℕ) (p p' : Progress S)
      → IsIdle p
      → delete_twice c key p ≡ some p'
      → IsIdle p' × (p'.docs ≡ remove_document p.docs key)
  unfolding delete_twice
  delete_twice-IsIdle key p p' idle h =
      let call = c.delete p.client (key ∷ key ∷ []) in
      let (_, _, h1) = bind-some (require (ltb key 3)) _ p' h in
      let (results, a, b) = bind-some call.0 _ p' h1 in
      let (u, d, e) =
        bind-some (require (eqb (length results) 2 && are_deleted 0 results)) _ p' b in
      let both = require-true _ u d in
      let two : length results ≡ 2 = ground (arith, eqb_iff (length results) 2, both) in
      let good = are_deleted→deletions 0 (key ∷ key ∷ []) results (ground (arith, both)) two in
      let p1 : Progress S = record p { client = call.1; docs = remove_document p.docs key } in
      let same : p1 ≡ p' = cc e in
      subst (λ q. IsIdle q × (q.docs ≡ remove_document p.docs key)) same
        (
          record {
            operations = idle.operations;
            expected = idle.expected;
            seen =
                deleted p.client call.1 p.docs (remove_document p.docs key) (key ∷ key ∷ [])
                  idle.seen (cc (a, good)) (sym (removed_twice key p.docs));
          },
          refl,
        )
