-- ===== src/Perf/Served.antt =====
-- `(*worker).write` of tools/sink-perf/main.go against the server that gets its operations.
use mathlib.Core.Path.{subst}
use sink_production_suite.Prelude.{
  ℕ, ◌+◌, ◌%◌, ◌^◌, ◌<◌, Bool, true, false, Option, none, some, List, [], ◌∷◌, map, ◌≡◌, ◌∙◌, sym,
  ap, refl, inl, inr, arith, eqb, eqb_iff, contains, nat_eq, All, Bool-cases, Option-cases,
}
use mathlib.Core.Option.{some_inj}
use sink_production_suite.Reference.Unique.{IsDistinct}
use sink_production_suite.Perf.Worker.{
  Worker, bump, WriteResult, WriteCalls, Reply, write_operations, write,
}
use sink_production_suite.Perf.Slots.{
  Took, MayStore, AllTook, count_of, InStep, AreSlots, IsAnswered, results_of,
}
use sink_production_suite.Perf.Settled.{write-sent}
use sink_production_suite.Perf.Accounting.{write_reply-InStep}

-- What an operation carries: the slot of the worker whose record it addresses, and its sequence.
pub record Carries (Operation : Type 0) : Type 0 where
  pub slot : Operation → ℕ
  pub sequence : Operation → ℕ

module _ {Operation : Type 0} (carries : Carries Operation) where
  -- The encoding keeps the slot and the sequence.
  abbrev pub IsEncoder : (ℕ → ℕ → Option Operation) → Type 0
  IsEncoder encode =
      (k n : ℕ) (o : Operation)
      → encode k n ≡ some o
      → (carries.slot o ≡ k) × (carries.sequence o ≡ n)

module _ {Seen Fields Operation : Type 0} (carries : Carries Operation) where
  -- The results answer the operations in their order.
  abbrev pub AreTrue : (ℕ → ℕ) → (ℕ → ℕ) → List Operation → List (WriteResult Seen Fields) → Type 0
  AreTrue p q [] items = Unit
  AreTrue p q (o ∷ rest) [] = Unit
  AreTrue p q (o ∷ rest) (item ∷ items) =
      Took item (carries.sequence o) (p (carries.slot o)) (q (carries.slot o))
      × AreTrue p q rest items

  -- The server's side of a call: what it holds for each slot before and after the operations that it gets.
  -- Nothing else changes, each operation is stored or not, and each result is true; after an error, or
  -- with results missing, each operation of the call may have been stored.
  pub record IsServed (operations : List Operation) (reply : Reply (WriteResult Seen Fields))
      (p q : ℕ → ℕ) : Type 0 where
    pub others : (k : ℕ) → contains (map carries.slot operations) k ≡ false → q k ≡ p k
    pub unclear :
        All
          (λ o. MayStore (carries.sequence o) (p (carries.slot o)) (q (carries.slot o)))
          operations
    pub took : AreTrue p q operations (results_of reply)

  module _ (calls : WriteCalls Seen Fields Operation)
      (encoder : IsEncoder carries calls.encode) where
    -- The operations carry the next sequence of each key.
    AreNext : Worker → List ℕ → List Operation → Type 0
    AreNext w [] [] = Unit
    AreNext w [] (o ∷ rest) = ⊥
    AreNext w (k ∷ keys) [] = ⊥
    AreNext w (k ∷ keys) (o ∷ rest) =
        (carries.slot o ≡ k) × (carries.sequence o ≡ count_of w k + 1) × AreNext w keys rest

    write_operations-AreNext :
        (keys : List ℕ) (w : Worker) (operations : List Operation)
        → ((k : ℕ) → count_of w k + 1 < 2 ^ 64)
        → write_operations calls keys w ≡ some operations
        → AreNext w keys operations
    unfolding write_operations AreNext
    write_operations-AreNext [] w operations small h =
        let e : [] ≡ operations = some_inj.0 h in subst (AreNext w []) e tt
    write_operations-AreNext (k ∷ keys) w operations small h =
        elim (Option-cases (calls.encode k ((count_of w k + 1) % 2 ^ 64))) [
          | inl gone ↦ absurd (cc (gone, h))
          | inr (o, made) ↦ elim (Option-cases (write_operations calls keys w)) [
            | inl gone ↦ absurd (cc (made, gone, h))
            | inr (rest, more) ↦
                let e : o ∷ rest ≡ operations = cc (made, more, h) in
                let (slot, sequence) = encoder k ((count_of w k + 1) % 2 ^ 64) o made in
                subst (AreNext w (k ∷ keys)) e (
                  slot,
                  omega (arith, sequence, small k),
                  write_operations-AreNext keys w rest small more,
                )
          ]
        ]

    slots_lem :
        (keys : List ℕ) (w : Worker) (operations : List Operation)
        → AreNext w keys operations
        → map carries.slot operations ≡ keys
    unfolding AreNext
    slots_lem [] w [] h = refl
    slots_lem [] w (o ∷ rest) h = absurd h
    slots_lem (k ∷ keys) w [] h = absurd h
    slots_lem (k ∷ keys) w (o ∷ rest) (a, b, h) = cc (a, slots_lem keys w rest h)

    may_store_lem :
        (keys : List ℕ) (w : Worker) (operations : List Operation) (p q : ℕ → ℕ) (k : ℕ)
        → AreNext w keys operations
        → All
            (λ o. MayStore (carries.sequence o) (p (carries.slot o)) (q (carries.slot o)))
            operations
        → contains keys k ≡ true
        → MayStore (count_of w k + 1) (p k) (q k)
    unfolding AreNext
    may_store_lem [] w operations p q k a h there = absurd (cc there)
    may_store_lem (j ∷ keys) w [] p q k a h there = absurd a
    may_store_lem (j ∷ keys) w (o ∷ rest) p q k (slot, sequence, a) (here, h) there =
        elim (Bool-cases (eqb k j)) [
          | inl e ↦
              let same : carries.slot o ≡ k = slot ∙ sym ((eqb_iff k j).0 e) in
              let next : carries.sequence o ≡ count_of w k + 1 =
                sequence ∙ ap (λ i. count_of w i + 1) (sym ((eqb_iff k j).0 e)) in
              subst (λ s. MayStore s (p k) (q k)) next
                (subst (λ i. MayStore (carries.sequence o) (p i) (q i)) same here)
          | inr e ↦ may_store_lem keys w rest p q k a h (ground (arith, e, there))
        ]

    took_lem :
        (keys : List ℕ) (w : Worker) (operations : List Operation) (p q : ℕ → ℕ)
        (items : List (WriteResult Seen Fields))
        → AreNext w keys operations
        → AreTrue p q operations items
        → AllTook (λ k. count_of w k + 1) p q keys items
    unfolding AreNext
    took_lem [] w operations p q items a h = tt
    took_lem (k ∷ keys) w [] p q items a h = absurd a
    took_lem (k ∷ keys) w (o ∷ rest) p q [] a h = tt
    took_lem (k ∷ keys) w (o ∷ rest) p q (item ∷ items) (slot, sequence, a) (here, h) = (
      subst (λ s. Took item s (p k) (q k)) sequence
          (subst (λ i. Took item (carries.sequence o) (p i) (q i)) slot here),
      took_lem keys w rest p q items a h,
    )

    IsServed-IsAnswered :
        (keys : List ℕ) (w : Worker) (operations : List Operation)
        (reply : Reply (WriteResult Seen Fields)) (p q : ℕ → ℕ)
        → AreNext w keys operations
        → IsServed operations reply p q
        → IsAnswered keys reply (λ k. count_of w k + 1) p q
    IsServed-IsAnswered keys w operations reply p q a h =
        let others : (k : ℕ) → contains keys k ≡ false → q k ≡ p k = λ k outside.
          h.others k (ap (λ l. contains l k) (slots_lem keys w operations a) ∙ outside) in
        record {
          others = others;
          unclear = λ k. elim (Bool-cases (contains keys k)) [
            | inl inside ↦ may_store_lem keys w operations p q k a h.unclear inside
            | inr outside ↦ inl (others k outside)
          ];
          took = took_lem keys w operations p q (results_of reply) a h.took;
        }

    pub write-none :
        (keys : List ℕ) (w : Worker)
        → write_operations calls keys w ≡ none
        → write calls keys w ≡ (false, record w { errors = bump w.errors "encode" })
    unfolding write
    write-none keys w h = rw (h, write) refl

    -- What the server holds before and after a write of the worker. The operations of a write that can be
    -- encoded are sent and served; otherwise nothing changes.
    abbrev pub IsServedWrite : List ℕ → Worker → (ℕ → ℕ) → (ℕ → ℕ) → Type 0
    IsServedWrite keys w p q =
        (write_operations calls keys w ≡ none → (k : ℕ) → q k ≡ p k)
        × ((operations : List Operation)
            → write_operations calls keys w ≡ some operations
            → IsServed operations (calls.send operations) p q)

    -- Where a write has no key twice, each key is a slot of the worker, no count is at its bound, the
    -- encoding keeps the slot and the sequence of an operation, and the server stores each operation that
    -- it gets at most once, with the sequence in it, and answers truly, the write keeps the worker in step
    -- with the server: each slot has the sequence that the server holds, or one less and is pending.
    pub write-InStep :
        (keys : List ℕ) (w : Worker) (p q : ℕ → ℕ)
        → IsDistinct keys
        → AreSlots w keys
        → ((k : ℕ) → count_of w k + 1 < 2 ^ 64)
        → IsServedWrite keys w p q
        → InStep w p
        → InStep (write calls keys w).1 q
    write-InStep keys w p q d r small (unsent, sent) h =
        elim (Option-cases (write_operations calls keys w)) [
          | inl gone ↦
              let v = record w { errors = bump w.errors "encode" } in
              subst (λ (x : Bool × Worker). InStep x.1 q) (sym (write-none keys w gone))
                (λ k. rw (unsent gone k) (h k))
          | inr (operations, there) ↦
              subst (λ (x : Bool × Worker). InStep x.1 q)
                (sym (write-sent calls keys w operations there))
                (write_reply-InStep calls keys (calls.send operations) w (λ k. count_of w k + 1) p q
                  d r small (λ k. refl)
                  (IsServed-IsAnswered keys w operations (calls.send operations) p q
                    (write_operations-AreNext keys w operations small there)
                    (sent operations there))
                  h)
        ]
