-- ===== src/Perf/RunSlots.antt =====
-- The slots of a worker under the calls of tools/sink-perf/main.go: a read and a count leave them, a write
-- keeps their number.
use sink_production_suite.Prelude.{
  ℕ, ◌<◌, Bool, true, not, ◌&&◌, ◌||◌, List, [], ◌∷◌, ◌≡◌, ◌∙◌, refl, inl, inr, eqb, length, nat_eq,
  All, Bool-cases, Option-cases, ◌==◌, string_eq,
}
use sink_production_suite.Perf.Worker.{
  bump, Worker, WriteResult, WriteCalls, Reply, rpc_error, replied, ReadResult, set_at,
  mark_pending, write_result, write_results, write_operations, write_reply, write, read_result,
  read_results, read,
}
use sink_production_suite.Perf.Slots.{InStep, AreSlots, write_result_lengths, length-set_at}
use sink_production_suite.Perf.Run.{CountReply, not_encoded, count_error, counted, count}

-- Two workers with the same slots.
abbrev pub SameSlots : Worker → Worker → Type 0
SameSlots v w = (v.counts ≡ w.counts) × (v.pending ≡ w.pending)

pub count-SameSlots :
    (keys : ℕ) (reply : CountReply) (w : Worker) → SameSlots (count keys reply w).1 w
unfolding count
count-SameSlots keys not_encoded w = (refl, refl)
count-SameSlots keys (count_error code) w = (refl, refl)
count-SameSlots keys (counted is_estimated n) w =
    elim (Bool-cases (is_estimated || not (eqb n keys))) [
      | inl wrong ↦ rw wrong (refl, refl)
      | inr right ↦ rw right (refl, refl)
    ]

read_result-SameSlots : (item : ReadResult) (w : Worker) → SameSlots (read_result item w).1 w
unfolding read_result
read_result-SameSlots item w = elim (Bool-cases (item.status == "READ_STATUS_FOUND")) [
  | inl found ↦ rw found (refl, refl)
  | inr gone ↦ rw gone (refl, refl)
]

read_results-SameSlots :
    (items : List ReadResult) (success : Bool) (w : Worker)
    → SameSlots (read_results items success w).1 w
unfolding read_results
read_results-SameSlots [] success w = (refl, refl)
read_results-SameSlots (item ∷ items) success w =
    let (a, b) = read_result-SameSlots item w in
    let (c, d) =
      read_results-SameSlots items (success && (read_result item w).0) (read_result item w).1 in
    (c ∙ a, d ∙ b)

pub read-SameSlots :
    (keys : List ℕ) (reply : Reply ReadResult) (w : Worker) → SameSlots (read keys reply w).1 w
unfolding read
read-SameSlots keys (rpc_error code) w = (refl, refl)
read-SameSlots keys (replied items) w = elim (Bool-cases (eqb (length items) (length keys))) [
  | inl all ↦ rw all (read_results-SameSlots items true w)
  | inr missing ↦ rw missing (refl, refl)
]

pub SameSlots-InStep : (v w : Worker) (p : ℕ → ℕ) → SameSlots v w → InStep w p → InStep v p
SameSlots-InStep v w p (a, b) h k = rw (a, b) (h k)

-- The number of slots.
abbrev pub HasSlots : ℕ → Worker → Type 0
HasSlots n w = (length w.counts ≡ n) × (length w.pending ≡ n)

mark_pending-HasSlots :
    (n : ℕ) (keys : List ℕ) (w : Worker) → HasSlots n w → HasSlots n (mark_pending keys w)
unfolding mark_pending
mark_pending-HasSlots n [] w h = h
mark_pending-HasSlots n (k ∷ keys) w (a, b) =
    mark_pending-HasSlots n keys (record w { pending = set_at w.pending k true })
      (a, length-set_at w.pending k true ∙ b)

pub AreSlots-of :
    (n : ℕ) (w : Worker) (keys : List ℕ) → HasSlots n w → All (λ k. k < n) keys → AreSlots w keys
AreSlots-of n w [] h a = tt
AreSlots-of n w (k ∷ keys) (c, p) (a, rest) = ((rw c a, rw p a), AreSlots-of n w keys (c, p) rest)

module _ {Seen Fields Operation : Type 0} (calls : WriteCalls Seen Fields Operation) where
  write_results-HasSlots :
      (n : ℕ) (keys : List ℕ) (items : List (WriteResult Seen Fields)) (success : Bool) (w : Worker)
      → HasSlots n w
      → HasSlots n (write_results calls keys items success w).1
  unfolding write_results
  write_results-HasSlots n [] items success w h = h
  write_results-HasSlots n (k ∷ keys) [] success w h = h
  write_results-HasSlots n (k ∷ keys) (item ∷ items) success w (a, b) =
      let (c, d) = write_result_lengths calls k item w in
      write_results-HasSlots n keys items (success && (write_result calls k item w).0)
        (write_result calls k item w).1 (c ∙ a, d ∙ b)

  write_reply-HasSlots :
      (n : ℕ) (keys : List ℕ) (reply : Reply (WriteResult Seen Fields)) (w : Worker)
      → HasSlots n w
      → HasSlots n (write_reply calls keys reply w).1
  unfolding write_reply
  write_reply-HasSlots n keys (rpc_error code) w h =
      mark_pending-HasSlots n keys (record w { errors = bump w.errors code }) h
  write_reply-HasSlots n keys (replied items) w h =
      elim (Bool-cases (eqb (length items) (length keys))) [
        | inl all ↦ rw all (write_results-HasSlots n keys items true w h)
        | inr missing ↦ rw missing (
            mark_pending-HasSlots n keys (record w { errors = bump w.errors "incomplete_write" }) h)
      ]

  pub write-HasSlots :
      (n : ℕ) (keys : List ℕ) (w : Worker) → HasSlots n w → HasSlots n (write calls keys w).1
  unfolding write
  write-HasSlots n keys w h = elim (Option-cases (write_operations calls keys w)) [
    | inl gone ↦ rw (gone, write) h
    | inr (operations, there) ↦
        rw (there, write) (write_reply-HasSlots n keys (calls.send operations) w h)
  ]
