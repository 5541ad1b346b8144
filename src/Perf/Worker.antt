-- ===== src/Perf/Worker.antt =====
-- The calls of a worker in tools/sink-perf/main.go. An enumeration of the protocol is its name, as
-- its `String` method gives it; an `int64` counter is a number below 2 ^ 64. A slice index here is
-- always in range, and a write out of range changes nothing.
use Prim.Native.String.{◌++◌ as str_append}
use sink_production_suite.Prelude.{
  ℕ, zero, suc, ◌+◌, ◌%◌, ◌^◌, String, Bool, true, false, not, ◌&&◌, ◌||◌, Option, none, some, List,
  [], ◌∷◌, eqb, length, ◌==◌, string_eq, contains, if◌then◌else◌,
}

abbrev pub Counters : Type 0
Counters = List (String × ℕ)

-- `w.errors[code]++`.
unfoldable pub bump : Counters → String → Counters
bump [] code = (code, 1) ∷ []
bump ((c, n) ∷ rest) code =
    if c == code then (c, (n + 1) % 2 ^ 64) ∷ rest else (c, n) ∷ bump rest code

-- The samples of failures, the first of each code.
unfoldable pub add_sample : List (String × String) → String → String → List (String × String)
add_sample [] code detail = (code, detail) ∷ []
add_sample ((c, d) ∷ rest) code detail =
    if c == code then (c, d) ∷ rest else (c, d) ∷ add_sample rest code detail

unfoldable pub set_at {ℓ} : {A : Type ℓ} → List A → ℕ → A → List A
set_at [] i a = []
set_at (x ∷ xs) zero a = a ∷ xs
set_at (x ∷ xs) (suc i) a = x ∷ set_at xs i a

unfoldable pub get_or {ℓ} : {A : Type ℓ} → A → List A → ℕ → A
get_or d [] i = d
get_or d (x ∷ xs) zero = x
get_or d (x ∷ xs) (suc i) = get_or d xs i

-- The fields of `worker` that the calls change.
pub record Worker : Type 0 where
  pub counts : List ℕ
  pub pending : List Bool
  pub errors : Counters
  pub operation_failures : List (String × String)
  pub ops : ℕ
  pub reads : ℕ
  pub returned : ℕ

-- A document as the client decodes it; the maps are parameters.
pub record Document (Seen Fields : Type 0) : Type 0 where
  pub value : ℕ
  pub padding : String
  pub seen : Seen
  pub fields : Fields

pub record WriteResult (Seen Fields : Type 0) : Type 0 where
  pub status : String
  pub code : String
  pub failure_text : String
  pub stored : Option (Document Seen Fields)
  pub payload_length : ℕ

unfoldable pub may_have_committed : {Seen Fields : Type 0} → WriteResult Seen Fields → Bool
may_have_committed r =
    if contains
      ("FAILURE_CODE_INVALID_ARGUMENT" ∷ "FAILURE_CODE_PRECONDITION_FAILED"
        ∷ "FAILURE_CODE_NOT_FOUND" ∷ "FAILURE_CODE_CONFLICT" ∷ [])
      r.code
    then false
    else not (r.status == "WRITE_STATUS_PRECONDITION_FAILED")

unfoldable pub is_applied : {Seen Fields : Type 0} → WriteResult Seen Fields → Bool
is_applied r = r.status == "WRITE_STATUS_APPLIED"

-- What a stream of frames gives: the results that it carried, in the order of their operation, or
-- the code of an error.
pub data Reply (Result : Type 0) : Type 0 where
  rpc_error : String → Reply Result
  replied : List Result → Reply Result

-- The settings and the calls of other packages that a write uses: the text of a failure cut to 2048
-- bytes, the padding of a record, `stored.Seen[writer]`, `maps.Equal(stored.Fields, w.fields)`, the
-- encoding of the operation for a key and a sequence, and the server.
pub record WriteCalls (Seen Fields Operation : Type 0) : Type 0 where
  pub return_document : Bool
  pub cut : String → String
  pub record_padding : ℕ → String
  pub seen_by_writer : Seen → ℕ
  pub has_own_fields : Fields → Bool
  pub encode : ℕ → ℕ → Option Operation
  pub send : List Operation → Reply (WriteResult Seen Fields)

-- `w.pending[key] = true` for each key.
unfoldable pub mark_pending : List ℕ → Worker → Worker
mark_pending [] w = w
mark_pending (key ∷ keys) w = mark_pending keys (record w { pending = set_at w.pending key true })

module _ {Seen Fields Operation : Type 0} (calls : WriteCalls Seen Fields Operation) where
  -- `w.counts[key]` after a result was applied.
  abbrev pub next_count : Worker → ℕ → ℕ
  next_count w key = (get_or 0 w.counts key + 1) % 2 ^ 64

  unfoldable pub is_expected : ℕ → ℕ → Option (Document Seen Fields) → Bool
  is_expected key count none = false
  is_expected key count (some stored) =
      eqb (calls.seen_by_writer stored.seen) count
      && (stored.padding == calls.record_padding key && calls.has_own_fields stored.fields)

  -- A result that is not applied.
  unfoldable pub note_failure : ℕ → WriteResult Seen Fields → Worker → Worker
  note_failure key item w =
      let code = str_append (str_append item.status ":") item.code in
      record w {
        errors = bump w.errors code;
        operation_failures = add_sample w.operation_failures code (calls.cut item.failure_text);
        pending = set_at w.pending key (get_or false w.pending key || may_have_committed item);
      }

  unfoldable pub note_applied : ℕ → Worker → Worker
  note_applied key w = record w {
    counts = set_at w.counts key (next_count w key);
    pending = set_at w.pending key false;
    ops = (w.ops + 1) % 2 ^ 64;
  }

  -- The document of an applied result, where one was asked for.
  unfoldable pub note_returned : ℕ → WriteResult Seen Fields → Worker → Bool × Worker
  note_returned key item w =
      let good = is_expected key (get_or 0 w.counts key) item.stored in
      (
        good,
        record w {
          errors = if good then w.errors else bump w.errors "invalid_returned_document";
          returned = (w.returned + item.payload_length) % 2 ^ 64;
        },
      )

  -- One round of the loop over the results.
  unfoldable pub write_result : ℕ → WriteResult Seen Fields → Worker → Bool × Worker
  unfolding note_failure note_applied note_returned
  write_result key item w =
      if not (is_applied item)
      then (false, note_failure key item w)
      else if calls.return_document
      then note_returned key item (note_applied key w)
      else (true, note_applied key w)

  unfoldable pub write_results :
      List ℕ → List (WriteResult Seen Fields) → Bool → Worker → Bool × Worker
  unfolding write_result
  write_results [] items success w = (success, w)
  write_results (key ∷ keys) [] success w = (success, w)
  write_results (key ∷ keys) (item ∷ items) success w =
      let (good, w') = write_result key item w in write_results keys items (success && good) w'

  unfoldable pub write_operations : List ℕ → Worker → Option (List Operation)
  write_operations [] w = some []
  write_operations (key ∷ keys) w = elim (calls.encode key (next_count w key)) [
    | none ↦ none
    | some operation ↦ elim (write_operations keys w) [
      | none ↦ none
      | some rest ↦ some (operation ∷ rest)
    ]
  ]

  -- What `write` does with the reply.
  unfoldable pub write_reply : List ℕ → Reply (WriteResult Seen Fields) → Worker → Bool × Worker
  unfolding write_results mark_pending
  write_reply keys (rpc_error code) w =
      (false, mark_pending keys (record w { errors = bump w.errors code }))
  write_reply keys (replied items) w =
      if not (eqb (length items) (length keys))
      then (false, mark_pending keys (record w { errors = bump w.errors "incomplete_write" }))
      else write_results keys items true w

  -- `(*worker).write`.
  unfoldable pub write : List ℕ → Worker → Bool × Worker
  unfolding write_operations write_reply
  write keys w = elim (write_operations keys w) [
    | none ↦ (false, record w { errors = bump w.errors "encode" })
    | some operations ↦ write_reply keys (calls.send operations) w
  ]

pub record ReadResult : Type 0 where
  pub status : String
  pub payload_length : ℕ

-- One round of the loop of `read`.
unfoldable pub read_result : ReadResult → Worker → Bool × Worker
read_result item w =
    if not (item.status == "READ_STATUS_FOUND")
    then (false, record w { errors = bump w.errors (str_append "read_" item.status) })
    else (
      true,
      record w {
        ops = (w.ops + 1) % 2 ^ 64;
        reads = (w.reads + 1) % 2 ^ 64;
        returned = (w.returned + item.payload_length) % 2 ^ 64;
      },
    )

unfoldable pub read_results : List ReadResult → Bool → Worker → Bool × Worker
unfolding read_result
read_results [] success w = (success, w)
read_results (item ∷ items) success w =
    let (good, w') = read_result item w in read_results items (success && good) w'

-- `(*worker).read`, with the server's reply to its request.
unfoldable pub read : List ℕ → Reply ReadResult → Worker → Bool × Worker
unfolding read_results
read keys (rpc_error code) w = (false, record w { errors = bump w.errors code })
read keys (replied items) w =
    if not (eqb (length items) (length keys))
    then (false, record w { errors = bump w.errors "incomplete_read" })
    else read_results items true w

-- The check of one worker's slot in `verify`: the count it accepts, and whether it was reconciled.
unfoldable pub reconcile : ℕ → Bool → ℕ → Option (ℕ × Bool)
reconcile count pending actual =
    if eqb actual ((count + 1) % 2 ^ 64) && pending
    then some ((count + 1) % 2 ^ 64, true)
    else if eqb actual count
    then some (count, false)
    else none
