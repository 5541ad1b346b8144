-- ===== src/Perf/Verify.antt =====
-- `verify` of tools/sink-perf/main.go: the reads of all records, with a smaller batch after a reply that
-- was too large, and the check of each record against the counts of all workers.
use Prim.Native.Nat.{max, min}
use sink_production_suite.Prelude.{
  ℕ, zero, suc, ◌+◌, ◌-◌, ◌/◌, ◌%◌, ◌^◌, String, Bool, true, false, ◌&&◌, ◌||◌, Option, none, some,
  List, [], ◌∷◌, eqb, ltb, length, ◌==◌, string_eq, if◌then◌else◌,
}
use sink_production_suite.Perf.Worker.{Document, get_or, reconcile}
use sink_production_suite.Perf.Partition.{range_from, local_key}

-- What `verify` reads of a worker.
pub record Counted : Type 0 where
  pub index : ℕ
  pub key_count : ℕ
  pub counts : List ℕ
  pub pending : List Bool

-- A result of a read; `stored` is what decoding its document gives.
pub record ReadItem (Seen Fields : Type 0) : Type 0 where
  pub status : String
  pub code : String
  pub stored : Option (Document Seen Fields)

-- The results that arrived, and the code of an error.
pub record ReadReply (Seen Fields : Type 0) : Type 0 where
  pub error : Option String
  pub results : List (ReadItem Seen Fields)

-- The settings and the calls of other packages: `stored.Seen[w<index>]`, the padding of a record,
-- `maps.Equal(stored.Fields, fields)`, and the server's reply to the n-th read, of some keys.
pub record VerifyCalls (Seen Fields : Type 0) : Type 0 where
  pub is_hot : Bool
  pub keys : ℕ
  pub padding_size : ℕ
  pub seen_by : Seen → ℕ → ℕ
  pub padding_of : ℕ → String
  pub has_fields : Fields → Bool
  pub read : ℕ → List ℕ → ReadReply Seen Fields

-- The count that comes with an error is left out.
pub data Verdict : Type 0 where
  verified : ℕ → Verdict
  mismatch failed out_of_fuel : Verdict

pub data Checked : Type 0 where
  passed : ℕ → Checked
  differs unread : Checked

-- What one round of the loop does: a smaller batch, the next batch, or the end.
pub data Round : Type 0 where
  again next : ℕ → Round
  stop : Verdict → Round

unfoldable pub any_limited : {Seen Fields : Type 0} → List (ReadItem Seen Fields) → Bool
any_limited [] = false
any_limited (item ∷ items) = item.code == "FAILURE_CODE_RESOURCE_EXHAUSTED" || any_limited items

unfoldable pub is_exhausted : Option String → Bool
is_exhausted none = false
is_exhausted (some code) = code == "ResourceExhausted"

-- `limited`.
unfoldable pub is_limited : {Seen Fields : Type 0} → ReadReply Seen Fields → Bool
unfolding any_limited is_exhausted
is_limited reply = is_exhausted reply.error || any_limited reply.results

module _ {Seen Fields : Type 0} (calls : VerifyCalls Seen Fields) where
  -- The loop over the workers for one record: what is expected of its value, and how many slots were
  -- reconciled. `none` is a slot that does not agree.
  unfoldable pub check_workers : ℕ → Seen → List Counted → ℕ → ℕ → Option (ℕ × ℕ)
  unfolding local_key get_or reconcile
  check_workers key seen [] expected reconciled = some (expected, reconciled)
  check_workers key seen (entry ∷ workers) expected reconciled =
      elim (local_key calls.is_hot entry.index entry.key_count key) [
        | none ↦ check_workers key seen workers expected reconciled
        | some slot ↦
            elim (reconcile (get_or 0 entry.counts slot) (get_or false entry.pending slot)
              (calls.seen_by seen entry.index)) [
                | none ↦ none
                | some (count, extra) ↦
                    check_workers key seen workers ((expected + count) % 2 ^ 64)
                      (if extra then (reconciled + 1) % 2 ^ 64 else reconciled)
              ]
      ]

  unfoldable pub is_record : ℕ → ℕ → Document Seen Fields → Bool
  is_record key expected stored =
      eqb stored.value expected
      && (stored.padding == calls.padding_of key && calls.has_fields stored.fields)

  -- The check of one decoded record.
  unfoldable pub check_record : List Counted → ℕ → Document Seen Fields → ℕ → Option ℕ
  unfolding check_workers is_record
  check_record workers key stored reconciled =
      elim (check_workers key stored.seen workers 0 reconciled) [
        | none ↦ none
        | some (expected, count) ↦ elim (is_record key expected stored) [
          | true ↦ some count
          | false ↦ none
        ]
      ]

  -- The loop over the results, from record `key` on.
  unfoldable pub check_results : List Counted → ℕ → List (ReadItem Seen Fields) → ℕ → Checked
  unfolding check_record
  check_results workers key [] reconciled = passed reconciled
  check_results workers key (item ∷ items) reconciled = elim (item.status == "READ_STATUS_FOUND") [
    | false ↦ unread
    | true ↦ elim item.stored [
      | none ↦ unread
      | some stored ↦ elim (check_record workers key stored reconciled) [
        | none ↦ differs
        | some count ↦ check_results workers (suc key) items count
      ]
    ]
  ]

  -- The keys of one read.
  unfoldable pub batch_keys : ℕ → ℕ → List ℕ
  unfolding range_from
  batch_keys begin batch = range_from begin (min calls.keys (begin + batch) - begin)

  -- What follows a reply that is not too large.
  unfoldable pub check_reply : List Counted → ℕ → ℕ → ReadReply Seen Fields → ℕ → Round
  unfolding check_results
  check_reply workers begin asked reply reconciled = elim reply.error [
    | some code ↦ stop failed
    | none ↦ elim (eqb (length reply.results) asked) [
      | false ↦ stop failed
      | true ↦ elim (check_results workers begin reply.results reconciled) [
        | passed count ↦ next count
        | differs ↦ stop mismatch
        | unread ↦ stop failed
      ]
    ]
  ]

  -- One round, with the n-th read.
  unfoldable pub verify_round : List Counted → ℕ → ℕ → ℕ → ℕ → Round
  unfolding batch_keys check_reply
  verify_round workers n begin batch reconciled =
      let asked = batch_keys begin batch in
      let reply = calls.read n asked in
      if is_limited reply && ltb 1 (length asked)
      then again (max 1 (length asked / 2))
      else check_reply workers begin (length asked) reply reconciled

  unfoldable pub verify_loop : List Counted → ℕ → ℕ → ℕ → ℕ → ℕ → Verdict
  unfolding verify_round
  verify_loop workers zero n begin batch reconciled = out_of_fuel
  verify_loop workers (suc fuel) n begin batch reconciled = elim (ltb begin calls.keys) [
    | false ↦ verified reconciled
    | true ↦ elim (verify_round workers n begin batch reconciled) [
      | again smaller ↦ verify_loop workers fuel (suc n) begin smaller reconciled
      | next count ↦
          verify_loop workers fuel (suc n) (begin + length (batch_keys begin batch)) batch count
      | stop v ↦ v
    ]
  ]

  -- The first batch: 16 MiB of padding, with a margin for each record.
  abbrev pub first_batch : ℕ
  first_batch = min 128 (max 1 (16777216 / (calls.padding_size + 512)))

  -- Each round reads a record or halves the batch, so this fuel is enough.
  unfoldable pub verify : List Counted → Verdict
  unfolding verify_loop
  verify workers = verify_loop workers (calls.keys + 129) 0 0 first_batch 0
