-- ===== src/Perf/Collect.antt =====
-- `collectRead` and `collectWrite` of tools/sink-perf/stream_collect.go, which differ only in the type of
-- their results. A stream is the results of its frames, and the error that it ends with, if it does.
use sink_production_suite.Prelude.{
  ℕ, String, Option, none, some, List, [], ◌∷◌, ◌++◌, ltb, if◌then◌else◌,
}

pub data Stream (R : Type 0) : Type 0 where
  refused : String → Stream R
  streamed : List (List R) → Option String → Stream R

-- `sort.Slice` by the index of the operation.
module _ {R : Type 0} (index : R → ℕ) where
  unfoldable pub insert : R → List R → List R
  insert r [] = r ∷ []
  insert r (x ∷ rest) = if ltb (index r) (index x) then r ∷ x ∷ rest else x ∷ insert r rest

  unfoldable pub sort : List R → List R
  unfolding insert
  sort [] = []
  sort (r ∷ rest) = insert r (sort rest)

  -- The loop over the frames.
  unfoldable pub receive : List (List R) → List R → List R
  receive [] results = results
  receive (frame ∷ rest) results = receive rest (results ++ frame)

  -- The error, if there is one, and the results.
  unfoldable pub collect : Stream R → Option String × List R
  unfolding sort receive
  collect (refused e) = (some e, [])
  collect (streamed frames none) = (none, sort (receive frames []))
  collect (streamed frames (some e)) = (some e, receive frames [])
