-- ===== src/Lib.antt =====
-- The sink production suite: the reference models and checkers that qualify a Sink server.
--
-- internal/historycheck/history.go checks concurrent single-record histories. History.Model has
-- its data and the sequential specification `apply`; History.Search has the function `Check`:
-- the validation loop (`prepare`), the search with its masks, its memory of rejected states and
-- its budget of 250000 (`visit`, `try_from`, `step`). A `uint64` is a number below 2 ^ 64, and
-- the closure's variables `rejected` and `exhausted` are the record `Memo`. The search has fuel,
-- one more than the number of calls; each visit sets one new bit of the mask, so this is enough.
-- History.Legal says without masks what a sequential explanation is; History.Masks,
-- History.Steps and History.Visit relate the two, and History.Verdicts has what each verdict
-- means.
--
-- internal/reference holds the merge semantics of offers and products. Reference.Helpers has
-- helpers.go, Reference.Model the records of model.go, Reference.Offer offer.go. A pointer is an
-- Option, a slice a list (nil and empty are one), and a panic is `none`. The JSON codec, the
-- instants and the conversion to UTC are parameters. Reference.Unique, Reference.Keyed and
-- Reference.Collections have the laws of the helpers; Reference.Merging, Reference.Items,
-- Reference.OfferRound and Reference.OfferLaws those of the offer merge.
--
-- Reference.Product has product.go; its hash, its formats and its codec are parameters too, with
-- Reference.ProductRound and Reference.ProductLaws for what the merge leaves.
--
-- internal/testevents/events.go checks the evidence of `go test -json`. Events.Map has its maps
-- from names to flags, Events.Model its loop and the checks after it; Events.Track and
-- Events.Evidence say without maps what the evidence must hold, and Events.Collected,
-- Events.Totals and Events.Accepted relate the two.
--
-- tools/sink-perf/main.go loads a server and checks its counters. Perf.Settings has
-- `validateSettings`, with the settings that it leaves, and Perf.Valid what they satisfy;
-- Perf.Partition has the keys of the workers and of a call; Perf.Worker has `read`, `write` and
-- the check of one slot in `verify`, where the server, the encoding and the maps of a document
-- are parameters. Perf.Slots has what one slot and one answer say of the server, Perf.Accounting
-- what a reply to a write does to the slots, Perf.Settled what `write` keeps of a complete
-- answer, and Perf.Served relates `write`, with the operations that it sends, to a server that
-- gets them.
--
-- Perf.Run has the loop of `run` with its calls, its samples and its failures; the ticket, the
-- clock and the waits only give each call its three times, and the calls are a list.
-- Perf.RunKeys, Perf.RunSlots and Perf.RunLaws have the laws of its keys and slots; Perf.Ended
-- has the calls as they ended, and Perf.RunBooks what the books of a run hold of them.
-- Perf.Verify has the loop of `verify`; a round passes records on or lessens the batch, so the
-- number of keys with the first batch, 128 at most, and one more is fuel enough. Perf.Records,
-- Perf.Verified and Perf.Reconciled say what a verdict means. Perf.Padding, with
-- Perf.PaddingLaws, has `randomPadding` and `recordPadding`, and Perf.Percentile `percentile`.
-- Perf.Report has the sums and the percentiles of `execute`, without the list of the failures of
-- each worker and the rates, and Perf.Merged, Perf.Sorted and Perf.Reported their laws.
--
-- tools/sink-perf/stream_collect.go is Perf.Collect, with Perf.Collected for the order of what
-- it collects.
--
-- internal/luatest/json_bridge.go carries JSON values between Go and Lua. Lua.Values has the two
-- kinds of value; the Lua machine's tables, on a heap, and the parsing and printing of numbers
-- are parameters, and the calls of `Next` on one table are the list that they give. Lua.ToLua
-- has `goToLua`, Lua.ToGo `luaToGo`, with fuel for its depth: each table that it opens is one
-- more than is open already, so one more than there are tables is enough. Lua.Total, Lua.Accepts
-- and Lua.Plain have their laws. The registration of the `json` library in the machine is left
-- out.
--
-- internal/statecheck/model.go compares a server with a sequential model. States.Model has the
-- model's step and the operation that is sent for it, States.Run `runSequence` with the checks
-- of every result, States.Sequences `Run` with its sequences. The client is a record of three
-- functions on a state of its own, and a fatal error of the test is `none`, as is the panic for
-- a key that is not below 3; a key stands for its address, and documents decode without loss.
-- States.Server has a server that performs each call in order. States.Writes, States.Ahead,
-- States.Checks and States.Passes relate the run to that server; States.Verdicts,
-- States.Detects, States.Refines and States.Covers say what a run that passes has seen.
--
-- Not modelled here: what only calls a server, a database or the Lua engine, and the tests that
-- drive them.
pub mod Prelude
pub mod History
pub mod Reference
pub mod Events
pub mod Lua
pub mod Perf
pub mod States
pub mod Tests
