-- ===== src/Tests.antt =====
-- Runs of the models on small inputs, and each theorem at an input that meets its hypotheses.
mod HistoryTests
mod ReferenceTests
mod EventsTests
mod ProductTests
mod PerfTests
mod RunTests
mod PaddingTests
mod StatesTests
mod LuaTests
mod ReportTests
