-- ===== src/Lua.antt =====
-- internal/luatest/json_bridge.go: JSON values of Go and values of a Lua machine.
pub mod Values
pub mod ToLua
pub mod ToGo
pub mod Total
pub mod Accepts
pub mod Plain
