-- ===== src/Tests/LuaTests.antt =====
-- Tests and witnesses for the models of internal/luatest/json_bridge.go and tools/sink-perf/stream_collect.go.
use sink_production_suite.Prelude.{
  ℕ, ◌+◌, ◌<◌, Bool, true, false, none, some, List, [], ◌∷◌, ◌≡◌, ◌≢◌, ◌⊎◌, refl, arith, length,
  contains, HasEquality, ◌↔◌, nat_eq, get_elem?,
}
use sink_production_suite.Lua.Values.{
  nil, float, string_value, table, Tables, Numbers, Bridge, GoValue, go_number, go_array, go_float,
  go_bool, item, no_items, go_object, field, no_fields, Failure, cycle, out_of_fuel, ok, failed,
}
use sink_production_suite.Lua.ToLua.{go_to_lua}
use sink_production_suite.Lua.ToGo.{lua_to_go}
use sink_production_suite.Lua.Plain.{is_plain, lua_to_go-is_plain}
use sink_production_suite.Lua.Total.{lua_to_go-ends}
use sink_production_suite.Lua.Accepts.{is_ok, is_json, go_to_lua-is_ok}
use sink_production_suite.Perf.Collect.{streamed, collect}
use sink_production_suite.Perf.Collected.{sent, IsIn, collect-at}

abbrev numbers : Numbers ℕ ℕ
numbers = record {
  parse_int = λ s. some 7;
  parse_float = λ s. none;
  is_finite = λ x. true;
  format_int = λ i. "7";
  is_positive = λ i. true;
}

data Node : Type 0 where
  null_node left right : Node

abbrev node_beq : Node → Node → Bool
node_beq null_node null_node = true
node_beq null_node left = false
node_beq null_node right = false
node_beq left null_node = false
node_beq left left = true
node_beq left right = false
node_beq right null_node = false
node_beq right left = false
node_beq right right = true

node_beq_iff : (a b : Node) → (node_beq a b ≡ true) ↔ (a ≡ b)
node_beq_iff null_node null_node = (λ h. refl, λ h. refl)
node_beq_iff null_node left = (λ h. absurd (cc h), λ h. absurd (cc h))
node_beq_iff null_node right = (λ h. absurd (cc h), λ h. absurd (cc h))
node_beq_iff left null_node = (λ h. absurd (cc h), λ h. absurd (cc h))
node_beq_iff left left = (λ h. refl, λ h. refl)
node_beq_iff left right = (λ h. absurd (cc h), λ h. absurd (cc h))
node_beq_iff right null_node = (λ h. absurd (cc h), λ h. absurd (cc h))
node_beq_iff right left = (λ h. absurd (cc h), λ h. absurd (cc h))
node_beq_iff right right = (λ h. refl, λ h. refl)

instance abbrev node_eq : HasEquality Node
node_eq = record { is_same = node_beq; is_same_iff = node_beq_iff }

abbrev across : Node → Node
across left = right
across right = left
across null_node = null_node

-- Two tables, each of which holds the other.
abbrev tables : Tables Node ℕ ℕ ℕ
tables = record {
  create = λ h. (left, h + 1);
  set_metatable = λ t m h. h;
  set_int = λ t i v h. h;
  set_string = λ t s v h. h;
  metatable = λ t h. none;
  get_int = λ t i h. nil;
  len = λ t h. 0;
  walk = λ t h. ((string_value "next", table (across t)) ∷ [], true);
}

abbrev bridge : Bridge Node
bridge = record {
  object_meta = null_node;
  array_meta = null_node;
  null_meta = null_node;
  null_table = null_node;
}

abbrev nodes : List Node
nodes = null_node ∷ left ∷ right ∷ []

whole : (t : Node) → contains nodes t ≡ true
whole null_node = refl
whole left = refl
whole right = refl

finds_cycle : lua_to_go tables numbers bridge 0 4 [] (table left) ≡ failed cycle
unfolding lua_to_go
finds_cycle = refl

lua_to_go-ends_example :
    ((g : GoValue ℕ) × (lua_to_go tables numbers bridge 0 4 [] (table left) ≡ ok g))
    ⊎ ((e : Failure) × (lua_to_go tables numbers bridge 0 4 [] (table left) ≡ failed e)
        × (e ≢ out_of_fuel))
lua_to_go-ends_example = lua_to_go-ends tables numbers bridge 0 nodes (table left) whole

abbrev nested : GoValue ℕ
nested = go_object (
    field "a" (go_array (item (go_number "7") (item (go_bool true) no_items)))
      (field "b" (go_float 3) no_fields))

go_to_lua-is_ok_example : is_ok (go_to_lua tables numbers bridge nested 0) ≡ is_json numbers nested
go_to_lua-is_ok_example = go_to_lua-is_ok tables numbers bridge nested 0

abbrev index : ℕ → ℕ
index r = r

abbrev frames : List (List ℕ)
frames = (2 ∷ []) ∷ [] ∷ (0 ∷ 1 ∷ []) ∷ []

collect-at_example :
    ((collect index (streamed frames none)).0 ≡ none)
    × (length (collect index (streamed frames none)).1 ≡ 3)
    × ((i : ℕ)
        → i < 3
        → (r : ℕ) × (get_elem? (collect index (streamed frames none)).1 i ≡ some r)
          × (r ≡ i)
          × IsIn index r (2 ∷ 0 ∷ 1 ∷ []))
unfolding sent
collect-at_example =
    collect-at index frames (refl, (refl, (refl, tt)))
      (omega arith, (omega arith, (omega arith, tt)))

-- Tables that hold a float under a name.
abbrev flat_tables : Tables Node ℕ ℕ ℕ
flat_tables = record tables { walk = λ t h. ((string_value "x", float 3) ∷ [], true) }

abbrev flat : GoValue ℕ
flat = go_object (field "x" (go_float 3) no_fields)

reads_flat : lua_to_go flat_tables numbers bridge 0 2 [] (table left) ≡ ok flat
unfolding lua_to_go
reads_flat = refl

lua_to_go-is_plain_example : is_plain numbers flat ≡ true
lua_to_go-is_plain_example =
    lua_to_go-is_plain flat_tables numbers bridge 0 2 [] (table left) flat reads_flat
