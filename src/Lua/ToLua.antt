-- ===== src/Lua/ToLua.antt =====
-- `goToLua` of internal/luatest/json_bridge.go.
use sink_production_suite.Prelude.{ℕ, suc, String, true, false, none, some}
use sink_production_suite.Lua.Values.{
  Value, boolean, string_value, int, float, table, Tables, Numbers, Bridge, GoValue, go_null,
  go_bool, go_string, go_number, go_float, go_array, go_object, unsupported, GoItems, no_items,
  item, GoFields, no_fields, field, Result, ok, failed, bad_number, unsupported_value, ◌>>=◌,
}

module _ {T F I H : Type 0} (tables : Tables T F I H) (numbers : Numbers F I)
    (bridge : Bridge T) where
  -- `json.Number`: an `int64`, or else a finite float.
  unfoldable pub number_to_lua : String → H → Result (Value T F I × H)
  number_to_lua digits h = elim (numbers.parse_int digits) [
    | some i ↦ ok (int i, h)
    | none ↦ elim (numbers.parse_float digits) [
      | none ↦ failed bad_number
      | some x ↦ elim (numbers.is_finite x) [ true ↦ ok (float x, h) | false ↦ failed bad_number ]
    ]
  ]

  -- A new table with its metatable.
  unfoldable pub new_table : T → H → T × H
  new_table meta h = let (t, h1) = tables.create h in (t, tables.set_metatable t meta h1)

  unfoldable mutual
    pub go_to_lua : GoValue F → H → Result (Value T F I × H)
    go_to_lua go_null h = ok (table bridge.null_table, h)
    go_to_lua (go_bool b) h = ok (boolean b, h)
    go_to_lua (go_string s) h = ok (string_value s, h)
    go_to_lua (go_number digits) h = number_to_lua digits h
    go_to_lua (go_float x) h = failed unsupported_value
    go_to_lua (go_array items) h =
        let (t, h1) = new_table bridge.array_meta h in
        do h2 ← put_items items t 1 h1; ok (table t, h2)
    go_to_lua (go_object fields) h =
        let (t, h1) = new_table bridge.object_meta h in
        do h2 ← put_fields fields t h1; ok (table t, h2)
    go_to_lua unsupported h = failed unsupported_value

    -- The loop over the items, whose next one has this index in Lua.
    pub put_items : GoItems F → T → ℕ → H → Result H
    put_items no_items t index h = ok h
    put_items (item v rest) t index h = do
      (converted, h1) ← go_to_lua v h
      put_items rest t (suc index) (tables.set_int t index converted h1)

    pub put_fields : GoFields F → T → H → Result H
    put_fields no_fields t h = ok h
    put_fields (field key v rest) t h = do
      (converted, h1) ← go_to_lua v h
      put_fields rest t (tables.set_string t key converted h1)
