-- ===== src/Lua/ToGo.antt =====
-- `luaToGo` of internal/luatest/json_bridge.go, and what it calls. The set `active` is the list of the tables
-- that are open: what `defer delete` takes back was not there before.
use Prim.Native.String.{compare}
use text.Mathlib.Text.{is_lt}
use sink_production_suite.Prelude.{
  ℕ, zero, suc, String, Bool, true, false, ◌&&◌, none, some, List, [], ◌∷◌, eqb, ltb, length,
  contains, HasEquality, ◌==◌, string_eq, if◌then◌else◌,
}
use sink_production_suite.Lua.Values.{
  Value, nil, boolean, string_value, int, float, table, virtual_table, other, Tables, Numbers,
  Bridge, GoValue, go_null, go_bool, go_string, go_number, go_float, go_array, go_object, GoItems,
  no_items, item, GoFields, no_fields, field, Result, ok, failed, not_finite, has_virtual_table,
  cycle, bad_null, walk_failed, not_contiguous, bad_key, out_of_fuel, unsupported_value, ◌>>=◌,
}

-- `result[key] = converted`.
unfoldable pub set_field : {F : Type 0} → String → GoValue F → GoFields F → GoFields F
set_field key v no_fields = field key v no_fields
set_field key v (field k w rest) =
    if key == k
    then field key v rest
    else if is_lt (compare key k)
    then field key v (field k w rest)
    else field k w (set_field key v rest)

-- What `inspectLuaTable` says of the keys: their number, and whether they are all positive integers.
module _ {T F I H : Type 0} ⦃same : HasEquality T⦄ (tables : Tables T F I H) (numbers : Numbers F I)
    (bridge : Bridge T) (h : H) where
  unfoldable pub is_index : Value T F I → Bool
  is_index nil = false
  is_index (boolean b) = false
  is_index (string_value s) = false
  is_index (int i) = numbers.is_positive i
  is_index (float x) = false
  is_index (table t) = false
  is_index virtual_table = false
  is_index other = false

  unfoldable pub are_indices : List (Value T F I × Value T F I) → Bool
  unfolding is_index
  are_indices [] = true
  are_indices ((key, v) ∷ rest) = is_index key && are_indices rest

  unfoldable pub inspect_table : T → Result (ℕ × Bool)
  unfolding are_indices
  inspect_table t =
      let (entries, ends_well) = tables.walk t h in
      elim ends_well [
        | true ↦ ok (length entries, are_indices entries)
        | false ↦ failed walk_failed
      ]

  module _ (convert : Value T F I → Result (GoValue F)) where
    -- The items from an index on, as many as are left.
    unfoldable pub items_to_go : T → ℕ → ℕ → Result (GoItems F)
    items_to_go t index zero = ok no_items
    items_to_go t index (suc left) = do
      converted ← convert (tables.get_int t index h)
      rest ← items_to_go t (suc index) left
      ok (item converted rest)

    unfoldable pub array_to_go : T → Result (GoValue F)
    unfolding inspect_table items_to_go
    array_to_go t = do
      (count, array) ← inspect_table t
      elim (array && eqb (tables.len t h) count) [
        | false ↦ failed not_contiguous
        | true ↦ do items ← items_to_go t 1 count; ok (go_array items)
      ]

    -- The loop of `luaObjectToGo` over the entries, with the map made up to now.
    unfoldable pub fields_to_go :
        List (Value T F I × Value T F I) → Bool → GoFields F → Result (GoFields F)
    unfolding set_field
    fields_to_go [] ends_well made = elim ends_well [ true ↦ ok made | false ↦ failed walk_failed ]
    fields_to_go ((string_value key, v) ∷ rest) ends_well made = do
      converted ← convert v
      fields_to_go rest ends_well (set_field key converted made)
    fields_to_go ((nil, v) ∷ rest) ends_well made = failed bad_key
    fields_to_go ((boolean b, v) ∷ rest) ends_well made = failed bad_key
    fields_to_go ((int i, v) ∷ rest) ends_well made = failed bad_key
    fields_to_go ((float x, v) ∷ rest) ends_well made = failed bad_key
    fields_to_go ((table t, v) ∷ rest) ends_well made = failed bad_key
    fields_to_go ((virtual_table, v) ∷ rest) ends_well made = failed bad_key
    fields_to_go ((other, v) ∷ rest) ends_well made = failed bad_key

    unfoldable pub object_to_go : T → Result (GoValue F)
    unfolding fields_to_go
    object_to_go t = do
      fields ← fields_to_go (tables.walk t h).0 (tables.walk t h).1 no_fields
      ok (go_object fields)

    abbrev pub has_meta : T → T → Bool
    has_meta t meta = elim (tables.metatable t h) [ none ↦ false | some m ↦ m == meta ]

    unfoldable pub table_to_go : T → Result (GoValue F)
    unfolding object_to_go array_to_go inspect_table
    table_to_go t =
        if has_meta t bridge.object_meta
        then object_to_go t
        else if has_meta t bridge.array_meta
        then array_to_go t
        else if has_meta t bridge.null_meta
        then failed bad_null
        else do
          (count, array) ← inspect_table t
          if array && ltb 0 count then array_to_go t else object_to_go t

  -- `luaToGo` of one value, where `open` converts the values in a table once the table is active.
  unfoldable pub value_to_go :
      (T → Value T F I → Result (GoValue F)) → List T → Value T F I → Result (GoValue F)
  unfolding table_to_go
  value_to_go inside active nil = ok go_null
  value_to_go inside active (boolean b) = ok (go_bool b)
  value_to_go inside active (string_value s) = ok (go_string s)
  value_to_go inside active (int i) = ok (go_number (numbers.format_int i))
  value_to_go inside active (float x) = elim (numbers.is_finite x) [
    | true ↦ ok (go_float x)
    | false ↦ failed not_finite
  ]
  value_to_go inside active (table t) =
      if t == bridge.null_table
      then ok go_null
      else if contains active t
      then failed cycle
      else table_to_go (inside t) t
  value_to_go inside active virtual_table = failed has_virtual_table
  value_to_go inside active other = failed unsupported_value

  unfoldable pub lua_to_go : ℕ → List T → Value T F I → Result (GoValue F)
  unfolding value_to_go
  lua_to_go zero active v = failed out_of_fuel
  lua_to_go (suc fuel) active v = value_to_go (λ t. lua_to_go fuel (t ∷ active)) active v
