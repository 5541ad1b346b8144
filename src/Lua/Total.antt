-- ===== src/Lua/Total.antt =====
-- `luaToGo` of internal/luatest/json_bridge.go ends, also where tables hold each other in a cycle.
use sink_production_suite.Prelude.{
  ℕ, zero, suc, ◌+◌, ◌<◌, ◌≤◌, Bool, true, false, ◌&&◌, List, [], ◌∷◌, ◌≡◌, ◌≢◌, ◌⊎◌, refl, sym,
  inl, inr, arith, eqb, ltb, contains, HasEquality, ◌==◌, Bool-cases, length, if◌then◌else◌,
}
use sink_production_suite.Lua.Values.{
  Value, nil, boolean, string_value, int, float, table, virtual_table, other, Tables, Numbers,
  Bridge, GoValue, GoFields, no_fields, Failure, bad_number, unsupported_value, not_finite,
  has_virtual_table, cycle, bad_null, walk_failed, not_contiguous, bad_key, out_of_fuel, Result, ok,
  failed, ◌>>=◌,
}
use sink_production_suite.Lua.ToGo.{
  inspect_table, items_to_go, array_to_go, fields_to_go, object_to_go, has_meta, table_to_go,
  value_to_go, lua_to_go, set_field,
}

-- The result is no want of fuel.
abbrev pub is_ended : {A : Type 0} → Result A → Bool
is_ended (ok a) = true
is_ended (failed bad_number) = true
is_ended (failed unsupported_value) = true
is_ended (failed not_finite) = true
is_ended (failed has_virtual_table) = true
is_ended (failed cycle) = true
is_ended (failed bad_null) = true
is_ended (failed walk_failed) = true
is_ended (failed not_contiguous) = true
is_ended (failed bad_key) = true
is_ended (failed out_of_fuel) = false

is_ended-bind :
    {A B : Type 0} (r : Result A) (f : A → Result B)
    → is_ended r ≡ true
    → ((a : A) → is_ended (f a) ≡ true)
    → is_ended (r >>= f) ≡ true
is_ended-bind {A} {B} (ok a) f h g = g a
is_ended-bind {A} {B} (failed e) f h g = go e h
  where
    go : (e : Failure) → is_ended {A = A} (failed e) ≡ true → is_ended {A = B} (failed e) ≡ true
    go bad_number h = refl
    go unsupported_value h = refl
    go not_finite h = refl
    go has_virtual_table h = refl
    go cycle h = refl
    go bad_null h = refl
    go walk_failed h = refl
    go not_contiguous h = refl
    go bad_key h = refl
    go out_of_fuel h = absurd (cc h)

is_ended-if :
    {A : Type 0} (b : Bool) (x y : Result A)
    → is_ended x ≡ true
    → is_ended y ≡ true
    → is_ended (if b then x else y) ≡ true
is_ended-if true x y h g = h
is_ended-if false x y h g = g

Result-cases :
    {A : Type 0} (r : Result A) → ((a : A) × (r ≡ ok a)) ⊎ ((e : Failure) × (r ≡ failed e))
Result-cases (ok a) = inl (a, refl)
Result-cases (failed e) = inr (e, refl)

-- How many tables of a list are not active.
module _ {T : Type 0} ⦃same : HasEquality T⦄ where
  unfoldable pub idle : List T → List T → ℕ
  idle [] active = 0
  idle (t ∷ rest) active = (if contains active t then 0 else 1) + idle rest active

  idle_more : (all active : List T) (t : T) → idle all (t ∷ active) ≤ idle all active
  unfolding idle
  idle_more [] active t = omega arith
  idle_more (u ∷ rest) active t = ground (arith, idle_more rest active t)

  pub idle_less :
      (all active : List T) (t : T)
      → contains all t ≡ true
      → contains active t ≡ false
      → idle all (t ∷ active) < idle all active
  unfolding idle
  idle_less [] active t h g = absurd (cc h)
  idle_less (u ∷ rest) active t h g = elim (Bool-cases (t == u)) [
    | inl e ↦
        let same_table : t ≡ u = (same.is_same_iff t u).0 e in
        ground
          (arith, idle_more rest active t, g, same_table, (same.is_same_iff u t).1 (sym same_table))
    | inr e ↦ ground (arith, idle_less rest active t (ground (arith, h, e)) g)
  ]

module _ {T F I H : Type 0} ⦃same : HasEquality T⦄ (tables : Tables T F I H) (numbers : Numbers F I)
    (bridge : Bridge T) (h : H) where
  is_ended-inspect_table : (t : T) → is_ended (inspect_table tables numbers bridge h t) ≡ true
  unfolding inspect_table
  is_ended-inspect_table t = elim (Bool-cases (tables.walk t h).1) [
    | inl e ↦ rw (e, inspect_table) refl
    | inr e ↦ rw (e, inspect_table) refl
  ]

  module _ (convert : Value T F I → Result (GoValue F))
      (ends : (v : Value T F I) → is_ended (convert v) ≡ true) where
    is_ended-items_to_go :
        (t : T) (index left : ℕ)
        → is_ended (items_to_go tables numbers bridge h convert t index left) ≡ true
    unfolding items_to_go
    is_ended-items_to_go t index zero = refl
    is_ended-items_to_go t index (suc left) =
        is_ended-bind (convert (tables.get_int t index h)) _ (ends _) (λ a.
          is_ended-bind (items_to_go tables numbers bridge h convert t (suc index) left) _
            (is_ended-items_to_go t (suc index) left) (λ b. refl))

    is_ended-array_to_go : (t : T) → is_ended (array_to_go tables numbers bridge h convert t) ≡ true
    unfolding array_to_go
    is_ended-array_to_go t =
        is_ended-bind (inspect_table tables numbers bridge h t) _ (is_ended-inspect_table t)
          (λ (count, array). elim (Bool-cases (array && eqb (tables.len t h) count)) [
            | inr e ↦ rw e refl
            | inl e ↦ rw e (
                is_ended-bind (items_to_go tables numbers bridge h convert t 1 count) _
                  (is_ended-items_to_go t 1 count) (λ b. refl))
          ])

    is_ended-fields_to_go :
        (l : List (Value T F I × Value T F I)) (ends_well : Bool) (made : GoFields F)
        → is_ended (fields_to_go tables numbers bridge h convert l ends_well made) ≡ true
    unfolding fields_to_go
    is_ended-fields_to_go [] true made = refl
    is_ended-fields_to_go [] false made = refl
    is_ended-fields_to_go ((string_value key, v) ∷ rest) ends_well made =
        is_ended-bind (convert v) _ (ends v)
          (λ a. is_ended-fields_to_go rest ends_well (set_field key a made))
    is_ended-fields_to_go ((nil, v) ∷ rest) ends_well made = refl
    is_ended-fields_to_go ((boolean b, v) ∷ rest) ends_well made = refl
    is_ended-fields_to_go ((int i, v) ∷ rest) ends_well made = refl
    is_ended-fields_to_go ((float x, v) ∷ rest) ends_well made = refl
    is_ended-fields_to_go ((table t, v) ∷ rest) ends_well made = refl
    is_ended-fields_to_go ((virtual_table, v) ∷ rest) ends_well made = refl
    is_ended-fields_to_go ((other, v) ∷ rest) ends_well made = refl

    is_ended-object_to_go :
        (t : T) → is_ended (object_to_go tables numbers bridge h convert t) ≡ true
    unfolding object_to_go
    is_ended-object_to_go t =
        is_ended-bind
          (fields_to_go tables numbers bridge h convert (tables.walk t h).0 (tables.walk t h).1
            no_fields)
          _ (is_ended-fields_to_go (tables.walk t h).0 (tables.walk t h).1 no_fields) (λ b. refl)

    is_ended-table_to_go : (t : T) → is_ended (table_to_go tables numbers bridge h convert t) ≡ true
    unfolding table_to_go
    is_ended-table_to_go t =
        let object = is_ended-object_to_go t in
        let array = is_ended-array_to_go t in
        is_ended-if (has_meta tables numbers bridge h convert t bridge.object_meta) _ _ object (
          is_ended-if (has_meta tables numbers bridge h convert t bridge.array_meta) _ _ array (
            is_ended-if (has_meta tables numbers bridge h convert t bridge.null_meta) _ _ refl (
              is_ended-bind (inspect_table tables numbers bridge h t) _ (is_ended-inspect_table t)
                (λ (count, is_array). is_ended-if (is_array && ltb 0 count) _ _ array object))))

  lua_to_go_ends :
      (all active : List T) (fuel : ℕ) (v : Value T F I)
      → ((t : T) → contains all t ≡ true)
      → idle all active < fuel
      → is_ended (lua_to_go tables numbers bridge h fuel active v) ≡ true
  unfolding lua_to_go value_to_go
  lua_to_go_ends all active zero v whole f = absurd (omega arith)
  lua_to_go_ends all active (suc fuel) nil whole f = refl
  lua_to_go_ends all active (suc fuel) (boolean b) whole f = refl
  lua_to_go_ends all active (suc fuel) (string_value s) whole f = refl
  lua_to_go_ends all active (suc fuel) (int i) whole f = refl
  lua_to_go_ends all active (suc fuel) (float x) whole f = elim (Bool-cases (numbers.is_finite x)) [
    | inl e ↦ rw (e, value_to_go) refl
    | inr e ↦ rw (e, value_to_go) refl
  ]
  lua_to_go_ends all active (suc fuel) (table t) whole f =
      elim (Bool-cases (t == bridge.null_table)) [
        | inl e ↦ rw e refl
        | inr e ↦ elim (Bool-cases (contains active t)) [
          | inl g ↦ rw (e, g) refl
          | inr g ↦
              rw (e, g)
                (is_ended-table_to_go (lua_to_go tables numbers bridge h fuel (t ∷ active))
                  (λ v.
                    lua_to_go_ends all (t ∷ active) fuel v whole
                      (omega (arith, idle_less all active t (whole t) g)))
                  t)
        ]
      ]
  lua_to_go_ends all active (suc fuel) virtual_table whole f = refl
  lua_to_go_ends all active (suc fuel) other whole f = refl

  idle_bound : (all : List T) → idle all [] ≤ length all
  unfolding idle
  idle_bound [] = omega arith
  idle_bound (t ∷ rest) = omega (arith, idle_bound rest)

  -- On a heap whose tables are all in a list, `luaToGo` of any value ends within one more step down than
  -- the list has tables, with a value or an error; so it does where tables hold each other in a cycle.
  pub lua_to_go-ends :
      (all : List T) (v : Value T F I)
      → ((t : T) → contains all t ≡ true)
      → ((g : GoValue F) × (lua_to_go tables numbers bridge h (length all + 1) [] v ≡ ok g))
        ⊎ ((e : Failure) × (lua_to_go tables numbers bridge h (length all + 1) [] v ≡ failed e)
            × (e ≢ out_of_fuel))
  lua_to_go-ends all v whole =
      let r = lua_to_go tables numbers bridge h (length all + 1) [] v in
      let ended = lua_to_go_ends all [] (length all + 1) v whole (omega (arith, idle_bound all)) in
      elim (Result-cases r) [
        | inl (g, e) ↦ inl (g, e)
        | inr (x, e) ↦ inr (x, e, λ o. absurd (cc (ended, e, o)))
      ]
