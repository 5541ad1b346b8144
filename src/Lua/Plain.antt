-- ===== src/Lua/Plain.antt =====
-- What `luaToGo` of internal/luatest/json_bridge.go returns.
use mathlib.Core.Path.{subst}
use Prim.Native.String.{compare}
use package.text.Mathlib.Text.{is_lt}
use sink_production_suite.Prelude.{
  ℕ, zero, suc, String, Bool, true, false, ◌&&◌, List, [], ◌∷◌, ◌≡◌, refl, inl, inr, arith, eqb,
  ltb, contains, HasEquality, ◌==◌, string_eq, Bool-cases, if◌then◌else◌,
}
use sink_production_suite.Lua.Values.{
  Value, nil, boolean, string_value, int, float, table, virtual_table, other, Tables, Numbers,
  Bridge, GoValue, go_null, go_bool, go_string, go_number, go_float, go_array, go_object,
  unsupported, GoItems, no_items, item, GoFields, no_fields, field, Result, ok, failed, ◌>>=◌,
}
use sink_production_suite.Lua.ToGo.{
  inspect_table, items_to_go, array_to_go, fields_to_go, object_to_go, has_meta, table_to_go,
  value_to_go, lua_to_go, set_field,
}

module _ {F I : Type 0} (numbers : Numbers F I) where
  -- A value that JSON can write: each float in it is finite, and none of its parts is of another type.
  unfoldable mutual
    pub is_plain : GoValue F → Bool
    is_plain go_null = true
    is_plain (go_bool b) = true
    is_plain (go_string s) = true
    is_plain (go_number digits) = true
    is_plain (go_float x) = numbers.is_finite x
    is_plain (go_array items) = are_plain items
    is_plain (go_object fields) = have_plain fields
    is_plain unsupported = false

    pub are_plain : GoItems F → Bool
    are_plain no_items = true
    are_plain (item v rest) = is_plain v && are_plain rest

    pub have_plain : GoFields F → Bool
    have_plain no_fields = true
    have_plain (field key v rest) = is_plain v && have_plain rest

  have_plain-set_field :
      (key : String) (v : GoValue F) (l : GoFields F)
      → is_plain v ≡ true
      → have_plain l ≡ true
      → have_plain (set_field key v l) ≡ true
  unfolding have_plain set_field
  have_plain-set_field key v no_fields h g = rw h refl
  have_plain-set_field key v (field k w rest) h g = elim (Bool-cases (key == k)) [
    | inl e ↦ rw e (ground (arith, h, g))
    | inr e ↦ elim (Bool-cases (is_lt (compare key k))) [
      | inl a ↦ rw (e, a) (ground (arith, h, g))
      | inr a ↦ rw (e, a) (ground (arith, g, have_plain-set_field key v rest h (ground (arith, g))))
    ]
  ]

-- The value of a result, if there is one, has a property.
abbrev pub Gives : {A : Type 0} → (A → Bool) → Result A → Type 0
Gives P (ok a) = P a ≡ true
Gives P (failed e) = Unit {0}

Gives-bind :
    {A B : Type 0} (P : A → Bool) (Q : B → Bool) (r : Result A) (f : A → Result B)
    → Gives P r
    → ((a : A) → P a ≡ true → Gives Q (f a))
    → Gives Q (r >>= f)
Gives-bind P Q (ok a) f h g = g a h
Gives-bind P Q (failed e) f h g = tt

Gives-if :
    {A : Type 0} (P : A → Bool) (b : Bool) (x y : Result A)
    → Gives P x
    → Gives P y
    → Gives P (if b then x else y)
Gives-if P true x y h g = h
Gives-if P false x y h g = g

abbrev anything : {A : Type 0} → A → Bool
anything a = true

Gives-anything : {A : Type 0} (r : Result A) → Gives anything r
Gives-anything (ok a) = refl
Gives-anything (failed e) = tt

module _ {T F I H : Type 0} ⦃same : HasEquality T⦄ (tables : Tables T F I H) (numbers : Numbers F I)
    (bridge : Bridge T) (h : H) where
  module _ (convert : Value T F I → Result (GoValue F))
      (plain : (v : Value T F I) → Gives (is_plain numbers) (convert v)) where
    items_to_go-plain :
        (t : T) (index left : ℕ)
        → Gives (are_plain numbers) (items_to_go tables numbers bridge h convert t index left)
    unfolding items_to_go are_plain
    items_to_go-plain t index zero = refl
    items_to_go-plain t index (suc left) =
        Gives-bind (is_plain numbers) (are_plain numbers) (convert (tables.get_int t index h)) _
          (plain _)
          (λ a p.
            Gives-bind (are_plain numbers) (are_plain numbers)
              (items_to_go tables numbers bridge h convert t (suc index) left) _
              (items_to_go-plain t (suc index) left) (λ b q. rw (p, q) refl))

    array_to_go-plain :
        (t : T) → Gives (is_plain numbers) (array_to_go tables numbers bridge h convert t)
    unfolding array_to_go is_plain
    array_to_go-plain t =
        Gives-bind anything (is_plain numbers) (inspect_table tables numbers bridge h t) _
          (Gives-anything (inspect_table tables numbers bridge h t))
          (λ (count, array) _. elim (Bool-cases (array && eqb (tables.len t h) count)) [
            | inr e ↦ rw e tt
            | inl e ↦ rw e (
                Gives-bind (are_plain numbers) (is_plain numbers)
                  (items_to_go tables numbers bridge h convert t 1 count) _
                  (items_to_go-plain t 1 count) (λ b q. q))
          ])

    fields_to_go-plain :
        (l : List (Value T F I × Value T F I)) (ends_well : Bool) (made : GoFields F)
        → have_plain numbers made ≡ true
        → Gives (have_plain numbers) (fields_to_go tables numbers bridge h convert l ends_well made)
    unfolding fields_to_go
    fields_to_go-plain [] true made p = p
    fields_to_go-plain [] false made p = tt
    fields_to_go-plain ((string_value key, v) ∷ rest) ends_well made p =
        Gives-bind (is_plain numbers) (have_plain numbers) (convert v) _ (plain v) (λ a q.
          fields_to_go-plain rest ends_well (set_field key a made)
            (have_plain-set_field numbers key a made q p))
    fields_to_go-plain ((nil, v) ∷ rest) ends_well made p = tt
    fields_to_go-plain ((boolean b, v) ∷ rest) ends_well made p = tt
    fields_to_go-plain ((int i, v) ∷ rest) ends_well made p = tt
    fields_to_go-plain ((float x, v) ∷ rest) ends_well made p = tt
    fields_to_go-plain ((table t, v) ∷ rest) ends_well made p = tt
    fields_to_go-plain ((virtual_table, v) ∷ rest) ends_well made p = tt
    fields_to_go-plain ((other, v) ∷ rest) ends_well made p = tt

    object_to_go-plain :
        (t : T) → Gives (is_plain numbers) (object_to_go tables numbers bridge h convert t)
    unfolding object_to_go is_plain have_plain
    object_to_go-plain t =
        Gives-bind (have_plain numbers) (is_plain numbers)
          (fields_to_go tables numbers bridge h convert (tables.walk t h).0 (tables.walk t h).1
            no_fields)
          _ (fields_to_go-plain (tables.walk t h).0 (tables.walk t h).1 no_fields refl) (λ b q. q)

    table_to_go-plain :
        (t : T) → Gives (is_plain numbers) (table_to_go tables numbers bridge h convert t)
    unfolding table_to_go
    table_to_go-plain t =
        let object = object_to_go-plain t in
        let array = array_to_go-plain t in
        let P = is_plain numbers in
        Gives-if P (has_meta tables numbers bridge h convert t bridge.object_meta) _ _ object (
          Gives-if P (has_meta tables numbers bridge h convert t bridge.array_meta) _ _ array (
            Gives-if P (has_meta tables numbers bridge h convert t bridge.null_meta) _ _ tt (
              Gives-bind anything P (inspect_table tables numbers bridge h t) _
                (Gives-anything (inspect_table tables numbers bridge h t))
                (λ (count, is_array) _. Gives-if P (is_array && ltb 0 count) _ _ array object))))

  lua_to_go-Gives :
      (fuel : ℕ) (active : List T) (v : Value T F I)
      → Gives (is_plain numbers) (lua_to_go tables numbers bridge h fuel active v)
  unfolding lua_to_go value_to_go is_plain
  lua_to_go-Gives zero active v = tt
  lua_to_go-Gives (suc fuel) active nil = refl
  lua_to_go-Gives (suc fuel) active (boolean b) = refl
  lua_to_go-Gives (suc fuel) active (string_value s) = refl
  lua_to_go-Gives (suc fuel) active (int i) = refl
  lua_to_go-Gives (suc fuel) active (float x) = elim (Bool-cases (numbers.is_finite x)) [
    | inl e ↦ rw (e, value_to_go) e
    | inr e ↦ rw (e, value_to_go) tt
  ]
  lua_to_go-Gives (suc fuel) active (table t) =
      let P = is_plain numbers in
      Gives-if P (t == bridge.null_table) _ _ refl (
        Gives-if P (contains active t) _ _ tt (
          table_to_go-plain (lua_to_go tables numbers bridge h fuel (t ∷ active))
            (lua_to_go-Gives fuel (t ∷ active)) t))
  lua_to_go-Gives (suc fuel) active virtual_table = tt
  lua_to_go-Gives (suc fuel) active other = tt

  -- Each value that `luaToGo` returns can be written as JSON: the floats in it, however deep, are finite, and
  -- all its parts are null, Booleans, strings, numbers, arrays and maps.
  pub lua_to_go-is_plain :
      (fuel : ℕ) (active : List T) (v : Value T F I) (g : GoValue F)
      → lua_to_go tables numbers bridge h fuel active v ≡ ok g
      → is_plain numbers g ≡ true
  lua_to_go-is_plain fuel active v g e =
      subst (Gives (is_plain numbers)) e (lua_to_go-Gives fuel active v)
