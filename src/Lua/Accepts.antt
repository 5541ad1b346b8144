-- ===== src/Lua/Accepts.antt =====
-- What `goToLua` of internal/luatest/json_bridge.go accepts.
use sink_production_suite.Prelude.{
  ℕ, suc, String, Bool, true, false, ◌&&◌, none, some, ◌≡◌, ◌∙◌, refl, inl, inr, Option-cases,
  Bool-cases,
}
use sink_production_suite.Lua.Values.{
  Tables, Numbers, Bridge, GoValue, go_null, go_bool, go_string, go_number, go_float, go_array,
  go_object, unsupported, GoItems, no_items, item, GoFields, no_fields, field, Result, ok, failed,
  ◌>>=◌,
}
use sink_production_suite.Lua.ToLua.{number_to_lua, new_table, go_to_lua, put_items, put_fields}

module _ {F I : Type 0} (numbers : Numbers F I) where
  -- A number that is an `int64` or a finite float.
  abbrev pub is_number : String → Bool
  is_number digits = elim (numbers.parse_int digits) [
    | some i ↦ true
    | none ↦ elim (numbers.parse_float digits) [ none ↦ false | some x ↦ numbers.is_finite x ]
  ]

  -- A value made of null, Booleans, strings, such numbers, arrays and maps.
  unfoldable mutual
    pub is_json : GoValue F → Bool
    is_json go_null = true
    is_json (go_bool b) = true
    is_json (go_string s) = true
    is_json (go_number digits) = is_number digits
    is_json (go_float x) = false
    is_json (go_array items) = are_json items
    is_json (go_object fields) = have_json fields
    is_json unsupported = false

    pub are_json : GoItems F → Bool
    are_json no_items = true
    are_json (item v rest) = is_json v && are_json rest

    pub have_json : GoFields F → Bool
    have_json no_fields = true
    have_json (field key v rest) = is_json v && have_json rest

abbrev pub is_ok : {A : Type 0} → Result A → Bool
is_ok (ok a) = true
is_ok (failed e) = false

is_ok-bind :
    {A B : Type 0} (r : Result A) (f : A → Result B) (b d : Bool)
    → is_ok r ≡ b
    → ((a : A) → is_ok (f a) ≡ d)
    → is_ok (r >>= f) ≡ (b && d)
is_ok-bind (ok a) f true d h g = g a
is_ok-bind (ok a) f false d h g = absurd (cc h)
is_ok-bind (failed e) f true d h g = absurd (cc h)
is_ok-bind (failed e) f false d h g = refl

is_ok-end : {A B : Type 0} (r : Result A) (f : A → B) → is_ok (r >>= λ a. ok (f a)) ≡ is_ok r
is_ok-end (ok a) f = refl
is_ok-end (failed e) f = refl

module _ {T F I H : Type 0} (tables : Tables T F I H) (numbers : Numbers F I)
    (bridge : Bridge T) where
  is_ok-number :
      (digits : String) (h : H)
      → is_ok (number_to_lua tables numbers bridge digits h) ≡ is_number numbers digits
  unfolding number_to_lua
  is_ok-number digits h = elim (Option-cases (numbers.parse_int digits)) [
    | inr (i, e) ↦ rw (e, number_to_lua, is_number) refl
    | inl e ↦ elim (Option-cases (numbers.parse_float digits)) [
      | inl g ↦ rw (e, g, number_to_lua, is_number) refl
      | inr (x, g) ↦ elim (Bool-cases (numbers.is_finite x)) [
        | inl k ↦ rw (e, g, k, number_to_lua, is_number) refl
        | inr k ↦ rw (e, g, k, number_to_lua, is_number) refl
      ]
    ]
  ]

  mutual
    unfolding go_to_lua put_items put_fields is_json are_json have_json

    converts_json :
        (v : GoValue F) (h : H) → is_ok (go_to_lua tables numbers bridge v h) ≡ is_json numbers v
    converts_json go_null h = refl
    converts_json (go_bool b) h = refl
    converts_json (go_string s) h = refl
    converts_json (go_number digits) h = is_ok-number digits h
    converts_json (go_float x) h = refl
    converts_json (go_array items) h =
        let (t, h1) = new_table tables numbers bridge bridge.array_meta h in
        is_ok-end (put_items tables numbers bridge items t 1 h1) _ ∙ put_items-is_ok items t 1 h1
    converts_json (go_object fields) h =
        let (t, h1) = new_table tables numbers bridge bridge.object_meta h in
        is_ok-end (put_fields tables numbers bridge fields t h1) _ ∙ put_fields-is_ok fields t h1
    converts_json unsupported h = refl

    put_items-is_ok :
        (items : GoItems F) (t : T) (index : ℕ) (h : H)
        → is_ok (put_items tables numbers bridge items t index h) ≡ are_json numbers items
    put_items-is_ok no_items t index h = refl
    put_items-is_ok (item v rest) t index h =
        is_ok-bind (go_to_lua tables numbers bridge v h) _ (is_json numbers v)
          (are_json numbers rest) (converts_json v h)
          (λ (converted, h1).
            put_items-is_ok rest t (suc index) (tables.set_int t index converted h1))

    put_fields-is_ok :
        (fields : GoFields F) (t : T) (h : H)
        → is_ok (put_fields tables numbers bridge fields t h) ≡ have_json numbers fields
    put_fields-is_ok no_fields t h = refl
    put_fields-is_ok (field key v rest) t h =
        is_ok-bind (go_to_lua tables numbers bridge v h) _ (is_json numbers v)
          (have_json numbers rest) (converts_json v h)
          (λ (converted, h1). put_fields-is_ok rest t (tables.set_string t key converted h1))

  -- On any heap `goToLua` makes a value of just those Go values that are made of null, Booleans, strings,
  -- numbers that are an `int64` or a finite float, arrays and maps.
  pub go_to_lua-is_ok :
      (v : GoValue F) (h : H) → is_ok (go_to_lua tables numbers bridge v h) ≡ is_json numbers v
  go_to_lua-is_ok v h = converts_json v h
