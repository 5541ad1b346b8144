-- ===== src/Lua/Values.antt =====
-- The values that internal/luatest/json_bridge.go translates. The Lua machine is a parameter: its tables, by
-- identity, on a heap; and so are the numbers, with their parsing and printing.
use sink_production_suite.Prelude.{ℕ, String, Bool, Option, List}

-- A value of the Lua machine, with a table that is none of its own and a value of another type.
pub data Value (T F I : Type 0) : Type 0 where
  nil : Value T F I
  boolean : Bool → Value T F I
  string_value : String → Value T F I
  int : I → Value T F I
  float : F → Value T F I
  table : T → Value T F I
  virtual_table other : Value T F I

-- The tables of the machine. `walk` is what the calls of `Next` give from `nil` on: the keys with their
-- values, and whether it ends well.
pub record Tables (T F I H : Type 0) : Type 0 where
  pub create : H → T × H
  pub set_metatable : T → T → H → H
  pub set_int : T → ℕ → Value T F I → H → H
  pub set_string : T → String → Value T F I → H → H
  pub metatable : T → H → Option T
  pub get_int : T → ℕ → H → Value T F I
  pub len : T → H → ℕ
  pub walk : T → H → List (Value T F I × Value T F I) × Bool

pub record Numbers (F I : Type 0) : Type 0 where
  pub parse_int : String → Option I
  pub parse_float : String → Option F
  pub is_finite : F → Bool
  pub format_int : I → String
  pub is_positive : I → Bool

pub record Bridge (T : Type 0) : Type 0 where
  pub object_meta : T
  pub array_meta : T
  pub null_meta : T
  pub null_table : T

-- A value of Go's `any`: a map is the list of its fields in ascending order of their keys.
mutual
  pub data GoValue (F : Type 0) : Type 0 where
    go_null : GoValue F
    go_bool : Bool → GoValue F
    go_string go_number : String → GoValue F
    go_float : F → GoValue F
    go_array : GoItems F → GoValue F
    go_object : GoFields F → GoValue F
    unsupported : GoValue F

  pub data GoItems (F : Type 0) : Type 0 where
    no_items : GoItems F
    item : GoValue F → GoItems F → GoItems F

  pub data GoFields (F : Type 0) : Type 0 where
    no_fields : GoFields F
    field : String → GoValue F → GoFields F → GoFields F

-- An error, by its kind.
pub data Failure : Type 0 where
  bad_number unsupported_value not_finite has_virtual_table cycle bad_null walk_failed : Failure
  not_contiguous bad_key out_of_fuel : Failure

pub data Result (A : Type 0) : Type 0 where
  ok : A → Result A
  failed : Failure → Result A

infixl 5 ◌>>=◌
abbrev pub ◌>>=◌ : {A B : Type 0} → Result A → (A → Result B) → Result B
ok a >>= f = f a
failed e >>= f = failed e
