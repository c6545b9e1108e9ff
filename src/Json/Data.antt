-- ===== src/Json/Data.antt =====
-- JSON values and their accessors.
use rockbase.Prelude.{
  ℕ, Bool, true, false, ◌&&◌, Option, none, some, List, [], ◌∷◌, Text, ltb, same, if◌then◌else◌,
}
use rockbase.Prelude.Int.{ℤ, pos, negsuc, int_eq, i64_half}

-- A number is an integer or a float, the float by its 64 bits.
mutual
  pub data Json : Type 0 where
    null : Json
    bool : Bool → Json
    int : ℤ → Json
    float : ℕ → Json
    str : Text → Json
    arr : Items → Json
    obj : Fields → Json

  pub data Items : Type 0 where
    nil : Items
    cons : Json → Items → Items

  pub data Fields : Type 0 where
    end : Fields
    field : Text → Json → Fields → Fields

unfoldable pub as_str : Json → Option Text
as_str (str s) = some s
as_str _ = none

unfoldable pub as_bool : Json → Option Bool
as_bool (bool b) = some b
as_bool _ = none

-- An integer above the range of `i64` is a number, and no `i64`.
unfoldable pub as_i64 : Json → Option ℤ
as_i64 (int (pos n)) = if ltb n i64_half then some (pos n) else none
as_i64 (int (negsuc n)) = if ltb n i64_half then some (negsuc n) else none
as_i64 _ = none

unfoldable pub as_object : Json → Option Fields
as_object (obj m) = some m
as_object _ = none

unfoldable pub items_list : Items → List Json
items_list nil = []
items_list (cons v vs) = v ∷ items_list vs

unfoldable pub list_items : List Json → Items
list_items [] = nil
list_items (v ∷ vs) = cons v (list_items vs)

unfoldable pub as_array : Json → Option (List Json)
unfolding items_list
as_array (arr vs) = some (items_list vs)
as_array _ = none

unfoldable pub is_null : Json → Bool
is_null null = true
is_null _ = false

-- `==` on values, given `==` on floats
unfoldable mutual
  pub json_eq : (ℕ → ℕ → Bool) → Json → Json → Bool
  json_eq feq null null = true
  json_eq feq (bool true) (bool true) = true
  json_eq feq (bool false) (bool false) = true
  json_eq feq (int a) (int b) = int_eq a b
  json_eq feq (float a) (float b) = feq a b
  json_eq feq (str s) (str t) = same s t
  json_eq feq (arr xs) (arr ys) = items_eq feq xs ys
  json_eq feq (obj xs) (obj ys) = fields_eq feq xs ys
  json_eq feq _ _ = false

  pub items_eq : (ℕ → ℕ → Bool) → Items → Items → Bool
  items_eq feq nil nil = true
  items_eq feq (cons x xs) (cons y ys) = json_eq feq x y && items_eq feq xs ys
  items_eq feq _ _ = false

  pub fields_eq : (ℕ → ℕ → Bool) → Fields → Fields → Bool
  fields_eq feq end end = true
  fields_eq feq (field k x xs) (field j y ys) = same k j && (json_eq feq x y && fields_eq feq xs ys)
  fields_eq feq _ _ = false
