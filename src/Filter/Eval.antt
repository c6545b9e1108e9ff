-- ===== src/Filter/Eval.antt =====
-- src/filter.rs: evaluation of a `Node` on a record body in memory.
use rockbase.Prelude.{
  ℕ, ◌/◌, ◌%◌, ◌^◌, ◌+◌, Bool, false, not, ◌&&◌, ◌||◌, Option, none, some, [], ◌∷◌, Text, ◌==◌, leb,
  contains, if◌then◌else◌,
}
use rockbase.Prelude.Int.{pos}
use rockbase.Json.{Json, Fields, get, is_null, json_eq}
use rockbase.Env.{F64, Serde}
use rockbase.Filter.{
  Op, eq, ne, gt, ge, lt, like, not_like, integer, real, text, Operand, col, auth, val, Node, or,
  and, cmp,
}

-- `unwrap_or(Json::Null)`
abbrev pub or_null : Option Json → Json
or_null none = Json.null
or_null (some v) = v

-- `json!(f)`: a float is a number if its exponent is not all ones
unfoldable pub float_json : ℕ → Json
float_json f = if f / 2 ^ 52 % 2048 == 2047 then Json.null else Json.float f

-- `Operand::json`
unfoldable pub operand_json : Text → Fields → Operand → Json
unfolding get float_json
operand_json id m (col f) = or_null (get f m)
operand_json id m auth = Json.str id
operand_json id m (val (text s)) = Json.str s
operand_json id m (val (integer n)) = Json.int n
operand_json id m (val (real f)) = float_json f
operand_json id m _ = Json.null

-- the number that a value is compared by, a Boolean being 1 or 0
unfoldable pub num : F64 → Json → Option ℕ
num f64 (Json.bool b) = some (f64.of_int (pos (if b then 1 else 0)))
num f64 (Json.int n) = some (f64.of_int n)
num f64 (Json.float f) = some f
num f64 _ = none

unfoldable pub value_text : Serde → Json → Text
value_text serde (Json.str s) = s
value_text serde v = serde.to_string v

-- `to_ascii_lowercase`
unfoldable pub lower : ℕ → ℕ
lower c = if leb b'A' c && leb c b'Z' then c + 32 else c

unfoldable pub to_lower : Text → Text
unfolding lower
to_lower [] = []
to_lower (c ∷ s) = lower c ∷ to_lower s

unfoldable pub compare_num : F64 → Op → ℕ → ℕ → Bool
compare_num f64 eq a b = f64.eq a b
compare_num f64 ne a b = not (f64.eq a b)
compare_num f64 gt a b = f64.lt b a
compare_num f64 ge a b = f64.le b a
compare_num f64 lt a b = f64.lt a b
compare_num f64 _ a b = f64.le a b

-- ordering only makes sense between two numbers
unfoldable pub compare_other : F64 → Op → Json → Json → Bool
unfolding json_eq
compare_other f64 eq a b = json_eq f64.eq a b
compare_other f64 ne a b = not (json_eq f64.eq a b)
compare_other f64 _ a b = false

compare_by : F64 → Op → Option ℕ → Option ℕ → Json → Json → Bool
compare_by f64 op (some x) (some y) a b = compare_num f64 op x y
compare_by f64 op _ _ a b = compare_other f64 op a b

-- a comparison of two present values
unfoldable pub compare_json : F64 → Serde → Op → Json → Json → Bool
unfolding value_text to_lower contains compare_by compare_num compare_other num
compare_json f64 serde like a b =
    contains (to_lower (value_text serde a)) (to_lower (value_text serde b))
compare_json f64 serde not_like a b =
    not (contains (to_lower (value_text serde a)) (to_lower (value_text serde b)))
compare_json f64 serde op a b = compare_by f64 op (num f64 a) (num f64 b) a b

-- `x = null` and `x != null` test presence; a comparison with a missing value is never true
unfoldable pub eval_cmp : F64 → Serde → Text → Fields → Operand → Op → Operand → Bool
unfolding operand_json is_null compare_json
eval_cmp f64 serde id m l eq Operand.null = is_null (operand_json id m l)
eval_cmp f64 serde id m l op Operand.null = not (is_null (operand_json id m l))
eval_cmp f64 serde id m l op r =
    let a = operand_json id m l in
    let b = operand_json id m r in
    if is_null a || is_null b then false else compare_json f64 serde op a b

-- `Node::eval`
unfoldable pub eval : F64 → Serde → Text → Fields → Node → Bool
unfolding eval_cmp
eval f64 serde id m (or a b) = eval f64 serde id m a || eval f64 serde id m b
eval f64 serde id m (and a b) = eval f64 serde id m a && eval f64 serde id m b
eval f64 serde id m (cmp l op r) = eval_cmp f64 serde id m l op r
