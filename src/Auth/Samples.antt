-- ===== src/Auth/Samples.antt =====
-- A serde_json that writes the integers of an object and reads them back.
use rockbase.Prelude.{
  zero, suc, ◌≡◌, refl, ap, ◌∙◌, some, [], ◌∷◌, ◌++◌, append_assoc, append-nil, sym, Text, arith,
}
use rockbase.Prelude.Int.{ℤ, pos, negsuc}
use rockbase.Json.{Json, Fields, get}
use rockbase.Env.{Serde}
use rockbase.Auth.Sessions.{KeepsInts}

-- each byte of a key moved up by two, then 0 or 1 for the sign, then the magnitude
encode_key : Text → Text → Text
encode_key [] rest = rest
encode_key (c ∷ k) rest = suc (suc c) ∷ encode_key k rest

unfoldable pub encode : Fields → Text
unfolding encode_key
encode Fields.end = []
encode (Fields.field k (Json.int (pos n)) m) = encode_key k (0 ∷ n ∷ encode m)
encode (Fields.field k (Json.int (negsuc n)) m) = encode_key k (1 ∷ n ∷ encode m)
encode (Fields.field k v m) = encode m

unfoldable pub decode : Text → Text → Fields
decode k (zero ∷ n ∷ s) = Fields.field k (Json.int (pos n)) (decode [] s)
decode k (suc zero ∷ n ∷ s) = Fields.field k (Json.int (negsuc n)) (decode [] s)
decode k (suc (suc c) ∷ s) = decode (k ++ c ∷ []) s
decode k _ = Fields.end

abbrev encode_object : Json → Text
encode_object (Json.obj m) = encode m
encode_object _ = []

abbrev pub int_serde : Serde
int_serde = record {
  to_string = λ v. encode_object v;
  from_str = λ s. some (decode [] s);
  from_str_list = λ s. some [];
}

decode-encode_key : (j k s : Text) → decode j (encode_key k s) ≡ decode (j ++ k) s
unfolding decode encode_key
decode-encode_key j [] s = ap (λ x. decode x s) (sym (append-nil j))
decode-encode_key j (c ∷ k) s =
    decode-encode_key (j ++ c ∷ []) k s ∙ ap (λ x. decode x s) (append_assoc j (c ∷ []) k)

get-decode :
    (k : Text) (m : Fields) (n : ℤ)
    → get k m ≡ some (Json.int n)
    → get k (decode [] (encode m)) ≡ some (Json.int n)
unfolding get encode decode
get-decode k Fields.end n h = cc
get-decode k (Fields.field j (Json.int (pos i)) m) n h =
    ap (get k) (decode-encode_key [] j (0 ∷ i ∷ encode m)) ∙ ground (arith, get-decode k m n)
get-decode k (Fields.field j (Json.int (negsuc i)) m) n h =
    ap (get k) (decode-encode_key [] j (1 ∷ i ∷ encode m)) ∙ ground (arith, get-decode k m n)
get-decode k (Fields.field j Json.null m) n h = ground (arith, get-decode k m n)
get-decode k (Fields.field j (Json.bool b) m) n h = ground (arith, get-decode k m n)
get-decode k (Fields.field j (Json.float f) m) n h = ground (arith, get-decode k m n)
get-decode k (Fields.field j (Json.str s) m) n h = ground (arith, get-decode k m n)
get-decode k (Fields.field j (Json.arr vs) m) n h = ground (arith, get-decode k m n)
get-decode k (Fields.field j (Json.obj fs) m) n h = ground (arith, get-decode k m n)

pub int_serde-KeepsInts : KeepsInts int_serde
int_serde-KeepsInts k m n small h = (decode [] (encode m), refl, get-decode k m n h)
