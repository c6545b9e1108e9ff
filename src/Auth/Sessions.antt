-- ===== src/Auth/Sessions.antt =====
-- Tokens of src/auth.rs and the revocation counter that src/records.rs keeps.
use rockbase.Prelude.{
  ℕ, ◌≡◌, ◌≢◌, refl, ap, sym, subst, ◌∙◌, inl, inr, true, false, ◌||◌, Option, none, some, Text,
  bytes, same, arith, ltb, length, Result-cases, ok, Option-cases, Bool-cases, >>=-eq-ok,
}
use rockbase.Prelude.Int.{ℤ, pos, negsuc, int_eq, int_eq_iff, int_succ, IsI64}
use rockbase.Json.{
  Json, Fields, get, insert, remove, contains_key, as_i64, as_object, get-insert, get-remove,
  get-insert_self,
}
use rockbase.Env.{Serde, Bcrypt}
use rockbase.Db.{Row, Db, Host, map_or_empty}
use rockbase.Records.{
  epoch_field, token_epoch, epoch_of, hash_password, hashed, str_or_empty, Effect,
}
use rockbase.Records.Gate.{fetch_record}
use rockbase.Records.Update.{
  merge, merged, wants_revoke, bump_epoch, patched, update_core, int_or_zero,
}
use rockbase.Records.Steps.{update_core-Updated}
use rockbase.Records.Rows.{Updated-fetched}
use rockbase.Auth.{Who}
use rockbase.Auth.Tokens.{Claims, Jwt, Secrets, claimed, from_jwt}

-- serde_json reads an integer of an object back as it was written.
abbrev pub KeepsInts : Serde → Type 0
KeepsInts serde =
    (k : Text) (m : Fields) (n : ℤ)
    → IsI64 n
    → get k m ≡ some (Json.int n)
    → (m' : Fields) × (serde.from_str (serde.to_string (Json.obj m)) ≡ some m')
      × (get k m' ≡ some (Json.int n))

int_succ-IsI64 : (n : ℤ) → IsI64 n → IsI64 (int_succ n)
unfolding int_succ
int_succ-IsI64 (pos n) h = ground arith
int_succ-IsI64 (negsuc ℕ.zero) h = omega arith
int_succ-IsI64 (negsuc (ℕ.suc n)) h = omega (arith, h)

int_succ-ne : (n : ℤ) → int_eq (int_succ n) n ≡ false
unfolding int_succ
int_succ-ne (pos n) = ground arith
int_succ-ne (negsuc ℕ.zero) = refl
int_succ-ne (negsuc (ℕ.suc n)) = ground arith

as_i64-int : (n : ℤ) → IsI64 n → as_i64 (Json.int n) ≡ some n
unfolding as_i64
as_i64-int (pos n) h = ground arith
as_i64-int (negsuc n) h = ground arith

as_i64-IsI64 : (v : Json) (n : ℤ) → as_i64 v ≡ some n → IsI64 n
unfolding as_i64
as_i64-IsI64 (Json.int (pos n)) m h = ground arith
as_i64-IsI64 (Json.int (negsuc n)) m h = ground arith
as_i64-IsI64 Json.null m h = cc
as_i64-IsI64 (Json.bool b) m h = cc
as_i64-IsI64 (Json.float f) m h = cc
as_i64-IsI64 (Json.str s) m h = cc
as_i64-IsI64 (Json.arr vs) m h = cc
as_i64-IsI64 (Json.obj fs) m h = cc

contains_key-get : (k : Text) (m : Fields) → get k m ≡ none → contains_key k m ≡ false
unfolding get contains_key
contains_key-get k Fields.end h = refl
contains_key-get k (Fields.field j v m) h = ground (arith, contains_key-get k m)

-- a key that a patch leaves alone
get-merge : (k : Text) (patch m : Fields) → get k patch ≡ none → get k (merge patch m) ≡ get k m
unfolding merge get
get-merge k Fields.end m h = refl
get-merge k (Fields.field j v patch) m h =
    ground (arith, get-merge k patch (insert j v m), get-insert j k v m)

hashed-epoch :
    (bcrypt : Bcrypt) (rest : Fields) (pw : Text) (m : Fields)
    → hashed bcrypt rest pw ≡ ok m
    → get epoch_field m ≡ get epoch_field rest
unfolding hashed epoch_field bytes same
hashed-epoch bcrypt rest pw m h = elim (Bool-cases (ltb (length pw) 8)) [
  | inl e ↦ cc (h, e)
  | inr e ↦ elim (Result-cases (bcrypt.hash pw)) [
    | inl (s, f) ↦ cc (h, e, f, get-insert (bytes "password_hash") epoch_field (Json.str s) rest)
    | inr (_, f) ↦ cc (h, e, f)
  ]
]

hash_password-epoch :
    (bcrypt : Bcrypt) (m m' : Fields)
    → hash_password bcrypt m ≡ ok m'
    → get epoch_field m' ≡ get epoch_field m
unfolding hash_password epoch_field bytes same
hash_password-epoch bcrypt m m' h = elim (Option-cases (get (bytes "password") m)) [
  | inl e ↦ cc (h, e)
  | inr (pw, e) ↦
      hashed-epoch bcrypt (remove (bytes "password") m) (str_or_empty (some pw)) m'
        (rw (e, hash_password) at h)
      ∙ get-remove (bytes "password") epoch_field m
]

merged-epoch :
    (host : Host) (text : Text) (patch : Fields)
    → get epoch_field patch ≡ none
    → get epoch_field (merged host text patch)
      ≡ get epoch_field (map_or_empty (host.serde.from_str text))
unfolding merged epoch_field bytes same
merged-epoch host text patch h =
    get-remove (bytes "revokeTokens") epoch_field _
    ∙ get-remove (bytes "oldPassword") epoch_field _
    ∙ get-merge epoch_field patch (map_or_empty (host.serde.from_str text)) h

epoch_of-or_zero : (o : Option Json) (n : ℤ) → epoch_of o ≡ some n → (int_or_zero o ≡ n) × IsI64 n
epoch_of-or_zero none n h =
    let zero_is : pos 0 ≡ n = cc in (zero_is, subst IsI64 zero_is (omega arith))
epoch_of-or_zero (some v) n h =
    let read : as_i64 v ≡ some n = h in (rw (read, int_or_zero) refl, as_i64-IsI64 v n read)

stored_epoch :
    (serde : Serde) (text : Text) (n : ℤ)
    → token_epoch serde text ≡ some n
    → (int_or_zero (get epoch_field (map_or_empty (serde.from_str text))) ≡ n) × IsI64 n
unfolding token_epoch
stored_epoch serde text n h = elim (Option-cases (serde.from_str text)) [
  | inl e ↦ cc (h, e)
  | inr (m, e) ↦ rw e (epoch_of-or_zero (get epoch_field m) n (rw (e, token_epoch) at h))
]

patched-epoch :
    (host : Host) (text : Text) (patch m : Fields) (n : ℤ)
    → patched host text patch ≡ ok m
    → (wants_revoke patch || contains_key (bytes "password") patch) ≡ true
    → get epoch_field patch ≡ none
    → token_epoch host.serde text ≡ some n
    → get epoch_field m ≡ some (Json.int (int_succ n))
unfolding patched bump_epoch
patched-epoch host text patch m n h bumps free stored =
    let (hashed_map, e₁, h₁) = >>=-eq-ok _ _ h in
    let same_epoch =
      hash_password-epoch host.bcrypt _ hashed_map e₁ ∙ merged-epoch host text patch free in
    let was_n = ap int_or_zero same_epoch ∙ (stored_epoch host.serde text n stored).0 in
    let bumped : bump_epoch hashed_map ≡ m = cc (bumps, h₁) in
    ap (get epoch_field) (sym bumped)
    ∙ get-insert_self epoch_field (Json.int (int_succ (int_or_zero (get epoch_field hashed_map))))
        hashed_map
    ∙ ap (λ i. some (Json.int (int_succ i))) was_n

-- the text that holds a map whose counter is a number has that number for its counter
token_epoch-stored :
    (serde : Serde) (m : Fields) (n : ℤ)
    → KeepsInts serde
    → IsI64 n
    → get epoch_field m ≡ some (Json.int n)
    → token_epoch serde (serde.to_string (Json.obj m)) ≡ some n
unfolding token_epoch
token_epoch-stored serde m n keeps small h =
    let (m', e, f) = keeps epoch_field m n small h in rw (e, f, token_epoch) (as_i64-int n small)

from_jwt-claimed :
    (serde : Serde) (jwt : Jwt) (s : Secrets) (db : Db) (t : Text) (c : Claims) (row : Row)
    → jwt.decode s.jwt_secret t ≡ some c
    → fetch_record db c.col c.sub ≡ some row
    → from_jwt serde jwt s db t ≡ claimed serde c (some row)
unfolding from_jwt claimed
from_jwt-claimed serde jwt s db t c row d f = rw (d, f, from_jwt) refl

-- A token is no identity when the counter of its record is another number.
claimed-other :
    (serde : Serde) (c : Claims) (row : Row) (n : ℤ)
    → token_epoch serde row.data_text ≡ some n
    → int_eq n c.epoch ≡ false
    → claimed serde c (some row) ≡ none
unfolding claimed
claimed-other serde c row n e ne = rw (e, ne, claimed) refl

-- the counter of the record behind an accepted token
claimed-epoch :
    (serde : Serde) (c : Claims) (row : Row)
    → claimed serde c (some row) ≢ none
    → token_epoch serde row.data_text ≡ some c.epoch
unfolding claimed
claimed-epoch serde c row a = elim (Option-cases (token_epoch serde row.data_text)) [
  | inl e ↦ absurd (a (rw (e, claimed) refl))
  | inr (n, e) ↦ elim (Bool-cases (int_eq n c.epoch)) [
    | inl same_n ↦ e ∙ ap some (int_eq_iff n c.epoch same_n)
    | inr ne ↦ absurd (a (claimed-other serde c row n e ne))
  ]
]

-- An update that changes the password or asks for revocation ends every session of its record: a
-- token for that record that was an identity before it is none after it. The patch does not name
-- the counter itself, and serde_json reads an integer back as it wrote it.
pub update_core-revokes :
    (host : Host) (jwt : Jwt) (s : Secrets) (db : Db) (w : Who) (body : Json) (patch : Fields)
    (ts t : Text) (c : Claims) (out : Effect × Db)
    → KeepsInts host.serde
    → as_object body ≡ some patch
    → (wants_revoke patch || contains_key (bytes "password") patch) ≡ true
    → get epoch_field patch ≡ none
    → jwt.decode s.jwt_secret t ≡ some c
    → from_jwt host.serde jwt s db t ≢ none
    → update_core host db w c.col c.sub body ts ≡ ok out
    → from_jwt host.serde jwt s out.1 t ≡ none
update_core-revokes host jwt s db w body patch ts t c out keeps object bumps free d accepted h =
    let u = update_core-Updated host db w c.col c.sub body ts out h in
    let same_patch : u.patch ≡ patch = cc (u.object, object) in
    let stored =
      claimed-epoch host.serde c u.row
        (λ e. accepted (from_jwt-claimed host.serde jwt s db t c u.row d u.fetched ∙ e)) in
    let small = (stored_epoch host.serde u.row.data_text c.epoch stored).1 in
    let counter =
      patched-epoch host u.row.data_text patch u.data_map c.epoch
        (subst (λ p. patched host u.row.data_text p ≡ ok u.data_map) same_patch u.patches) bumps
        free stored in
    let written =
      token_epoch-stored host.serde u.data_map (int_succ c.epoch) keeps
        (int_succ-IsI64 c.epoch small) counter in
    from_jwt-claimed host.serde jwt s out.1 t c _ d
      (Updated-fetched host db w c.col c.sub body ts out u)
    ∙ claimed-other host.serde c _ (int_succ c.epoch) written (int_succ-ne c.epoch)
