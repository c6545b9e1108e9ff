-- ===== src/Records/Hashed.antt =====
-- What stays out of a stored record: the write-only fields of src/records.rs.
use rockbase.Prelude.{
  ltb, length, [], ◌≡◌, refl, sym, ◌∙◌, ap, Bool, true, false, ◌||◌, not, none, some, Text, bytes,
  contains, same, if◌then◌else◌, ok, err, ensure, ◌>>=◌, ◌>>◌, ok-injective, Result-cases,
  Option-cases, Bool-cases, inl, inr,
}
use rockbase.Json.{
  Json, Fields, get, insert, remove, contains_key, get-insert, get-insert_self, get-remove,
  get-remove_self,
}
use rockbase.Env.{Bcrypt}
use rockbase.Http.{Failure, Reply}
use rockbase.Auth.{Who}
use rockbase.Db.{Row, Db, Col, Host, get_collection}
use rockbase.Records.{Effect, epoch_field, verified_field, str_or_empty, hashed, hash_password}
use rockbase.Records.Gate.{fetch_record, email_taken}
use rockbase.Records.Create.{is_auth, prepare_auth, create_core}
use rockbase.Records.Update.{bump_epoch, merged, wants_revoke, patched, update_core}
use rockbase.Records.Steps.{create_core-Created, update_core-Updated}
use rockbase.Records.Rows.{Created-fetched, Updated-fetched}

-- a key without a value
abbrev pub Lacks : Text → Fields → Type 0
Lacks k m = get k m ≡ none

remove-Lacks : (j k : Text) (m : Fields) → Lacks k m → Lacks k (remove j m)
remove-Lacks j k m h = elim (Bool-cases (same j k)) [
  | inl e ↦ cc (get-remove j k m, e)
  | inr e ↦ cc (get-remove j k m, e, h)
]

insert-Lacks :
    (j k : Text) (v : Json) (m : Fields) → same j k ≡ false → Lacks k m → Lacks k (insert j v m)
insert-Lacks j k v m e h = cc (get-insert j k v m, e, h)

hashed-Lacks :
    (bcrypt : Bcrypt) (k : Text) (m : Fields) (pw : Text) (out : Fields)
    → same (bytes "password_hash") k ≡ false
    → Lacks k m
    → hashed bcrypt m pw ≡ ok out
    → Lacks k out
unfolding hashed
hashed-Lacks bcrypt k m pw out e h g = elim (Bool-cases (ltb (length pw) 8)) [
  | inl s ↦ cc (g, s)
  | inr s ↦ elim (Result-cases (bcrypt.hash pw)) [
    | inl (d, i) ↦
        let made : out ≡ insert (bytes "password_hash") (Json.str d) m = cc (g, s, i) in
        ap (get k) made ∙ insert-Lacks (bytes "password_hash") k (Json.str d) m e h
    | inr (x, i) ↦ cc (g, s, i)
  ]
]

hash_password-Lacks :
    (bcrypt : Bcrypt) (k : Text) (m out : Fields)
    → same (bytes "password_hash") k ≡ false
    → Lacks k m
    → hash_password bcrypt m ≡ ok out
    → Lacks k out
unfolding hash_password
hash_password-Lacks bcrypt k m out e h g = elim (Option-cases (get (bytes "password") m)) [
  | inl n ↦ cc (g, n, h)
  | inr (v, i) ↦
      hashed-Lacks bcrypt k (remove (bytes "password") m) (str_or_empty (some v)) out e
        (remove-Lacks (bytes "password") k m h) (rw (i, hash_password) at g)
]

-- a plain password is replaced by its hash
hash_password-Lacks_password :
    (bcrypt : Bcrypt) (m out : Fields)
    → hash_password bcrypt m ≡ ok out
    → Lacks (bytes "password") out
unfolding hash_password same
hash_password-Lacks_password bcrypt m out g = elim (Option-cases (get (bytes "password") m)) [
  | inl n ↦ cc (g, n)
  | inr (v, i) ↦
      hashed-Lacks bcrypt (bytes "password") (remove (bytes "password") m) (str_or_empty (some v))
        out refl (get-remove_self (bytes "password") m) (rw (i, hash_password) at g)
]

-- what an update strips of its patch, and what it keeps for itself
pub record Stripped (m : Fields) : Type 0 where
  pub password : Lacks (bytes "password") m
  pub old : Lacks (bytes "oldPassword") m
  pub revoke : Lacks (bytes "revokeTokens") m

bump_epoch-Lacks :
    (k : Text) (m : Fields) → same epoch_field k ≡ false → Lacks k m → Lacks k (bump_epoch m)
unfolding bump_epoch
bump_epoch-Lacks k m e h = insert-Lacks epoch_field k _ m e h

bumped-Lacks :
    (k : Text) (b : Bool) (m out : Fields)
    → same epoch_field k ≡ false
    → Lacks k m
    → (if b then bump_epoch m else m) ≡ out
    → Lacks k out
bumped-Lacks k true m out e h g = cc (g, bump_epoch-Lacks k m e h)
bumped-Lacks k false m out e h g = cc (g, h)

patched-Stripped :
    (host : Host) (data_text : Text) (patch out : Fields)
    → patched host data_text patch ≡ ok out
    → Stripped out
unfolding patched merged same epoch_field
patched-Stripped host data_text patch out g =
    let m = merged host data_text patch in
    let gone : (k : Text) → _ =
      λ k. bumped-Lacks k (wants_revoke patch || contains_key (bytes "password") patch) in
    elim (Result-cases (hash_password host.bcrypt m)) [
      | inl (d, i) ↦
          let left = ok-injective (rw (i) at g) in
          record {
            password =
                gone (bytes "password") d out refl (hash_password-Lacks_password host.bcrypt m d i)
                  left;
            old =
                gone (bytes "oldPassword") d out refl
                  (hash_password-Lacks host.bcrypt (bytes "oldPassword") m d refl
                    (remove-Lacks (bytes "revokeTokens") (bytes "oldPassword") _
                      (get-remove_self (bytes "oldPassword") _))
                    i)
                  left;
            revoke =
                gone (bytes "revokeTokens") d out refl
                  (hash_password-Lacks host.bcrypt (bytes "revokeTokens") m d refl
                    (get-remove_self (bytes "revokeTokens") _) i)
                  left;
          }
      | inr (x, i) ↦ cc (g, i)
    ]

steps-eq-ok :
    (a b c : Bool) (r : Reply Fields) (f : Fields → Fields) (e e' e'' : Failure) {out : Fields}
    → (do ensure a e; ensure b e'; d ← r; ensure c e''; ok (f d)) ≡ ok out
    → (d : Fields) × (r ≡ ok d) × (out ≡ f d)
steps-eq-ok true true true (ok d) f e e' e'' h = (d, refl, cc (h))
steps-eq-ok true true true (err x) f e e' e'' h = cc (h)
steps-eq-ok true true false (ok d) f e e' e'' h = cc (h)
steps-eq-ok true true false (err x) f e e' e'' h = cc (h)
steps-eq-ok true false c r f e e' e'' h = cc (h)
steps-eq-ok false b c r f e e' e'' h = cc (h)

prepare_auth-eq-ok :
    (host : Host) (db : Db) (name : Text) (m out : Fields)
    → prepare_auth host db name m ≡ ok out
    → Lacks (bytes "password") out × (get verified_field out ≡ some (Json.bool false))
unfolding prepare_auth same verified_field
prepare_auth-eq-ok host db name m out h =
    let email = str_or_empty (get (bytes "email") m) in
    let (d, i, made) =
      steps-eq-ok (contains email (bytes "@")) (contains_key (bytes "password") m)
        (not (email_taken host.serde db name email [])) (hash_password host.bcrypt m)
        (insert verified_field (Json.bool false)) _ _ _ h in
    (
      ap (get (bytes "password")) made
          ∙ insert-Lacks verified_field (bytes "password") (Json.bool false) d refl
              (hash_password-Lacks_password host.bcrypt m d i),
      ap (get verified_field) made ∙ get-insert_self verified_field (Json.bool false) d,
    )

-- The record that a successful update leaves is stored as the text of an object without `password`,
-- `oldPassword` and `revokeTokens`.
pub update_core-Stripped :
    (host : Host) (db : Db) (w : Who) (name id : Text) (body : Json) (ts : Text) (out : Effect × Db)
    → update_core host db w name id body ts ≡ ok out
    → (row : Row) × (m : Fields) × (fetch_record out.1 name id ≡ some row)
      × (row.data_text ≡ host.serde.to_string (Json.obj m))
      × Stripped m
update_core-Stripped host db w name id body ts out h =
    let u = update_core-Updated host db w name id body ts out h in
    let e = Updated-fetched host db w name id body ts out u in
    (_, u.data_map, e, refl, patched-Stripped host u.row.data_text u.patch u.data_map u.patches)

-- The record that a successful create leaves in an auth collection is stored as the text of an object
-- without `password` and with `verified` false.
pub create_core-Lacks_password :
    (host : Host) (db : Db) (w : Who) (name : Text) (body : Json) (id ts : Text) (out : Effect × Db)
    (col : Col)
    → create_core host db w name body id ts ≡ ok out
    → get_collection host.serde db name ≡ some col
    → is_auth col ≡ true
    → (row : Row) × (m : Fields) × (fetch_record out.1 name id ≡ some row)
      × (row.data_text ≡ host.serde.to_string (Json.obj m))
      × Lacks (bytes "password") m
      × (get verified_field m ≡ some (Json.bool false))
create_core-Lacks_password host db w name body id ts out col h f a =
    let c = create_core-Created host db w name body id ts out h in
    let e = Created-fetched host db w name body id ts out c in
    let same_col : col ≡ c.col = cc (f, c.found) in
    let prepares = rw (sym same_col, a) at c.prepares in
    let (gone, unverified) = prepare_auth-eq-ok host db name c.data_map c.prepared prepares in
    (_, c.prepared, e, refl, gone, unverified)
