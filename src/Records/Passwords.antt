-- ===== src/Records/Passwords.antt =====
-- What a change of a password goes through, by `update_core` of src/records.rs.
use rockbase.Prelude.{
  ◌≡◌, ◌≢◌, refl, sym, Bool, true, false, ◌&&◌, not, Option, none, some, [], ◌∷◌, Text, bytes,
  if◌then◌else◌, ok, err, Result-cases, inl, inr,
}
use rockbase.Json.{Json, Fields, get, contains_key, as_object}
use rockbase.Env.{Serde, Bcrypt}
use rockbase.Http.{Failure}
use rockbase.Auth.{Who, admin, user, guest}
use rockbase.Db.{Row, Db, Col, Host, get_collection, map_or_empty}
use rockbase.Records.{Effect, str_of, str_or_empty, accepted, is_blank, check_old_password}
use rockbase.Records.Gate.{fetch_record}
use rockbase.Records.Create.{is_auth}
use rockbase.Records.Update.{is_admin, check_email, check_auth, update_core}
use rockbase.Records.Steps.{update_core-Updated}

-- the hash that a row of an auth collection keeps
abbrev pub stored_hash : Serde → Text → Text
stored_hash serde data_text =
    str_or_empty (get (bytes "password_hash") (map_or_empty (serde.from_str data_text)))

-- a text that is no blank, and that bcrypt accepts for a hash
abbrev pub Knows : Bcrypt → Text → Option Json → Type 0
Knows bcrypt hash supplied =
    (old : Text) × (str_of supplied ≡ some old) × (old ≢ []) × (bcrypt.verify old hash ≡ some true)

known :
    (bcrypt : Bcrypt) (hash : Text) (supplied : Option Json) (o : Option Text) (v : Option Bool)
    (f : Failure)
    → str_of supplied ≡ o
    → v ≡ bcrypt.verify (elim o [ none ↦ [] | some s ↦ s ]) hash
    → (if not (is_blank (elim o [ none ↦ [] | some s ↦ s ])) && accepted v then ok tt else err f)
      ≡ ok tt
    → Knows bcrypt hash supplied
known bcrypt hash supplied none v f e u h = cc
known bcrypt hash supplied (some []) v f e u h = cc
known bcrypt hash supplied (some (c ∷ s)) none f e u h = cc
known bcrypt hash supplied (some (c ∷ s)) (some false) f e u h = cc
known bcrypt hash supplied (some (c ∷ s)) (some true) f e u h = (c ∷ s, e, λ z. cc (z), sym u)

check_old_password-Knows :
    (serde : Serde) (bcrypt : Bcrypt) (data_text : Text) (supplied : Option Json)
    → check_old_password serde bcrypt data_text supplied ≡ ok tt
    → Knows bcrypt (stored_hash serde data_text) supplied
unfolding check_old_password str_or_empty
check_old_password-Knows serde bcrypt data_text supplied h =
    known bcrypt (stored_hash serde data_text) supplied (str_of supplied) _ _ refl refl h

not_admin : (w : Who) → w ≢ admin → is_admin w ≡ false
not_admin admin h = elim (h refl) [ ]
not_admin (user col id) h = refl
not_admin guest h = refl

check_auth-Knows :
    (host : Host) (db : Db) (w : Who) (name id data_text : Text) (patch : Fields)
    → contains_key (bytes "password") patch ≡ true
    → is_admin w ≡ false
    → check_auth host db w name id data_text patch ≡ ok tt
    → Knows host.bcrypt (stored_hash host.serde data_text) (get (bytes "oldPassword") patch)
unfolding check_auth
check_auth-Knows host db w name id data_text patch p a h =
    let old = get (bytes "oldPassword") patch in
    elim (Result-cases (check_email host db name id (str_of (get (bytes "email") patch)))) [
      | inl (u, i) ↦
          check_old_password-Knows host.serde host.bcrypt data_text old (rw (i, p, a) at h)
      | inr (e, i) ↦ cc (h, i)
    ]

-- A caller that is no admin and changes a password through an update of a record of an auth
-- collection gives a text as `oldPassword`, which is not empty and which bcrypt accepts for the hash
-- that the record had.
pub update_core-Knows :
    (host : Host) (db : Db) (w : Who) (name id : Text) (body : Json) (ts : Text) (out : Effect × Db)
    (col : Col) (patch : Fields)
    → update_core host db w name id body ts ≡ ok out
    → w ≢ admin
    → get_collection host.serde db name ≡ some col
    → is_auth col ≡ true
    → as_object body ≡ some patch
    → contains_key (bytes "password") patch ≡ true
    → (row : Row) × (fetch_record db name id ≡ some row)
      × Knows host.bcrypt (stored_hash host.serde row.data_text) (get (bytes "oldPassword") patch)
update_core-Knows host db w name id body ts out col patch h a c i o p =
    let u = update_core-Updated host db w name id body ts out h in
    let same_col : col ≡ u.col = cc (c, u.found) in
    let same_patch : patch ≡ u.patch = cc (o, u.object) in
    let checks = rw (sym same_col, i, sym same_patch) at u.checked in
    (
      u.row,
      u.fetched,
      check_auth-Knows host db w name id u.row.data_text patch p (not_admin w a) checks,
    )
