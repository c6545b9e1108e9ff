-- ===== src/Batch/Discreet.antt =====
-- Nothing that a sub-request of src/batch.rs answers or publishes holds a secret.
use rockbase.Prelude.{
  ◌≡◌, Option, none, some, Text, bytes, same, ok, Bool-cases, inl, inr, >>=-eq-ok, ok_or, ◌>>=◌,
}
use rockbase.Json.{Json}
use rockbase.Auth.{Who}
use rockbase.Db.{Db, Host}
use rockbase.Records.{Effect, key, str_of}
use rockbase.Records.Secrets.{
  IsDiscreet, create_core-IsDiscreet, update_core-IsDiscreet, delete_core-IsDiscreet,
}
use rockbase.Batch.Url.{parse_url}
use rockbase.Batch.{bad_method, dispatch, one, or_null}

dispatch-IsDiscreet :
    (host : Host) (db : Db) (w : Who) (method name : Text) (target : Option Text) (body : Json)
    (id ts : Text) (out : Effect × Db)
    → dispatch host db w method name target body id ts ≡ ok out
    → IsDiscreet out.0
unfolding dispatch
dispatch-IsDiscreet host db w method name none body id ts out h =
    elim (Bool-cases (same method (bytes "POST"))) [
      | inl e ↦ create_core-IsDiscreet host db w name body id ts out (rw (e, dispatch) at h)
      | inr e ↦ cc (e, h)
    ]
dispatch-IsDiscreet host db w method name (some target) body id ts out h =
    elim (Bool-cases (same method (bytes "PATCH"))) [
      | inl e ↦ update_core-IsDiscreet host db w name target body ts out (rw (e, dispatch) at h)
      | inr e ↦ elim (Bool-cases (same method (bytes "DELETE"))) [
        | inl d ↦ delete_core-IsDiscreet host db w name target out (rw (e, d, dispatch) at h)
        | inr d ↦ cc (e, d, h)
      ]
    ]

-- Whatever a successful write is, create, update or delete, the value that it answers and the record
-- in the event that it publishes have neither a `password_hash` nor a `token_epoch`.
pub one-IsDiscreet :
    (host : Host) (db : Db) (w : Who) (req : Json) (id ts : Text) (out : Effect × Db)
    → one host db w req id ts ≡ ok out
    → IsDiscreet out.0
unfolding one
one-IsDiscreet host db w req id ts out h =
    let rest = λ (method : Text) (p : Text × Option Text).
      dispatch host db w method p.0 p.1 (or_null (key (bytes "body") req)) id ts in
    let (method, e₁, h₁) =
      >>=-eq-ok (ok_or (str_of (key (bytes "method") req)) bad_method)
        (λ method. ok_or (str_of (key (bytes "url") req)) bad_method >>= λ url.
          ok_or (parse_url url) bad_method >>= rest method)
        h in
    let (url, e₂, h₂) =
      >>=-eq-ok (ok_or (str_of (key (bytes "url") req)) bad_method)
        (λ url. ok_or (parse_url url) bad_method >>= rest method) h₁ in
    let (p, e₃, h₃) = >>=-eq-ok (ok_or (parse_url url) bad_method) (rest method) h₂ in
    dispatch-IsDiscreet host db w method p.0 p.1 (or_null (key (bytes "body") req)) id ts out h₃
