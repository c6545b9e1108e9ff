-- ===== src/Auth/Refresh/Identity.antt =====
-- Whom the tokens of src/auth.rs stand for.
use rockbase.Prelude.{
  ℕ, ◌+◌, ◌<◌, ==_refl, ◌≡◌, refl, ap, ◌∙◌, true, Option, none, some, Text, bytes, same, same_iff,
  arith, ok, Bool-cases, Option-cases, Result-cases, inl, inr,
}
use rockbase.Prelude.Int.{ℤ, pos, negsuc, int_eq}
use rockbase.Env.{Serde}
use rockbase.Json.{Json, Fields, insert}
use rockbase.Db.{Db, Row, Host}
use rockbase.Records.{key, str_of, token_epoch, record_json}
use rockbase.Records.Gate.{fetch_record}
use rockbase.Auth.{Who, admin, user, guest}
use rockbase.Auth.Tokens.{Claims, Jwt, Secrets, claimed, from_jwt, make_token}
use rockbase.Auth.Login.{signed_in}
use rockbase.Auth.Refresh.{auth_refresh}

-- jsonwebtoken by the time in seconds at which it is asked, with the default validation of src/auth.rs:
-- a token decodes, under the secret that it was made with, to the claims that were encoded as long as
-- they have not expired, and to an error once they expired more than the leeway of a minute ago.
abbrev pub Decodes : (ℕ → Jwt) → Type 0
Decodes jwt =
    (now later : ℕ) (secret : Text) (c : Claims) (t : Text)
    → (jwt now).encode secret c ≡ ok t
    → ((later < c.exp) → (jwt later).decode secret t ≡ some c)
      × ((c.exp + 60 < later) → (jwt later).decode secret t ≡ none)

-- A token is this user's, on a database, for the week that follows, and no one's from a minute after it.
abbrev pub LivesForAWeek : Serde → (ℕ → Jwt) → Secrets → ℕ → Db → Text → Who → Type 0
LivesForAWeek serde jwt s now db t w =
    (later : ℕ)
    → ((later < now + 604800) → from_jwt serde (jwt later) s db t ≡ some w)
      × ((now + 604860 < later) → from_jwt serde (jwt later) s db t ≡ none)

-- the token of an answer
abbrev pub token_of : Json → Option Text
token_of body = str_of (key (bytes "token") body)

int_eq_refl : (n : ℤ) → int_eq n n ≡ true
int_eq_refl (pos n) = ==_refl n
int_eq_refl (negsuc n) = ==_refl n

make_token-from_jwt :
    (host : Host) (jwt : ℕ → Jwt) (s : Secrets) (now : ℕ) (db : Db) (col id : Text) (n : ℤ)
    (t : Text) (row : Row)
    → Decodes jwt
    → make_token (jwt now) s now col id n ≡ ok t
    → fetch_record db col id ≡ some row
    → token_epoch host.serde row.data_text ≡ some n
    → LivesForAWeek host.serde jwt s now db t (user col id)
unfolding make_token from_jwt
make_token-from_jwt host jwt s now db col id n t row d h f e later =
    let c : Claims = record { sub = id; col = col; exp = now + 604800; epoch = n } in
    elim (Result-cases ((jwt now).encode s.jwt_secret c)) [
      | inr (x, i) ↦ cc (h, i)
      | inl (u, i) ↦
          let here : u ≡ t = cc (h, i) in
          let (stands, expires) = d now later s.jwt_secret c t (i ∙ ap ok here) in
          (
            λ early. rw (stands early, f, from_jwt) (rw (e, claimed) (rw (int_eq_refl n) refl)),
            λ late. rw (expires (omega (arith, late)), from_jwt) refl,
          )
    ]

signed_in-token_of :
    (host : Host) (jwt : Jwt) (s : Secrets) (now : ℕ) (name : Text) (r : Row) (n : ℤ) (body : Json)
    → signed_in host jwt s now name r n ≡ ok body
    → (t : Text) × (make_token jwt s now name r.id n ≡ ok t) × (token_of body ≡ some t)
unfolding signed_in key str_of same
signed_in-token_of host jwt s now name r n body h =
    elim (Result-cases (make_token jwt s now name r.id n)) [
      | inr (x, i) ↦ cc (h, i)
      | inl (t, i) ↦
          let shown = record_json host.serde name r.id r.data_text r.created r.updated in
          let made : Json.obj
                (insert (bytes "token") (Json.str t) (insert (bytes "record") shown Fields.end))
              ≡ body =
            cc (h, i) in
          (t, i, rw (← made) refl)
    ]

-- A refresh that is answered answers a user of the collection, with a token that stands, on the
-- database that the refresh saw, for that very user at every time of the week from then; at no time
-- later than a minute after that week does it stand for anyone. It takes jsonwebtoken to decode a token
-- to its claims before they expire, and not at all once they expired more than a minute ago.
pub auth_refresh-from_jwt :
    (host : Host) (jwt : ℕ → Jwt) (s : Secrets) (now : ℕ) (db : Db) (w : Who) (name : Text)
    (body : Json)
    → Decodes jwt
    → auth_refresh host (jwt now) s now db w name ≡ ok body
    → (id : Text) × (t : Text) × (w ≡ user name id)
      × (token_of body ≡ some t)
      × LivesForAWeek host.serde jwt s now db t (user name id)
unfolding auth_refresh
auth_refresh-from_jwt host jwt s now db admin name body d h = cc
auth_refresh-from_jwt host jwt s now db guest name body d h = cc
auth_refresh-from_jwt host jwt s now db (user col id) name body d h =
    elim (Bool-cases (same col name)) [
      | inr e ↦ cc (h, e)
      | inl e ↦ elim (Option-cases (fetch_record db name id)) [
        | inl f ↦ cc (h, e, f)
        | inr (row, f) ↦ elim (Option-cases (token_epoch host.serde row.data_text)) [
          | inl g ↦ cc (h, e, f, g)
          | inr (n, g) ↦
              let r = record row { id = id } in
              let (t, made, found) =
                signed_in-token_of host (jwt now) s now name r n body (cc (h, e, f, g)) in
              (
                id,
                t,
                ap (λ c. user c id) ((same_iff col name).0 e),
                found,
                make_token-from_jwt host jwt s now db name id n t row d made f g,
              )
        ]
      ]
    ]
