-- ===== src/Auth/RefreshTests.antt =====
-- Runs of `auth_refresh` of src/auth.rs, with tokens that hold their claims in the open.
use rockbase.Prelude.{
  ℕ, zero, suc, ◌+◌, ◌<◌, ◌≡◌, refl, ap, Option, none, some, [], ◌∷◌, Text, bytes, arith, ltb,
  if◌then◌else◌, ok, err,
}
use rockbase.Prelude.Int.{ℤ, pos, negsuc}
use rockbase.Json.{Json, as_i64}
use rockbase.Http.{Reply}
use rockbase.Auth.{user}
use rockbase.Auth.Tokens.{Claims, Jwt, Secrets, make_token}
use rockbase.Auth.Login.{signed_in}
use rockbase.Auth.Refresh.{auth_refresh}
use rockbase.Auth.Refresh.Identity.{Decodes, LivesForAWeek, token_of, auth_refresh-from_jwt}
use rockbase.Records.{token_epoch}
use rockbase.Records.Samples.{host_sample, posts, db_sample, writes}

-- a text with its bytes moved up by one, and 0 behind it
put : Text → Text → Text
put [] rest = zero ∷ rest
put (c ∷ s) rest = suc c ∷ put s rest

take_text : Text → Text × Text
take_text [] = ([], [])
take_text (zero ∷ s) = ([], s)
take_text (suc c ∷ s) = let (t, rest) = take_text s in (c ∷ t, rest)

take_text-put : (s rest : Text) → take_text (put s rest) ≡ (s, rest)
unfolding put take_text
take_text-put [] rest = refl
take_text-put (c ∷ s) rest = rw (take_text-put s rest) refl

abbrev epoch_text : ℤ → Text
epoch_text (pos n) = 0 ∷ n ∷ []
epoch_text (negsuc n) = 1 ∷ n ∷ []

abbrev epoch_back : Text → ℤ
epoch_back (zero ∷ n ∷ []) = pos n
epoch_back (suc zero ∷ n ∷ []) = negsuc n
epoch_back _ = pos 0

abbrev exp_back : Text → Text → Text → Option Claims
exp_back sub col [] = none
exp_back sub col (exp ∷ s) = some (record { sub = sub; col = col; exp = exp; epoch = epoch_back s })

epoch_back-epoch_text : (n : ℤ) → epoch_back (epoch_text n) ≡ n
epoch_back-epoch_text (pos n) = refl
epoch_back-epoch_text (negsuc n) = refl

encode_claims : Claims → Text
unfolding put
encode_claims c = put c.sub (put c.col (c.exp ∷ epoch_text c.epoch))

decode_claims : Text → Option Claims
unfolding take_text
decode_claims t =
    exp_back (take_text t).0 (take_text (take_text t).1).0 (take_text (take_text t).1).1

decode_claims-encode_claims : (c : Claims) → decode_claims (encode_claims c) ≡ some c
unfolding decode_claims encode_claims
decode_claims-encode_claims c =
    rw
      (
        take_text-put c.sub (put c.col (c.exp ∷ epoch_text c.epoch)),
        take_text-put c.col (c.exp ∷ epoch_text c.epoch),
      )
      (ap (λ n. some (record c { epoch = n })) (epoch_back-epoch_text c.epoch))

-- the claims at a time, with the leeway of a minute
abbrev in_time : ℕ → Option Claims → Option Claims
in_time later none = none
in_time later (some c) = if ltb (c.exp + 60) later then none else some c

abbrev open_jwt : ℕ → Jwt
open_jwt later = record {
  decode = λ s t. in_time later (decode_claims t);
  encode = λ s c. ok (encode_claims c);
}

in_time-some :
    (later : ℕ) (c : Claims)
    → ((later < c.exp) → in_time later (some c) ≡ some c)
      × ((c.exp + 60 < later) → in_time later (some c) ≡ none)
in_time-some later c = (λ early. ground (arith, early), λ late. ground (arith, late))

open_jwt-Decodes : Decodes open_jwt
open_jwt-Decodes now later secret c t h =
    let here : encode_claims c ≡ t = cc (h) in
    rw (← here, decode_claims-encode_claims c) (in_time-some later c)

abbrev secrets : Secrets
secrets = record { jwt_secret = bytes "j"; admin_token = bytes "a" }

abbrev body_of : Reply Json → Json
body_of (ok v) = v
body_of (err e) = Json.null

abbrev refreshed : Json
refreshed =
    body_of
      (auth_refresh host_sample (open_jwt 7) secrets 7 db_sample (user posts (bytes "a")) posts)

refreshes :
    auth_refresh host_sample (open_jwt 7) secrets 7 db_sample (user posts (bytes "a")) posts
    ≡ ok refreshed
unfolding writes auth_refresh signed_in make_token token_epoch as_i64
refreshes = refl

auth_refresh-from_jwt_example :
    (id : Text) × (t : Text) × (user posts (bytes "a") ≡ user posts id)
    × (token_of refreshed ≡ some t)
    × LivesForAWeek host_sample.serde open_jwt secrets 7 db_sample t (user posts id)
auth_refresh-from_jwt_example =
    auth_refresh-from_jwt host_sample open_jwt secrets 7 db_sample (user posts (bytes "a")) posts
      refreshed open_jwt-Decodes refreshes
