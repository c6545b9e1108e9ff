-- ===== src/Http.antt =====
-- `err` of src/lib.rs: a refused request, as a status and a JSON body.
use rockbase.Prelude.{ℕ, Text, bytes, Result}
use rockbase.Prelude.Int.{pos}
use rockbase.Json.{Json, Fields, insert}

pub record Failure : Type 0 where
  pub status : ℕ
  pub body : Json

-- the status and body of `err(code, msg)`
unfoldable pub failure : ℕ → Text → Failure
unfolding bytes insert
failure code msg = record {
  status = code;
  body = Json.obj (
      insert (bytes "code") (Json.int (pos code))
        (insert (bytes "message") (Json.str msg) Fields.end));
}

abbrev pub bad_request : ℕ
bad_request = 400

abbrev pub unauthorized : ℕ
unauthorized = 401

abbrev pub forbidden : ℕ
forbidden = 403

abbrev pub not_found : ℕ
not_found = 404

abbrev pub too_many_requests : ℕ
too_many_requests = 429

abbrev pub internal_server_error : ℕ
internal_server_error = 500

abbrev pub Reply : Type 0 → Type 0
Reply A = Result Failure A
