-- ===== src/Collections/Tests.antt =====
-- Runs of the collection handlers of src/collections.rs.
use rockbase.Prelude.{◌≡◌, refl, true, none, List, [], ◌∷◌, bytes, ok, same}
use rockbase.Ident.{ident_ok, is_word}
use rockbase.Json.{Json, Items, Fields, get, as_array}
use rockbase.Auth.{Who, admin, guest}
use rockbase.Records.{epoch_field, reserved_fields}
use rockbase.Records.Validate.{validate}
use rockbase.Records.Samples.{host_sample, db_sample, posts, writes}
use rockbase.Collections.{is_one_of, schema_ok, rule_ok}
use rockbase.Collections.Handlers.{Catalog}
use rockbase.Collections.Sound.{IsSound}
use rockbase.Collections.Requests.{Request, create, update, delete, serve_all, serve_all-IsSound}
use rockbase.Collections.Schemas.{validate-reserved}

abbrev catalog : Catalog
catalog = record { db = db_sample; version = 0; dropped = [] }

-- a new collection with a rule, a rule that does not compile, and a delete
abbrev requests : List (Who × Request)
requests =
    (
      admin,
      create (
          Json.obj (
            Fields.field (bytes "name") (Json.str (bytes "notes")) (
              Fields.field (bytes "viewRule") (Json.str (bytes "owner = @request.auth.id"))
                Fields.end))),
    )
    ∷ (
      admin,
      update posts
          (Json.obj (Fields.field (bytes "viewRule") (Json.str (bytes "owner = (")) Fields.end)),
    )
    ∷ (guest, delete posts)
    ∷ []

open_rules-IsSound : IsSound host_sample.f64 catalog
unfolding rule_ok
open_rules-IsSound = ((refl, refl, refl, refl, refl), tt)

serve_all-IsSound_example : IsSound host_sample.f64 (serve_all host_sample requests catalog)
serve_all-IsSound_example = serve_all-IsSound host_sample requests catalog open_rules-IsSound

abbrev title : Json
title = Json.obj (
    Fields.field (bytes "name") (Json.str (bytes "title"))
      (Fields.field (bytes "type") (Json.str (bytes "text")) Fields.end))

abbrev patch : Fields
patch = Fields.field (bytes "title") (Json.str (bytes "new")) Fields.end

title-schema : schema_ok (Json.arr (Items.cons title Items.nil)) ≡ ok (title ∷ [])
unfolding writes schema_ok ident_ok is_word as_array
title-schema = refl

patch-valid : validate (title ∷ []) patch true true ≡ ok tt
unfolding writes
patch-valid = refl

validate-reserved_example : get epoch_field patch ≡ none
unfolding is_one_of reserved_fields bytes same epoch_field
validate-reserved_example =
    validate-reserved (Json.arr (Items.cons title Items.nil)) (title ∷ []) patch true true
      epoch_field title-schema patch-valid refl
