-- ===== src/Realtime/Tests.antt =====
-- A subscription of src/realtime.rs during a change of the collections.
use rockbase.Prelude.{
  ◌≡◌, refl, Option, none, some, List, [], ◌∷◌, Text, bytes, same, split_on, arith, length, ok,
}
use rockbase.Json.{Json, Fields}
use rockbase.Auth.{admin}
use rockbase.Auth.Tokens.{Jwt, Secrets}
use rockbase.Records.Samples.{host_sample, db_sample, posts, body_sample, writes}
use rockbase.Collections.Handlers.{Catalog, bump, collections_delete}
use rockbase.Collections.Requests.{delete, serve}
use rockbase.Trim.{trim}
use rockbase.Realtime.{event, lagged, item, Subscription, realtime}
use rockbase.Realtime.Stream.{Step, write, receive, items, items_now, realtime-items_now}

abbrev jwt_sample : Jwt
jwt_sample = record { decode = λ s t. none; encode = λ s c. ok s }

abbrev secrets : Secrets
secrets = record { jwt_secret = bytes "j"; admin_token = bytes "a" }

abbrev catalog : Catalog
catalog = record { db = db_sample; version = 0; dropped = [] }

abbrev change : Text → Json
change topic = Json.obj (
    Fields.field (bytes "topic") (Json.str topic)
      (Fields.field (bytes "record") body_sample Fields.end))

-- The collection is public, and gone after the third step; then a gap.
abbrev steps : List (Step host_sample)
steps =
    receive (event (change posts))
    ∷ receive (event (change (bytes "others")))
    ∷ write admin (delete posts)
    ∷ receive (event (change posts))
    ∷ receive (lagged 3)
    ∷ []

abbrev asked : Option Text
asked = some (bytes " posts ,")

abbrev opened : Json × Subscription
opened = realtime host_sample.serde jwt_sample secrets catalog.db none none asked (bytes "c1")

realtime-items_now_example :
    items host_sample opened.1.who opened.1.topics steps catalog opened.1.cache
    ≡ items_now host_sample opened.1.who opened.1.topics steps catalog
realtime-items_now_example =
    realtime-items_now host_sample jwt_sample secrets none none asked (bytes "c1") steps catalog
      (omega arith)

-- the first event and the notice
two_items : length (items host_sample opened.1.who opened.1.topics steps catalog opened.1.cache) ≡ 2
unfolding writes bytes same split_on trim realtime item serve collections_delete bump
two_items = refl
