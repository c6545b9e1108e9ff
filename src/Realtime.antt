-- ===== src/Realtime.antt =====
-- src/realtime.rs: which events a subscriber gets, with the cache of rules that each one keeps.
pub mod Coherent
pub mod Stream
mod Tests
use rockbase.Prelude.{
  ℕ, Bool, true, false, not, ◌||◌, ◌==◌, Option, none, some, List, [], ◌∷◌, ◌++◌, Text, bytes, same,
  any, split_on, if◌then◌else◌, Result, ok, err,
}
use rockbase.Json.{Json, Fields, as_object}
use rockbase.Prelude.Int.{pos}
use rockbase.Env.{Serde}
use rockbase.Http.{Failure, Reply}
use rockbase.Trim.{trim}
use rockbase.Rules.{auth_id, check_rule, eval_rule_mem}
use rockbase.Db.{Db, Col, Host, get_collection}
use rockbase.Records.{key, str_of}
use rockbase.Auth.{Who, admin, user, guest}
use rockbase.Auth.Tokens.{Jwt, Secrets, who, who_from_query_token}
use rockbase.Collections.Handlers.{Catalog}

-- The version that the rules were read at, and the rules by topic; `none` is no such collection.
pub record RuleCache : Type 0 where
  pub version : ℕ
  pub rules : List (Text × Option (Option Text))

unfoldable pub find_cached :
    Text → List (Text × Option (Option Text)) → Option (Option (Option Text))
find_cached topic [] = none
find_cached topic ((t, r) ∷ rs) = if same t topic then some r else find_cached topic rs

-- another version clears the cache
unfoldable pub refresh : ℕ → RuleCache → RuleCache
refresh version c = if c.version == version then c else record { version = version; rules = [] }

abbrev pub view_of : Option Col → Option (Option Text)
view_of none = none
view_of (some c) = some c.rules.view

unfoldable pub stored_rule : Serde → Db → Text → Option (Option Text)
unfolding get_collection
stored_rule serde db topic = view_of (get_collection serde db topic)

-- `entry(…).or_insert_with(…)`
unfoldable pub cached_rule : Serde → Db → Text → RuleCache → Option (Option Text) × RuleCache
unfolding find_cached stored_rule
cached_rule serde db topic c = elim (find_cached topic c.rules) [
  | some r ↦ (r, c)
  | none ↦ (
    stored_rule serde db topic,
    record c { rules = (topic, stored_rule serde db topic) ∷ c.rules },
  )
]

abbrev decided : Host → Who → Fields → Reply (Option Text) → Bool
decided host w m (ok none) = true
decided host w m (ok (some expr)) = eval_rule_mem host.f64 host.serde expr (auth_id w) m
decided host w m (err e) = false

-- what a rule says of a record
unfoldable pub allows : Host → Who → Fields → Option (Option Text) → Bool
unfolding check_rule
allows host w m none = false
allows host w m (some r) = decided host w m (check_rule w r)

unfoldable pub gated : Host → Catalog → Who → Text → Fields → RuleCache → Bool × RuleCache
unfolding refresh cached_rule allows
gated host s w topic m c =
    let (r, c₁) = cached_rule host.serde s.db topic (refresh s.version c) in (allows host w m r, c₁)

abbrev pub of_object : Host → Catalog → Who → Text → Option Fields → RuleCache → Bool × RuleCache
of_object host s w topic none c = (false, c)
of_object host s w topic (some m) c = gated host s w topic m c

-- `visible`
unfoldable pub visible : Host → Catalog → Who → Text → Json → RuleCache → Bool × RuleCache
unfolding as_object gated
visible host s admin topic v c = (true, c)
visible host s w topic v c = of_object host s w topic (as_object v) c

-- the identity of a subscription: a header decides alone, and a token in the query only without one
unfoldable pub subscriber : Serde → Jwt → Secrets → Db → Option (Option Text) → Option Text → Who
unfolding who who_from_query_token
subscriber serde jwt s db (some header) token = who serde jwt s db header
subscriber serde jwt s db none (some t) = who_from_query_token serde jwt s db t
subscriber serde jwt s db none none = guest

abbrev is_blank : Text → Bool
is_blank [] = true
is_blank (_ ∷ _) = false

unfoldable pub trimmed : List Text → List Text
unfolding trim
trimmed [] = []
trimmed (t ∷ ts) = let rest = trimmed ts in if is_blank (trim t) then rest else trim t ∷ rest

-- the topics that a subscription names, none for all
unfoldable pub topics_of : Text → List Text
unfolding split_on trimmed
topics_of s = trimmed (split_on b',' s)

abbrev no_topic : List Text → Bool
no_topic [] = true
no_topic (_ ∷ _) = false

abbrev wanted : List Text → Text → Bool
wanted ts topic = if no_topic ts then true else any (λ t. same t topic) ts

abbrev shown : Json → Bool × RuleCache → Option Json × RuleCache
shown ev (true, c) = (some ev, c)
shown ev (false, c) = (none, c)

abbrev with_record :
    Host → Catalog → Who → Text → Json → Option Json → RuleCache → Option Json × RuleCache
with_record host s w topic ev none c = (none, c)
with_record host s w topic ev (some v) c = shown ev (visible host s w topic v c)

-- one event of the stream: what the subscriber is sent, if anything
unfoldable pub deliver :
    Host → Catalog → Who → List Text → Json → RuleCache → Option Json × RuleCache
unfolding bytes key str_of visible
deliver host s w ts ev c = elim (str_of (key (bytes "topic") ev)) [
  | none ↦ (none, c)
  | some topic ↦
      if wanted ts topic
      then with_record host s w topic ev (key (bytes "record") ev) c
      else (none, c)
]

-- What the receiver of the channel yields: an event, or the number of those that were dropped.
pub data Received : Type 0 where
  event : Json → Received
  lagged : ℕ → Received

-- the closure of the stream
unfoldable pub item :
    Host → Catalog → Who → List Text → Received → RuleCache → Option Json × RuleCache
unfolding bytes deliver
item host s w ts (event ev) c = deliver host s w ts ev c
item host s w ts (lagged n) c =
    (some (Json.obj (Fields.field (bytes "lagged") (Json.int (pos n)) Fields.end)), c)

-- an open stream: its subscriber, its topics and its cache
pub record Subscription : Type 0 where
  pub who : Who
  pub topics : List Text
  pub cache : RuleCache

abbrev text_or_empty : Option Text → Text
text_or_empty none = []
text_or_empty (some t) = t

-- `realtime`: the first item, which names a fresh client, and the stream behind it
unfoldable pub realtime :
    Serde
    → Jwt
    → Secrets
    → Db
    → Option (Option Text)
    → Option Text
    → Option Text
    → Text
    → Json × Subscription
unfolding bytes subscriber topics_of
realtime serde jwt s db header token topics client = (
  Json.obj (Fields.field (bytes "clientId") (Json.str client) Fields.end),
  record {
    who = subscriber serde jwt s db header token;
    topics = topics_of (text_or_empty topics);
    cache = record { version = 0; rules = [] };
  },
)
