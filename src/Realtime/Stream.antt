-- ===== src/Realtime/Stream.antt =====
-- The stream of a subscription of src/realtime.rs, while the collections change.
use rockbase.Prelude.{
  ◌+◌, ◌^◌, ◌<◌, ◌≡◌, refl, ap₂, inl, inr, Bool, true, false, Option, none, some, List, [], ◌∷◌,
  Text, bytes, arith, length, Option-cases, Bool-cases, if◌then◌else◌,
}
use rockbase.Prelude.Int.{pos}
use rockbase.Json.{Json, Fields}
use rockbase.Db.{Host}
use rockbase.Auth.{Who}
use rockbase.Auth.Tokens.{Jwt, Secrets}
use rockbase.Records.{key, str_of}
use rockbase.Collections.Handlers.{Catalog}
use rockbase.Collections.Requests.{Request, serve}
use rockbase.Realtime.{
  RuleCache, visible, wanted, shown, with_record, deliver, Received, event, lagged, item, realtime,
}
use rockbase.Realtime.Coherent.{Coherent, uncached, visible-Coherent, serve-Coherent}

module _ (host : Host) where
  -- what happens while a stream is open: a write to the collections, or a receipt
  pub data Step : Type 0 where
    write : Who → Request → Step
    receive : Received → Step

  abbrev with_item : Option Json → List Json → List Json
  with_item none vs = vs
  with_item (some v) vs = v ∷ vs

  -- the items of the stream
  abbrev pub items : Who → List Text → List Step → Catalog → RuleCache → List Json
  items w ts [] s c = []
  items w ts (write by r ∷ steps) s c = items w ts steps (serve host by r s).1 c
  items w ts (receive m ∷ steps) s c =
      let rest = items w ts steps s (item host s w ts m c).1 in
      with_item (item host s w ts m c).0 rest

  -- An event goes out whole, where it names a topic that is asked for and its record passes the view
  -- rule that is stored at this moment; a gap goes out as its number.
  abbrev with_rule : Catalog → Who → Text → Json → Option Json → Option Json
  with_rule s w topic ev none = none
  with_rule s w topic ev (some v) = if uncached host s w topic v then some ev else none

  abbrev on_topic : Catalog → Who → List Text → Json → Option Text → Option Json
  on_topic s w ts ev none = none
  on_topic s w ts ev (some topic) =
      let judged = with_rule s w topic ev (key (bytes "record") ev) in
      if wanted ts topic then judged else none

  pub item_now : Catalog → Who → List Text → Received → Option Json
  item_now s w ts (event ev) = on_topic s w ts ev (str_of (key (bytes "topic") ev))
  item_now s w ts (lagged n) =
      some (Json.obj (Fields.field (bytes "lagged") (Json.int (pos n)) Fields.end))

  abbrev pub items_now : Who → List Text → List Step → Catalog → List Json
  items_now w ts [] s = []
  items_now w ts (write by r ∷ steps) s = items_now w ts steps (serve host by r s).1
  items_now w ts (receive m ∷ steps) s = with_item (item_now s w ts m) (items_now w ts steps s)

  shown-Coherent :
      (s : Catalog) (w : Who) (topic : Text) (ev v : Json) (c : RuleCache)
      → Coherent host s c
      → ((shown ev (visible host s w topic v c)).0
          ≡ (if uncached host s w topic v then some ev else none))
        × Coherent host s (shown ev (visible host s w topic v c)).1
  shown-Coherent s w topic ev v c h =
      by_verdict (visible host s w topic v c) (uncached host s w topic v)
        (visible-Coherent host s w topic v c h)
    where
      by_verdict :
          (p : Bool × RuleCache) (b : Bool)
          → (p.0 ≡ b) × Coherent host s p.1
          → ((shown ev p).0 ≡ (if b then some ev else none)) × Coherent host s (shown ev p).1
      by_verdict (true, d) b (e, k) = (rw (← e) refl, k)
      by_verdict (false, d) b (e, k) = (rw (← e) refl, k)

  with_record-Coherent :
      (s : Catalog) (w : Who) (topic : Text) (ev : Json) (o : Option Json) (c : RuleCache)
      → Coherent host s c
      → ((with_record host s w topic ev o c).0 ≡ with_rule s w topic ev o)
        × Coherent host s (with_record host s w topic ev o c).1
  with_record-Coherent s w topic ev none c h = (refl, h)
  with_record-Coherent s w topic ev (some v) c h = shown-Coherent s w topic ev v c h

  item-Coherent :
      (s : Catalog) (w : Who) (ts : List Text) (m : Received) (c : RuleCache)
      → Coherent host s c
      → ((item host s w ts m c).0 ≡ item_now s w ts m) × Coherent host s (item host s w ts m c).1
  unfolding item deliver item_now
  item-Coherent s w ts (lagged n) c h = (refl, h)
  item-Coherent s w ts (event ev) c h = elim (Option-cases (str_of (key (bytes "topic") ev))) [
    | inl e ↦ rw (e, deliver) (refl, h)
    | inr (topic, e) ↦ elim (Bool-cases (wanted ts topic)) [
      | inl t ↦ rw (e, t, deliver) (with_record-Coherent s w topic ev (key (bytes "record") ev) c h)
      | inr f ↦ rw (e, f, deliver) (refl, h)
    ]
  ]

  items-items_now :
      (w : Who) (ts : List Text) (steps : List Step) (s : Catalog) (c : RuleCache)
      → s.version + length steps < 2 ^ 64
      → Coherent host s c
      → items w ts steps s c ≡ items_now w ts steps s
  items-items_now w ts [] s c small h = refl
  items-items_now w ts (write by r ∷ steps) s c small h =
      let (kept, bound) = serve-Coherent host by r s c (omega (arith, small)) h in
      items-items_now w ts steps (serve host by r s).1 c (omega (arith, small, bound)) kept
  items-items_now w ts (receive m ∷ steps) s c small h =
      let (now, kept) = item-Coherent s w ts m c h in
      ap₂ with_item now
        (items-items_now w ts steps s (item host s w ts m c).1 (omega (arith, small)) kept)

  -- However writes to the collections and receipts follow one another while a stream is open, its
  -- items, with the cache that it starts from, are those that need none: an event whose topic is asked
  -- for and whose record passes the view rule that is stored when it comes out, and a notice for
  -- each gap with its number, in the order of the receipts. The version, with the number of steps
  -- added, is a number of 64 bits.
  pub realtime-items_now :
      (jwt : Jwt) (secrets : Secrets) (header : Option (Option Text)) (token topics : Option Text)
      (client : Text) (steps : List Step) (s : Catalog)
      → s.version + length steps < 2 ^ 64
      → let (hello, sub) = realtime host.serde jwt secrets s.db header token topics client in
        items sub.who sub.topics steps s sub.cache ≡ items_now sub.who sub.topics steps s
  unfolding realtime
  realtime-items_now jwt secrets header token topics client steps s small =
      let (hello, sub) = realtime host.serde jwt secrets s.db header token topics client in
      items-items_now sub.who sub.topics steps s sub.cache small
        (record { old = omega arith; rules = λ _. tt })
