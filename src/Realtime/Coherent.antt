-- ===== src/Realtime/Coherent.antt =====
-- The cache of rules of src/realtime.rs against the table of collections.
use rockbase.Prelude.{
  ◌+◌, ◌^◌, ◌≤◌, ◌<◌, ◌≡◌, refl, ap, ap₂, sym, ◌∙◌, subst, inl, inr, ◌⊎◌, Bool, true, false, ◌==◌,
  Option, none, some, List, [], ◌∷◌, Text, same, same_iff, arith, length, Option-cases, Bool-cases,
  Result-cases, All,
}
use rockbase.Json.{Json, Fields, as_object}
use rockbase.Db.{Db, Host, find_collection}
use rockbase.Auth.{Who, admin, user, guest}
use rockbase.Auth.Tokens.{only_admin}
use rockbase.Collections.Handlers.{
  Catalog, bump, insert_collection, new_collection, collections_create, collection_patch,
  collections_update, collections_delete,
}
use rockbase.Collections.Requests.{Request, create, update, delete, serve}
use rockbase.Realtime.{
  RuleCache, find_cached, refresh, stored_rule, cached_rule, allows, gated, of_object, visible,
}

-- A request that changes anything changes the version.
serve-version :
    (host : Host) (w : Who) (r : Request) (s : Catalog)
    → ((serve host w r s).1 ≡ s) ⊎ ((serve host w r s).1.version ≡ bump s.version)
unfolding collections_create collections_update collections_delete
serve-version host w (create body) s = elim (Result-cases (new_collection host w body)) [
  | inr (e, f) ↦ inl (rw (f, collections_create) refl)
  | inl (c, f) ↦ elim (Option-cases (insert_collection c s.db.collections)) [
    | inl g ↦ inl (rw (f, g, collections_create) refl)
    | inr (cs, g) ↦ inr (rw (f, g, collections_create) refl)
  ]
]
serve-version host w (update name body) s = elim (Result-cases (collection_patch host w body)) [
  | inr (e, f) ↦ inl (rw (f, collections_update) refl)
  | inl ((p, schema), f) ↦ elim (Option-cases (find_collection name s.db.collections)) [
    | inl g ↦ inl (rw (f, g, collections_update) refl)
    | inr (c, g) ↦ inr (rw (f, g, collections_update) refl)
  ]
]
serve-version host w (delete name) s = elim (Result-cases (only_admin w)) [
  | inr (e, f) ↦ inl (rw (f, collections_delete) refl)
  | inl (_, f) ↦ elim (Option-cases (find_collection name s.db.collections)) [
    | inl g ↦ inl (rw (f, g, collections_delete) refl)
    | inr (c, g) ↦ inr (rw (f, g, collections_delete) refl)
  ]
]

module _ (host : Host) where
  abbrev IsStored : Db → Text × Option (Option Text) → Type 0
  IsStored db (topic, r) = r ≡ stored_rule host.serde db topic

  -- A cache of an older version, or of this one and then with the rules that are stored.
  pub record Coherent (s : Catalog) (c : RuleCache) : Type 0 where
    pub old : c.version ≤ s.version
    pub rules : c.version ≡ s.version → All (IsStored s.db) c.rules

  refresh-Coherent :
      (s : Catalog) (c : RuleCache)
      → Coherent s c
      → ((refresh s.version c).version ≡ s.version)
        × All (IsStored s.db) (refresh s.version c).rules
  unfolding refresh
  refresh-Coherent s c h = elim (Bool-cases (c.version == s.version)) [
    | inl e ↦
        let now : c.version ≡ s.version = ground (arith, e) in rw (e, refresh) (now, h.rules now)
    | inr e ↦ rw (e, refresh) (refl, tt)
  ]

  find_cached-IsStored :
      (db : Db) (topic : Text) (rs : List (Text × Option (Option Text))) (r : Option (Option Text))
      → All (IsStored db) rs
      → find_cached topic rs ≡ some r
      → r ≡ stored_rule host.serde db topic
  unfolding find_cached
  find_cached-IsStored db topic [] r hs h = cc
  find_cached-IsStored db topic ((t, x) ∷ rs) r (k, ks) h = elim (Bool-cases (same t topic)) [
    | inl e ↦
        let found : x ≡ r = cc (h, e) in
        sym found ∙ k ∙ ap (stored_rule host.serde db) ((same_iff t topic).0 e)
    | inr e ↦ find_cached-IsStored db topic rs r ks (rw (e, find_cached) at h)
  ]

  cached_rule-IsStored :
      (db : Db) (topic : Text) (c : RuleCache)
      → All (IsStored db) c.rules
      → ((cached_rule host.serde db topic c).0 ≡ stored_rule host.serde db topic)
        × ((cached_rule host.serde db topic c).1.version ≡ c.version)
        × All (IsStored db) (cached_rule host.serde db topic c).1.rules
  unfolding cached_rule
  cached_rule-IsStored db topic c h = elim (Option-cases (find_cached topic c.rules)) [
    | inl e ↦ rw (e, cached_rule) (refl, refl, (refl, h))
    | inr (r, e) ↦ rw (e, cached_rule) (find_cached-IsStored db topic c.rules r h e, refl, h)
  ]

  abbrev uncached_of : Catalog → Who → Text → Option Fields → Bool
  uncached_of s w topic none = false
  uncached_of s w topic (some m) = allows host w m (stored_rule host.serde s.db topic)

  -- the verdict that reads the stored rule each time
  abbrev pub uncached : Catalog → Who → Text → Json → Bool
  uncached s admin topic v = true
  uncached s w topic v = uncached_of s w topic (as_object v)

  gated-Coherent :
      (s : Catalog) (w : Who) (topic : Text) (m : Fields) (c : RuleCache)
      → Coherent s c
      → ((gated host s w topic m c).0 ≡ allows host w m (stored_rule host.serde s.db topic))
        × Coherent s (gated host s w topic m c).1
  unfolding gated
  gated-Coherent s w topic m c h =
      let (now, stored) = refresh-Coherent s c h in
      let (rule, same_version, stored₁) =
        cached_rule-IsStored s.db topic (refresh s.version c) stored in
      (
        ap (allows host w m) rule,
        record { old = omega (arith, same_version, now); rules = λ _. stored₁ },
      )

  of_object-Coherent :
      (s : Catalog) (w : Who) (topic : Text) (o : Option Fields) (c : RuleCache)
      → Coherent s c
      → ((of_object host s w topic o c).0 ≡ uncached_of s w topic o)
        × Coherent s (of_object host s w topic o c).1
  of_object-Coherent s w topic none c h = (refl, h)
  of_object-Coherent s w topic (some m) c h = gated-Coherent s w topic m c h

  pub visible-Coherent :
      (s : Catalog) (w : Who) (topic : Text) (v : Json) (c : RuleCache)
      → Coherent s c
      → ((visible host s w topic v c).0 ≡ uncached s w topic v)
        × Coherent s (visible host s w topic v c).1
  unfolding visible
  visible-Coherent s admin topic v c h = (refl, h)
  visible-Coherent s (user col id) topic v c h =
      of_object-Coherent s (user col id) topic (as_object v) c h
  visible-Coherent s guest topic v c h = of_object-Coherent s guest topic (as_object v) c h

  pub serve-Coherent :
      (w : Who) (r : Request) (s : Catalog) (c : RuleCache)
      → s.version + 1 < 2 ^ 64
      → Coherent s c
      → Coherent (serve host w r s).1 c × ((serve host w r s).1.version ≤ s.version + 1)
  unfolding bump
  serve-Coherent w r s c small h = elim (serve-version host w r s) [
    | inl e ↦ (
      subst (λ x. Coherent x c) (sym e) h,
      subst (λ (x : Catalog). x.version ≤ s.version + 1) (sym e) (omega arith),
    )
    | inr e ↦
        let next : (serve host w r s).1.version ≡ s.version + 1 = omega (arith, e, small) in
        (
          record {
            old = omega (arith, next, h.old);
            rules = λ now. absurd (omega (arith, now, next, h.old));
          },
          omega (arith, next),
        )
  ]

  -- What happens while a subscription is open: a write to the collections, or an event.
  pub data Step : Type 0 where
    write : Who → Request → Step
    event : Text → Json → Step

  -- the verdicts on the events, with the subscriber's cache and without one
  abbrev pub verdicts : Who → List Step → Catalog → RuleCache → List Bool
  verdicts w [] s c = []
  verdicts w (write by r ∷ steps) s c = verdicts w steps (serve host by r s).1 c
  verdicts w (event topic v ∷ steps) s c =
      (visible host s w topic v c).0 ∷ verdicts w steps s (visible host s w topic v c).1

  abbrev pub uncached_verdicts : Who → List Step → Catalog → List Bool
  uncached_verdicts w [] s = []
  uncached_verdicts w (write by r ∷ steps) s = uncached_verdicts w steps (serve host by r s).1
  uncached_verdicts w (event topic v ∷ steps) s = uncached s w topic v ∷ uncached_verdicts w steps s

  -- However writes to the collections and events follow one another while a subscription is open,
  -- each event meets the rule that is stored at that moment: the verdicts with the cache are those
  -- without one. The cache is coherent at the start, as the empty one is, and the version, with
  -- the number of steps added, is a number of 64 bits.
  pub verdicts-uncached :
      (w : Who) (steps : List Step) (s : Catalog) (c : RuleCache)
      → s.version + length steps < 2 ^ 64
      → Coherent s c
      → verdicts w steps s c ≡ uncached_verdicts w steps s
  verdicts-uncached w [] s c small h = refl
  verdicts-uncached w (write by r ∷ steps) s c small h =
      let (kept, bound) = serve-Coherent by r s c (omega (arith, small)) h in
      verdicts-uncached w steps (serve host by r s).1 c (omega (arith, small, bound)) kept
  verdicts-uncached w (event topic v ∷ steps) s c small h =
      let (verdict, kept) = visible-Coherent s w topic v c h in
      ap₂ (λ x xs. x ∷ xs) verdict
        (verdicts-uncached w steps s (visible host s w topic v c).1 (omega (arith, small)) kept)
