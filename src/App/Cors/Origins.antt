-- ===== src/App/Cors/Origins.antt =====
-- Which origins `cors_and_log` of src/lib.rs lets read a response.
use rockbase.Prelude.{
  ◌≡◌, refl, ◌↔◌, inl, inr, ap, subst, &&-eq-true, &&-true, Bool, true, ◌&&◌, Option, none, some,
  List, [], ◌∷◌, Text, bytes, same, same_iff, any, arith, if◌then◌else◌, Bool-cases, Option-cases,
}
use rockbase.App.{Headers, get_header, remove_header, insert_header, Response, Method, Request}
use rockbase.App.Cors.{allow_origin, vary, allowed_origin, cors_headers, answered, cors_and_log}

get_header-remove_header :
    (name j : Text) (hs : Headers)
    → get_header j (remove_header name hs) ≡ (if same name j then none else get_header j hs)
unfolding get_header remove_header
get_header-remove_header name j [] = ground arith
get_header-remove_header name j ((n, v) ∷ hs) =
    ground
      (arith, get_header-remove_header name j hs, same_iff n name, same_iff n j, same_iff name j)

get_header-insert_header :
    (name j value : Text) (hs : Headers)
    → get_header j (insert_header name value hs)
      ≡ (if same name j then some value else get_header j hs)
unfolding get_header insert_header
get_header-insert_header name j value hs = ground (arith, get_header-remove_header name j hs)

allowed_origin_iff :
    (is_value : Text → Bool) (origins : List Text) (origin : Option Text) (v : Text)
    → (allowed_origin is_value origins origin ≡ some v)
      ↔ ((origin ≡ some v) × (any (λ a. same a v) origins ≡ true) × (is_value v ≡ true))
unfolding allowed_origin
allowed_origin_iff is_value origins none v = (λ h. cc (h), λ h. cc (h.0))
allowed_origin_iff is_value origins (some o) v =
    elim (Bool-cases (any (λ a. same a o) origins && is_value o)) [
      | inl e ↦ (
        λ h.
            let here : o ≡ v = cc (h, e) in
            let (a, b) = &&-eq-true _ _ e in
            (
              ap some here,
              subst (λ t. any (λ a. same a t) origins ≡ true) here a,
              subst (λ t. is_value t ≡ true) here b,
            ),
        λ h. rw e h.0,
      )
      | inr e ↦ (
        λ h. cc (h, e),
        λ h.
            let here : v ≡ o = cc (h.0) in
            let both : (any (λ a. same a o) origins && is_value o) ≡ true =
              subst (λ t. (any (λ a. same a t) origins && is_value t) ≡ true) here
                (&&-true _ _ h.1 h.2) in
            cc (e, both),
      )
    ]

-- what the headers say of origins behind an allowlist
behind_list :
    (is_value : Text → Bool) (a : Text) (origins : List Text) (origin : Option Text) (hs : Headers)
    → get_header allow_origin hs ≡ none
    → (get_header allow_origin (cors_headers is_value (a ∷ origins) origin hs)
        ≡ allowed_origin is_value (a ∷ origins) origin)
      × (get_header vary (cors_headers is_value (a ∷ origins) origin hs) ≡ some (bytes "Origin"))
unfolding cors_headers allow_origin vary same
behind_list is_value a origins origin hs h =
    let varied = insert_header vary (bytes "Origin") hs in
    elim (Option-cases (allowed_origin is_value (a ∷ origins) origin)) [
      | inl e ↦ rw e (
        rw (get_header-insert_header, get_header-insert_header, get_header-insert_header) h,
        rw (get_header-insert_header, get_header-insert_header, get_header-insert_header) refl,
      )
      | inr (o, e) ↦ rw e (
        rw (get_header-insert_header, get_header-insert_header, get_header-insert_header) refl,
        rw
            (
              get_header-insert_header, get_header-insert_header, get_header-insert_header,
              get_header-insert_header,
            )
            refl,
      )
    ]

module _ {S : Type 0} (is_value : Text → Bool) (next : Request → S → Response × S) where
  -- Behind an allowlist, where the handlers set no allow-origin header of their own, a response names
  -- an origin exactly when the request gave that origin, the list has it, and it can stand in a
  -- header; the response varies by origin; its status and body are those that the handler gave. A
  -- preflight is answered with 204, and changes nothing.
  pub cors_and_log-allows :
      (a : Text) (origins : List Text) (req : Request) (s : S)
      → get_header allow_origin (answered next req s).0.headers ≡ none
      → let resp = (cors_and_log is_value (a ∷ origins) next req s).0 in
        ((v : Text)
          → (get_header allow_origin resp.headers ≡ some v) ↔ (
              (req.origin ≡ some v)
              × (any (λ b. same b v) (a ∷ origins) ≡ true)
              × (is_value v ≡ true)))
        × (get_header vary resp.headers ≡ some (bytes "Origin"))
        × (resp.status ≡ (answered next req s).0.status)
        × (resp.body ≡ (answered next req s).0.body)
        × ((req.method ≡ Method.options)
            → (resp.status ≡ 204) × ((cors_and_log is_value (a ∷ origins) next req s).1 ≡ s))
  unfolding cors_and_log
  cors_and_log-allows a origins req s h =
      let hs = (answered next req s).0.headers in
      let (named, varied) = behind_list is_value a origins req.origin hs h in
      (
        λ v. rw named (allowed_origin_iff is_value (a ∷ origins) req.origin v),
        varied,
        refl,
        refl,
        λ e. rw e (refl, refl),
      )
