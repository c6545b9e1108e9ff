-- ===== src/App/Routes/Unique.antt =====
-- No path has two routes in the table of src/lib.rs.
use rockbase.Prelude.{
  ◌≤◌, ◌≡◌, refl, sym, ◌∙◌, Bool, true, false, ◌&&◌, not, some, List, [], ◌∷◌, String, Text, bytes,
  same, same_iff, length, all, arith, Bool-cases, Option-cases, inl, inr, &&-eq-true,
}
use rockbase.App.Routes.{Part, lit, param, Route, routes, is_blank, fits, fitting}

-- some path may fit both patterns
overlap : List Part → List Part → Bool
overlap [] [] = true
overlap (lit s ∷ ps) (lit t ∷ qs) = same (bytes s) (bytes t) && overlap ps qs
overlap (lit s ∷ ps) (param ∷ qs) = not (is_blank (bytes s)) && overlap ps qs
overlap (param ∷ ps) (lit t ∷ qs) = not (is_blank (bytes t)) && overlap ps qs
overlap (param ∷ ps) (param ∷ qs) = overlap ps qs
overlap _ _ = false

abbrev Fits : List Part → List Text → Type 0
Fits p path = (params : List Text) × (fits p path ≡ some params)

Fits-lit :
    (s : String) (ps : List Part) (t : Text) (ts : List Text)
    → Fits (lit s ∷ ps) (t ∷ ts)
    → (t ≡ bytes s) × Fits ps ts
unfolding fits
Fits-lit s ps t ts (params, h) = elim (Bool-cases (same t (bytes s))) [
  | inl e ↦ ((same_iff t (bytes s)).0 e, (params, rw e at h))
  | inr e ↦ cc (h, e)
]

Fits-param :
    (ps : List Part) (t : Text) (ts : List Text)
    → Fits (param ∷ ps) (t ∷ ts)
    → (is_blank t ≡ false) × Fits ps ts
unfolding fits
Fits-param ps [] ts (params, h) = cc
Fits-param ps (c ∷ t) ts (params, h) = elim (Option-cases (fits ps ts)) [
  | inl e ↦ cc (h, e)
  | inr (rest, e) ↦ (refl, (rest, e))
]

Fits-overlap : (p q : List Part) (path : List Text) → Fits p path → Fits q path → overlap p q ≡ true
unfolding overlap
Fits-overlap [] [] path f g = refl
Fits-overlap [] (y ∷ q) [] f (params, g) = unfold fits in cc (g)
Fits-overlap [] (y ∷ q) (t ∷ path) (params, f) g = unfold fits in cc (f)
Fits-overlap (x ∷ p) [] [] (params, f) g = unfold fits in cc (f)
Fits-overlap (x ∷ p) [] (t ∷ path) f (params, g) = unfold fits in cc (g)
Fits-overlap (x ∷ p) (y ∷ q) [] (params, f) g = unfold fits in cc (f)
Fits-overlap (lit s ∷ p) (lit r ∷ q) (t ∷ path) f g =
    let (a, f') = Fits-lit s p t path f in
    let (b, g') = Fits-lit r q t path g in
    rw ((same_iff (bytes s) (bytes r)).1 (sym a ∙ b)) (Fits-overlap p q path f' g')
Fits-overlap (lit s ∷ p) (param ∷ q) (t ∷ path) f g =
    let (a, f') = Fits-lit s p t path f in
    let (b, g') = Fits-param q t path g in
    let full : is_blank (bytes s) ≡ false = rw (← a) b in rw full (Fits-overlap p q path f' g')
Fits-overlap (param ∷ p) (lit r ∷ q) (t ∷ path) f g =
    let (a, f') = Fits-param p t path f in
    let (b, g') = Fits-lit r q t path g in
    let full : is_blank (bytes r) ≡ false = rw (← b) a in rw full (Fits-overlap p q path f' g')
Fits-overlap (param ∷ p) (param ∷ q) (t ∷ path) f g =
    let (_, f') = Fits-param p t path f in
    let (_, g') = Fits-param q t path g in Fits-overlap p q path f' g'

apart : Route → List Route → Bool
apart r rs = all (λ q. not (overlap r.pattern q.pattern)) rs

disjoint : List Route → Bool
disjoint [] = true
disjoint (r ∷ rs) = apart r rs && disjoint rs

fitting-apart :
    (path : List Text) (r : Route) (rs : List Route)
    → Fits r.pattern path
    → apart r rs ≡ true
    → fitting path rs ≡ []
unfolding fitting apart
fitting-apart path r [] f h = refl
fitting-apart path r (q ∷ rs) f h =
    let (a, b) = &&-eq-true (not (overlap r.pattern q.pattern)) (apart r rs) h in
    elim (Option-cases (fits q.pattern path)) [
      | inl e ↦ rw (e, fitting) (fitting-apart path r rs f b)
      | inr (params, e) ↦ cc (a, Fits-overlap r.pattern q.pattern path f (params, e))
    ]

fitting-disjoint :
    (path : List Text) (rs : List Route) → disjoint rs ≡ true → length (fitting path rs) ≤ 1
unfolding fitting disjoint
fitting-disjoint path [] h = omega arith
fitting-disjoint path (r ∷ rs) h =
    let (a, b) = &&-eq-true (apart r rs) (disjoint rs) h in
    elim (Option-cases (fits r.pattern path)) [
      | inl e ↦ rw (e, fitting) (fitting-disjoint path rs b)
      | inr (params, e) ↦ rw (e, fitting) (rw (fitting-apart path r rs (params, e) a) (omega arith))
    ]

routes-disjoint : disjoint routes ≡ true
unfolding disjoint apart overlap routes bytes same
routes-disjoint = refl

-- A path fits one route of the table at most, so the order of the table does not matter and no
-- request can reach a handler that another route was meant for.
pub fitting-routes : (path : List Text) → length (fitting path routes) ≤ 1
fitting-routes path = fitting-disjoint path routes routes-disjoint
