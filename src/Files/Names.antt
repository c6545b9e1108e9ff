-- ===== src/Files/Names.antt =====
-- The names that src/files.rs lets through.
use rockbase.Prelude.{
  ℕ, zero, suc, ◌≤◌, ◌≡◌, refl, ap, subst, ◌∙◌, inl, inr, true, false, ◌||◌, ◌==◌, some, [], ◌∷◌,
  Text, bytes, contains, all, take, arith, length, Bool-cases,
}
use rockbase.Ident.{is_ascii_alphanumeric, is_digit}
use rockbase.Files.{is_printable, is_kept, keep, is_blank, checked_name, sanitize_filename}

keep-all : (s : Text) → all is_kept (keep s) ≡ true
unfolding keep
keep-all [] = refl
keep-all (c ∷ s) = elim (Bool-cases (is_kept c)) [
  | inl e ↦ rw (e, keep) (rw e (keep-all s))
  | inr e ↦ rw (e, keep) (keep-all s)
]

take-all : (n : ℕ) (s : Text) → all is_kept s ≡ true → all is_kept (take n s) ≡ true
take-all zero s h = refl
take-all (suc n) [] h = refl
take-all (suc n) (c ∷ s) h = ground (arith, take-all n s, h)

keep-kept : (s : Text) → all is_kept s ≡ true → keep s ≡ s
unfolding keep
keep-kept [] h = refl
keep-kept (c ∷ s) h =
    let (a, b) : (is_kept c ≡ true) × (all is_kept s ≡ true) = ground (arith, h) in
    rw (a, keep) (ap (λ t. c ∷ t) (keep-kept s b))

length-take : (n : ℕ) (s : Text) → length (take n s) ≤ n
length-take zero s = omega arith
length-take (suc n) [] = omega arith
length-take (suc n) (c ∷ s) = omega (arith, length-take n s)

take-short : (n : ℕ) (s : Text) → length s ≤ n → take n s ≡ s
take-short zero [] h = refl
take-short zero (c ∷ s) h = absurd (omega (arith, h))
take-short (suc n) [] h = refl
take-short (suc n) (c ∷ s) h = ap (λ t. c ∷ t) (take-short n s (omega (arith, h)))

is_kept-printable : (c : ℕ) → is_kept c ≡ true → is_printable c ≡ true
unfolding is_kept is_printable is_ascii_alphanumeric is_digit
is_kept-printable c h = ground arith

all-printable : (s : Text) → all is_kept s ≡ true → all is_printable s ≡ true
all-printable [] h = refl
all-printable (c ∷ s) h = ground (arith, is_kept-printable c, all-printable s, h)

-- A name of a file: one component of a path, of at most a hundred plain characters, and not upwards.
pub record IsName (s : Text) : Type 0 where
  pub plain : all is_kept s ≡ true
  pub short : length s ≤ 100
  pub nonempty : is_blank s ≡ false
  pub no_dots : contains s (bytes "..") ≡ false
  pub no_dot : all (λ c. c == b'.') s ≡ false

checked_name-eq-some :
    (s t : Text)
    → checked_name s ≡ some t
    → (s ≡ t)
      × (is_blank s ≡ false)
      × (contains s (bytes "..") ≡ false)
      × (all (λ c. c == b'.') s ≡ false)
unfolding checked_name
checked_name-eq-some s t h =
    elim (Bool-cases (is_blank s || contains s (bytes "..") || all (λ c. c == b'.') s)) [
      | inl e ↦ cc (h, e)
      | inr e ↦
          let (a, b, c) : (is_blank s ≡ false)
              × (contains s (bytes "..") ≡ false)
              × (all (λ c. c == b'.') s ≡ false) =
            ground (arith, e) in
          (cc (h, e), a, b, c)
    ]

-- What an upload is stored under is a name of one path component, with none of the characters that a
-- path gives a meaning to and no `..`; and cleaning it once more changes nothing, so the check of a
-- download, that its name is clean, lets every stored name through and nothing else.
pub sanitize_filename-IsName :
    (raw s : Text) → sanitize_filename raw ≡ some s → IsName s × (sanitize_filename s ≡ some s)
unfolding sanitize_filename
sanitize_filename-IsName raw s h = elim (Bool-cases (all is_printable raw)) [
  | inr e ↦ cc (h, e)
  | inl e ↦
      let named : checked_name (take 100 (keep raw)) ≡ some s = rw (e, sanitize_filename) at h in
      let (same_s, a, b, c) = checked_name-eq-some (take 100 (keep raw)) s named in
      let plain : all is_kept s ≡ true =
        subst (λ t. all is_kept t ≡ true) same_s (take-all 100 (keep raw) (keep-all raw)) in
      let short : length s ≤ 100 =
        subst (λ (t : Text). length t ≤ 100) same_s (length-take 100 (keep raw)) in
      let again : take 100 (keep s) ≡ s =
        ap (take 100) (keep-kept s plain) ∙ take-short 100 s short in
      (
        record {
          plain = plain;
          short = short;
          nonempty = subst (λ t. is_blank t ≡ false) same_s a;
          no_dots = subst (λ t. contains t (bytes "..") ≡ false) same_s b;
          no_dot = subst (λ t. all (λ c. c == b'.') t ≡ false) same_s c;
        },
        rw (all-printable s plain, sanitize_filename)
            (ap checked_name again ∙ subst (λ t. checked_name t ≡ some s) same_s named),
      )
]
