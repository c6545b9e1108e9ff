-- ===== src/Records/Emails.antt =====
-- The emails of the accounts of src/records.rs: what `email_taken` sees of the table.
pub mod Merge
pub mod Creates
pub mod Updates
pub mod Drops
pub mod History
mod Tests
use rockbase.Prelude.{
  ◌≡◌, ◌≢◌, refl, sym, subst, ◌∙◌, inl, inr, Bool, true, false, ◌&&◌, not, any, Option, none, some,
  List, [], ◌∷◌, Text, bytes, same, same_iff, same_refl, All, arith, Bool-cases, Option-cases,
  &&-eq-true, ◌||◌, if◌then◌else◌,
}
use rockbase.Json.{Fields, get}
use rockbase.Env.{Serde}
use rockbase.Db.{Row, Db, Col, get_collection, is_at, find_row}
use rockbase.Records.{str_of}
use rockbase.Records.Gate.{fetch_record, email_of, has_email, is_broken, email_taken}
use rockbase.Records.Create.{is_auth}
use rockbase.Records.Rows.{SameElsewhere}

-- Every row reads as JSON, no record has the empty id, and no two records of an auth collection have
-- the same email.
pub record HasOwnEmails (serde : Serde) (db : Db) : Type 0 where
  pub readable : All (λ r. is_broken serde r ≡ false) db.records
  pub named : (name : Text) → fetch_record db name [] ≡ none
  pub unique :
      (name : Text) (col : Col)
      → get_collection serde db name ≡ some col
      → is_auth col ≡ true
      → (e a b : Text) (r s : Row) → fetch_record db name a ≡ some r
      → fetch_record db name b ≡ some s
      → has_email serde e r ≡ true
      → has_email serde e s ≡ true
      → a ≡ b

none_broken :
    (serde : Serde) (name : Text) (rows : List Row)
    → All (λ r. is_broken serde r ≡ false) rows
    → any (λ r. same r.collection name && is_broken serde r) rows ≡ false
none_broken serde name [] h = refl
none_broken serde name (r ∷ rows) h = ground (arith, h.0, none_broken serde name rows h.1)

-- a row that was found fails a test that no row passes
find_row-any :
    (name id : Text) (p : Row → Bool) (rows : List Row) (r : Row)
    → find_row name id rows ≡ some r
    → any p rows ≡ false
    → (p r ≡ false) × (is_at name id r ≡ true)
unfolding find_row
find_row-any name id p [] r f h = cc
find_row-any name id p (q ∷ rows) r f h = elim (Bool-cases (is_at name id q)) [
  | inl e ↦
      let this : q ≡ r = cc (f, e) in
      subst (λ t. (p t ≡ false) × (is_at name id t ≡ true)) this (ground (arith, h), e)
  | inr e ↦ find_row-any name id p rows r (cc (f, e)) (ground (arith, h))
]

-- an email that is free is an email of nobody but the record that is let off
pub email_taken-free :
    (serde : Serde) (db : Db) (name e x id : Text) (r : Row)
    → All (λ r. is_broken serde r ≡ false) db.records
    → email_taken serde db name e x ≡ false
    → fetch_record db name id ≡ some r
    → has_email serde e r ≡ true
    → id ≡ x
unfolding email_taken fetch_record is_at
email_taken-free serde db name e x id r reads free f h =
    let sound = none_broken serde name db.records reads in
    let nobody : any (λ r. same r.collection name && (has_email serde e r && not (same r.id x)))
          db.records
        ≡ false =
      ground (arith, sound, free) in
    let (fails, at) = find_row-any name id _ db.records r f nobody in
    let (here, mine) = &&-eq-true (same r.collection name) (same r.id id) at in
    let off : same r.id x ≡ true = ground (arith, fails, here, h) in
    sym ((same_iff r.id id).0 mine) ∙ (same_iff r.id x).0 off

-- what a write of one record has to see to
pub record Writes (serde : Serde) (name id : Text) (a b : Db) : Type 0 where
  pub elsewhere : SameElsewhere name id a b
  pub reads : All (λ r. is_broken serde r ≡ false) b.records
  pub nonempty : id ≢ []
  pub checked :
      (col : Col)
      → get_collection serde a name ≡ some col
      → is_auth col ≡ true
      → (e x : Text) (r s : Row) → fetch_record b name id ≡ some r
      → has_email serde e r ≡ true
      → fetch_record a name x ≡ some s
      → has_email serde e s ≡ true
      → x ≡ id

get_collection-same :
    (serde : Serde) (name : Text) (a b : Db)
    → b.collections ≡ a.collections
    → get_collection serde b name ≡ get_collection serde a name
unfolding get_collection
get_collection-same serde name a b e = rw e refl

module _ (serde : Serde) (name id : Text) (a b : Db) (s : HasOwnEmails serde a)
    (w : Writes serde name id a b) where
  named-after : (name' : Text) → fetch_record b name' [] ≡ none
  named-after name' = elim (w.elsewhere.others name' []) [
    | inl k ↦
        let (_, j) = &&-eq-true (same name name') (same id []) k in
        absurd (w.nonempty ((same_iff id []).0 j))
    | inr k ↦ k ∙ s.named name'
  ]

  -- one of two records that share an email is the one that was written
  unique-mixed :
      (col : Col)
      → get_collection serde a name ≡ some col
      → is_auth col ≡ true
      → (e y : Text) (r t : Row) → fetch_record b name id ≡ some r
      → fetch_record b name y ≡ some t
      → has_email serde e r ≡ true
      → has_email serde e t ≡ true
      → y ≡ id
  unique-mixed col c auth e y r t f g hr ht = elim (w.elsewhere.others name y) [
    | inl k ↦ let (_, j) = &&-eq-true (same name name) (same id y) k in sym ((same_iff id y).0 j)
    | inr k ↦ w.checked col c auth e y r t f hr (sym k ∙ g) ht
  ]

  unique-after :
      (name' : Text) (col : Col)
      → get_collection serde a name' ≡ some col
      → is_auth col ≡ true
      → (e x y : Text) (r t : Row) → fetch_record b name' x ≡ some r
      → fetch_record b name' y ≡ some t
      → has_email serde e r ≡ true
      → has_email serde e t ≡ true
      → x ≡ y
  unique-after name' col c auth e x y r t f g hr ht = elim (w.elsewhere.others name' x) [
    | inl k ↦
        let (n, i) = &&-eq-true (same name name') (same id x) k in
        let n' = (same_iff name name').0 n in
        let i' = (same_iff id x).0 i in
        sym (unique-mixed col (cc (c, n')) auth e y r t (cc (f, n', i')) (cc (g, n')) hr ht ∙ i')
    | inr k ↦ elim (w.elsewhere.others name' y) [
      | inl j ↦
          let (n, i) = &&-eq-true (same name name') (same id y) j in
          let n' = (same_iff name name').0 n in
          let i' = (same_iff id y).0 i in
          unique-mixed col (cc (c, n')) auth e x t r (cc (g, n', i')) (cc (f, n')) ht hr ∙ i'
      | inr j ↦ s.unique name' col c auth e x y r t (sym k ∙ f) (sym j ∙ g) hr ht
    ]
  ]

pub Writes-HasOwnEmails :
    {serde : Serde} {name id : Text} {a b : Db}
    → HasOwnEmails serde a
    → Writes serde name id a b
    → HasOwnEmails serde b
Writes-HasOwnEmails {serde} {name} {id} {a} {b} s w = record {
  readable = w.reads;
  named = named-after serde name id a b s w;
  unique = λ name' col c.
      unique-after serde name id a b s w name' col
        (sym (get_collection-same serde name' a b w.elsewhere.collections) ∙ c);
}
