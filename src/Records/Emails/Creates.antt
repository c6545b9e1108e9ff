-- ===== src/Records/Emails/Creates.antt =====
-- `create_core` of src/records.rs and the emails that are taken.
use rockbase.Prelude.{
  ◌≡◌, ◌≢◌, refl, sym, ap, subst, ◌∙◌, inl, inr, true, false, Option, some, List, [], ◌∷◌, ◌++◌,
  Text, bytes, same, same_refl, same_iff, All, Bool-cases, Option-cases, Result-cases, ok, contains,
}
use rockbase.Json.{Json, Fields, get, get-insert, contains_key}
use rockbase.Env.{Serde}
use rockbase.Auth.{Who}
use rockbase.Db.{Row, Db, Host, is_at, update_rows, delete_rows}
use rockbase.Records.{str_of, str_or_empty, verified_field, hash_password, Effect}
use rockbase.Records.Gate.{fetch_record, email_of, has_email, is_broken, email_taken}
use rockbase.Records.Create.{prepare_auth, new_row, create_core}
use rockbase.Records.Steps.{create_core-Created, store-eq-ok}
use rockbase.Records.Rows.{Created-fetched, create_core-stores}
use rockbase.Records.Emails.{HasOwnEmails, Writes, email_taken-free}
use rockbase.Records.Emails.Merge.{hash_password-email}

-- serde_json reads back what it wrote, emails as they were
pub record KeepsEmails (serde : Serde) : Type 0 where
  pub back : Fields → Fields
  pub reads : (m : Fields) → serde.from_str (serde.to_string (Json.obj m)) ≡ some (back m)
  pub keeps : (m : Fields) → str_of (get (bytes "email") (back m)) ≡ str_of (get (bytes "email") m)

abbrev pub IsReadable : Serde → List Row → Type 0
IsReadable serde rows = All (λ r. is_broken serde r ≡ false) rows

append-IsReadable :
    (serde : Serde) (rows : List Row) (r : Row)
    → IsReadable serde rows
    → is_broken serde r ≡ false
    → IsReadable serde (rows ++ r ∷ [])
append-IsReadable serde [] r h g = (g, tt)
append-IsReadable serde (q ∷ rows) r h g = (h.0, append-IsReadable serde rows r h.1 g)

pub update_rows-IsReadable :
    (serde : Serde) (name id text ts : Text) (m : Fields)
    → serde.from_str text ≡ some m
    → (rows : List Row) → IsReadable serde rows
    → IsReadable serde (update_rows name id text ts rows)
unfolding update_rows
update_rows-IsReadable serde name id text ts m e [] h = tt
update_rows-IsReadable serde name id text ts m e (r ∷ rows) h =
    elim (Bool-cases (is_at name id r)) [
      | inl t ↦
          rw (t, update_rows)
            (rw (e, is_broken) refl, update_rows-IsReadable serde name id text ts m e rows h.1)
      | inr f ↦ rw (f, update_rows) (h.0, update_rows-IsReadable serde name id text ts m e rows h.1)
    ]

pub delete_rows-IsReadable :
    (serde : Serde) (name id : Text) (rows : List Row)
    → IsReadable serde rows
    → IsReadable serde (delete_rows name id rows)
unfolding delete_rows
delete_rows-IsReadable serde name id [] h = tt
delete_rows-IsReadable serde name id (r ∷ rows) h = elim (Bool-cases (is_at name id r)) [
  | inl t ↦ rw (t, delete_rows) (delete_rows-IsReadable serde name id rows h.1)
  | inr f ↦ rw (f, delete_rows) (h.0, delete_rows-IsReadable serde name id rows h.1)
]

-- the email of a row that reads
read-email :
    (serde : Serde) (r : Row) (m : Fields) (e : Text)
    → serde.from_str r.data_text ≡ some m
    → has_email serde e r ≡ true
    → str_of (get (bytes "email") m) ≡ some e
unfolding has_email email_of
read-email serde r m e t h = elim (Option-cases (str_of (get (bytes "email") m))) [
  | inl n ↦ cc (rw (t, n, email_of, has_email) at h)
  | inr (x, n) ↦ n ∙ ap some ((same_iff x e).0 (rw (t, n, email_of, has_email) at h))
]

pub email-read :
    (serde : Serde) (r : Row) (m : Fields) (e : Text)
    → serde.from_str r.data_text ≡ some m
    → str_of (get (bytes "email") m) ≡ some e
    → has_email serde e r ≡ true
unfolding has_email email_of
email-read serde r m e t n = rw (t, n, email_of, has_email) (same_refl e)

-- the email of a row that a core stored
pub stored-email :
    (serde : Serde) (k : KeepsEmails serde) (r : Row) (m : Fields) (e : Text)
    → r.data_text ≡ serde.to_string (Json.obj m)
    → has_email serde e r ≡ true
    → str_of (get (bytes "email") m) ≡ some e
stored-email serde k r m e t h =
    sym (k.keeps m) ∙ read-email serde r (k.back m) e (ap serde.from_str t ∙ k.reads m) h

-- what the checks of a create in an auth collection leave
prepare_auth-free :
    (host : Host) (db : Db) (name : Text) (m prepared : Fields)
    → prepare_auth host db name m ≡ ok prepared
    → (email_taken host.serde db name (str_or_empty (get (bytes "email") m)) [] ≡ false)
      × (get (bytes "email") prepared ≡ get (bytes "email") m)
unfolding prepare_auth verified_field bytes same
prepare_auth-free host db name m prepared h =
    let email = str_or_empty (get (bytes "email") m) in
    elim (Bool-cases (contains email (bytes "@"))) [
      | inr e ↦ cc (h, e)
      | inl e ↦ elim (Bool-cases (contains_key (bytes "password") m)) [
        | inr f ↦ cc (h, e, f)
        | inl f ↦ elim (Result-cases (hash_password host.bcrypt m)) [
          | inr (x, g) ↦ cc (h, e, f, g)
          | inl (x, g) ↦ elim (Bool-cases (email_taken host.serde db name email [])) [
            | inl t ↦ cc (h, e, f, g, t)
            | inr t ↦ (
              t,
              cc (
                h,
                e,
                f,
                g,
                t,
                get-insert verified_field (bytes "email") (Json.bool false) x,
                hash_password-email host.bcrypt m x g,
              ),
            )
          ]
        ]
      ]
    ]

str_or_empty-text : (o : Option Json) (e : Text) → str_of o ≡ some e → str_or_empty o ≡ e
unfolding str_or_empty
str_or_empty-text o e h = rw (h, str_or_empty) refl

module _ (host : Host) (db : Db) (w : Who) (name : Text) (k : KeepsEmails host.serde)
    (sound : HasOwnEmails host.serde db) where
  pub create_core-Writes :
      (body : Json) (id ts : Text) (out : Effect × Db)
      → id ≢ []
      → create_core host db w name body id ts ≡ ok out
      → Writes host.serde name id db out.1
  unfolding is_broken
  create_core-Writes body id ts out nonempty h =
      let c = create_core-Created host db w name body id ts out h in
      let (free, e) = store-eq-ok host db name id ts c.prepared out c.stored in
      let row = new_row host name id ts c.prepared in
      let rows = ap (λ (o : Effect × Db). o.1.records) e in
      let (absent, there, elsewhere) = create_core-stores host db w name body id ts out h in
      record {
        elsewhere = elsewhere;
        reads = subst (IsReadable host.serde) (sym rows) (
            append-IsReadable host.serde db.records row sound.readable
              (rw (k.reads c.prepared, is_broken) refl));
        nonempty = nonempty;
        checked = λ col found auth e x r s fr hr fs hs.
            let mine : row ≡ r = cc (fr, Created-fetched host db w name body id ts out c) in
            let same_col : c.col ≡ col = cc (found, c.found) in
            let prepared : prepare_auth host db name c.data_map ≡ ok c.prepared =
              cc (c.prepares, auth, same_col) in
            let (untaken, kept) = prepare_auth-free host db name c.data_map c.prepared prepared in
            let email =
              stored-email host.serde k row c.prepared e refl
                (subst (λ t. has_email host.serde e t ≡ true) (sym mine) hr) in
            let asked =
              str_or_empty-text (get (bytes "email") c.data_map) e (ap str_of (sym kept) ∙ email) in
            let nobody =
              email_taken-free host.serde db name e [] x s sound.readable
                (subst (λ t. email_taken host.serde db name t [] ≡ false) asked untaken) fs hs in
            cc (sound.named name, subst (λ t. fetch_record db name t ≡ some s) nobody fs);
      }
