-- ===== src/Records/Emails/Updates.antt =====
-- `update_core` and `delete_core` of src/records.rs and the emails that are taken.
use rockbase.Prelude.{
  ◌≡◌, ◌≢◌, refl, sym, ap, subst, ◌∙◌, ◌⊎◌, [], inl, inr, true, false, Option, none, some, Text,
  bytes, Bool-cases, Result-cases, ok, contains,
}
use rockbase.Json.{Json, Fields, get, as_object}
use rockbase.Auth.{Who}
use rockbase.Db.{Row, Db, Host, map_or_empty}
use rockbase.Records.{str_of, Effect}
use rockbase.Records.Gate.{fetch_record, has_email, email_taken}
use rockbase.Records.Update.{check_email, check_auth, update_core}
use rockbase.Records.Delete.{delete_core}
use rockbase.Records.Steps.{update_core-Updated, delete_core-Deleted}
use rockbase.Records.Rows.{Updated-fetched, update_core-stores, delete_core-removes}
use rockbase.Records.Emails.{HasOwnEmails, Writes, email_taken-free}
use rockbase.Records.Emails.Merge.{IsMap, or_else, patched-email}
use rockbase.Records.Emails.Creates.{
  KeepsEmails, IsReadable, update_rows-IsReadable, delete_rows-IsReadable, email-read, stored-email,
}

check_email-free :
    (host : Host) (db : Db) (name id e : Text)
    → check_email host db name id (some e) ≡ ok tt
    → email_taken host.serde db name e id ≡ false
unfolding check_email bytes
check_email-free host db name id e h = elim (Bool-cases (contains e (bytes "@"))) [
  | inr f ↦ cc (h, f)
  | inl f ↦ elim (Bool-cases (email_taken host.serde db name e id)) [
    | inl t ↦ cc (h, f, t)
    | inr t ↦ t
  ]
]

check_auth-free :
    (host : Host) (db : Db) (w : Who) (name id text e : Text) (patch : Fields)
    → check_auth host db w name id text patch ≡ ok tt
    → str_of (get (bytes "email") patch) ≡ some e
    → email_taken host.serde db name e id ≡ false
unfolding check_auth bytes
check_auth-free host db w name id text e patch h m =
    elim (Result-cases (check_email host db name id (some e))) [
      | inl (u, f) ↦ check_email-free host db name id e f
      | inr (x, f) ↦ cc (h, m, f)
    ]

-- where the email that an update stores comes from
abbrev OldEmail : Option Fields → Text → Type 0
OldEmail old e = (m : Fields) × (old ≡ some m) × (str_of (get (bytes "email") m) ≡ some e)

from_patch :
    (o : Option Json) (old : Option Fields) (e : Text)
    → str_of (or_else o (get (bytes "email") (map_or_empty old))) ≡ some e
    → (str_of o ≡ some e) ⊎ OldEmail old e
unfolding get str_of
from_patch (some v) old e h = inl h
from_patch none (some m) e h = inr (m, refl, h)
from_patch none none e h = cc

module _ (host : Host) (db : Db) (w : Who) (name : Text) (k : KeepsEmails host.serde)
    (sound : HasOwnEmails host.serde db) where
  found-nonempty : (id : Text) (row : Row) → fetch_record db name id ≡ some row → id ≢ []
  found-nonempty id row f z = cc (f, z, sound.named name)

  pub update_core-Writes :
      (id : Text) (body : Json) (ts : Text) (out : Effect × Db)
      → ((patch : Fields) → as_object body ≡ some patch → IsMap patch)
      → update_core host db w name id body ts ≡ ok out
      → Writes host.serde name id db out.1
  update_core-Writes id body ts out maps h =
      let u = update_core-Updated host db w name id body ts out h in
      let text = host.serde.to_string (Json.obj u.data_map) in
      let rows = ap (λ (o : Effect × Db). o.1.records) u.stored in
      let (was, elsewhere) = update_core-stores host db w name id body ts out h in
      let row : Row = record (u.row) { data_text = text; updated = ts } in
      record {
        elsewhere = elsewhere;
        reads = subst (IsReadable host.serde) (sym rows) (
            update_rows-IsReadable host.serde name id text ts (k.back u.data_map)
              (k.reads u.data_map) db.records sound.readable);
        nonempty = found-nonempty id u.row u.fetched;
        checked = λ col found auth e x r s fr hr fs hs.
            let mine : row ≡ r = cc (fr, Updated-fetched host db w name id body ts out u) in
            let same_col : u.col ≡ col = cc (found, u.found) in
            let allowed : check_auth host db w name id u.row.data_text u.patch ≡ ok tt =
              cc (u.checked, auth, same_col) in
            let email =
              stored-email host.serde k row u.data_map e refl
                (subst (λ t. has_email host.serde e t ≡ true) (sym mine) hr) in
            let origin =
              patched-email host u.row.data_text u.patch u.data_map (maps u.patch u.object)
                u.patches in
            elim (from_patch (get (bytes "email") u.patch) (host.serde.from_str u.row.data_text) e
              (ap str_of (sym origin) ∙ email)) [
                | inl new ↦
                    email_taken-free host.serde db name e id x s sound.readable
                      (check_auth-free host db w name id u.row.data_text e u.patch allowed new) fs
                      hs
                | inr (m, reads, old) ↦
                    sound.unique name col found auth e x id s u.row fs u.fetched hs
                      (email-read host.serde u.row m e reads old)
              ];
      }

  pub delete_core-Writes :
      (id : Text) (out : Effect × Db)
      → delete_core host db w name id ≡ ok out
      → Writes host.serde name id db out.1
  delete_core-Writes id out h =
      let d = delete_core-Deleted host db w name id out h in
      let rows = ap (λ (o : Effect × Db). o.1.records) d.stored in
      let (was, gone, elsewhere) = delete_core-removes host db w name id out h in
      record {
        elsewhere = elsewhere;
        reads =
            subst (IsReadable host.serde) (sym rows)
              (delete_rows-IsReadable host.serde name id db.records sound.readable);
        nonempty = found-nonempty id d.row d.fetched;
        checked = λ col found auth e x r s fr hr fs hs. cc (gone, fr);
      }
