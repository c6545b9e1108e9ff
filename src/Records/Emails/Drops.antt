-- ===== src/Records/Emails/Drops.antt =====
-- The emails of accounts when a collection of src/collections.rs is dropped.
use rockbase.Prelude.{
  ◌≡◌, inl, inr, none, some, List, [], ◌∷◌, Text, same, same_iff, arith, Bool-cases, Option-cases,
  if◌then◌else◌,
}
use rockbase.Env.{Serde}
use rockbase.Db.{CollectionRow, Row, Col, find_collection, get_collection}
use rockbase.Records.Gate.{fetch_record}
use rockbase.Collections.Handlers.{Catalog, remove_collection, remove_records, without_collection}
use rockbase.Records.Serve.Drops.{find_row-remove_records}
use rockbase.Records.Emails.{HasOwnEmails}
use rockbase.Records.Emails.Creates.{IsReadable}

find_collection-removed :
    (name name' : Text) (cs : List CollectionRow)
    → find_collection name' (remove_collection name cs)
      ≡ (if same name name' then none else find_collection name' cs)
unfolding find_collection remove_collection
find_collection-removed name name' [] = ground arith
find_collection-removed name name' (c ∷ cs) = ground (
  arith,
  find_collection-removed name name' cs,
  same_iff c.name name,
  same_iff c.name name',
  same_iff name name',
)

remove_records-IsReadable :
    (serde : Serde) (name : Text) (rows : List Row)
    → IsReadable serde rows
    → IsReadable serde (remove_records name rows)
unfolding remove_records
remove_records-IsReadable serde name [] h = tt
remove_records-IsReadable serde name (r ∷ rows) h = elim (Bool-cases (same r.collection name)) [
  | inl t ↦ rw (t, remove_records) (remove_records-IsReadable serde name rows h.1)
  | inr f ↦ rw (f, remove_records) (h.0, remove_records-IsReadable serde name rows h.1)
]

module _ (serde : Serde) (c : Catalog) (name : Text) (s : HasOwnEmails serde c.db) where
  fetched_before :
      (name' id : Text) (r : Row)
      → fetch_record (without_collection name c).db name' id ≡ some r
      → fetch_record c.db name' id ≡ some r
  unfolding fetch_record
  fetched_before name' id r h = elim (Bool-cases (same name name')) [
    | inl t ↦ cc (h, t, find_row-remove_records name name' id c.db.records)
    | inr f ↦ cc (h, f, find_row-remove_records name name' id c.db.records)
  ]

  got_before :
      (name' : Text) (col : Col)
      → get_collection serde (without_collection name c).db name' ≡ some col
      → get_collection serde c.db name' ≡ some col
  unfolding get_collection
  got_before name' col h = elim (Bool-cases (same name name')) [
    | inl t ↦ cc (h, t, find_collection-removed name name' c.db.collections)
    | inr f ↦ cc (h, f, find_collection-removed name name' c.db.collections)
  ]

  pub without_collection-HasOwnEmails : HasOwnEmails serde (without_collection name c).db
  without_collection-HasOwnEmails = record {
    readable = remove_records-IsReadable serde name c.db.records s.readable;
    named = λ name'. elim (Option-cases (fetch_record (without_collection name c).db name' [])) [
      | inl e ↦ e
      | inr (r, e) ↦ cc (fetched_before name' [] r e, s.named name')
    ];
    unique = λ name' col found auth e x y r t fr ft.
        s.unique name' col (got_before name' col found) auth e x y r t (fetched_before name' x r fr)
          (fetched_before name' y t ft);
  }
