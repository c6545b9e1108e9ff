-- ===== src/Records/Page.antt =====
-- src/records.rs: `records_list`, behind the identity of its caller.
use rockbase.Prelude.{
  ℕ, Bool, false, Option, none, some, List, ◌++◌, Text, bytes, same, if◌then◌else◌, ok, err, ok_or,
  ◌>>=◌,
}
use rockbase.Prelude.Int.{ℤ, pos, negsuc}
use rockbase.Prelude.Decimal.{nat_text}
use rockbase.Json.{Json, Fields, insert, list_items}
use rockbase.Http.{failure, Reply, bad_request, not_found, internal_server_error}
use rockbase.Filter.Sql.{Fragment}
use rockbase.Rules.{check_rule}
use rockbase.Auth.{Who}
use rockbase.Db.{Db, Host, get_collection}
use rockbase.Records.Expand.{expand_records}
use rockbase.Records.Listing.{
  ListParams, order_of, list_where, page_of, per_page_of, offset_of, pages_of, keep_set,
  project_all, rows_json,
}

abbrev skips : Option Text → Bool
skips none = false
skips (some s) = same s (bytes "1")

abbrev counted : Host → ListParams → Option ℕ → Reply (ℤ × ℤ)
counted host q none = err (failure internal_server_error host.sqlite.failed)
counted host q (some n) = ok (pos n, pos (pages_of q n))

-- the two totals, -1 where they are not asked for
unfoldable pub totals : Host → Db → ListParams → Fragment → Reply (ℤ × ℤ)
unfolding bytes pages_of
totals host db q (sql, binds) =
    if skips q.skip_total
    then ok (negsuc 0, negsuc 0)
    else counted host q (
        host.sqlite.count_rows (bytes "SELECT COUNT(*) FROM records WHERE " ++ sql) binds
          db.records)

-- the statement of the page
unfoldable pub page_sql : ListParams → Text → Text → Text
unfolding bytes nat_text per_page_of offset_of
page_sql q where_sql order =
    bytes "SELECT id, data, created, updated FROM records WHERE "
    ++ (where_sql
        ++ (bytes " ORDER BY "
            ++ (order
                ++ (bytes " LIMIT "
                    ++ (nat_text (per_page_of q)
                        ++ (bytes " OFFSET " ++ nat_text (offset_of q)))))))

abbrev expanded : Host → Db → Who → List Json → Option Text → List Json → List Json
expanded host db w schema none items = items
expanded host db w schema (some e) items = expand_records host db w schema e items

unfoldable pub page_json : ListParams → ℤ × ℤ → List Json → Json
unfolding bytes insert page_of per_page_of list_items
page_json q (total, pages) items = Json.obj (
    insert (bytes "page") (Json.int (pos (page_of q))) (
      insert (bytes "perPage") (Json.int (pos (per_page_of q))) (
        insert (bytes "totalItems") (Json.int total) (
          insert (bytes "totalPages") (Json.int pages)
            (insert (bytes "items") (Json.arr (list_items items)) Fields.end)))))

unfoldable pub records_list : Host → Db → Who → Text → ListParams → Reply Json
unfolding bytes get_collection check_rule list_where order_of keep_set totals page_sql
    expand_records project_all rows_json page_json
records_list host db w name q = do
  col ← ok_or (get_collection host.serde db name) (failure not_found (bytes "no such collection"))
  rule ← check_rule w col.rules.list
  (sql, binds) ← list_where host.f64 w name q.filter rule
  order ← order_of q.sort
  keep ← keep_set q.fields
  sums ← totals host db q (sql, binds)
  rows ←
      ok_or (host.sqlite.select_rows (page_sql q sql order) binds db.records)
        (failure bad_request host.sqlite.failed)
  let items = expanded host db w col.schema q.expand (rows_json host.serde name rows)
  ok (page_json q sums (project_all keep items))
