-- ===== src/Lib.antt =====
-- rockbase: a server that keeps JSON records of collections in SQLite, behind an HTTP API.
--
-- A collection has a schema and five rules, each an expression in the language of list filters.
-- A write comes in alone or in a batch, is checked against the rule of its collection, validated,
-- stored as one row with the files of its body, answered, and published to the subscribers.
--
-- * App (src/lib.rs): the state of the server. Start is `build_app`; Cors, the middleware round every
--   request; Health, the health check; Routes, the table of paths and methods.
-- * Filter (src/filter.rs): `parse`, and the two backends of a parsed expression, `to_sql` for a
--   WHERE clause with binds and `eval` for a record in memory. Text is the list of its bytes. What a
--   call of the parser leaves is no structural part of its input, so the grammar runs on fuel, three
--   steps for each byte and three more. Filter/Where is an independent reader of WHERE clauses,
--   Filter/Print an independent printer of expressions.
-- * Rules (src/rules.rs): the gate on a caller and a stored rule, and the rules of a new collection.
-- * Db (src/db.rs): the tables as lists of rows in a record that the operations pass on. Init is
--   `init_db`, on what a disk has of the tables; Pool, the connections, as a step relation whose
--   steps are what one caller does while it holds the lock.
-- * Records (src/records.rs): Validate, the checks of a body against a schema; Gate, the check of an
--   existing record against a rule, of relations and of an email; Create, Update and Delete, the
--   three cores. Each takes the database and gives the response, the event and the new database, or
--   a failure, and then the database is as it was, since a core writes in its last statement only.
--   Steps has what a write that succeeds went through, and the proofs on the cores start there.
--   Serve has the handlers round the cores, on a state of tables, files and events that went out.
--   View is `record_view`; Listing and Page are `records_list`, Expand the related records of
--   both; Trim is `str::trim`, on ASCII.
-- * Batch (src/batch.rs): the path of a sub-request, the loop over the cores, the transaction.
-- * Collections (src/collections.rs): the checks on schemas and rules, Handlers for the five
--   handlers on a database with the counter `cols_version`, Requests for sequences of them.
-- * Realtime (src/realtime.rs): `visible` with the cache of rules of a subscription, the topics, and
--   the stream: what a receipt from the channel becomes on it.
-- * Files (src/files.rs): file names, content types, storage paths, and the checks of a download.
--   Storage is the disk, a list of paths with their bytes, and its writes and removals; Upload, the
--   bodies of creates and updates, multipart ones and JSON.
-- * Backup (src/backup.rs): the download of a copy of the database.
-- * Http, Ident (src/lib.rs): refusals, and the characters of names.
-- * Auth (src/auth.rs): who a request comes from. Compare, the comparison of the admin token; Tokens,
--   identities from a header or a query; Login, `auth_with_password` and its throttle, with times in
--   seconds; Tickets, the tickets of resets and verifications and the transactions that spend them;
--   Refresh, `auth_refresh` and `tokens_list`.
-- * Json and Prelude: values of serde_json, and lists, texts, integers and results. An object is the
--   list of its fields, with the operations of a map.
--
-- Parameters (Env, Db.Host): floats, serde_json's two functions on texts, bcrypt, and SQLite for the
-- statements that an expression is compiled into; jsonwebtoken (Auth.Tokens.Jwt); what multer makes
-- of a multipart body and serde_json of the JSON one (Files.Upload); which calls of the file system
-- fail (Files.Storage.Faults); `VACUUM INTO` (Backup.Vacuum); axum's choice of a route (App.Routes), for
-- paths without a percent sign only: axum decodes the parameters of a path, and `parse_url` does not.
-- Fresh ids and times are arguments. A core that runs in a transaction is modelled without the
-- errors of SQLite itself, but for a key that is taken.
--
-- Not modelled: serving HTTP and reading the command line, which are input and output; the admin
-- page, a static file; the channel of events, which is tokio's; the log line of a request; the
-- pragmas of a connection.
pub mod Prelude
pub mod Json
pub mod Ident
pub mod Env
pub mod Http
pub mod Filter
pub mod App
pub mod Auth
pub mod Rules
pub mod Db
pub mod Records
pub mod Batch
pub mod Collections
pub mod Trim
pub mod Realtime
pub mod Files
pub mod Backup
