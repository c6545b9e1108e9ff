-- ===== src/Json.antt =====
-- `serde_json::Value` and its `Map`, as far as the program uses them.
mod Data
mod Maps
pub use Data.{Json, Items, Fields}
unfoldable pub use Data.{
  as_str, as_bool, as_i64, as_object, as_array, items_list, list_items, is_null, json_eq,
}
unfoldable pub use Maps.{get, insert, remove, contains_key}
pub use Maps.{get-insert, get-remove, get-insert_self, get-remove_self}
