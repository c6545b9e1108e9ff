-- ===== src/Records/PageTests.antt =====
-- Runs of the list of records of src/records.rs.
use rockbase.Prelude.{◌≡◌, refl, ◌+◌, ◌≤◌, none, some, [], Text, bytes, arith, ok, err}
use rockbase.Http.{Reply}
use rockbase.Auth.{Who, user}
use rockbase.Env.Samples.{f64_sample}
use rockbase.Filter.Sql.{Fragment, compile}
use rockbase.Filter.Runs.{runs}
use rockbase.Filter.Where.{Truth, holds, and3, spell, where_value}
use rockbase.Records.Samples.{posts, writes}
use rockbase.Records.Listing.{ListParams, list_where, sort_clause, per_page_of, offset_of}
use rockbase.Records.Narrow.{
  list_tokens, filter_meaning, rule_meaning, list_where-narrows, offset_of-next,
}
use rockbase.Rules.{compile_rule, auth_id}

sort-descending : sort_clause (bytes "-created") ≡ some (bytes "created DESC")
unfolding runs sort_clause
sort-descending = refl

abbrev alice : Who
alice = user posts (bytes "alice01")

abbrev either : Text
either = bytes "views>5 || id='a'"

abbrev owned : Text
owned = bytes "owner = @request.auth.id"

abbrev or_nothing : Reply Fragment → Fragment
or_nothing (ok p) = p
or_nothing (err e) = ([], [])

abbrev clause : Fragment
clause = or_nothing (list_where f64_sample alice posts (some either) (some owned))

clause_made : list_where f64_sample alice posts (some either) (some owned) ≡ ok clause
unfolding runs writes list_where compile_rule compile
clause_made = refl

abbrev all_hold : Fragment → Truth
all_hold p = holds

list_where-narrows_example :
    let ts = list_tokens f64_sample alice posts (some either) (some owned) in
    (spell ts ≡ clause)
    × (where_value all_hold ts
        ≡ and3
            (and3 holds (filter_meaning all_hold f64_sample (some either)))
            (rule_meaning all_hold f64_sample (auth_id alice) (some owned)))
list_where-narrows_example =
    list_where-narrows all_hold f64_sample alice posts (some either) (some owned) clause clause_made

abbrev third_page : ListParams
third_page = record {
  page = some 3;
  per_page = some 50;
  sort = none;
  filter = none;
  fields = none;
  skip_total = none;
  expand = none;
}

offset_of-next_example :
    (1 ≤ per_page_of third_page)
    × (per_page_of third_page ≤ 500)
    × (offset_of (record third_page { page = some (3 + 1) })
        ≡ offset_of third_page + per_page_of third_page)
unfolding per_page_of
offset_of-next_example = offset_of-next third_page 3 refl (omega arith) (omega arith)

-- A page far out starts at the beginning again: 8589935 pages of 500 records are more than 2^32.
offset_wraps : offset_of (record third_page { page = some 8589936; per_page = some 500 }) ≡ 204
unfolding offset_of
offset_wraps = refl
