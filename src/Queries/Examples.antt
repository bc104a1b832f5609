-- ===== src/Queries/Examples.antt =====
-- Two queries for a host, one of which would like to be part of the statement.
use deconstruct.Base.{Text, codes, none, [], ◌∷◌, ◌≡◌, refl, length, join}
use deconstruct.Base.Decimal.{pos, negsuc}
use deconstruct.Queries.{
  FlowQuery, string_value, clause, status_clause, clauses, where_of, tag_join, build_flow_where,
  count_statement, select_statement,
}
use deconstruct.Queries.Shape.{IsSorted, SameShape}
use deconstruct.Queries.Prepared.{placeholders, select_statement-SameShape}

abbrev for_host : Text → Text → FlowQuery
for_host host column = record {
  session_id = [];
  method = [];
  app_name = [];
  host = host;
  url_contains = [];
  tag = [];
  status = none;
  limit = pos 0;
  offset = negsuc 4;
  sort_by = column;
  sort_dir = codes "asc";
}

count_test : count_statement (for_host (codes "h") []) ≡ record {
  sql = codes "SELECT COUNT(*) FROM flows f WHERE f.host = ?";
  args = string_value (codes "h") ∷ [];
}
unfolding count_statement build_flow_where clauses clause status_clause where_of tag_join join
count_test = refl

same_shape : SameShape (for_host (codes "h") []) (for_host (codes "' OR ''='") (codes "url"))
same_shape = record {
  tag = refl;
  session_id = refl;
  method = refl;
  app_name = refl;
  host = refl;
  url_contains = refl;
  status = refl;
}

select_statement-SameShape_example :
    (placeholders (select_statement (for_host (codes "h") [])).sql
      ≡ length (select_statement (for_host (codes "h") [])).args)
    × (placeholders (count_statement (for_host (codes "h") [])).sql
        ≡ length (count_statement (for_host (codes "h") [])).args)
    × ((count_statement (for_host (codes "h") [])).sql
        ≡ (count_statement (for_host (codes "' OR ''='") (codes "url"))).sql)
    × ((head : Text) × IsSorted head (select_statement (for_host (codes "h") [])).sql
        × IsSorted head (select_statement (for_host (codes "' OR ''='") (codes "url"))).sql)
select_statement-SameShape_example =
    select_statement-SameShape (for_host (codes "h") [])
      (for_host (codes "' OR ''='") (codes "url")) same_shape
