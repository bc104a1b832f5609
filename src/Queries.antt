-- ===== src/Queries.antt =====
-- The statement that `QueryFlows` of daemon/internal/store/inspector.go prepares. White space between
-- the words of the statement is one blank.
pub mod Prepared
pub mod Shape
mod Examples
use deconstruct.Base.{
  ℕ, Text, codes, Bool, true, false, ◌||◌, Option, none, some, List, [], ◌∷◌, ◌++◌, ◌==◌, ltb,
  is_empty, text_eq, equal_fold, to_lower, to_upper, trim_space, join, keys, if◌then◌else◌,
}
use deconstruct.Base.Decimal.{ℤ, pos, negsuc}

pub record FlowQuery : Type 0 where
  pub session_id : Text
  pub method : Text
  pub app_name : Text
  pub host : Text
  pub url_contains : Text
  pub tag : Text
  pub status : Option ℤ
  pub limit : ℤ
  pub offset : ℤ
  pub sort_by : Text
  pub sort_dir : Text

-- an argument of a statement
pub data SqlValue : Type 0 where
  string_value : Text → SqlValue
  int_value : ℤ → SqlValue

pub record Statement : Type 0 where
  pub sql : Text
  pub args : List SqlValue

unfoldable pub normalize_tag : Text → Text
normalize_tag tag = to_lower (trim_space tag)

-- a clause with its argument, where the field is set
unfoldable pub clause : Text → Text → Text → List (Text × SqlValue)
clause sql field value = if is_empty field then [] else (sql, string_value value) ∷ []

unfoldable pub status_clause : Option ℤ → List (Text × SqlValue)
status_clause none = []
status_clause (some status) = (codes "f.status = ?", int_value status) ∷ []

unfoldable pub clauses : FlowQuery → List (Text × SqlValue)
clauses query =
    clause (codes "ft.tag = ?") query.tag (normalize_tag query.tag)
    ++ (clause (codes "f.session_id = ?") query.session_id query.session_id
        ++ (clause (codes "f.method = ?") query.method (to_upper query.method)
            ++ (clause (codes "f.app_name = ?") query.app_name query.app_name
                ++ (clause (codes "f.host = ?") query.host query.host
                    ++ (clause (codes "f.url LIKE ?") query.url_contains
                          (codes "%" ++ (query.url_contains ++ codes "%"))
                        ++ status_clause query.status)))))

abbrev pub args_of : List (Text × SqlValue) → List SqlValue
args_of [] = []
args_of ((sql, value) ∷ cs) = value ∷ args_of cs

unfoldable pub where_of : List Text → Text
where_of [] = []
where_of (sql ∷ sqls) = codes "WHERE " ++ join (codes " AND ") (sql ∷ sqls)

unfoldable pub tag_join : Text → Text
tag_join tag = if is_empty tag then [] else codes "JOIN flow_tags ft ON ft.flow_id = f.id "

unfoldable pub build_flow_where : FlowQuery → Text × List SqlValue × Text
build_flow_where query =
    (where_of (keys (clauses query)), args_of (clauses query), tag_join query.tag)

unfoldable pub flow_order_by : Text → Text
flow_order_by sort_by =
    if text_eq sort_by (codes "method")
    then codes "f.method"
    else if text_eq sort_by (codes "app")
    then codes "f.app_name"
    else if text_eq sort_by (codes "url")
    then codes "f.url"
    else if text_eq sort_by (codes "host")
    then codes "f.host"
    else if text_eq sort_by (codes "status")
    then codes "f.status"
    else if text_eq sort_by (codes "duration")
    then codes "f.duration_ms"
    else codes "f.created_at"

unfoldable pub sort_direction : Text → Text
sort_direction sort_dir = if equal_fold sort_dir (codes "asc") then codes "ASC" else codes "DESC"

-- from 1 to 1000 rows, 100 where the query asks for others
unfoldable pub limit_of : ℤ → ℤ
limit_of (negsuc n) = pos 100
limit_of (pos n) = if (n == 0) || ltb 1000 n then pos 100 else pos n

unfoldable pub offset_of : ℤ → ℤ
offset_of (negsuc n) = pos 0
offset_of (pos n) = pos n

abbrev pub select_columns : Text
select_columns =
    codes
      "SELECT f.id, f.session_id, f.method, f.app_name, f.source, f.url, f.host, f.status, f.duration_ms, f.created_at FROM flows f "

unfoldable pub count_statement : FlowQuery → Statement
count_statement query =
    let (condition, args, tags) = build_flow_where query in
    record { sql = codes "SELECT COUNT(*) FROM flows f " ++ (tags ++ condition); args = args }

unfoldable pub select_statement : FlowQuery → Statement
select_statement query =
    let (condition, args, tags) = build_flow_where query in
    record {
      sql =
          select_columns
          ++ (tags
              ++ (condition
                  ++ (codes " ORDER BY "
                      ++ (flow_order_by query.sort_by
                          ++ (codes " "
                              ++ (sort_direction query.sort_dir ++ codes " LIMIT ? OFFSET ?"))))));
      args = args ++ (int_value (limit_of query.limit) ∷ int_value (offset_of query.offset) ∷ []);
    }
