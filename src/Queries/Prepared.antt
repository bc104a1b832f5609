-- ===== src/Queries/Prepared.antt =====
-- Every value of a query is an argument of the statement, never a part of its text.
use deconstruct.Base.{
  ℕ, suc, ◌+◌, Text, codes, Bool, true, false, Option, none, some, List, [], ◌∷◌, ◌++◌, ◌≡◌, refl,
  sym, ap, ◌∙◌, arith, ◌==◌, length, length-append, All, All-append, is_empty, text_eq, equal_fold,
  join, keys, if◌then◌else◌,
}
use mathlib.Core.Path.{subst}
use deconstruct.Base.Decimal.{ℤ}
use deconstruct.Queries.Shape.{
  SameShape, keys-clauses, tag_join_same, IsSorted, select_text, select_text-IsSorted,
}
use deconstruct.Queries.{
  FlowQuery, SqlValue, int_value, clause, status_clause, clauses, args_of, where_of, tag_join,
  build_flow_where, flow_order_by, sort_direction, limit_of, offset_of, select_columns,
  count_statement, select_statement,
}

-- the number of question marks
abbrev pub placeholders : Text → ℕ
placeholders [] = 0
placeholders (c ∷ s) = if c == b'?' then suc (placeholders s) else placeholders s

placeholders-append : (s t : Text) → placeholders (s ++ t) ≡ placeholders s + placeholders t
placeholders-append [] t = omega arith
placeholders-append (c ∷ s) t = ground (arith, placeholders-append s t)

passed : (s t : Text) → placeholders s ≡ 0 → placeholders (s ++ t) ≡ placeholders t
passed s t h = omega (arith, placeholders-append s t, h)

abbrev HasOne : Text × SqlValue → Type 0
HasOne c = placeholders c.0 ≡ 1

clause-HasOne :
    (sql field value : Text) → placeholders sql ≡ 1 → All HasOne (clause sql field value)
unfolding clause
clause-HasOne sql [] value h = tt
clause-HasOne sql (c ∷ field) value h = (h, tt)

status_clause-HasOne : (status : Option ℤ) → All HasOne (status_clause status)
unfolding status_clause
status_clause-HasOne none = tt
status_clause-HasOne (some status) = (refl, tt)

clauses-HasOne : (query : FlowQuery) → All HasOne (clauses query)
unfolding clauses
clauses-HasOne query = All-append HasOne _ _ (clause-HasOne (codes "ft.tag = ?") query.tag _ refl) (
    All-append HasOne _ _ (clause-HasOne (codes "f.session_id = ?") query.session_id _ refl) (
      All-append HasOne _ _ (clause-HasOne (codes "f.method = ?") query.method _ refl) (
        All-append HasOne _ _ (clause-HasOne (codes "f.app_name = ?") query.app_name _ refl) (
          All-append HasOne _ _ (clause-HasOne (codes "f.host = ?") query.host _ refl) (
            All-append HasOne _ _ (clause-HasOne (codes "f.url LIKE ?") query.url_contains _ refl)
              (status_clause-HasOne query.status))))))

placeholders-join :
    (cs : List (Text × SqlValue))
    → All HasOne cs
    → placeholders (join (codes " AND ") (keys cs)) ≡ length (args_of cs)
unfolding join
placeholders-join [] h = refl
placeholders-join (c ∷ []) (h, hs) = h
placeholders-join (c ∷ d ∷ cs) (h, hs) =
    placeholders-append c.0 (codes " AND " ++ join (codes " AND ") (keys (d ∷ cs)))
    ∙ ground (arith, h, placeholders-join (d ∷ cs) hs)

placeholders-where_of :
    (cs : List (Text × SqlValue))
    → All HasOne cs
    → placeholders (where_of (keys cs)) ≡ length (args_of cs)
unfolding where_of
placeholders-where_of [] h = refl
placeholders-where_of (c ∷ cs) h = placeholders-join (c ∷ cs) h

placeholders_if :
    (b : Bool) (s t : Text)
    → placeholders s ≡ 0
    → placeholders t ≡ 0
    → placeholders (if b then s else t) ≡ 0
placeholders_if true s t h g = h
placeholders_if false s t h g = g

placeholders-flow_order_by : (sort_by : Text) → placeholders (flow_order_by sort_by) ≡ 0
unfolding flow_order_by
placeholders-flow_order_by sort_by =
    placeholders_if (text_eq sort_by (codes "method")) (codes "f.method") _ refl (
      placeholders_if (text_eq sort_by (codes "app")) (codes "f.app_name") _ refl (
        placeholders_if (text_eq sort_by (codes "url")) (codes "f.url") _ refl (
          placeholders_if (text_eq sort_by (codes "host")) (codes "f.host") _ refl (
            placeholders_if (text_eq sort_by (codes "status")) (codes "f.status") _ refl (
              placeholders_if (text_eq sort_by (codes "duration")) (codes "f.duration_ms")
                (codes "f.created_at") refl refl)))))

placeholders-tag_join : (s : Text) → placeholders (tag_join s) ≡ 0
unfolding tag_join
placeholders-tag_join s = placeholders_if (is_empty s) [] _ refl refl

placeholders-sort_direction : (s : Text) → placeholders (sort_direction s) ≡ 0
unfolding sort_direction
placeholders-sort_direction s = placeholders_if (equal_fold s (codes "asc")) _ _ refl refl

select_text-placeholders :
    (tags condition order direction : Text)
    → placeholders tags ≡ 0
    → placeholders order ≡ 0
    → placeholders direction ≡ 0
    → placeholders (select_text tags condition order direction) ≡ placeholders condition + 2
select_text-placeholders tags condition order direction t o d =
    passed tags _ t
    ∙ placeholders-append condition
        (codes " ORDER BY " ++ (order ++ (codes " " ++ (direction ++ codes " LIMIT ? OFFSET ?"))))
    ∙ ap (λ n. placeholders condition + n) (passed order _ o ∙ passed direction _ d)

-- A query is prepared with one argument for each placeholder. For two queries that set the same fields,
-- whatever values they set them to and however they sort, the count statements have the same text, and
-- the select statements differ at most in the column, one of seven, and the direction, one of two, that
-- stand behind ORDER BY.
pub select_statement-SameShape :
    (q r : FlowQuery)
    → SameShape q r
    → (placeholders (select_statement q).sql ≡ length (select_statement q).args)
      × (placeholders (count_statement q).sql ≡ length (count_statement q).args)
      × ((count_statement q).sql ≡ (count_statement r).sql)
      × ((head : Text) × IsSorted head (select_statement q).sql
          × IsSorted head (select_statement r).sql)
unfolding select_statement count_statement build_flow_where
select_statement-SameShape q r h =
    let ks = ap where_of (keys-clauses q r h) in
    let js = tag_join_same q.tag r.tag h.tag in
    let one = placeholders-where_of (clauses q) (clauses-HasOne q) in
    (
      select_text-placeholders (tag_join q.tag) (where_of (keys (clauses q)))
            (flow_order_by q.sort_by) (sort_direction q.sort_dir) (placeholders-tag_join q.tag)
            (placeholders-flow_order_by q.sort_by) (placeholders-sort_direction q.sort_dir)
          ∙ omega (
            arith,
            one,
            length-append (args_of (clauses q))
                (int_value (limit_of q.limit) ∷ int_value (offset_of q.offset) ∷ []),
          ),
      passed (tag_join q.tag) _ (placeholders-tag_join q.tag) ∙ one,
      ap (λ x. codes "SELECT COUNT(*) FROM flows f " ++ (x ++ where_of (keys (clauses q)))) js
          ∙ ap (λ x. codes "SELECT COUNT(*) FROM flows f " ++ (tag_join r.tag ++ x)) ks,
      (
        select_columns ++ (tag_join r.tag ++ where_of (keys (clauses r))),
        subst
            (λ t. IsSorted (select_columns ++ (tag_join r.tag ++ where_of (keys (clauses r)))) (
              select_text t (where_of (keys (clauses q))) (flow_order_by q.sort_by)
                (sort_direction q.sort_dir)))
            (sym js)
            (subst
              (λ c. IsSorted (select_columns ++ (tag_join r.tag ++ where_of (keys (clauses r)))) (
                select_text (tag_join r.tag) c (flow_order_by q.sort_by)
                  (sort_direction q.sort_dir)))
              (sym ks) (select_text-IsSorted q (tag_join r.tag) (where_of (keys (clauses r))))),
        select_text-IsSorted r (tag_join r.tag) (where_of (keys (clauses r))),
      ),
    )
