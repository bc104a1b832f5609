-- ===== src/Queries/Shape.antt =====
-- On what the texts of the statements depend: on which fields a query sets, and on its sorting.
use deconstruct.Base.{
  suc, Text, codes, Bool, true, false, Option, none, some, List, [], ◌∷◌, ◌++◌, ◌≡◌, refl, sym, ap,
  ◌∙◌, arith, append_assoc, length, is_empty, text_eq, equal_fold, member, keys, if◌then◌else◌,
}
use deconstruct.Base.Decimal.{ℤ}
use deconstruct.Queries.{
  FlowQuery, SqlValue, clause, status_clause, clauses, args_of, tag_join, flow_order_by,
  sort_direction, select_columns,
}

keys-append : (cs ds : List (Text × SqlValue)) → keys (cs ++ ds) ≡ keys cs ++ keys ds
keys-append [] ds = refl
keys-append (c ∷ cs) ds = ap (λ ks. c.0 ∷ ks) (keys-append cs ds)

length-args_of : (cs : List (Text × SqlValue)) → length (args_of cs) ≡ length (keys cs)
length-args_of [] = refl
length-args_of (c ∷ cs) = ap suc (length-args_of cs)

keys-clause :
    (sql f g v w : Text) → is_empty f ≡ is_empty g → keys (clause sql f v) ≡ keys (clause sql g w)
unfolding clause
keys-clause sql [] [] v w h = refl
keys-clause sql [] (d ∷ g) v w h = absurd (ground (arith, h))
keys-clause sql (c ∷ f) [] v w h = absurd (ground (arith, h))
keys-clause sql (c ∷ f) (d ∷ g) v w h = refl

abbrev pub is_set : Option ℤ → Bool
is_set none = false
is_set (some n) = true

keys-status_clause :
    (a b : Option ℤ) → is_set a ≡ is_set b → keys (status_clause a) ≡ keys (status_clause b)
unfolding status_clause
keys-status_clause none none h = refl
keys-status_clause none (some b) h = absurd (ground (arith, h))
keys-status_clause (some a) none h = absurd (ground (arith, h))
keys-status_clause (some a) (some b) h = refl

-- two queries that set the same fields
pub record SameShape (q r : FlowQuery) : Type 0 where
  pub tag : is_empty q.tag ≡ is_empty r.tag
  pub session_id : is_empty q.session_id ≡ is_empty r.session_id
  pub method : is_empty q.method ≡ is_empty r.method
  pub app_name : is_empty q.app_name ≡ is_empty r.app_name
  pub host : is_empty q.host ≡ is_empty r.host
  pub url_contains : is_empty q.url_contains ≡ is_empty r.url_contains
  pub status : is_set q.status ≡ is_set r.status

both_keys :
    (cs ds es fs : List (Text × SqlValue))
    → keys cs ≡ keys ds
    → keys es ≡ keys fs
    → keys (cs ++ es) ≡ keys (ds ++ fs)
both_keys cs ds es fs h g =
    keys-append cs es
    ∙ ap (λ ks. ks ++ keys es) h
    ∙ ap (λ ks. keys ds ++ ks) g
    ∙ sym (keys-append ds fs)

pub keys-clauses : (q r : FlowQuery) → SameShape q r → keys (clauses q) ≡ keys (clauses r)
unfolding clauses
keys-clauses q r h =
    both_keys (clause _ q.tag _) (clause _ r.tag _) _ _
      (keys-clause (codes "ft.tag = ?") q.tag r.tag _ _ h.tag)
      (both_keys (clause _ q.session_id _) (clause _ r.session_id _) _ _
        (keys-clause (codes "f.session_id = ?") q.session_id r.session_id _ _ h.session_id)
        (both_keys (clause _ q.method _) (clause _ r.method _) _ _
          (keys-clause (codes "f.method = ?") q.method r.method _ _ h.method)
          (both_keys (clause _ q.app_name _) (clause _ r.app_name _) _ _
            (keys-clause (codes "f.app_name = ?") q.app_name r.app_name _ _ h.app_name)
            (both_keys (clause _ q.host _) (clause _ r.host _) _ _
              (keys-clause (codes "f.host = ?") q.host r.host _ _ h.host)
              (both_keys (clause _ q.url_contains _) (clause _ r.url_contains _) _ _
                (keys-clause (codes "f.url LIKE ?") q.url_contains r.url_contains _ _
                  h.url_contains)
                (keys-status_clause q.status r.status h.status))))))

pub tag_join_same : (s t : Text) → is_empty s ≡ is_empty t → tag_join s ≡ tag_join t
unfolding tag_join
tag_join_same s t h = ap (λ b. if b then [] else codes "JOIN flow_tags ft ON ft.flow_id = f.id ") h

-- the columns and the directions that a query can be sorted by
abbrev pub sort_columns : List Text
sort_columns =
    codes "f.method"
    ∷ codes "f.app_name"
    ∷ codes "f.url"
    ∷ codes "f.host"
    ∷ codes "f.status"
    ∷ codes "f.duration_ms"
    ∷ codes "f.created_at"
    ∷ []

abbrev pub sort_directions : List Text
sort_directions = codes "ASC" ∷ codes "DESC" ∷ []

member_if :
    (b : Bool) (s t : Text) (ts : List Text)
    → member s ts ≡ true
    → member t ts ≡ true
    → member (if b then s else t) ts ≡ true
member_if true s t ts h g = h
member_if false s t ts h g = g

flow_order_by-member : (sort_by : Text) → member (flow_order_by sort_by) sort_columns ≡ true
unfolding flow_order_by member
flow_order_by-member sort_by = member_if (text_eq sort_by (codes "method")) _ _ sort_columns refl (
    member_if (text_eq sort_by (codes "app")) _ _ sort_columns refl (
      member_if (text_eq sort_by (codes "url")) _ _ sort_columns refl (
        member_if (text_eq sort_by (codes "host")) _ _ sort_columns refl (
          member_if (text_eq sort_by (codes "status")) _ _ sort_columns refl
            (member_if (text_eq sort_by (codes "duration")) _ _ sort_columns refl refl)))))

sort_direction-member : (sort_dir : Text) → member (sort_direction sort_dir) sort_directions ≡ true
unfolding sort_direction member
sort_direction-member sort_dir =
    member_if (equal_fold sort_dir (codes "asc")) _ _ sort_directions refl refl

-- `sql` is `head`, sorted by one of the columns in one of the directions
abbrev pub IsSorted : Text → Text → Type 0
IsSorted head sql =
    (column : Text) × (direction : Text) × (member column sort_columns ≡ true)
    × (member direction sort_directions ≡ true)
    × (sql
        ≡ head
          ++ (codes " ORDER BY "
              ++ (column ++ (codes " " ++ (direction ++ codes " LIMIT ? OFFSET ?")))))

-- the texts of both statements, from the parts that a query gives
abbrev pub select_text : Text → Text → Text → Text → Text
select_text tags condition order direction =
    select_columns
    ++ (tags
        ++ (condition
            ++ (codes " ORDER BY "
                ++ (order ++ (codes " " ++ (direction ++ codes " LIMIT ? OFFSET ?"))))))

pub select_text-IsSorted :
    (q : FlowQuery) (tags condition : Text)
    → IsSorted
        (select_columns ++ (tags ++ condition))
        (select_text tags condition (flow_order_by q.sort_by) (sort_direction q.sort_dir))
select_text-IsSorted q tags condition =
    let rest =
      codes " ORDER BY "
      ++ (flow_order_by q.sort_by
          ++ (codes " " ++ (sort_direction q.sort_dir ++ codes " LIMIT ? OFFSET ?"))) in
    (
      flow_order_by q.sort_by,
      sort_direction q.sort_dir,
      flow_order_by-member q.sort_by,
      sort_direction-member q.sort_dir,
      sym (
          append_assoc select_columns (tags ++ condition) rest
          ∙ ap (λ t. select_columns ++ t) (append_assoc tags condition rest)),
    )
