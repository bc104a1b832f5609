-- ===== src/Analyzer/Sorting.antt =====
-- What the sorts and the removal of duplicates keep.
use deconstruct.Base.{
  Text, Bool, false, ◌||◌, List, [], ◌∷◌, ◌≡◌, refl, ◌∙◌, arith, inl, inr, Bool-cases, text_eq,
  text_eq_iff, member, map, All, Distinct,
}
use deconstruct.Analyzer.Classify.{insert_sorted, sort_by}

module _ {A : Type 0} (less : A → A → Bool) where
  module _ (P : A → Type 0) where
    insert_sorted-All : (x : A) (xs : List A) → P x → All P xs → All P (insert_sorted less x xs)
    unfolding insert_sorted
    insert_sorted-All x [] h hs = (h, tt)
    insert_sorted-All x (y ∷ ys) h (g, gs) = elim (Bool-cases (less y x)) [
      | inl e ↦ rw (e, insert_sorted) (g, insert_sorted-All x ys h gs)
      | inr e ↦ rw (e, insert_sorted) (h, (g, gs))
    ]

    pub sort_by-All : (xs : List A) → All P xs → All P (sort_by less xs)
    unfolding sort_by
    sort_by-All [] h = tt
    sort_by-All (x ∷ xs) (h, hs) = insert_sorted-All x (sort_by less xs) h (sort_by-All xs hs)

  module _ (name : A → Text) where
    member-insert_sorted :
        (t : Text) (x : A) (xs : List A)
        → member t (map name (insert_sorted less x xs))
          ≡ (text_eq (name x) t || member t (map name xs))
    unfolding insert_sorted member
    member-insert_sorted t x [] = refl
    member-insert_sorted t x (y ∷ ys) = elim (Bool-cases (less y x)) [
      | inl e ↦ rw (e, insert_sorted) (ground (arith, member-insert_sorted t x ys))
      | inr e ↦ rw (e, insert_sorted) refl
    ]

    pub member-sort_by :
        (t : Text) (xs : List A) → member t (map name (sort_by less xs)) ≡ member t (map name xs)
    unfolding sort_by member
    member-sort_by t [] = refl
    member-sort_by t (x ∷ xs) =
        member-insert_sorted t x (sort_by less xs) ∙ ground (arith, member-sort_by t xs)

    insert_sorted-Distinct :
        (x : A) (xs : List A)
        → member (name x) (map name xs) ≡ false
        → Distinct (map name xs)
        → Distinct (map name (insert_sorted less x xs))
    unfolding insert_sorted member
    insert_sorted-Distinct x [] n d = (refl, tt)
    insert_sorted-Distinct x (y ∷ ys) n (m, d) = elim (Bool-cases (less y x)) [
      | inl e ↦
          rw (e, insert_sorted)
            (
              member-insert_sorted (name y) x ys
                  ∙ ground
                      (arith, n, m, text_eq_iff (name y) (name x), text_eq_iff (name x) (name y)),
              insert_sorted-Distinct x ys (ground (arith, n)) d,
            )
      | inr e ↦ rw (e, insert_sorted) (n, (m, d))
    ]

    pub sort_by-Distinct :
        (xs : List A) → Distinct (map name xs) → Distinct (map name (sort_by less xs))
    unfolding sort_by
    sort_by-Distinct [] d = tt
    sort_by-Distinct (x ∷ xs) (n, d) =
        insert_sorted-Distinct x (sort_by less xs) (member-sort_by (name x) xs ∙ n)
          (sort_by-Distinct xs d)
