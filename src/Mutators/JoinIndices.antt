-- ===== src/Mutators/JoinIndices.antt =====
-- What the indices that a row description leaves point at.
use postgres_tde.Base.{
  Bool, List, Option, [], ap, append-nil, append_assoc, arith, false, get_elem?, if◌then◌else◌,
  length, length-append, none, refl, some, subst, suc, sym, true, ℕ, ◌++◌, ◌∙◌, ◌∷◌, ◌≡◌,
}
use postgres_tde.Manager.Mutator.{Result, ok, error}
use postgres_tde.Sql.Fields.{Walk, ColumnRef, same_text, same_column, find_text}
use postgres_tde.Config.Consistent.{same_text→eq}
use postgres_tde.Mutators.Join.{Comparison, must_be_selected}
use postgres_tde.Mutators.JoinRows.{
  match_columns, index_of, pair_of, match_joins, mutate_row_description,
}

-- The `i`-th name of the result stands for a selected column.
abbrev pub PointsAt : Walk → List (List ℕ) → ℕ → ColumnRef → Type 0
PointsAt w names i column =
    (name : List ℕ) × (get_elem? names i ≡ some name)
    × (find_text name w.select_column_aliases ≡ some column)

-- One pair of indices for each comparison, which point at its left and at its right column.
abbrev pub AllPoint : Walk → List (List ℕ) → List Comparison → List (ℕ × ℕ) → Type 0
AllPoint w names (c ∷ cs) (p ∷ ps) =
    (PointsAt w names p.0 c.0 × PointsAt w names p.1 c.1) × AllPoint w names cs ps
AllPoint w names [] [] = Unit
AllPoint w names _ _ = ⊥

abbrev AreFound : Walk → List (List ℕ) → List (ColumnRef × ℕ) → Type 0
AreFound w names [] = Unit
AreFound w names ((c, i) ∷ rest) = PointsAt w names i c × AreFound w names rest

same_column→eq : (a b : ColumnRef) → same_column a b ≡ true → a ≡ b
same_column→eq (t, c) (t', c') h = go (same_text t t') refl h
  where
    go :
        (b : Bool)
        → same_text t t' ≡ b
        → (if b then same_text c c' else false) ≡ true
        → ◌≡◌ {A = ColumnRef} (t, c) (t', c')
    go true e h = ap (λ x. (x, c)) (same_text→eq t t' e) ∙ ap (λ x. (t', x)) (same_text→eq c c' h)
    go false e h = cc

index_of-PointsAt :
    (w : Walk) (names : List (List ℕ)) (column : ColumnRef) (found : List (ColumnRef × ℕ)) (i : ℕ)
    → AreFound w names found
    → index_of column found ≡ some i
    → PointsAt w names i column
index_of-PointsAt w names column [] i all h = cc
index_of-PointsAt w names column ((c, j) ∷ rest) i all h =
    go (same_column column c) refl (index_of-PointsAt w names column rest i all.1) h
  where
    go :
        (b : Bool)
        → same_column column c ≡ b
        → (index_of column rest ≡ some i → PointsAt w names i column)
        → (if b then some j else index_of column rest) ≡ some i
        → PointsAt w names i column
    go true e later h =
        subst (λ k. PointsAt w names k column)
          (ap (λ (o : Option ℕ). elim o [ none ↦ j | some k ↦ k ]) h)
          (subst (λ x. PointsAt w names j x) (sym (same_column→eq column c e)) all.0)
    go false e later h = later h

get_elem?-append :
    {A : Type 0} (pre : List A) (x : A) (post : List A)
    → get_elem? (pre ++ x ∷ post) (length pre) ≡ some x
get_elem?-append [] x post = refl
get_elem?-append (y ∷ pre) x post = get_elem?-append pre x post

match_columns-AreFound :
    (w : Walk) (pre names : List (List ℕ)) (i : ℕ) (found : List (ColumnRef × ℕ))
    → i ≡ length pre
    → AreFound w (pre ++ names) found
    → AreFound w (pre ++ names) (match_columns w names i found)
unfolding match_columns
match_columns-AreFound w pre [] i found l all = all
match_columns-AreFound w pre (name ∷ names) i found l all =
    subst (λ ns. AreFound w ns (match_columns w (name ∷ names) i found)) moved
      (match_columns-AreFound w (pre ++ name ∷ []) names (suc i) _ longer (
        subst (λ ns. AreFound w ns (add (find_text name w.select_column_aliases))) (sym moved)
          (added (find_text name w.select_column_aliases) refl)))
  where
    moved : (pre ++ name ∷ []) ++ names ≡ pre ++ name ∷ names
    moved = append_assoc pre (name ∷ []) names

    longer : suc i ≡ length (pre ++ name ∷ [])
    longer = omega (arith, l, length-append pre (name ∷ []))

    add : Option ColumnRef → List (ColumnRef × ℕ)
    add o = elim o [ none ↦ found | some column ↦ (column, i) ∷ found ]

    added :
        (o : Option ColumnRef)
        → find_text name w.select_column_aliases ≡ o
        → AreFound w (pre ++ name ∷ names) (add o)
    added none e = all
    added (some column) e =
        ((name, ap (get_elem? (pre ++ name ∷ names)) l ∙ get_elem?-append pre name names, e), all)

match_joins-AllPoint :
    (w : Walk) (names : List (List ℕ)) (found : List (ColumnRef × ℕ)) (cs : List Comparison)
    (indices r : List (ℕ × ℕ))
    → AreFound w names found
    → match_joins found cs indices ≡ (ok, r)
    → (new : List (ℕ × ℕ)) × (r ≡ indices ++ new) × AllPoint w names cs new
unfolding match_joins
match_joins-AllPoint w names found [] indices r all h =
    ([], sym (ap (λ (x : Result × List (ℕ × ℕ)). x.1) h) ∙ sym (append-nil indices), tt)
match_joins-AllPoint w names found ((left, right) ∷ cs) indices r all h =
    go (index_of left found) (index_of right found) refl refl
      (λ pair. match_joins-AllPoint w names found cs (indices ++ pair ∷ []) r all) h
  where
    go :
        (a b : Option ℕ)
        → index_of left found ≡ a
        → index_of right found ≡ b
        → ((pair : ℕ × ℕ)
            → match_joins found cs (indices ++ pair ∷ []) ≡ (ok, r)
            → (new : List (ℕ × ℕ)) × (r ≡ (indices ++ pair ∷ []) ++ new) × AllPoint w names cs new)
        → ◌≡◌ {A = Result × List (ℕ × ℕ)}
            (elim (pair_of a b) [
              | none ↦ (error must_be_selected, indices)
              | some pair ↦ match_joins found cs (indices ++ pair ∷ [])
            ])
            (ok, r)
        → (new : List (ℕ × ℕ)) × (r ≡ indices ++ new) × AllPoint w names ((left, right) ∷ cs) new
    go none b ea eb ih h = absurd (clash (ap (λ (x : Result × List (ℕ × ℕ)). x.0) h))
      where
        clash : error must_be_selected ≡ ok → ⊥
        clash e = cc
    go (some i) none ea eb ih h = absurd (clash (ap (λ (x : Result × List (ℕ × ℕ)). x.0) h))
      where
        clash : error must_be_selected ≡ ok → ⊥
        clash e = cc
    go (some i) (some j) ea eb ih h =
        let (new, e, point) = ih (i, j) h in
        (
          (i, j) ∷ new,
          e ∙ append_assoc indices ((i, j) ∷ []) new,
          (
            (
              index_of-PointsAt w names left found i all ea,
              index_of-PointsAt w names right found j all eb,
            ),
            point,
          ),
        )

-- When a description is let through, the indices that stood there stay in front, and behind them
-- there is exactly one pair for each join comparison of the query: the positions, in this
-- description, of two columns whose names stand for the left and for the right column.
pub mutate_row_description-AllPoint :
    (w : Walk) (cs : List Comparison) (names : List (List ℕ)) (indices r : List (ℕ × ℕ))
    → mutate_row_description w cs names indices ≡ (ok, r)
    → (new : List (ℕ × ℕ)) × (r ≡ indices ++ new) × AllPoint w names cs new
unfolding mutate_row_description
mutate_row_description-AllPoint w cs names indices r h =
    match_joins-AllPoint w names (match_columns w names 0 []) cs indices r
      (match_columns-AreFound w [] names 0 [] refl tt) h
