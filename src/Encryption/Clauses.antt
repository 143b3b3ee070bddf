-- ===== src/Encryption/Clauses.antt =====
-- encryption.cc and visitor.cc: the check of encrypted columns in the clauses of a SELECT.
use postgres_tde.Base.{Bool, ap, false, refl, subst, sym, true, ◌∙◌, ◌≡◌}
use postgres_tde.Sql.Ast.{
  MaybeExpr, no_expr, an_expr, Groups, no_groups, group_by, Orders, no_more_orders, order_by,
  MaybeOrders, no_order, ordered,
}
use postgres_tde.Sql.Walk.{
  visit_expression, visit_all, visit_where, visit_groups, visit_orders, visit_maybe_orders,
}
use postgres_tde.Sql.Fields.{
  Walk, Visited, visited, refused, panicked, and_visit, Overrides, leave_select, in_groups,
}
use postgres_tde.Sql.Verdict.{Accepted}
use postgres_tde.Config.Column.{DatabaseEncryptionConfig}
use postgres_tde.Encryption.Guard.{
  encryption_overrides, HasPlainColumns, AllPlain, Ends, expression-Ends, all-Ends,
}

-- The first of two visits that went well went well.
pub and_visit-Accepted :
    (v : Visited) (next : Walk → Visited)
    → Accepted (and_visit v next)
    → (w : Walk) × (v ≡ visited w) × Accepted (next w)
and_visit-Accepted (visited w) next h = (w, refl, h)
and_visit-Accepted (refused e) next h = elim h [ ]
and_visit-Accepted panicked next h = elim h [ ]

pub and_visit-visited :
    (v : Visited) (next : Walk → Visited) (w' : Walk)
    → and_visit v next ≡ visited w'
    → (w : Walk) × (v ≡ visited w) × (next w ≡ visited w')
and_visit-visited (visited w) next w' e = (w, refl, e)
and_visit-visited (refused t) next w' e = absurd (cc e)
and_visit-visited panicked next w' e = absurd (cc e)

abbrev pub in_select_body_of : Bool → Visited → Bool
in_select_body_of default (visited w) = w.in_select_body
in_select_body_of default (refused t) = default
in_select_body_of default panicked = default

walk_of : Walk → Visited → Walk
walk_of default (visited w) = w
walk_of default (refused t) = default
walk_of default panicked = default

pub visited-injective : (w w' : Walk) → visited w ≡ visited w' → w ≡ w'
unfolding walk_of
visited-injective w w' e = ap (walk_of w) e

pub visited-Accepted : (v : Visited) (w : Walk) → v ≡ visited w → Accepted v
visited-Accepted v w e = subst Accepted (sym e) tt

pub Ends-visited : (v : Visited) (w : Walk) → Ends w v → v ≡ visited w
Ends-visited (visited w') w e = ap visited e
Ends-visited (refused t) w e = elim e [ ]
Ends-visited panicked w e = elim e [ ]

module _ (config : DatabaseEncryptionConfig) where
  abbrev pub overrides : Overrides
  overrides = encryption_overrides config

  -- The condition, the groups and the order of a SELECT have plain columns only.
  abbrev pub WherePlain : Walk → MaybeExpr → Type 0
  WherePlain w no_expr = Unit
  WherePlain w (an_expr e) = HasPlainColumns config w e

  abbrev pub GroupsPlain : Walk → Groups → Type 0
  GroupsPlain w no_groups = Unit
  GroupsPlain w (group_by columns having) =
      AllPlain config (in_groups true w) columns × WherePlain (in_groups true w) having

  abbrev pub OrdersPlain : Walk → Orders → Type 0
  OrdersPlain w no_more_orders = Unit
  OrdersPlain w (order_by e ascending rest) = HasPlainColumns config w e × OrdersPlain w rest

  abbrev pub MaybeOrdersPlain : Walk → MaybeOrders → Type 0
  MaybeOrdersPlain w no_order = Unit
  MaybeOrdersPlain w (ordered os) = OrdersPlain w os

  pub visit_where-WherePlain :
      (e : MaybeExpr) (w : Walk)
      → w.in_select_body ≡ false
      → Accepted (visit_where overrides e w)
      → WherePlain w e × (visit_where overrides e w ≡ visited w)
  unfolding visit_where
  visit_where-WherePlain no_expr w out h = (tt, refl)
  visit_where-WherePlain (an_expr e) w out h =
      let (plain, ends) = expression-Ends config e w out h in (plain, Ends-visited _ w ends)

  -- The fields behind the groups.
  abbrev pub after_groups : Groups → Walk → Walk
  after_groups no_groups w = w
  after_groups (group_by columns having) w = in_groups false w

  visit_groups-GroupsPlain :
      (g : Groups) (w : Walk)
      → w.in_select_body ≡ false
      → Accepted (visit_groups overrides g w)
      → GroupsPlain w g × (visit_groups overrides g w ≡ visited (after_groups g w))
  unfolding visit_groups
  visit_groups-GroupsPlain no_groups w out h = (tt, refl)
  visit_groups-GroupsPlain (group_by columns having) w out h =
      let w₁ = in_groups true w in
      let rest = λ (w : Walk).
        and_visit (visit_where overrides having w) (λ w₂. visited (in_groups false w₂)) in
      let (v, e, h₁) = and_visit-Accepted (visit_all overrides columns w₁) rest h in
      let (plain, ends) = all-Ends config columns w₁ out (visited-Accepted _ v e) in
      let same = Ends-visited _ w₁ ends in
      let left = subst (λ v. Accepted (and_visit v rest)) same h in
      let (u, f, h₂) = and_visit-Accepted (visit_where overrides having w₁) _ left in
      let (plain₂, same₂) = visit_where-WherePlain having w₁ out (visited-Accepted _ u f) in
      (
        (plain, plain₂),
        ap (λ v. and_visit v rest) same
            ∙ ap (λ v. and_visit v (λ w₂. visited (in_groups false w₂))) same₂,
      )

  visit_orders-OrdersPlain :
      (os : Orders) (w : Walk)
      → w.in_select_body ≡ false
      → Accepted (visit_orders overrides os w)
      → OrdersPlain w os × (visit_orders overrides os w ≡ visited w)
  unfolding visit_orders
  visit_orders-OrdersPlain no_more_orders w out h = (tt, refl)
  visit_orders-OrdersPlain (order_by e ascending rest) w out h =
      let (v, q, h₁) =
        and_visit-Accepted (visit_expression overrides e w) (visit_orders overrides rest) h in
      let (plain, ends) = expression-Ends config e w out (visited-Accepted _ v q) in
      let same = Ends-visited _ w ends in
      let (plains, sames) =
        visit_orders-OrdersPlain rest w out
          (subst (λ v. Accepted (and_visit v (visit_orders overrides rest))) same h) in
      ((plain, plains), ap (λ v. and_visit v (visit_orders overrides rest)) same ∙ sames)

  visit_maybe_orders-MaybeOrdersPlain :
      (os : MaybeOrders) (w : Walk)
      → w.in_select_body ≡ false
      → Accepted (visit_maybe_orders overrides os w)
      → MaybeOrdersPlain w os × (visit_maybe_orders overrides os w ≡ visited w)
  unfolding visit_maybe_orders
  visit_maybe_orders-MaybeOrdersPlain no_order w out h = (tt, refl)
  visit_maybe_orders-MaybeOrdersPlain (ordered os) w out h = visit_orders-OrdersPlain os w out h

  -- What stands behind the list of a SELECT.
  abbrev pub ConditionsPlain : Walk → MaybeExpr → Groups → MaybeOrders → Type 0
  ConditionsPlain w condition grouping orders =
      WherePlain w condition
      × GroupsPlain w grouping
      × MaybeOrdersPlain (after_groups grouping w) orders

  after_groups-outside :
      (g : Groups) (w : Walk) → w.in_select_body ≡ false → (after_groups g w).in_select_body ≡ false
  after_groups-outside no_groups w out = out
  after_groups-outside (group_by columns having) w out = out

  -- The rest of a SELECT behind its list.
  abbrev pub conditions : Walk → MaybeExpr → Groups → MaybeOrders → Walk → Visited
  conditions old condition grouping orders w = and_visit (visit_where overrides condition w) (λ w₃.
      and_visit (visit_groups overrides grouping w₃)
        (λ w₄. and_visit (visit_maybe_orders overrides orders w₄) (leave_select old)))

  pub conditions-ConditionsPlain :
      (old : Walk) (condition : MaybeExpr) (grouping : Groups) (orders : MaybeOrders) (w : Walk)
      → w.in_select_body ≡ false
      → Accepted (conditions old condition grouping orders w)
      → ConditionsPlain w condition grouping orders
  conditions-ConditionsPlain old condition grouping orders w out h =
      let ordering =
        λ (w₄ : Walk). and_visit (visit_maybe_orders overrides orders w₄) (leave_select old) in
      let groups = λ (w₃ : Walk). and_visit (visit_groups overrides grouping w₃) ordering in
      let (v, e, h₁) = and_visit-Accepted (visit_where overrides condition w) groups h in
      let (plain, same) = visit_where-WherePlain condition w out (visited-Accepted _ v e) in
      let left = subst (λ v. Accepted (and_visit v groups)) same h in
      let (v₂, e₂, h₂) = and_visit-Accepted (visit_groups overrides grouping w) ordering left in
      let (plain₂, same₂) = visit_groups-GroupsPlain grouping w out (visited-Accepted _ v₂ e₂) in
      let left₂ = subst (λ v. Accepted (and_visit v ordering)) same₂ left in
      let w₄ = after_groups grouping w in
      let (v₃, e₃, h₃) =
        and_visit-Accepted (visit_maybe_orders overrides orders w₄) (leave_select old) left₂ in
      let (plain₃, same₃) =
        visit_maybe_orders-MaybeOrdersPlain orders w₄ (after_groups-outside grouping w out)
          (visited-Accepted _ v₃ e₃) in
      (plain, plain₂, plain₃)

  pub conditions-flag :
      (old : Walk) (condition : MaybeExpr) (grouping : Groups) (orders : MaybeOrders) (w w' : Walk)
      → conditions old condition grouping orders w ≡ visited w'
      → w'.in_select_body ≡ old.in_select_body
  conditions-flag old condition grouping orders w w' e =
      let (w₃, e₃, f₃) = and_visit-visited (visit_where overrides condition w) _ w' e in
      let (w₄, e₄, f₄) = and_visit-visited (visit_groups overrides grouping w₃) _ w' f₃ in
      let (w₅, e₅, f₅) = and_visit-visited (visit_maybe_orders overrides orders w₄) _ w' f₄ in
      sym (ap (in_select_body_of old.in_select_body) f₅)
