-- ===== src/Encryption/ScopedClauses.antt =====
-- encryption.cc and visitor.cc: encrypted columns in the clauses behind a FROM, by its tables.
use postgres_tde.Base.{List, [], refl, true, ℕ, ◌∷◌, ◌≡◌}
use postgres_tde.Sql.Ast.{
  Expr, MaybeExpr, no_expr, an_expr, Groups, no_groups, group_by, Orders, no_more_orders, order_by,
  MaybeOrders, no_order, ordered, MaybeTable, no_table, from_table,
}
use postgres_tde.Sql.Fields.{Walk, in_groups}
use postgres_tde.Config.Column.{DatabaseEncryptionConfig}
use postgres_tde.Encryption.Each.{EachColumn, EachMaybe, EachOf, EachColumn-map, EachOf-map}
use postgres_tde.Encryption.Clauses.{
  WherePlain, GroupsPlain, OrdersPlain, MaybeOrdersPlain, after_groups,
}
use postgres_tde.Encryption.Conditions.{UpdatesPlain}
use postgres_tde.Encryption.Scopes.{Scope, scope_of, Lists, Reflects, PlainIn, JoinsPlain}
use postgres_tde.Encryption.ScopedJoins.{same_aliases, plain_in}

-- The FROM of a SELECT, if it has one.
abbrev pub from_scope : MaybeTable → Scope
from_scope no_table = []
from_scope (from_table t) = scope_of t []

abbrev pub ListsFrom : MaybeTable → Type 0
ListsFrom no_table = Unit
ListsFrom (from_table t) = Lists t []

module _ (config : DatabaseEncryptionConfig) where
  abbrev pub FromJoinsPlain : MaybeTable → Type 0
  FromJoinsPlain no_table = Unit
  FromJoinsPlain (from_table t) = JoinsPlain config t []

  abbrev pub WhereIn : Scope → MaybeExpr → Type 0
  WhereIn s e = EachMaybe (PlainIn config s) e

  abbrev pub GroupsIn : Scope → Groups → Type 0
  GroupsIn s no_groups = Unit
  GroupsIn s (group_by columns having) = EachOf (PlainIn config s) columns × WhereIn s having

  abbrev pub OrdersIn : Scope → Orders → Type 0
  OrdersIn s no_more_orders = Unit
  OrdersIn s (order_by e ascending rest) = EachColumn (PlainIn config s) e × OrdersIn s rest

  abbrev pub MaybeOrdersIn : Scope → MaybeOrders → Type 0
  MaybeOrdersIn s no_order = Unit
  MaybeOrdersIn s (ordered os) = OrdersIn s os

  abbrev pub UpdatesIn : Scope → List (List ℕ × Expr) → Type 0
  UpdatesIn s [] = Unit
  UpdatesIn s ((column, e) ∷ rest) = EachColumn (PlainIn config s) e × UpdatesIn s rest

  pub where-WhereIn :
      (s : Scope) (w : Walk) (e : MaybeExpr) → Reflects s w → WherePlain config w e → WhereIn s e
  unfolding EachColumn
  where-WhereIn s w no_expr r h = tt
  where-WhereIn s w (an_expr e) r h = EachColumn-map (plain_in config s w r) e h

  pub groups-GroupsIn :
      (s : Scope) (w : Walk) (g : Groups) → Reflects s w → GroupsPlain config w g → GroupsIn s g
  groups-GroupsIn s w no_groups r h = tt
  groups-GroupsIn s w (group_by columns having) r h =
      let inside = same_aliases s w (in_groups true w) refl r in
      (
        EachOf-map (plain_in config s (in_groups true w) inside) columns h.0,
        where-WhereIn s (in_groups true w) having inside h.1,
      )

  orders-OrdersIn :
      (s : Scope) (w : Walk) (os : Orders) → Reflects s w → OrdersPlain config w os → OrdersIn s os
  orders-OrdersIn s w no_more_orders r h = tt
  orders-OrdersIn s w (order_by e ascending rest) r h =
      (EachColumn-map (plain_in config s w r) e h.0, orders-OrdersIn s w rest r h.1)

  pub updates-UpdatesIn :
      (s : Scope) (w : Walk) (us : List (List ℕ × Expr))
      → Reflects s w
      → UpdatesPlain config w us
      → UpdatesIn s us
  updates-UpdatesIn s w [] r h = tt
  updates-UpdatesIn s w ((column, e) ∷ rest) r h =
      (EachColumn-map (plain_in config s w r) e h.0, updates-UpdatesIn s w rest r h.1)

  pub after_groups-aliases :
      (g : Groups) (w : Walk) → (after_groups config g w).table_aliases ≡ w.table_aliases
  after_groups-aliases no_groups w = refl
  after_groups-aliases (group_by columns having) w = refl

  pub orders-MaybeOrdersIn :
      (s : Scope) (w : Walk) (os : MaybeOrders)
      → Reflects s w
      → MaybeOrdersPlain config w os
      → MaybeOrdersIn s os
  orders-MaybeOrdersIn s w no_order r h = tt
  orders-MaybeOrdersIn s w (ordered os) r h = orders-OrdersIn s w os r h
