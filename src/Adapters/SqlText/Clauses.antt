-- ===== src/Adapters/SqlText/Clauses.antt =====
-- The numbers of the holes of the clauses of `select`, src/invariantql/adapters/_shared/sqltext.py.
use invariantql.Prelude.{
  List, Option, String, [], all, ap, append-nil, append_assoc, conditions, length, map, none, refl,
  some, sym, true, ℕ, ◌++◌, ◌∙◌, ◌∷◌, ◌≡◌,
}
use invariantql.Adapters.SqlText.{Pieces, SqlDialect, quote, word}
use invariantql.Adapters.SqlText.Generator.{
  Overrides, all_projected, bind, expression_pieces, join, limit_pieces, projected_pieces, pure,
  select_list, select_pieces, where_pieces, ◌>>=◌,
}
use invariantql.Adapters.SqlText.Holes.{holes, holes-append, holes-join, holes_all}
use invariantql.Adapters.SqlText.Numbered.{
  Follows, Follows-behind, Follows-bind, Follows-ok, Numbered, Numbered-map, Numbered-pure,
  Numbered-seq,
}
use invariantql.Adapters.SqlText.Ordered.{
  predicate_in_order, projected_in_order, projection_in_order, statement_in_order,
}
use invariantql.Adapters.SqlText.Orders.{HoleLaws}
use invariantql.Adapters.SqlText.Sequence.{bind-Numbered, expression_pieces-Numbered}
use invariantql.Domain.Expressions.{Expression, alias}
use invariantql.Domain.Expressions.Literals.{LiteralValue}
use invariantql.Domain.Expressions.Substitute.{Literals}
use invariantql.Prelude.Int.{pos}
use invariantql.Prelude.Results.{ok, ok-injective}

pub holes-names :
    (dialect : SqlDialect) (columns : List String)
    → holes_all (map (λ name. word (quote dialect name) ∷ []) columns) ≡ []
holes-names dialect [] = refl
holes-names dialect (c ∷ cs) = holes-names dialect cs

module _ (dialect : SqlDialect) (parameters : Literals) (overrides : Overrides)
    (laws : HoleLaws overrides) where
  projected_pieces-Numbered :
      (e : Expression)
      → projected_in_order parameters e ≡ true
      → Numbered holes (projected_pieces dialect parameters overrides e)
  unfolding projected_pieces
  projected_pieces-Numbered (alias e name) h =
      Numbered-map holes holes (λ p. p ++ word " AS " ∷ word (quote dialect name) ∷ [])
        (expression_pieces dialect parameters overrides e)
        (λ p. holes-append p (word " AS " ∷ word (quote dialect name) ∷ []) ∙ append-nil (holes p))
        (expression_pieces-Numbered dialect parameters overrides laws e h)
  projected_pieces-Numbered e h = expression_pieces-Numbered dialect parameters overrides laws e h

  all_projected-Numbered :
      (es : List Expression)
      → all es (projected_in_order parameters) ≡ true
      → Numbered holes_all (all_projected dialect parameters overrides es)
  unfolding all_projected
  all_projected-Numbered [] h = Numbered-pure holes_all [] refl
  all_projected-Numbered (e ∷ es) h =
      let p =
        conditions (projected_in_order parameters e) (all es (projected_in_order parameters)) h in
      Numbered-seq holes holes_all holes_all (λ p ps. ok (p ∷ ps))
        (projected_pieces dialect parameters overrides e)
        (all_projected dialect parameters overrides es)
        (λ p ps c made. ap holes_all (sym (ok-injective made))) (projected_pieces-Numbered e p.0)
        (all_projected-Numbered es p.1)

  select_list-Numbered :
      (columns : Option (List String)) (projection : Option (List Expression))
      → projection_in_order parameters projection ≡ true
      → Numbered holes (select_list dialect parameters overrides columns projection)
  unfolding select_list
  select_list-Numbered columns (some es) h =
      Numbered-map holes_all holes (join ", ") (all_projected dialect parameters overrides es)
        (λ ps. holes-join ", " ps) (all_projected-Numbered es h)
  select_list-Numbered (some []) none h = Numbered-pure holes (word "*" ∷ []) refl
  select_list-Numbered (some (c ∷ cs)) none h =
      Numbered-pure holes (join ", " (map (λ name. word (quote dialect name) ∷ []) (c ∷ cs))) (
        holes-join ", " (map (λ name. word (quote dialect name) ∷ []) (c ∷ cs))
        ∙ holes-names dialect (c ∷ cs))
  select_list-Numbered none none h = Numbered-pure holes (word "*" ∷ []) refl

  where_pieces-Numbered :
      (predicate : Option Expression)
      → predicate_in_order parameters predicate ≡ true
      → Numbered holes (where_pieces dialect parameters overrides predicate)
  unfolding where_pieces
  where_pieces-Numbered none h = Numbered-pure holes [] refl
  where_pieces-Numbered (some e) h =
      Numbered-map holes holes (λ p. word " WHERE " ∷ p)
        (expression_pieces dialect parameters overrides e) (λ p. refl)
        (expression_pieces-Numbered dialect parameters overrides laws e h)

  limit_pieces-Numbered :
      (limit : Option ℕ) → Numbered holes (limit_pieces dialect parameters overrides limit)
  unfolding limit_pieces
  limit_pieces-Numbered none = Numbered-pure holes [] refl
  limit_pieces-Numbered (some n) =
      Numbered-map holes holes (λ p. word " " ∷ word dialect.limit_keyword ∷ word " " ∷ p)
        (bind (LiteralValue.int (pos n))) (λ p. refl) (bind-Numbered (LiteralValue.int (pos n)))

  abbrev statement_of : String → Pieces → Pieces → Pieces → Pieces
  statement_of relation s w l = word "SELECT " ∷ (s ++ (word " FROM " ∷ word relation ∷ (w ++ l)))

  holes-statement :
      (relation : String) (s w l : Pieces)
      → holes (statement_of relation s w l) ≡ (holes s ++ holes w) ++ holes l
  holes-statement relation s w l =
      holes-append s (word " FROM " ∷ word relation ∷ (w ++ l))
      ∙ ap (λ hs. holes s ++ hs) (holes-append w l)
      ∙ sym (append_assoc (holes s) (holes w) (holes l))

  limit_after :
      (relation : String) (limit : Option ℕ) (s w : Pieces) (vs : List LiteralValue)
      → Follows (holes s ++ holes w) holes (length vs) (
          (limit_pieces dialect parameters overrides limit >>= λ l.
          pure (statement_of relation s w l))
            vs)
  limit_after relation limit s w vs =
      Follows-bind (holes s ++ holes w) (λ l. (holes s ++ holes w) ++ holes l) holes (length vs)
        (limit_pieces dialect parameters overrides limit vs)
        (λ l. pure (statement_of relation s w l))
        (Follows-behind (holes s ++ holes w) holes (length vs)
          (limit_pieces dialect parameters overrides limit vs) (limit_pieces-Numbered limit vs))
        (λ l ws.
          Follows-ok ((holes s ++ holes w) ++ holes l) holes (length ws)
            (statement_of relation s w l) ws refl (holes-statement relation s w l))

  where_after :
      (relation : String) (predicate : Option Expression) (limit : Option ℕ) (s : Pieces)
      (vs : List LiteralValue)
      → predicate_in_order parameters predicate ≡ true
      → Follows (holes s) holes (length vs) (
          (where_pieces dialect parameters overrides predicate >>= λ w.
          limit_pieces dialect parameters overrides limit >>= λ l.
          pure (statement_of relation s w l))
            vs)
  where_after relation predicate limit s vs h =
      Follows-bind (holes s) (λ w. holes s ++ holes w) holes (length vs)
        (where_pieces dialect parameters overrides predicate vs)
        (λ w. limit_pieces dialect parameters overrides limit >>= λ l.
          pure (statement_of relation s w l))
        (Follows-behind (holes s) holes (length vs)
          (where_pieces dialect parameters overrides predicate vs)
          (where_pieces-Numbered predicate h vs))
        (λ w ws. limit_after relation limit s w ws)

  pub select_pieces-Numbered :
      (relation : String) (columns : Option (List String)) (projection : Option (List Expression))
      (predicate : Option Expression) (limit : Option ℕ)
      → statement_in_order parameters projection predicate ≡ true
      → Numbered holes
          (select_pieces dialect parameters overrides relation columns projection predicate limit)
  unfolding select_pieces
  select_pieces-Numbered relation columns projection predicate limit h vs =
      let p =
        conditions (projection_in_order parameters projection)
          (predicate_in_order parameters predicate) h in
      Follows-bind [] holes holes (length vs)
        (select_list dialect parameters overrides columns projection vs)
        (λ s. where_pieces dialect parameters overrides predicate >>= λ w.
          limit_pieces dialect parameters overrides limit >>= λ l.
          pure (statement_of relation s w l))
        (select_list-Numbered columns projection p.0 vs)
        (λ s ws. where_after relation predicate limit s ws p.1)
