-- ===== src/Adapters/SqlText/Selected.antt =====
-- The statement of `select` and its values, src/invariantql/adapters/_shared/sqltext.py.
use invariantql.Prelude.{
  List, Option, String, [], ap, append-nil, length, map, none, refl, some, subst, sym, true, ℕ,
  ◌++◌, ◌∙◌, ◌∷◌, ◌≡◌,
}
use invariantql.Adapters.SqlText.{Pieces, SqlDialect, quote, word}
use invariantql.Adapters.SqlText.Clauses.{holes-names, select_pieces-Numbered}
use invariantql.Adapters.SqlText.Generator.{
  Overrides, all_projected, bind, expression_pieces, join, limit_pieces, projected_pieces, pure,
  select_list, select_pieces, where_pieces, ◌>>=◌,
}
use invariantql.Adapters.SqlText.Holes.{
  Denotes, Denotes-append, Denotes-extend, Gives, Gives-map, Gives-pure, Gives-seq, Joins-append,
  Post, Post-bind, holes, holes-append, holes-join, holes_all,
}
use invariantql.Adapters.SqlText.Numbered.{Follows, numbers_of, upto}
use invariantql.Adapters.SqlText.Ordered.{statement-in_order, statement_in_order}
use invariantql.Adapters.SqlText.Orders.{HoleLaws, bound_values, text_values}
use invariantql.Adapters.SqlText.Statement.{
  bound_of_predicate, bound_of_projection, bound_projected, bound_projection, limit_values,
  statement_bound, statement_values, text_of_predicate, text_of_projection, text_projected,
  text_projection,
}
use invariantql.Adapters.SqlText.Values.{bind-Gives, expression_pieces-Gives}
use invariantql.Domain.Expressions.{Expression, alias}
use invariantql.Domain.Expressions.Literals.{LiteralValue}
use invariantql.Domain.Expressions.Substitute.{Literals}
use invariantql.Prelude.Int.{pos}
use invariantql.Prelude.Results.{ok, ok-injective}

module _ (dialect : SqlDialect) (parameters : Literals) (overrides : Overrides)
    (laws : HoleLaws overrides) where
  projected_pieces-Gives :
      (e : Expression)
      → Gives holes
          (text_projected parameters e)
          (bound_projected parameters e)
          (projected_pieces dialect parameters overrides e)
  unfolding projected_pieces
  projected_pieces-Gives (alias e name) =
      Gives-map holes holes (λ p. p ++ word " AS " ∷ word (quote dialect name) ∷ [])
        (text_values parameters e) (bound_values parameters e)
        (expression_pieces dialect parameters overrides e)
        (λ p. holes-append p (word " AS " ∷ word (quote dialect name) ∷ []) ∙ append-nil (holes p))
        (expression_pieces-Gives dialect parameters overrides laws e)
  projected_pieces-Gives e = expression_pieces-Gives dialect parameters overrides laws e

  all_projected-Gives :
      (es : List Expression)
      → Gives holes_all
          (text_projection parameters es)
          (bound_projection parameters es)
          (all_projected dialect parameters overrides es)
  unfolding all_projected
  all_projected-Gives [] = Gives-pure holes_all [] refl
  all_projected-Gives (e ∷ es) =
      Gives-seq holes holes_all holes_all (λ p ps. ok (p ∷ ps)) (text_projected parameters e)
        (text_projection parameters es) (text_projection parameters (e ∷ es))
        (bound_projected parameters e) (bound_projection parameters es)
        (projected_pieces dialect parameters overrides e)
        (all_projected dialect parameters overrides es)
        (Joins-append holes holes_all holes_all (λ p ps. ok (p ∷ ps)) (text_projected parameters e)
          (text_projection parameters es) (λ p ps c made. ap holes_all (sym (ok-injective made))))
        (projected_pieces-Gives e) (all_projected-Gives es)

  select_list-Gives :
      (columns : Option (List String)) (projection : Option (List Expression))
      → Gives holes
          (text_of_projection parameters projection)
          (bound_of_projection parameters projection)
          (select_list dialect parameters overrides columns projection)
  unfolding select_list
  select_list-Gives columns (some es) =
      Gives-map holes_all holes (join ", ") (text_projection parameters es)
        (bound_projection parameters es) (all_projected dialect parameters overrides es)
        (λ ps. holes-join ", " ps) (all_projected-Gives es)
  select_list-Gives (some []) none = Gives-pure holes (word "*" ∷ []) refl
  select_list-Gives (some (c ∷ cs)) none =
      Gives-pure holes (join ", " (map (λ name. word (quote dialect name) ∷ []) (c ∷ cs))) (
        holes-join ", " (map (λ name. word (quote dialect name) ∷ []) (c ∷ cs))
        ∙ holes-names dialect (c ∷ cs))
  select_list-Gives none none = Gives-pure holes (word "*" ∷ []) refl

  where_pieces-Gives :
      (predicate : Option Expression)
      → Gives holes
          (text_of_predicate parameters predicate)
          (bound_of_predicate parameters predicate)
          (where_pieces dialect parameters overrides predicate)
  unfolding where_pieces
  where_pieces-Gives none = Gives-pure holes [] refl
  where_pieces-Gives (some e) =
      Gives-map holes holes (λ p. word " WHERE " ∷ p) (text_values parameters e)
        (bound_values parameters e) (expression_pieces dialect parameters overrides e) (λ p. refl)
        (expression_pieces-Gives dialect parameters overrides laws e)

  limit_pieces-Gives :
      (limit : Option ℕ)
      → Gives holes
          (limit_values parameters limit)
          (limit_values parameters limit)
          (limit_pieces dialect parameters overrides limit)
  unfolding limit_pieces
  limit_pieces-Gives none = Gives-pure holes [] refl
  limit_pieces-Gives (some n) =
      Gives-map holes holes (λ p. word " " ∷ word dialect.limit_keyword ∷ word " " ∷ p)
        (LiteralValue.int (pos n) ∷ []) (LiteralValue.int (pos n) ∷ [])
        (bind (LiteralValue.int (pos n))) (λ p. refl) (bind-Gives (LiteralValue.int (pos n)))

  select_end :
      (relation : String) (s w l : Pieces) (ts us xs vs ws : List LiteralValue)
      → ws ≡ vs
      → Denotes vs (holes s) ts
      → Denotes vs (holes w) us
      → Denotes ws (holes l) xs
      → Denotes ws
          (holes (word "SELECT " ∷ (s ++ (word " FROM " ∷ word relation ∷ (w ++ l)))))
          (ts ++ (us ++ xs))
  select_end relation s w l ts us xs vs ws e d f g =
      subst (λ hs. Denotes ws hs (ts ++ (us ++ xs)))
        (sym (
          holes-append s (word " FROM " ∷ word relation ∷ (w ++ l))
          ∙ ap (λ hs. holes s ++ hs) (holes-append w l)))
        (Denotes-append ws (holes s) (holes w ++ holes l) ts (us ++ xs)
          (subst (λ q. Denotes q (holes s) ts) (sym e) d)
          (Denotes-append ws (holes w) (holes l) us xs
            (subst (λ q. Denotes q (holes w) us) (sym e) f) g))

  limit_after :
      (relation : String) (limit : Option ℕ) (s w : Pieces) (ts us vs : List LiteralValue)
      → Denotes vs (holes s) ts
      → Denotes vs (holes w) us
      → Post holes
          (ts ++ (us ++ limit_values parameters limit))
          (limit_values parameters limit)
          vs
          ((limit_pieces dialect parameters overrides limit >>= λ l.
              pure (word "SELECT " ∷ (s ++ (word " FROM " ∷ word relation ∷ (w ++ l)))))
            vs)
  limit_after relation limit s w ts us vs d f =
      subst
        (λ bs. Post holes (ts ++ (us ++ limit_values parameters limit)) bs vs (
          (limit_pieces dialect parameters overrides limit >>= λ l.
          pure (word "SELECT " ∷ (s ++ (word " FROM " ∷ word relation ∷ (w ++ l)))))
            vs))
        (append-nil (limit_values parameters limit))
        (Post-bind holes holes (limit_values parameters limit)
          (ts ++ (us ++ limit_values parameters limit)) (limit_values parameters limit) [] vs
          (limit_pieces dialect parameters overrides limit vs)
          (λ l. pure (word "SELECT " ∷ (s ++ (word " FROM " ∷ word relation ∷ (w ++ l)))))
          (limit_pieces-Gives limit vs)
          (λ l ws e g. (
            sym (append-nil ws),
            select_end relation s w l ts us (limit_values parameters limit) ws ws refl
                (subst (λ q. Denotes q (holes s) ts) (sym e)
                  (Denotes-extend vs (limit_values parameters limit) (holes s) ts d))
                (subst (λ q. Denotes q (holes w) us) (sym e)
                  (Denotes-extend vs (limit_values parameters limit) (holes w) us f))
                g,
          )))

  select_pieces-Gives :
      (relation : String) (columns : Option (List String)) (projection : Option (List Expression))
      (predicate : Option Expression) (limit : Option ℕ)
      → Gives holes
          (statement_values parameters projection predicate limit)
          (statement_bound parameters projection predicate limit)
          (select_pieces dialect parameters overrides relation columns projection predicate limit)
  unfolding select_pieces
  select_pieces-Gives relation columns projection predicate limit vs =
      Post-bind holes holes (text_of_projection parameters projection)
        (statement_values parameters projection predicate limit)
        (bound_of_projection parameters projection)
        (bound_of_predicate parameters predicate ++ limit_values parameters limit) vs
        (select_list dialect parameters overrides columns projection vs)
        (λ s. where_pieces dialect parameters overrides predicate >>= λ w.
          limit_pieces dialect parameters overrides limit >>= λ l.
          pure (word "SELECT " ∷ (s ++ (word " FROM " ∷ word relation ∷ (w ++ l)))))
        (select_list-Gives columns projection vs)
        (λ s ws e d.
          Post-bind holes holes (text_of_predicate parameters predicate)
            (statement_values parameters projection predicate limit)
            (bound_of_predicate parameters predicate) (limit_values parameters limit) ws
            (where_pieces dialect parameters overrides predicate ws)
            (λ w. limit_pieces dialect parameters overrides limit >>= λ l.
              pure (word "SELECT " ∷ (s ++ (word " FROM " ∷ word relation ∷ (w ++ l)))))
            (where_pieces-Gives predicate ws)
            (λ w us p f.
              limit_after relation limit s w (text_of_projection parameters projection)
                (text_of_predicate parameters predicate) us
                (subst (λ q. Denotes q (holes s) (text_of_projection parameters projection)) (sym p)
                  (Denotes-extend ws (bound_of_predicate parameters predicate) (holes s)
                    (text_of_projection parameters projection) d))
                f))

  -- When `select` returns a statement, each of its holes stands for the value that the expression has
  -- at that place: the holes of the text, in their order, index exactly the values of the projection,
  -- of the predicate and of the limit in theirs. This holds of a subclass whose LIKE and arithmetic
  -- keep their parts in order.
  pub select_pieces-holes :
      (relation : String) (columns : Option (List String)) (projection : Option (List Expression))
      (predicate : Option Expression) (limit : Option ℕ) (text : Pieces)
      (values : List LiteralValue)
      → select_pieces dialect parameters overrides relation columns projection predicate limit []
        ≡ ok (text, values)
      → Denotes values (holes text) (statement_values parameters projection predicate limit)
  select_pieces-holes relation columns projection predicate limit text values h =
      (subst
        (Post holes (statement_values parameters projection predicate limit)
          (statement_bound parameters projection predicate limit) [])
        h (select_pieces-Gives relation columns projection predicate limit [])).1

  -- When `select` returns a statement and no In of it has an operand that binds a value, the holes of
  -- its text are numbered 0, 1, 2, ... from left to right, one for each value, and the values are those
  -- of the statement in that order, as a dialect needs whose placeholders carry no number. This holds
  -- of a subclass whose LIKE and arithmetic keep their parts in order.
  pub select_pieces-order :
      (relation : String) (columns : Option (List String)) (projection : Option (List Expression))
      (predicate : Option Expression) (limit : Option ℕ) (text : Pieces)
      (values : List LiteralValue)
      → select_pieces dialect parameters overrides relation columns projection predicate limit []
        ≡ ok (text, values)
      → statement_in_order parameters projection predicate ≡ true
      → (holes text ≡ upto 0 (length values))
        × (values ≡ statement_values parameters projection predicate limit)
  select_pieces-order relation columns projection predicate limit text values h o = (
    numbers_of text values (
        subst (Follows [] holes 0) h (
          select_pieces-Numbered dialect parameters overrides laws relation columns projection
            predicate limit o [])),
    (subst
          (Post holes (statement_values parameters projection predicate limit)
            (statement_bound parameters projection predicate limit) [])
          h (select_pieces-Gives relation columns projection predicate limit [])).0
        ∙ statement-in_order parameters projection predicate limit o,
  )
