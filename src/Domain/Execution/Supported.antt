-- ===== src/Domain/Execution/Supported.antt =====
-- The tests of `check_completeness` on the capability dictionaries agree with `supports_expression`
-- of src/invariantql/domain/capabilities.py.
use invariantql.Prelude.{
  Bool, List, [], all, any, ap, arith, map, not, refl, sym, ◌==◌, ◌∙◌, ◌∷◌, ◌≡◌,
}
use invariantql.Domain.Capabilities.{
  EngineCapabilities, PushdownCapabilities, engine_supports, engine_to_dict, is_parameter_kind,
  scan_accepts, scan_supports, scan_to_dict,
}
use invariantql.Domain.Capabilities.Kinds.{contains-sorted_values}
use invariantql.Domain.Execution.{some_node, unsupported_by_engine, unsupported_by_scan}
use invariantql.Domain.Expressions.{Expression, ExpressionKind, kind, kind_value}
use invariantql.Domain.Expressions.Walk.{conjuncts, walk}

is_parameter_kind_lem : (k : ExpressionKind) → (kind_value k == "parameter") ≡ is_parameter_kind k
is_parameter_kind_lem ExpressionKind.parameter = refl
is_parameter_kind_lem _ = refl

unsupported_by_scan_lem :
    (scan : PushdownCapabilities) (k : ExpressionKind)
    → unsupported_by_scan (scan_to_dict scan) k ≡ not (scan_accepts scan k)
unfolding scan_to_dict
unsupported_by_scan_lem scan k =
    rw (contains-sorted_values scan.expressions k, is_parameter_kind_lem k) (ground arith)

unsupported_by_engine_lem :
    (engine : EngineCapabilities) (k : ExpressionKind)
    → unsupported_by_engine (engine_to_dict engine) k ≡ not (engine.residual_expressions k)
unfolding engine_to_dict
unsupported_by_engine_lem engine k = rw (contains-sorted_values engine.residual_expressions k)

any-not_all :
    (f g : ExpressionKind → Bool) (nodes : List Expression)
    → ((k : ExpressionKind) → f k ≡ not (g k))
    → any nodes (λ n. f (kind n)) ≡ not (all nodes (λ n. g (kind n)))
any-not_all f g [] h = refl
any-not_all f g (n ∷ nodes) h = ground (arith, h (kind n), any-not_all f g nodes h)

pub some_node-scan :
    (scan : PushdownCapabilities) (e : Expression)
    → some_node (unsupported_by_scan (scan_to_dict scan)) e ≡ not (scan_supports scan e)
unfolding scan_supports
some_node-scan scan e =
    any-not_all (unsupported_by_scan (scan_to_dict scan)) (scan_accepts scan) (walk e)
      (unsupported_by_scan_lem scan)

-- On an expression that is no conjunction.
pub some_node-engine :
    (engine : EngineCapabilities) (e : Expression)
    → conjuncts e ≡ e ∷ []
    → some_node (unsupported_by_engine (engine_to_dict engine)) e ≡ not (engine_supports engine e)
unfolding engine_supports
some_node-engine engine e h = rw h (
    any-not_all (unsupported_by_engine (engine_to_dict engine)) engine.residual_expressions (walk e)
      (unsupported_by_engine_lem engine)
    ∙ ground arith)

all-kinds :
    (g : ExpressionKind → Bool) (xs ys : List Expression)
    → map kind xs ≡ map kind ys
    → all xs (λ n. g (kind n)) ≡ all ys (λ n. g (kind n))
all-kinds g xs ys h = all-map g xs ∙ ap (λ ks. all ks g) h ∙ sym (all-map g ys)
  where
    all-map :
        (g : ExpressionKind → Bool) (xs : List Expression)
        → all xs (λ n. g (kind n)) ≡ all (map kind xs) g
    all-map g [] = refl
    all-map g (x ∷ xs) = rw (all-map g xs)

-- Whether the scan supports an expression depends on the kinds of its nodes only.
pub scan_supports-kinds :
    (scan : PushdownCapabilities) (a b : Expression)
    → map kind (walk a) ≡ map kind (walk b)
    → scan_supports scan a ≡ scan_supports scan b
unfolding scan_supports
scan_supports-kinds scan a b h = all-kinds (scan_accepts scan) (walk a) (walk b) h
