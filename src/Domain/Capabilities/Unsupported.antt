-- ===== src/Domain/Capabilities/Unsupported.antt =====
-- `unsupported_kinds` against `supports_expression`, src/invariantql/domain/capabilities.py.
use invariantql.Prelude.{
  List, String, [], all, arith, false, is_empty, refl, set_default, ◌&&◌, ◌∷◌, ◌≡◌,
}
use invariantql.Domain.Capabilities.{
  PushdownCapabilities, find_kinds, found_kind, scan_accepts, scan_supports, unsupported_kinds,
}
use invariantql.Domain.Expressions.{Expression, ExpressionKind, kind, kind_value}
use invariantql.Domain.Expressions.Walk.{walk}

is_empty-set_default :
    (seen : List String) (name : String) → is_empty (set_default seen name) ≡ false
is_empty-set_default [] name = refl
is_empty-set_default (s ∷ seen) name = ground arith

is_empty-found_kind :
    (scan : PushdownCapabilities) (found : List String) (k : ExpressionKind)
    → is_empty (found_kind scan found k) ≡ (is_empty found && scan_accepts scan k)
is_empty-found_kind scan found k =
    ground
      (arith, is_empty-set_default found "parameter", is_empty-set_default found (kind_value k))

is_empty-find_kinds :
    (scan : PushdownCapabilities) (found : List String) (nodes : List Expression)
    → is_empty (find_kinds scan found nodes)
      ≡ (is_empty found && all nodes (λ n. scan_accepts scan (kind n)))
unfolding find_kinds
is_empty-find_kinds scan found [] = ground arith
is_empty-find_kinds scan found (n ∷ nodes) = ground (
  arith,
  is_empty-find_kinds scan (found_kind scan found (kind n)) nodes,
  is_empty-found_kind scan found (kind n),
)

-- `unsupported_kinds` names no kind exactly when `supports_expression` accepts the expression.
pub unsupported_kinds-scan_supports :
    (scan : PushdownCapabilities) (e : Expression)
    → is_empty (unsupported_kinds scan e) ≡ scan_supports scan e
unfolding unsupported_kinds scan_supports
unsupported_kinds-scan_supports scan e = is_empty-find_kinds scan [] (walk e)
