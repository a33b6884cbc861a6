-- ===== src/Domain/Capabilities.antt =====
-- src/invariantql/domain/capabilities.py: what scan targets and engines can evaluate. A frozenset of
-- kinds is its characteristic function.
pub mod Kinds
pub mod Unsupported
use invariantql.Prelude.{
  Bool, List, String, [], all, false, if◌then◌else◌, map, select, set_default, true, ◌&&◌, ◌∷◌,
}
use invariantql.Domain.Expressions.{Expression, ExpressionKind, kind, kind_value}
use invariantql.Domain.Expressions.Walk.{conjuncts, walk}
use invariantql.Prelude.Sort.{sorted}

pub data Support : Type 0 where
  full partial none : Support

-- `Support.value`
abbrev pub support_value : Support → String
support_value full = "full"
support_value partial = "partial"
support_value none = "none"

abbrev pub KindSet : Type 0
KindSet = ExpressionKind → Bool

pub record PushdownCapabilities : Type 0 where
  pub projection : Support
  pub predicate : Support
  pub limit : Support
  pub expressions : KindSet
  pub parameters : Bool
  pub evidence : List String

pub record EngineCapabilities : Type 0 where
  pub name : String
  pub residual_expressions : KindSet
  pub residual_projection : Bool
  pub residual_limit : Bool
  pub lazy : Bool
  pub evidence : List String

abbrev pub is_parameter_kind : ExpressionKind → Bool
is_parameter_kind ExpressionKind.parameter = true
is_parameter_kind _ = false

-- A kind that the loop body of PushdownCapabilities.supports_expression lets pass.
abbrev pub scan_accepts : PushdownCapabilities → ExpressionKind → Bool
scan_accepts scan k = scan.expressions k && (if is_parameter_kind k then scan.parameters else true)

-- `PushdownCapabilities.supports_expression`
unfoldable pub scan_supports : PushdownCapabilities → Expression → Bool
scan_supports scan e = all (walk e) (λ node. scan_accepts scan (kind node))

-- What the loop body of `unsupported_kinds` adds to `found`.
abbrev pub found_kind : PushdownCapabilities → List String → ExpressionKind → List String
found_kind scan found k =
    if scan.expressions k
    then (if is_parameter_kind k && (if scan.parameters then false else true)
        then set_default found "parameter"
        else found)
    else set_default found (kind_value k)

unfoldable pub find_kinds : PushdownCapabilities → List String → List Expression → List String
find_kinds scan found [] = found
find_kinds scan found (node ∷ nodes) = find_kinds scan (found_kind scan found (kind node)) nodes

unfoldable pub unsupported_kinds : PushdownCapabilities → Expression → List String
unfolding find_kinds
unsupported_kinds scan e = find_kinds scan [] (walk e)

-- `EngineCapabilities.supports_expression`
unfoldable pub engine_supports : EngineCapabilities → Expression → Bool
engine_supports engine e =
    all (conjuncts e)
      (λ clause. all (walk clause) (λ node. engine.residual_expressions (kind node)))

-- The members of ExpressionKind.
abbrev pub all_kinds : List ExpressionKind
all_kinds =
    ExpressionKind.column ∷ ExpressionKind.literal ∷ ExpressionKind.parameter
    ∷ ExpressionKind.comparison ∷ ExpressionKind.and ∷ ExpressionKind.or ∷ ExpressionKind.not
    ∷ ExpressionKind.is_null ∷ ExpressionKind.is_in ∷ ExpressionKind.like
    ∷ ExpressionKind.arithmetic ∷ ExpressionKind.alias ∷ []

-- `sorted(k.value for k in kinds)`
unfoldable pub sorted_values : KindSet → List String
sorted_values kinds = sorted (map kind_value (select kinds all_kinds))

-- `PushdownCapabilities.to_dict`, with the dict's entries as fields.
pub record ScanDict : Type 0 where
  pub projection : String
  pub predicate : String
  pub limit : String
  pub expressions : List String
  pub parameters : Bool
  pub evidence : List String

unfoldable pub scan_to_dict : PushdownCapabilities → ScanDict
scan_to_dict scan = record {
  projection = support_value scan.projection;
  predicate = support_value scan.predicate;
  limit = support_value scan.limit;
  expressions = sorted_values scan.expressions;
  parameters = scan.parameters;
  evidence = scan.evidence;
}

-- `EngineCapabilities.to_dict`
pub record EngineDict : Type 0 where
  pub name : String
  pub residual_expressions : List String
  pub residual_projection : Bool
  pub residual_limit : Bool
  pub lazy : Bool
  pub evidence : List String

unfoldable pub engine_to_dict : EngineCapabilities → EngineDict
engine_to_dict engine = record {
  name = engine.name;
  residual_expressions = sorted_values engine.residual_expressions;
  residual_projection = engine.residual_projection;
  residual_limit = engine.residual_limit;
  lazy = engine.lazy;
  evidence = engine.evidence;
}

-- `PushdownCapabilities.none` and `PushdownCapabilities.full`
abbrev pub none_capabilities : List String → PushdownCapabilities
none_capabilities evidence = record {
  projection = none;
  predicate = none;
  limit = none;
  expressions = λ _. false;
  parameters = false;
  evidence = evidence;
}

abbrev pub full_capabilities : List String → PushdownCapabilities
full_capabilities evidence = record {
  projection = full;
  predicate = full;
  limit = full;
  expressions = λ _. true;
  parameters = true;
  evidence = evidence;
}
