-- ===== src/Domain/Explain.antt =====
-- src/invariantql/domain/explain.py: what the planner records of each node. A text that renders
-- expressions, columns or a count is kept as the value that it renders.
use invariantql.Prelude.{
  Bool, List, Option, String, [], false, if◌then◌else◌, select, true, ℕ, ◌==◌, ◌∷◌,
}
use invariantql.Domain.Capabilities.{EngineDict, ScanDict}
use invariantql.Domain.Diagnostics.{Diagnostic, DiagnosticCode, Outcome, key_error}
use invariantql.Domain.Expressions.{Expression}
use invariantql.Prelude.Results.{err, ok}

pub data Disposition : Type 0 where
  pushed partial residual rejected : Disposition

pub data ExecutionLocation : Type 0 where
  source engine none : ExecutionLocation

-- The values behind the texts `pushed` and `residual`.
pub data Shown : Type 0 where
  shown_predicate : Option Expression → Shown
  shown_columns : List String → Shown
  shown_expressions : List Expression → Shown
  shown_count : ℕ → Shown

pub record ExplainNode : Type 0 where
  pub node_id : String
  pub operation : String
  pub disposition : Disposition
  pub location : ExecutionLocation
  pub reason_code : DiagnosticCode
  pub pushed : Option Shown
  pub residual : Option Shown
  pub evidence : List String

pub record ExplainPlan : Type 0 where
  pub engine : String
  pub source : String
  pub nodes : List ExplainNode
  pub executable : Bool
  pub staging_required : Bool
  pub diagnostics : List Diagnostic
  pub scan_capabilities : ScanDict
  pub engine_capabilities : EngineDict

abbrev pub is_rejected : Disposition → Bool
is_rejected rejected = true
is_rejected _ = false

-- The property `rejected`.
unfoldable pub rejected_nodes : ExplainPlan → List ExplainNode
rejected_nodes explain = select (λ n. is_rejected n.disposition) explain.nodes

-- `node`
unfoldable pub find_node : List ExplainNode → String → Outcome ExplainNode
find_node [] node_id = err (key_error node_id)
find_node (n ∷ ns) node_id = if n.node_id == node_id then ok n else find_node ns node_id
