-- ===== src/Domain/Diagnostics.antt =====
-- src/invariantql/domain/diagnostics.py: the stable codes, diagnostics, and what the code raises.
-- The human text of a message is not modelled; its code, severity, node and target are.
use invariantql.Prelude.{ℕ, String, Option}
use invariantql.Prelude.Results.{Result}

pub data DiagnosticCode : Type 0 where
  sql_parse_error sql_multiple_statements sql_not_a_select sql_multi_source : DiagnosticCode
  sql_qualified_source sql_unsupported_construct sql_unsupported_expression : DiagnosticCode
  sql_invalid_limit sql_ambiguous_identifier sql_empty plan_unknown_column : DiagnosticCode
  plan_type_mismatch plan_invalid_shape pushdown_full pushdown_partial : DiagnosticCode
  pushdown_trivial residual_no_capability residual_unsupported_expression : DiagnosticCode
  residual_computed_projection residual_limit_after_residual_filter : DiagnosticCode
  rejected_engine_unsupported_expression rejected_engine_unsupported_operation : DiagnosticCode
  rejected_source_unreachable engine_unknown engine_cannot_reach_source : DiagnosticCode
  engine_unsupported_source engine_plan_not_executable engine_execution_failed : DiagnosticCode
  source_not_registered source_already_registered source_schema_unavailable : DiagnosticCode
  source_scan_unsupported source_failure storage_object_not_found : DiagnosticCode
  storage_unsupported_operation storage_failure format_unsupported format_invalid : DiagnosticCode
  adapter_dependency_missing adapter_unknown adapter_failure parameter_missing : DiagnosticCode
  parameter_unexpected parameter_invalid result_limit_exceeded result_closed : DiagnosticCode
  staging_required : DiagnosticCode

pub data Severity : Type 0 where
  info warning error : Severity

pub record Diagnostic : Type 0 where
  pub code : DiagnosticCode
  pub severity : Severity
  pub node_id : Option String
  pub target : Option String

-- `Diagnostic.error`
abbrev pub diagnostic_error : DiagnosticCode → Option String → Option String → Diagnostic
diagnostic_error code node_id target = record {
  code = code;
  severity = error;
  node_id = node_id;
  target = target;
}

-- The subclasses of InvariantQLError.
pub data ErrorClass : Type 0 where
  sql_frontend_error plan_validation_error unsupported_operation_error : ErrorClass
  staging_required_error missing_dependency_error registry_error parameter_error : ErrorClass
  materialization_limit_error adapter_error storage_error source_error execution_error : ErrorClass

-- What the code raises: Python's own exceptions, or an InvariantQLError with its diagnostic.
pub data Raised : Type 0 where
  value_error type_error assertion_error : Raised
  key_error : String → Raised
  int_key_error : ℕ → Raised
  attribute_error recursion_error : Raised
  library_error : ErrorClass → Diagnostic → Raised

abbrev pub Outcome {ℓ} : Type ℓ → Type ℓ
Outcome A = Result Raised A
