-- ===== src/Lib.antt =====
-- Checked models of InvariantQL (src/invariantql), a library that plans one portable query over a
-- source and an engine of different capabilities.
--
-- The program builds a logical plan (domain/plan.py) of one scan, filter, projection and limit from
-- expressions (domain/expressions.py) over logical types (domain/types.py). The planner
-- (application/planner.py) splits it by the capabilities of a scan target and an engine
-- (domain/capabilities.py) into pushed and residual operations (domain/execution.py), explains the
-- placement node by node (domain/explain.py), and asserts that nothing is lost or done twice.
--
-- Prelude: Boolean tests on numbers, lists, sorting, association lists, results, integers and JSON
--   values.
-- Domain.Types: domain/types.py; DataType has a constructor for each subclass, the constructors'
--   `__post_init__` checks are integer_type, float_type and decimal_type. Children: Unify (`unify`
--   with its helpers), Dict (`to_dict`, `type_from_dict`), Equality (Python's `==`), and their laws.
-- Domain.Expressions: domain/expressions.py; a tree type and the constructors' checks as `make_`
--   functions. Children: Literals (`Literal.of` and its validations), Walk (`walk`, referenced names,
--   `conjuncts`, `and_all`, `output_name`), Substitute (`substitute_parameters`), and their laws.
-- Domain.Plan: domain/plan.py; the chain of nodes, QueryPlan's check, properties and methods.
--   Children: Canonical (what the check accepts), Methods (what `where`, `select`, `limit` return).
-- Domain.Schema, Domain.Capabilities, Domain.Explain, Domain.Execution, Domain.Diagnostics: the files
--   of those names; check_completeness of domain/execution.py is a list of problems.
-- Application.Parameters: application/parameters.py; Bound has what `bind_parameters` returns.
-- Application.Placement, Application.Planner: `CapabilityPlanner.plan`; Placement has one function
--   for each kind of node (plan_filter, plan_project, plan_limit), Planner the loop over the nodes
--   (plan_nodes) and plan_query, which ends with the source's assertion. Children of Planner: Split
--   (the lists that the loop over conjuncts fills), Filter, Project, Limit (each placement against
--   the completeness check), Placed (where the conjuncts of a filter go), Complete (the whole plan), Explained (the explanation), Rows (the rows
--   that a filter keeps).
-- Domain.Semantics: domain/semantics.py; the type of an expression over a schema.
-- Application.Binding: application/binding.py; `_Binder.bind` with its checks and `bind_plan`.
--   Children: Columns, Bound (what a bound expression refers to), Portable (the output schema).
-- Application.Registry: application/registry.py; the registry is a record of association lists and of
--   the log of the closes, each method a function of it. Children: Holds, Tracked (what leaves it was
--   closed), Names, Named (the names of the sources).
-- Adapters.SqlText: adapters/_shared/sqltext.py; a text is a list of words and holes, so a placeholder
--   keeps the index it was written for. Children: Generator (the class SqlGenerator, whose attribute
--   `values` is the state), Holes, Orders, Values, Statement, Ordered, Numbered, Sequence, Clauses,
--   Selected (placeholders against values), Total (when it returns), Quote (quoted texts).
-- Adapters.PostgresSql: adapters/sources/postgres.py; what PostgresSqlGenerator overrides, with
--   Placeholders, by which it meets the condition of the theorems on SQL text.
-- Adapters.MongoDb: adapters/sources/mongodb.py; filter documents and the regular expression of LIKE.
--   Children: Evaluate (`_evaluate`, which filters in process), Evaluable (when it returns), Translate
--   (the class _Translator and the filter of `scan`), Guarded, Filters (what a filter document tests),
--   Returns (when `scan` has a filter document).
-- Tests: runs of the theorems on concrete inputs.
--
-- State and errors: the program's objects are immutable, so its methods are functions, but for the
-- registry and the values of the SQL generator, which are passed from call to call; the planner's
-- local variables are the record PlanningState. An exception is a value of Raised, by class and, for
-- the library's own errors, by diagnostic code; the texts of messages are not modelled.
-- Numbers: sizes and counts are natural numbers; an integer value is a sign and a magnitude. A float
-- is the 64 bits of an IEEE double. Recursion on a type's dictionary has a recursion limit as fuel:
-- the depth of the type is enough.
-- Parameters: Python's `==` on literal values, `int` on a JSON value and `str.lower` are arguments of
-- the definitions that use them; so are Python's comparisons, `str`, `re.fullmatch` and `re.escape`
-- (the record Python), `ObjectId.is_valid` and whether `Decimal128` raises (the record Driver), and
-- whether `close` raises.
-- Not modelled: connections, schema inference, the rows of scans and their conversion, storage,
-- engines, table formats, the SQL front end and Arrow conversion (adapters/), which call third-party
-- libraries; rendering to text; the service.
pub mod Prelude
pub mod Domain
pub mod Application
pub mod Adapters
pub mod Tests
