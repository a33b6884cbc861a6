-- ===== src/Application/Binding/Portable.antt =====
-- The output schema of `bind_plan`, src/invariantql/application/binding.py.
use invariantql.Prelude.{
  Bool, List, Option, String, [], all, false, none, refl, some, subst, sym, true, ◌&&◌, ◌∷◌, ◌≡◌,
}
use invariantql.Application.Binding.{
  BoundPlan, bind_outputs, bind_plan, bind_predicate, bind_projection, id_of, invalid_plan,
  require_portable, schema_outputs, with_limit, with_predicate, with_projection,
}
use invariantql.Domain.Diagnostics.{Outcome, Raised, plan_type_mismatch}
use invariantql.Domain.Expressions.{Expression}
use invariantql.Domain.Expressions.Substitute.{Literals}
use invariantql.Domain.Plan.{
  QueryPlan, limit_count, nodes, predicate, projection, scan_plan, source,
}
use invariantql.Domain.Schema.{Field, Schema, check_fields, make_schema}
use invariantql.Domain.Types.{is_portable_type}
use invariantql.Prelude.Results.{
  Ensures, Ensures-any, Ensures-bind, Ensures-ok, guard, holds, ok, raised, ◌>>◌,
}

abbrev pub ArePortable : List Field → Type 0
ArePortable fields = all fields (λ (f : Field). is_portable_type f.data_type) ≡ true

both :
    (b : Bool) (e : Raised) {rest : Outcome (Unit {0})} {c : Bool}
    → Ensures (λ (u : Unit {0}). c ≡ true) rest
    → Ensures (λ (u : Unit {0}). (b && c) ≡ true) (guard b e >> rest)
both true e h = h
both false e h = raised

require_portable-Ensures :
    (lower : String → String) (schema : Schema) (parameters : Literals) (fields : List Field)
    (node : String)
    → Ensures
        (λ (u : Unit {0}). ArePortable fields)
        (require_portable lower schema parameters fields node)
require_portable-Ensures lower schema parameters [] node = holds refl
require_portable-Ensures lower schema parameters (f ∷ fs) node =
    both (is_portable_type f.data_type) (invalid_plan plan_type_mismatch node)
      (require_portable-Ensures lower schema parameters fs node)

make_schema-fields :
    (fields : List Field) → Ensures (λ (s : Schema). s.fields ≡ fields) (make_schema fields)
unfolding make_schema
make_schema-fields fields = Ensures-bind (Ensures-any (check_fields [] fields)) (λ u h. holds refl)

module _ (lower : String → String) (schema : Schema) (parameters : Literals) where
  projection-Ensures :
      (es : Option (List Expression)) (project_node scan_node : String)
      → Ensures
          (λ (o : Option (List Expression) × List Field). ArePortable o.1)
          (bind_projection lower schema parameters es project_node scan_node)
  projection-Ensures none project_node scan_node =
      Ensures-bind (Ensures-any (schema_outputs lower schema parameters)) (λ fields _.
        Ensures-bind (require_portable-Ensures lower schema parameters fields scan_node)
          (λ u h. holds h))
  projection-Ensures (some es) project_node scan_node =
      Ensures-bind (Ensures-any (bind_outputs lower schema parameters [] es project_node))
        (λ outputs _.
          Ensures-bind (require_portable-Ensures lower schema parameters outputs.1 project_node)
            (λ u h. holds h))

  bound_plan :
      (plan : QueryPlan)
      → Ensures
          (λ (b : BoundPlan). ArePortable b.output_schema.fields)
          (bind_plan lower plan schema parameters)
  unfolding bind_plan
  bound_plan plan =
      Ensures-bind
        (Ensures-any (
          bind_predicate lower schema parameters (predicate plan)
            (id_of "filter" 0 (nodes plan.root))))
        (λ bound _.
          Ensures-bind
            (projection-Ensures (projection plan) (id_of "project" 0 (nodes plan.root))
              (id_of "scan" 0 (nodes plan.root)))
            (λ outputs portable. Ensures-bind (Ensures-any (scan_plan (source plan))) (λ scanned _.
              Ensures-bind (Ensures-any (with_predicate bound scanned)) (λ filtered _.
                Ensures-bind (Ensures-any (with_projection outputs.0 filtered)) (λ projected _.
                  Ensures-bind (Ensures-any (with_limit (limit_count plan) projected)) (λ rebuilt _.
                    Ensures-bind (make_schema-fields outputs.1)
                      (λ s e. holds (subst ArePortable (sym e) portable))))))))

  -- When `bind_plan` returns, every field of the output schema has a portable type.
  pub bind_plan-ArePortable :
      (plan : QueryPlan) (b : BoundPlan)
      → bind_plan lower plan schema parameters ≡ ok b
      → all b.output_schema.fields (λ (f : Field). is_portable_type f.data_type) ≡ true
  bind_plan-ArePortable plan b h = Ensures-ok (bound_plan plan) h
