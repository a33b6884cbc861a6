-- ===== src/Tests/Types.antt =====
-- Runs of the properties of src/invariantql/domain/types.py.
use invariantql.Prelude.{arith, none, refl, some, true, ℕ, ◌-◌, ◌≡◌, ◌≢◌, ◌≤◌}
use invariantql.Domain.Diagnostics.{Outcome, type_error}
use invariantql.Domain.Types.{
  DataType, decimal, integer, is_portable_type, is_valid, list, normalise_portable_type, timestamp,
}
use invariantql.Domain.Types.Dict.{depth, to_dict, type_from_dict, type_from_dict-to_dict}
use invariantql.Domain.Types.Normal.{HasOnlyUtc, normalise_portable_type_lem}
use invariantql.Domain.Types.Unify.{add, div, unify}
use invariantql.Domain.Types.UnifyDigits.{unify-decimal_covers, unify-decimal_exact}
use invariantql.Domain.Types.UnifyLaws.{unify_symmetric}
use invariantql.Domain.Types.UnifyPortable.{unify-is_portable}
use invariantql.Prelude.Int.{ℤ}
use invariantql.Prelude.Json.{Json, dict, int}
use invariantql.Prelude.Results.{err, ok}

abbrev amount : DataType
amount = decimal 20 4

unify_symmetric_example :
    unify amount (integer 32) (some "*") ≡ unify (integer 32) amount (some "*")
unify_symmetric_example = unify_symmetric amount (integer 32) (some "*")

add-neq-div : add ≢ div
add-neq-div h = cc

unify-decimal_exact_example : unify (decimal 12 2) (decimal 9 4) (some "+") ≡ ok (decimal 15 4)
unify-decimal_exact_example = unify-decimal_exact 12 2 9 4 "+" add refl add-neq-div

unify-decimal_covers_example :
    (precision : ℕ) × (scale : ℕ) × (unify (decimal 76 2) (decimal 40 30) none
      ≡ ok (decimal precision scale))
    × (74 ≤ precision - scale)
    × (scale ≡ 2)
unify-decimal_covers_example =
    unify-decimal_covers 76 2 40 30 (omega arith) (omega arith) (omega arith) (omega arith)

unify-is_portable_example :
    (is_valid (decimal 15 4) ≡ true) × (is_portable_type (decimal 15 4) ≡ true)
unfolding is_valid is_portable_type
unify-is_portable_example =
    unify-is_portable (decimal 12 2) (decimal 9 4) (decimal 15 4) "+" refl refl refl refl
      unify-decimal_exact_example

normalise_portable_type_lem_example :
    HasOnlyUtc (normalise_portable_type (list (timestamp (some "Europe/Madrid"))))
    × (normalise_portable_type (normalise_portable_type (list (timestamp (some "Europe/Madrid"))))
        ≡ normalise_portable_type (list (timestamp (some "Europe/Madrid"))))
    × (is_portable_type (normalise_portable_type (list (timestamp (some "Europe/Madrid"))))
        ≡ is_portable_type (list (timestamp (some "Europe/Madrid"))))
    × (is_valid (normalise_portable_type (list (timestamp (some "Europe/Madrid"))))
        ≡ is_valid (list (timestamp (some "Europe/Madrid"))))
normalise_portable_type_lem_example =
    normalise_portable_type_lem (list (timestamp (some "Europe/Madrid")))

-- `int(value)` on a number of the JSON text.
int_of : Json → Outcome ℤ
int_of (int n) = ok n
int_of _ = err type_error

type_from_dict-to_dict_example :
    type_from_dict int_of 2 (dict (to_dict (list (decimal 10 2)))) ≡ ok (list (decimal 10 2))
unfolding is_valid depth int_of
type_from_dict-to_dict_example =
    type_from_dict-to_dict int_of (λ n. refl) (list (decimal 10 2)) 2 refl (omega arith)
