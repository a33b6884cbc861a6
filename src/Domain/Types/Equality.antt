-- ===== src/Domain/Types/Equality.antt =====
-- Python's `==` on the frozen dataclasses of src/invariantql/domain/types.py: structural.
use invariantql.Prelude.{
  Bool, Option, String, and-eq-true_iff, arith, eq_iff, eqb, eqb_iff, false, none, refl, some, true,
  ◌&&◌, ◌==◌, ◌↔◌, ◌≡◌,
}
use invariantql.Domain.Types.{
  DataType, StructFields, binary, boolean, date, decimal, float, integer, list, no_fields, null,
  string, struct, timestamp, unknown, with_field,
}

abbrev pub zone_eq : Option String → Option String → Bool
zone_eq none none = true
zone_eq (some a) (some b) = a == b
zone_eq _ _ = false

unfoldable mutual
  pub type_eq : DataType → DataType → Bool
  type_eq unknown unknown = true
  type_eq null null = true
  type_eq boolean boolean = true
  type_eq (integer a) (integer b) = eqb a b
  type_eq (float a) (float b) = eqb a b
  type_eq (decimal p s) (decimal q r) = eqb p q && eqb s r
  type_eq string string = true
  type_eq binary binary = true
  type_eq date date = true
  type_eq (timestamp a) (timestamp b) = zone_eq a b
  type_eq (list a) (list b) = type_eq a b
  type_eq (struct a) (struct b) = fields_eq a b
  type_eq _ _ = false

  pub fields_eq : StructFields → StructFields → Bool
  fields_eq no_fields no_fields = true
  fields_eq (with_field m a fs) (with_field n b gs) = m == n && type_eq a b && fields_eq fs gs
  fields_eq _ _ = false

zone_eq_sound : (a b : Option String) → zone_eq a b ≡ true → a ≡ b
zone_eq_sound none none h = refl
zone_eq_sound (some a) (some b) h = ground (arith, eq_iff a b)
zone_eq_sound none (some b) h = cc
zone_eq_sound (some a) none h = cc

zone_eq_refl : (a : Option String) → zone_eq a a ≡ true
zone_eq_refl none = refl
zone_eq_refl (some a) = (eq_iff a a).1 refl

mutual
  unfolding type_eq

  type_eq_sound : (a b : DataType) → type_eq a b ≡ true → a ≡ b
  type_eq_sound (timestamp a) (timestamp b) h = cc (zone_eq_sound a b h)
  type_eq_sound (list a) (list b) h = cc (type_eq_sound a b h)
  type_eq_sound (struct a) (struct b) h = cc (fields_eq_sound a b h)
  type_eq_sound a b h = ground arith

  fields_eq_sound : (a b : StructFields) → fields_eq a b ≡ true → a ≡ b
  fields_eq_sound no_fields no_fields h = refl
  fields_eq_sound (with_field m a fs) (with_field n b gs) h =
      let (front, rest) = (and-eq-true_iff (m == n && type_eq a b) (fields_eq fs gs)).0 h in
      let (names, types) = (and-eq-true_iff (m == n) (type_eq a b)).0 front in
      cc ((eq_iff m n).0 names, type_eq_sound a b types, fields_eq_sound fs gs rest)
  fields_eq_sound _ _ h = cc

mutual
  unfolding type_eq

  pub type_eq_refl : (a : DataType) → type_eq a a ≡ true
  type_eq_refl (integer a) = (eqb_iff a a).1 refl
  type_eq_refl (float a) = (eqb_iff a a).1 refl
  type_eq_refl (decimal p s) = ground arith
  type_eq_refl (timestamp a) = zone_eq_refl a
  type_eq_refl (list a) = type_eq_refl a
  type_eq_refl (struct a) = fields_eq_refl a
  type_eq_refl _ = refl

  pub fields_eq_refl : (a : StructFields) → fields_eq a a ≡ true
  fields_eq_refl no_fields = refl
  fields_eq_refl (with_field m a fs) = ground (arith, eq_iff m m, type_eq_refl a, fields_eq_refl fs)

pub type_eq_iff : (a b : DataType) → (type_eq a b ≡ true) ↔ (a ≡ b)
type_eq_iff a b = (type_eq_sound a b, λ e. rw e (type_eq_refl b))
