-- ===== src/Tests/Registry.antt =====
-- Runs of the properties of src/invariantql/application/registry.py.
use invariantql.Prelude.{
  List, Option, [], eqb, if◌then◌else◌, none, refl, some, true, ◌==◌, ◌∷◌, ◌≡◌,
}
use invariantql.Application.Registry.{
  Adapter, Call, Registry, after_all, call_close, call_engine, call_register_source,
  call_unregister_source, empty_registry, register_source, source,
}
use invariantql.Application.Registry.Holds.{is_tracked}
use invariantql.Application.Registry.Named.{after_all-AreNamed, register_source-source}
use invariantql.Application.Registry.Names.{AreNamed}
use invariantql.Application.Registry.Tracked.{after_all-is_tracked}
use invariantql.Domain.Diagnostics.{Raised, value_error}
use invariantql.Prelude.Results.{ok}

-- A source that closes without an exception and one that does not.
abbrev orders : Adapter
orders = record { identity = 1; name = "orders" }

abbrev other_orders : Adapter
other_orders = record { identity = 2; name = "orders" }

abbrev broken_close : Adapter → Option Raised
broken_close a = if eqb a.identity 1 then some value_error else none

abbrev with_orders : Registry
with_orders = record {
  sources = ("orders", other_orders) ∷ [];
  engines = [];
  engine_factories = ("local", ok (record { identity = 7; name = "duckdb" })) ∷ [];
  frontends = [];
  frontend_factories = [];
  closed = [];
}

abbrev some_calls : List Call
some_calls =
    call_register_source orders true
    ∷ call_engine "local"
    ∷ call_unregister_source "orders"
    ∷ call_close
    ∷ []

after_all-is_tracked_example : is_tracked 2 (after_all broken_close some_calls with_orders) ≡ true
after_all-is_tracked_example = after_all-is_tracked broken_close 2 some_calls with_orders refl

after_all-AreNamed_example : AreNamed (after_all broken_close some_calls empty_registry).sources
after_all-AreNamed_example = after_all-AreNamed broken_close some_calls

replaced : (register_source broken_close orders true with_orders).0 ≡ ok orders
unfolding register_source
replaced = refl

register_source-source_example :
    source "orders" (register_source broken_close orders true with_orders).1
    ≡ (if orders.name == "orders" then ok orders else source "orders" with_orders)
register_source-source_example =
    register_source-source broken_close orders true with_orders "orders" replaced
