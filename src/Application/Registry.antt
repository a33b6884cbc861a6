-- ===== src/Application/Registry.antt =====
-- src/invariantql/application/registry.py: sources, engines and frontends by name. The dicts are
-- association lists in the order of insertion. An adapter is an object with its identity and its
-- name; `close` is called on it, which may raise, and the log `closed` lists the identities of the
-- adapters that it was called on. A factory is what calling it gives.
pub mod Holds
pub mod Tracked
pub mod Names
pub mod Named
use invariantql.Prelude.{
  Bool, List, Option, String, [], eqb, false, if◌then◌else◌, is_some, lookup, map, none, some, true,
  ℕ, ◌&&◌, ◌++◌, ◌==◌, ◌||◌, ◌∷◌,
}
use invariantql.Domain.Diagnostics.{
  DiagnosticCode, Outcome, Raised, adapter_unknown, diagnostic_error, engine_unknown, library_error,
  registry_error, source_already_registered, source_not_registered,
}
use invariantql.Prelude.Results.{err, ok}

pub record Adapter : Type 0 where
  pub identity : ℕ
  pub name : String

abbrev pub Adapters : Type 0
Adapters = List (String × Adapter)

abbrev pub Factories : Type 0
Factories = List (String × Outcome Adapter)

pub record Registry : Type 0 where
  pub sources : Adapters
  pub engines : Adapters
  pub engine_factories : Factories
  pub frontends : Adapters
  pub frontend_factories : Factories
  pub closed : List ℕ

abbrev pub empty_registry : Registry
empty_registry = record {
  sources = [];
  engines = [];
  engine_factories = [];
  frontends = [];
  frontend_factories = [];
  closed = [];
}

-- `d[key] = value`
abbrev pub insert : {V : Type 0} → String → V → List (String × V) → List (String × V)
insert key value [] = (key, value) ∷ []
insert key value ((k, v) ∷ es) = if k == key then (k, value) ∷ es else (k, v) ∷ insert key value es

-- `d.pop(key, None)`, without its result.
abbrev pub remove : {V : Type 0} → String → List (String × V) → List (String × V)
remove key [] = []
remove key ((k, v) ∷ es) = if k == key then es else (k, v) ∷ remove key es

-- What an operation returns or raises, and the registry after it.
abbrev pub Ran : Type 0 → Type 0
Ran A = Outcome A × Registry

abbrev pub registry_failure : DiagnosticCode → Option String → Raised
registry_failure c target = library_error registry_error (diagnostic_error c none target)

abbrev pub log : List Adapter → Registry → Registry
log adapters r = record {
  sources = r.sources;
  engines = r.engines;
  engine_factories = r.engine_factories;
  frontends = r.frontends;
  frontend_factories = r.frontend_factories;
  closed = r.closed ++ map (λ a. a.identity) adapters;
}

abbrev pub with_sources : Adapters → Registry → Registry
with_sources sources r = record {
  sources = sources;
  engines = r.engines;
  engine_factories = r.engine_factories;
  frontends = r.frontends;
  frontend_factories = r.frontend_factories;
  closed = r.closed;
}

abbrev pub with_engines : Adapters → Registry → Registry
with_engines engines r = record {
  sources = r.sources;
  engines = engines;
  engine_factories = r.engine_factories;
  frontends = r.frontends;
  frontend_factories = r.frontend_factories;
  closed = r.closed;
}

abbrev pub with_frontends : Adapters → Registry → Registry
with_frontends frontends r = record {
  sources = r.sources;
  engines = r.engines;
  engine_factories = r.engine_factories;
  frontends = frontends;
  frontend_factories = r.frontend_factories;
  closed = r.closed;
}

-- `self._engine_factories[name] = factory`
unfoldable pub register_engine_factory : String → Outcome Adapter → Registry → Ran (Unit {0})
register_engine_factory name factory r = (
  ok tt,
  record {
    sources = r.sources;
    engines = r.engines;
    engine_factories = insert name factory r.engine_factories;
    frontends = r.frontends;
    frontend_factories = r.frontend_factories;
    closed = r.closed;
  },
)

unfoldable pub register_frontend_factory : String → Outcome Adapter → Registry → Ran (Unit {0})
register_frontend_factory name factory r = (
  ok tt,
  record {
    sources = r.sources;
    engines = r.engines;
    engine_factories = r.engine_factories;
    frontends = r.frontends;
    frontend_factories = insert name factory r.frontend_factories;
    closed = r.closed;
  },
)

-- The lookups and the properties.
unfoldable pub source : String → Registry → Outcome Adapter
source name r = elim (lookup name r.sources) [
  | none ↦ err (registry_failure source_not_registered (some name))
  | some found ↦ ok found
]

unfoldable pub has_engine : String → Registry → Bool
has_engine name r = is_some (lookup name r.engines) || is_some (lookup name r.engine_factories)

-- Getting an adapter: the registered one, or the factory's, which is kept.
abbrev pub build :
    (Adapter → Registry → Registry)
    → DiagnosticCode
    → String
    → Option Adapter
    → Option (Outcome Adapter)
    → Registry
    → Ran Adapter
build keep c name (some found) factory r = (ok found, r)
build keep c name none none r = (err (registry_failure c (some name)), r)
build keep c name none (some (err e)) r = (err e, r)
build keep c name none (some (ok made)) r = (ok made, keep made r)

unfoldable pub engine : String → Registry → Ran Adapter
engine name r =
    build (λ made s. with_engines (insert name made s.engines) s) engine_unknown name
      (lookup name r.engines) (lookup name r.engine_factories) r

unfoldable pub frontend : String → Registry → Ran Adapter
frontend name r =
    build (λ made s. with_frontends (insert name made s.frontends) s) adapter_unknown name
      (lookup name r.frontends) (lookup name r.frontend_factories) r

-- The calls that change the registry.
pub data Call : Type 0 where
  call_register_source : Adapter → Bool → Call
  call_unregister_source : String → Call
  call_register_engine : Adapter → Bool → Call
  call_register_engine_factory : String → Outcome Adapter → Call
  call_engine : String → Call
  call_register_frontend : Adapter → Bool → Call
  call_register_frontend_factory : String → Outcome Adapter → Call
  call_frontend : String → Call
  call_close : Call

-- After `previous.close()`: the new registry, or the exception and the old one.
abbrev pub after_close : Option Raised → Adapter → Registry → Registry → Ran Adapter
after_close none new done undone = (ok new, done)
after_close (some e) new done undone = (err e, undone)

-- `closing` is what `close` raises on an adapter, if anything.
module _ (closing : Adapter → Option Raised) where
  -- `previous.close()` unless there is no previous adapter or it is the new one, then the new entry.
  abbrev pub replace_adapter :
      Option Adapter → Adapter → (Registry → Registry) → Registry → Ran Adapter
  replace_adapter none new set r = (ok new, set r)
  replace_adapter (some previous) new set r =
      if eqb previous.identity new.identity
      then (ok new, set r)
      else after_close (closing previous) new (set (log (previous ∷ []) r)) (log (previous ∷ []) r)

  unfoldable pub register_source : Adapter → Bool → Registry → Ran Adapter
  register_source new replace r =
      if new.name == ""
      then (err (registry_failure source_not_registered none), r)
      else if is_some (lookup new.name r.sources) && (if replace then false else true)
      then (err (registry_failure source_already_registered (some new.name)), r)
      else replace_adapter (lookup new.name r.sources) new
          (λ s. with_sources (insert new.name new s.sources) s) r

  -- The entry is gone before `close` is called.
  abbrev pub unregister_found : String → Option Adapter → Registry → Ran (Unit {0})
  unregister_found name none r = (err (registry_failure source_not_registered (some name)), r)
  unregister_found name (some found) r = (
    elim (closing found) [ none ↦ ok tt | some e ↦ err e ],
    log (found ∷ []) (with_sources (remove name r.sources) r),
  )

  unfoldable pub unregister_source : String → Registry → Ran (Unit {0})
  unregister_source name r = unregister_found name (lookup name r.sources) r

  unfoldable pub register_engine : Adapter → Bool → Registry → Ran Adapter
  register_engine new replace r =
      if is_some (lookup new.name r.engines) && (if replace then false else true)
      then (err (registry_failure engine_unknown (some new.name)), r)
      else replace_adapter (lookup new.name r.engines) new
          (λ s. with_engines (insert new.name new s.engines) s) r

  unfoldable pub register_frontend : Adapter → Bool → Registry → Ran Adapter
  register_frontend new replace r =
      if is_some (lookup new.name r.frontends) && (if replace then false else true)
      then (err (registry_failure adapter_unknown (some new.name)), r)
      else (ok new, with_frontends (insert new.name new r.frontends) r)

  -- The first exception of the closes, in order.
  abbrev pub first_error : List Adapter → Outcome (Unit {0})
  first_error [] = ok tt
  first_error (a ∷ adapters) = elim (closing a) [ none ↦ first_error adapters | some e ↦ err e ]

  abbrev pub values : Adapters → List Adapter
  values adapters = map (λ e. e.1) adapters

  unfoldable pub close : Registry → Ran (Unit {0})
  close r = (
    first_error (values r.sources ++ values r.engines),
    with_engines [] (with_sources [] (log (values r.sources ++ values r.engines) r)),
  )

  -- The registry after a call, whether it returned or raised.
  unfoldable pub after : Call → Registry → Registry
  unfolding register_source unregister_source register_engine register_engine_factory engine
      register_frontend register_frontend_factory frontend close
  after (call_register_source new replace) r = (register_source new replace r).1
  after (call_unregister_source name) r = (unregister_source name r).1
  after (call_register_engine new replace) r = (register_engine new replace r).1
  after (call_register_engine_factory name factory) r = (register_engine_factory name factory r).1
  after (call_engine name) r = (engine name r).1
  after (call_register_frontend new replace) r = (register_frontend new replace r).1
  after (call_register_frontend_factory name factory) r =
      (register_frontend_factory name factory r).1
  after (call_frontend name) r = (frontend name r).1
  after call_close r = (close r).1

  unfoldable pub after_all : List Call → Registry → Registry
  unfolding after
  after_all [] r = r
  after_all (c ∷ cs) r = after_all cs (after c r)
