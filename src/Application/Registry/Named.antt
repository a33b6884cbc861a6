-- ===== src/Application/Registry/Named.antt =====
-- The names of the sources, src/invariantql/application/registry.py.
use invariantql.Prelude.{
  Bool, Bool-cases, List, Option, String, [], eqb, false, if◌then◌else◌, inl, inr, is_some, lookup,
  none, refl, some, true, ◌&&◌, ◌==◌, ◌∷◌, ◌≡◌,
}
use invariantql.Application.Registry.{
  Adapter, Call, Ran, Registry, after, after_all, after_close, build, call_close, call_engine,
  call_frontend, call_register_engine, call_register_engine_factory, call_register_frontend,
  call_register_frontend_factory, call_register_source, call_unregister_source, close,
  empty_registry, engine, frontend, insert, log, register_engine, register_engine_factory,
  register_frontend, register_frontend_factory, register_source, registry_failure, replace_adapter,
  source, unregister_found, unregister_source, with_engines, with_sources,
}
use invariantql.Application.Registry.Names.{
  AreNamed, insert-AreNamed, lookup-insert, remove-AreNamed,
}
use invariantql.Domain.Diagnostics.{
  DiagnosticCode, Outcome, Raised, adapter_unknown, engine_unknown, source_not_registered,
}
use invariantql.Prelude.Results.{err, ok}

module _ (closing : Adapter → Option Raised) where
  closed_named :
      (raised : Option Raised) (p new : Adapter) (r : Registry)
      → (new.name == "") ≡ false
      → AreNamed r.sources
      → AreNamed
          (after_close raised new
            (with_sources (insert new.name new r.sources) (log (p ∷ []) r))
            (log (p ∷ []) r)).1.sources
  closed_named none p new r h g = insert-AreNamed new r.sources h g
  closed_named (some e) p new r h g = g

  engine_closed :
      (raised : Option Raised) (p new : Adapter) (r : Registry)
      → AreNamed r.sources
      → AreNamed
          (after_close raised new
            (with_engines (insert new.name new r.engines) (log (p ∷ []) r))
            (log (p ∷ []) r)).1.sources
  engine_closed none p new r h = h
  engine_closed (some e) p new r h = h

  replaced_named :
      (previous : Option Adapter) (new : Adapter) (r : Registry)
      → (new.name == "") ≡ false
      → AreNamed r.sources
      → AreNamed
          (replace_adapter closing previous new
            (λ s. with_sources (insert new.name new s.sources) s)
            r).1.sources
  replaced_named none new r h g = insert-AreNamed new r.sources h g
  replaced_named (some p) new r h g = elim (Bool-cases (eqb p.identity new.identity)) [
    | inl same ↦ rw same (insert-AreNamed new r.sources h g)
    | inr other ↦ rw other (closed_named (closing p) p new r h g)
  ]

  found_named :
      (name : String) (found : Option Adapter) (r : Registry)
      → AreNamed r.sources
      → AreNamed (unregister_found closing name found r).1.sources
  found_named name none r h = h
  found_named name (some found) r h = remove-AreNamed name r.sources h

  built_named :
      (name : String) (found : Option Adapter) (factory : Option (Outcome Adapter))
      (keep : Adapter → Registry → Registry) (c : DiagnosticCode) (r : Registry)
      → ((made : Adapter) → AreNamed (keep made r).sources)
      → AreNamed r.sources
      → AreNamed (build keep c name found factory r).1.sources
  built_named name (some found) factory keep c r k h = h
  built_named name none none keep c r k h = h
  built_named name none (some (err e)) keep c r k h = h
  built_named name none (some (ok made)) keep c r k h = k made

  engine_replaced :
      (previous : Option Adapter) (new : Adapter) (r : Registry)
      → AreNamed r.sources
      → AreNamed
          (replace_adapter closing previous new
            (λ s. with_engines (insert new.name new s.engines) s)
            r).1.sources
  engine_replaced none new r h = h
  engine_replaced (some p) new r h = elim (Bool-cases (eqb p.identity new.identity)) [
    | inl same ↦ rw same h
    | inr other ↦ rw other (engine_closed (closing p) p new r h)
  ]

  either :
      {A : Type 0} (b : Bool) (x y : Ran A)
      → (b ≡ true → AreNamed x.1.sources)
      → (b ≡ false → AreNamed y.1.sources)
      → AreNamed (if b then x else y).1.sources
  either true x y h g = h refl
  either false x y h g = g refl

  after-AreNamed :
      (c : Call) (r : Registry) → AreNamed r.sources → AreNamed (after closing c r).sources
  unfolding after register_source unregister_source register_engine register_engine_factory engine
      register_frontend register_frontend_factory frontend close
  after-AreNamed (call_register_source new replace) r h =
      either (new.name == "") _ _ (λ _. h)
        (λ given.
          either (is_some (lookup new.name r.sources) && (if replace then false else true)) _ _
            (λ _. h) (λ _. replaced_named (lookup new.name r.sources) new r given h))
  after-AreNamed (call_unregister_source name) r h = found_named name (lookup name r.sources) r h
  after-AreNamed (call_register_engine new replace) r h =
      either (is_some (lookup new.name r.engines) && (if replace then false else true)) _ _ (λ _. h)
        (λ _. engine_replaced (lookup new.name r.engines) new r h)
  after-AreNamed (call_register_engine_factory name factory) r h = h
  after-AreNamed (call_engine name) r h =
      built_named name (lookup name r.engines) (lookup name r.engine_factories) _ engine_unknown r
        (λ made. h) h
  after-AreNamed (call_register_frontend new replace) r h =
      either (is_some (lookup new.name r.frontends) && (if replace then false else true)) _ _
        (λ _. h) (λ _. h)
  after-AreNamed (call_register_frontend_factory name factory) r h = h
  after-AreNamed (call_frontend name) r h =
      built_named name (lookup name r.frontends) (lookup name r.frontend_factories) _
        adapter_unknown r (λ made. h) h
  after-AreNamed call_close r h = tt

  after_all-named :
      (calls : List Call) (r : Registry)
      → AreNamed r.sources
      → AreNamed (after_all closing calls r).sources
  unfolding after_all
  after_all-named [] r h = h
  after_all-named (c ∷ cs) r h = after_all-named cs (after closing c r) (after-AreNamed c r h)

  -- After every sequence of calls on a new registry, each source stands once in it, under its own
  -- name, which is not empty.
  pub after_all-AreNamed :
      (calls : List Call) → AreNamed (after_all closing calls empty_registry).sources
  after_all-AreNamed calls = after_all-named calls empty_registry tt

  -- The lookups after a registration that returned.
  abbrev Given : Adapter → String → Registry → Ran Adapter → Type 0
  Given new m r x = x.0 ≡ ok new → source m x.1 ≡ (if new.name == m then ok new else source m r)

  new_either :
      (new : Adapter) (m : String) (r : Registry) (b : Bool) (x y : Ran Adapter)
      → Given new m r x
      → Given new m r y
      → Given new m r (if b then x else y)
  new_either new m r true x y h g = h
  new_either new m r false x y h g = g

  source_of :
      (c : Bool) (m : String) (new : Adapter) (o : Option Adapter)
      → (elim (if c then some new else o) [
        | none ↦ err (registry_failure source_not_registered (some m))
        | some found ↦ ok found
      ])
        ≡ (if c then ok new else elim o [
          | none ↦ err (registry_failure source_not_registered (some m))
          | some found ↦ ok found
        ])
  source_of true m new o = refl
  source_of false m new o = refl

  inserted-source :
      (new : Adapter) (r : Registry) (m : String)
      → source m (with_sources (insert new.name new r.sources) r)
        ≡ (if new.name == m then ok new else source m r)
  unfolding source
  inserted-source new r m =
      rw (source, lookup-insert new.name new m r.sources)
        (source_of (new.name == m) m new (lookup m r.sources))

  new_closed :
      (raised : Option Raised) (p new : Adapter) (r : Registry) (m : String)
      → Given new m r (
          after_close raised new
            (with_sources (insert new.name new r.sources) (log (p ∷ []) r))
            (log (p ∷ []) r))
  new_closed none p new r m h = unfold source in inserted-source new r m
  new_closed (some e) p new r m h = cc

  new_replaced :
      (previous : Option Adapter) (new : Adapter) (r : Registry) (m : String)
      → Given new m r (
          replace_adapter closing previous new
            (λ s. with_sources (insert new.name new s.sources) s)
            r)
  new_replaced none new r m = λ h. inserted-source new r m
  new_replaced (some p) new r m =
      new_either new m r (eqb p.identity new.identity) _ _ (λ h. inserted-source new r m)
        (new_closed (closing p) p new r m)

  -- When `register_source` returns, `source` gives the new adapter under its name and what it gave
  -- before under every other name.
  pub register_source-source :
      (new : Adapter) (replace : Bool) (r : Registry) (m : String)
      → (register_source closing new replace r).0 ≡ ok new
      → source m (register_source closing new replace r).1
        ≡ (if new.name == m then ok new else source m r)
  unfolding register_source
  register_source-source new replace r m =
      new_either new m r (new.name == "") _ _ (λ h. cc)
        (new_either new m r
          (is_some (lookup new.name r.sources) && (if replace then false else true)) _ _ (λ h. cc)
          (new_replaced (lookup new.name r.sources) new r m))
