-- ===== src/Application/Registry/Tracked.antt =====
-- Sources and engines against the log of the closes, src/invariantql/application/registry.py.
use invariantql.Prelude.{
  Bool, Bool-cases, List, Option, String, [], ap, ap₂, eqb, false, if◌then◌else◌, inl, inr, is_some,
  lookup, map, map-append, none, or_right, refl, some, subst, true, ℕ, ◌&&◌, ◌++◌, ◌==◌, ◌||◌, ◌∙◌,
  ◌∷◌, ◌≡◌,
}
use invariantql.Application.Registry.{
  Adapter, Call, Ran, Registry, after, after_all, after_close, build, call_close, call_engine,
  call_frontend, call_register_engine, call_register_engine_factory, call_register_frontend,
  call_register_frontend_factory, call_register_source, call_unregister_source, close, engine,
  frontend, insert, log, register_engine, register_engine_factory, register_frontend,
  register_frontend_factory, register_source, remove, replace_adapter, unregister_found,
  unregister_source, values, with_engines, with_frontends, with_sources,
}
use invariantql.Application.Registry.Holds.{
  Sets, engines_keep, holds, holds-insert, holds-inserted, holds-remove, is_it, is_tracked,
  is_tracked-log, logged, logged-append, logged-values, or_assoc, or_end, or_left, or_more,
  or_nothing, removed_keep, same_kept, sources_keep,
}
use invariantql.Domain.Diagnostics.{
  DiagnosticCode, Outcome, Raised, adapter_unknown, engine_unknown,
}
use invariantql.Prelude.Results.{err, ok}

module _ (closing : Adapter → Option Raised) where
  closed_kept :
      (i : ℕ) (name : String) (set : Registry → Registry) (p new : Adapter) (r : Registry)
      (raised : Option Raised)
      → Sets name set (some p) new r
      → is_tracked i r ≡ true
      → is_tracked i (after_close raised new (set (log (p ∷ []) r)) (log (p ∷ []) r)).1 ≡ true
  closed_kept i name set p new r none s h =
      s.set_log i (p ∷ []) ∙ or_more (is_tracked i (set r)) (eqb p.identity i) (s.keeps i h)
  closed_kept i name set p new r (some e) s h =
      is_tracked-log i (p ∷ []) r ∙ or_left (is_tracked i r) (eqb p.identity i || false) h

  replace-is_tracked :
      (i : ℕ) (name : String) (set : Registry → Registry) (previous : Option Adapter)
      (new : Adapter) (r : Registry)
      → Sets name set previous new r
      → is_tracked i r ≡ true
      → is_tracked i (replace_adapter closing previous new set r).1 ≡ true
  replace-is_tracked i name set none new r s h = or_nothing (is_tracked i (set r)) (s.keeps i h)
  replace-is_tracked i name set (some p) new r s h =
      elim (Bool-cases (eqb p.identity new.identity)) [
        | inl same ↦ rw same (same_kept i p new (set r) same (s.keeps i h) s.has_new)
        | inr other ↦ rw other (closed_kept i name set p new r (closing p) s h)
      ]

  sources-Sets :
      (new : Adapter) (r : Registry)
      → Sets new.name
          (λ s. with_sources (insert new.name new s.sources) s)
          (lookup new.name r.sources)
          new
          r
  sources-Sets new r = record {
    keeps = λ i h.
        sources_keep (holds i r.sources) (holds i r.engines) (logged i r.closed)
          (holds i (insert new.name new r.sources)) (is_it i (lookup new.name r.sources)) h
          (holds-insert i new.name new r.sources);
    has_new = or_left _ _ (or_left _ _ (holds-inserted new.name new r.sources));
    set_log = λ i adapters.
        ap (λ b. (holds i (insert new.name new r.sources) || holds i r.engines) || b)
          (logged-append i r.closed (map (λ a. a.identity) adapters))
        ∙ or_assoc (holds i (insert new.name new r.sources)) (holds i r.engines) (logged i r.closed)
            (logged i (map (λ a. a.identity) adapters));
  }

  engines-Sets :
      (new : Adapter) (name : String) (r : Registry)
      → Sets name (λ s. with_engines (insert name new s.engines) s) (lookup name r.engines) new r
  engines-Sets new name r = record {
    keeps = λ i h.
        engines_keep (holds i r.sources) (holds i r.engines) (logged i r.closed)
          (holds i (insert name new r.engines)) (is_it i (lookup name r.engines)) h
          (holds-insert i name new r.engines);
    has_new =
        or_left _ _ (or_right (holds new.identity r.sources) _ (holds-inserted name new r.engines));
    set_log = λ i adapters.
        ap (λ b. (holds i r.sources || holds i (insert name new r.engines)) || b)
          (logged-append i r.closed (map (λ a. a.identity) adapters))
        ∙ or_assoc (holds i r.sources) (holds i (insert name new r.engines)) (logged i r.closed)
            (logged i (map (λ a. a.identity) adapters));
  }

  guarded :
      {A : Type 0} (i : ℕ) (b : Bool) (x y : Ran A)
      → is_tracked i x.1 ≡ true
      → is_tracked i y.1 ≡ true
      → is_tracked i (if b then x else y).1 ≡ true
  guarded i true x y h g = h
  guarded i false x y h g = g

  found_kept :
      (i : ℕ) (name : String) (found : Option Adapter) (r : Registry)
      → lookup name r.sources ≡ found
      → is_tracked i r ≡ true
      → is_tracked i (unregister_found closing name found r).1 ≡ true
  found_kept i name none r e h = h
  found_kept i name (some found) r e h =
      ap (λ b. (holds i (remove name r.sources) || holds i r.engines) || b)
        (logged-append i r.closed (found.identity ∷ []))
      ∙ removed_keep (holds i r.sources) (holds i r.engines) (logged i r.closed)
          (holds i (remove name r.sources)) (eqb found.identity i) h
          (λ held.
            subst (λ o. (holds i (remove name r.sources) || is_it i o) ≡ true) e
              (holds-remove i name r.sources held))

  built_kept :
      (i : ℕ) (name : String) (found : Option Adapter) (factory : Option (Outcome Adapter))
      (keep : Adapter → Registry → Registry) (c : DiagnosticCode) (r : Registry)
      → (found ≡ none → (made : Adapter) → is_tracked i (keep made r) ≡ true)
      → is_tracked i r ≡ true
      → is_tracked i (build keep c name found factory r).1 ≡ true
  built_kept i name (some found) factory keep c r k h = h
  built_kept i name none none keep c r k h = h
  built_kept i name none (some (err e)) keep c r k h = h
  built_kept i name none (some (ok made)) keep c r k h = k refl made

  unregister-is_tracked :
      (i : ℕ) (name : String) (r : Registry)
      → is_tracked i r ≡ true
      → is_tracked i (unregister_source closing name r).1 ≡ true
  unfolding unregister_source
  unregister-is_tracked i name r h = found_kept i name (lookup name r.sources) r refl h

  engine-is_tracked :
      (i : ℕ) (name : String) (r : Registry)
      → is_tracked i r ≡ true
      → is_tracked i (engine name r).1 ≡ true
  unfolding engine
  engine-is_tracked i name r h =
      built_kept i name (lookup name r.engines) (lookup name r.engine_factories)
        (λ made s. with_engines (insert name made s.engines) s) engine_unknown r
        (λ missing made. or_nothing (is_tracked i (with_engines (insert name made r.engines) r)) (
          subst
            (λ o. (is_tracked i (with_engines (insert name made r.engines) r) || is_it i o) ≡ true)
            missing ((engines-Sets made name r).keeps i h)))
        h

  close-is_tracked :
      (i : ℕ) (r : Registry) → is_tracked i r ≡ true → is_tracked i (close closing r).1 ≡ true
  unfolding close
  close-is_tracked i r h =
      logged-append i r.closed
        (map (λ a. a.identity) (values closing r.sources ++ values closing r.engines))
      ∙ ap (λ b. logged i r.closed || b)
          (ap (logged i)
              (map-append (λ a. a.identity) (values closing r.sources) (values closing r.engines))
            ∙ logged-append i (map (λ a. a.identity) (values closing r.sources))
                (map (λ a. a.identity) (values closing r.engines))
            ∙ ap₂ (λ a b. a || b) (logged-values i r.sources) (logged-values i r.engines))
      ∙ or_end (holds i r.sources) (holds i r.engines) (logged i r.closed) h

  after-is_tracked :
      (i : ℕ) (c : Call) (r : Registry)
      → is_tracked i r ≡ true
      → is_tracked i (after closing c r) ≡ true
  unfolding after register_source register_engine register_engine_factory register_frontend
      register_frontend_factory frontend
  after-is_tracked i (call_register_source new replace) r h = guarded i (new.name == "") _ _ h (
      guarded i (is_some (lookup new.name r.sources) && (if replace then false else true)) _ _ h (
        replace-is_tracked i new.name (λ s. with_sources (insert new.name new s.sources) s)
          (lookup new.name r.sources) new r (sources-Sets new r) h))
  after-is_tracked i (call_unregister_source name) r h = unregister-is_tracked i name r h
  after-is_tracked i (call_register_engine new replace) r h =
      guarded i (is_some (lookup new.name r.engines) && (if replace then false else true)) _ _ h (
        replace-is_tracked i new.name (λ s. with_engines (insert new.name new s.engines) s)
          (lookup new.name r.engines) new r (engines-Sets new new.name r) h)
  after-is_tracked i (call_register_engine_factory name factory) r h = h
  after-is_tracked i (call_engine name) r h = engine-is_tracked i name r h
  after-is_tracked i (call_register_frontend new replace) r h =
      guarded i (is_some (lookup new.name r.frontends) && (if replace then false else true)) _ _ h h
  after-is_tracked i (call_register_frontend_factory name factory) r h = h
  after-is_tracked i (call_frontend name) r h =
      built_kept i name (lookup name r.frontends) (lookup name r.frontend_factories)
        (λ made s. with_frontends (insert name made s.frontends) s) adapter_unknown r
        (λ missing made. h) h
  after-is_tracked i call_close r h = close-is_tracked i r h

  -- No call takes a source or an engine out of the registry without `close` having been called on it,
  -- also where a close raises: what is tracked before a sequence of calls is tracked after it.
  pub after_all-is_tracked :
      (i : ℕ) (calls : List Call) (r : Registry)
      → is_tracked i r ≡ true
      → is_tracked i (after_all closing calls r) ≡ true
  unfolding after_all
  after_all-is_tracked i [] r h = h
  after_all-is_tracked i (c ∷ cs) r h =
      after_all-is_tracked i cs (after closing c r) (after-is_tracked i c r h)
