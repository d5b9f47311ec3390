-- ===== src/Source/Registry.antt =====
-- The registry of source adapters, src/pg_replica/source/__init__.py. `connect` tells what connecting a new
-- adapter raises, if anything.
use postgres_search_replica.Prelude.{
  String, string_eq, ◌==◌, ◌≡◌, refl, ap, ◌∙◌, ◌⊎◌, inl, inr, Bool, true, false, Option, none, some,
  [], ◌∷◌, Elem, is_some, or_else, concat, arith, Bool-cases, Option-cases, if◌then◌else◌,
}
use postgres_search_replica.Prelude.Dict.{Dict, insert, contains, lookup-insert, lookup-insert_self}
use postgres_search_replica.Prelude.Effects.{Result, ok, err, Exn, value_error}
use postgres_search_replica.Config.{SourceConfig, postgres, local, s3, cdc, polling}

pub data AdapterClass : Type 0 where
  cdc_adapter polling_adapter local_adapter s3_adapter : AdapterClass

abbrev pub type_of : SourceConfig → String
type_of (postgres strategy url) = "postgres"
type_of (local path uri_prefix) = "local"
type_of (s3 bucket s3_prefix region endpoint_url) = "s3"

abbrev pub strategy_text : SourceConfig → Option String
strategy_text (postgres cdc url) = some "cdc"
strategy_text (postgres polling url) = some "polling"
strategy_text (local path uri_prefix) = none
strategy_text (s3 bucket s3_prefix region endpoint_url) = none

abbrev pub is_strategy : String → Option String → Bool
is_strategy s none = false
is_strategy s (some t) = t == s

unfoldable pub get_adapter_class : String → Option String → Result AdapterClass
get_adapter_class type_name strategy =
    let unknown = err (
      value_error (
        concat
          ("Unknown source type/strategy: " ∷ type_name ∷ "/" ∷ or_else strategy "None" ∷ []))) in
    if type_name == "postgres"
    then if is_strategy "cdc" strategy
      then ok cdc_adapter
      else if is_strategy "polling" strategy
      then ok polling_adapter
      else unknown
    else if type_name == "local"
    then ok local_adapter
    else if type_name == "s3"
    then ok s3_adapter
    else unknown

-- every source that the settings can have has a class
class_of :
    (config : SourceConfig)
    → (c : AdapterClass) × (get_adapter_class (type_of config) (strategy_text config) ≡ ok c)
unfolding get_adapter_class
class_of (postgres cdc url) = (cdc_adapter, refl)
class_of (postgres polling url) = (polling_adapter, refl)
class_of (local path uri_prefix) = (local_adapter, refl)
class_of (s3 bucket s3_prefix region endpoint_url) = (s3_adapter, refl)

abbrev pub Registered : Type 0
Registered = Dict String AdapterClass × Result (Unit {0})

-- what was raised, with the adapters so far, or the rest of the loop
abbrev pub register :
    Dict String AdapterClass → Result AdapterClass → (AdapterClass → Registered) → Registered
register adapters (err x) rest = (adapters, err x)
register adapters (ok c) rest = rest c

register-keeps :
    (adapters : Dict String AdapterClass) (r : Result AdapterClass)
    (rest : AdapterClass → Registered) (name : String)
    → contains name adapters ≡ true
    → ((c : AdapterClass) → contains name (rest c).0 ≡ true)
    → contains name (register adapters r rest).0 ≡ true
register-keeps adapters (err x) rest name h k = h
register-keeps adapters (ok c) rest name h k = k c

module _ (connect : String → SourceConfig → Option Exn) where
  -- the adapter of one source, connected
  unfoldable pub init_adapter : String → SourceConfig → Result AdapterClass
  init_adapter name config = elim (get_adapter_class (type_of config) (strategy_text config)) [
    | err x ↦ err x
    | ok c ↦ elim (connect name config) [ none ↦ ok c | some x ↦ err x ]
  ]

  -- the registry, and what the loop raises; the adapters before that stay
  unfoldable pub init_source_adapters :
      Dict String SourceConfig → Dict String AdapterClass → Registered
  init_source_adapters [] adapters = (adapters, ok tt)
  init_source_adapters ((name, config) ∷ rest) adapters =
      let known = init_source_adapters rest adapters in
      if contains name adapters
      then known
      else register adapters (init_adapter name config)
          (λ c. init_source_adapters rest (insert name c adapters))

  contains-insert :
      (name other : String) (c : AdapterClass) (adapters : Dict String AdapterClass)
      → contains name adapters ≡ true
      → contains name (insert other c adapters) ≡ true
  contains-insert name other c adapters h = ground (arith, h, lookup-insert other name c adapters)

  -- an adapter that is there stays
  init-keeps :
      (sources : Dict String SourceConfig) (adapters : Dict String AdapterClass) (name : String)
      → contains name adapters ≡ true
      → contains name (init_source_adapters sources adapters).0 ≡ true
  unfolding init_source_adapters
  init-keeps [] adapters name h = h
  init-keeps ((other, config) ∷ rest) adapters name h =
      elim (Bool-cases (contains other adapters)) [
        | inl t ↦ rw t (init-keeps rest adapters name h)
        | inr f ↦ rw f (
            register-keeps adapters (init_adapter other config) _ name h (λ c.
              init-keeps rest (insert other c adapters) name
                (contains-insert name other c adapters h)))
      ]

  -- what connecting raises is what the adapter raises, and nothing else is
  adapter-raised :
      (name : String) (config : SourceConfig)
      → ((x : Exn) × (connect name config ≡ some x) × (init_adapter name config ≡ err x))
        ⊎ ((c : AdapterClass) × (init_adapter name config ≡ ok c))
  unfolding init_adapter
  adapter-raised name config =
      let (c, e) = class_of config in
      elim (Option-cases (connect name config)) [
        | inl n ↦ inr (c, rw (init_adapter, e, n) refl)
        | inr (x, s) ↦ inl (x, s, rw (init_adapter, e, s) refl)
      ]

  -- every source has an adapter, or connecting to one has raised
  abbrev pub IsInitialised : Dict String SourceConfig → Registered → Type 0
  IsInitialised sources r =
      ((r.1 ≡ ok tt)
        × ((name : String) (config : SourceConfig)
            → Elem (name, config) sources
            → contains name r.0 ≡ true))
      ⊎ ((name : String) × (config : SourceConfig) × (x : Exn) × Elem (name, config) sources
          × (connect name config ≡ some x)
          × (r.1 ≡ err x))

  -- one more source, that has its adapter
  IsInitialised-cons :
      (name : String) (config : SourceConfig) (rest : Dict String SourceConfig) (r : Registered)
      → contains name r.0 ≡ true
      → IsInitialised rest r
      → IsInitialised ((name, config) ∷ rest) r
  IsInitialised-cons name config rest r h (inl (fine, all)) = inl (fine, covered)
    where
      covered :
          (other : String) (c : SourceConfig)
          → Elem (other, c) ((name, config) ∷ rest)
          → contains other r.0 ≡ true
      covered other c (inl e) = ap (λ (p : String × SourceConfig). contains p.0 r.0) e ∙ h
      covered other c (inr m) = all other c m
  IsInitialised-cons name config rest r h (inr (other, c, x, m, s, e)) =
      inr (other, c, x, inr m, s, e)

  -- Initialising the registry either gives every source of the settings an adapter, or raises what
  -- connecting to some source of the settings raises; no source lacks a class.
  pub init-IsInitialised :
      (sources : Dict String SourceConfig) (adapters : Dict String AdapterClass)
      → IsInitialised sources (init_source_adapters sources adapters)
  unfolding init_source_adapters
  init-IsInitialised [] adapters = inl (refl, λ name config m. elim m [ ])
  init-IsInitialised ((other, config) ∷ rest) adapters =
      let more : (now : Dict String AdapterClass)
          → contains other now ≡ true
          → IsInitialised ((other, config) ∷ rest) (init_source_adapters rest now) =
        λ now h.
          IsInitialised-cons other config rest (init_source_adapters rest now)
            (init-keeps rest now other h) (init-IsInitialised rest now) in
      elim (Bool-cases (contains other adapters)) [
        | inl t ↦ rw t (more adapters t)
        | inr f ↦ elim (adapter-raised other config) [
          | inl (x, s, e) ↦ rw (f, e) (inr (other, config, x, inl refl, s, refl))
          | inr (c, e) ↦
              rw (f, e)
                (more (insert other c adapters) (ap is_some (lookup-insert_self other c adapters)))
        ]
      ]
