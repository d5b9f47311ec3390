-- ===== src/SinkSetup/Databases.antt =====
-- What `setup_sink` of src/pg_replica/database.py changes: the sink, its subscriptions, and the replication
-- slots of the sources that have an adapter.
use postgres_search_replica.Prelude.{
  String, string_eq, Bool, Option, none, some, or_else, List, [], ◌∷◌, ◌++◌,
}
use postgres_search_replica.Prelude.Dict.{Dict, lookup, insert}
use postgres_search_replica.Prelude.Effects.{Result, ok, err, Exn}
use postgres_search_replica.Inspector.{SinkCatalog}

pub record Subscription : Type 0 where
  pub connection : String
  pub publication : String
  pub options : Dict String String
  pub enabled : Bool
  pub refreshed : Bool

pub record Databases : Type 0 where
  pub sink : SinkCatalog
  pub subscriptions : Dict String Subscription
  pub sources : Dict String (List String)

abbrev pub slots_of : String → Databases → List String
slots_of source dbs = or_else (lookup source dbs.sources) []

abbrev pub add_slot : String → String → Databases → Databases
add_slot source slot dbs = record dbs {
  sources = insert source (slots_of source dbs ++ slot ∷ []) dbs.sources;
}

-- the databases, and whether the code has returned or raised; none where a loop has run out of fuel
abbrev pub Outcome : Type 0
Outcome = Databases × Option (Result (Unit {0}))

abbrev pub returned : Databases → Outcome
returned dbs = (dbs, some (ok tt))

abbrev pub raise : Exn → Databases → Outcome
raise x dbs = (dbs, some (err x))

abbrev pub next : Outcome → (Databases → Outcome) → Outcome
next (dbs, none) rest = (dbs, none)
next (dbs, some (err x)) rest = (dbs, some (err x))
next (dbs, some (ok _)) rest = rest dbs
