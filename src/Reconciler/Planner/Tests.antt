-- ===== src/Reconciler/Planner/Tests.antt =====
-- The planner of reconciler.py at concrete settings and states.
use postgres_search_replica.Prelude.{
  String, string_eq, nat_eq, pair_eq, ◌≡◌, refl, ap, inl, inr, true, false, none, some, List, [],
  ◌∷◌, Elem,
}
use postgres_search_replica.Prelude.Dict.{Dict}
use postgres_search_replica.Prelude.Effects.{ok}
use postgres_search_replica.Config.{SearchPipeline, strategy_of}
use postgres_search_replica.Config.Json.{Json}
use postgres_search_replica.Config.Hash.{get_config_hash, get_version_id}
use postgres_search_replica.Config.Samples.{books, small_chunks, book_settings}
use postgres_search_replica.Reconciler.{
  sink_view_setup, sink_vectorizer_setup, Params, Action, Vectorizer, ReplicaState, SinkState,
  SourceState,
}
use postgres_search_replica.Reconciler.Planner.Names.{action, is_target}
use postgres_search_replica.Reconciler.Planner.Blocks.{
  read_config_hash, state_table_actions, outbox_actions, cache_actions, source_actions,
  publication_drift, table_actions, missing_columns, recovery_actions, needs_recovery,
  vectorizer_actions, vectorizer_exists, trigger_actions,
}
use postgres_search_replica.Reconciler.Planner.Plan.{
  plan, plan_pipelines, plan_pipeline, plan_known, view_actions, should_promote, is_synced,
  mirrors_caught_up, cleanup_actions, reachable_actions, managed_vectorizers, managed_branches,
}
use postgres_search_replica.Reconciler.Planner.Branches.{
  shadow_of, needs_branch_pub, branch_source_actions, branch_table_actions,
  branch_vectorizer_actions, branch_view_actions, expand_branch, expand_pipeline, expand_branches,
}
use postgres_search_replica.Reconciler.Planner.Promotion.{Promotes, plan-Promotes}
use postgres_search_replica.Reconciler.Planner.Cleanup.{IsOrphan, Cleans, cleanup_of, plan-Cleans}
use postgres_search_replica.Reconciler.Planner.Drift.{InPlace, plan-empty-InPlace}
use postgres_search_replica.Reconciler.Planner.Errors.{HasNoOldRow, plan-Returns}
use postgres_search_replica.Reconciler.Planner.Isolation.{IsShadow, expand-IsShadow}

abbrev digest : Json → String
digest j = "0123456789abcdef"

abbrev version : String
version = "01234567"

-- a source that replicates the books already
abbrev live_source : SourceState
live_source = record {
  is_reachable = true;
  publications = some (("pub_books", ("books", none) ∷ []) ∷ []);
  slots = some ("sub_books" ∷ []);
}

abbrev bare_source : SourceState
bare_source = record { is_reachable = true; publications = none; slots = none }

abbrev found : SourceState → Dict String SourceState
found state = ("default", state) ∷ []

-- a sink with nothing in it
abbrev blank : SinkState
blank = record {
  tables = [];
  views = [];
  view_targets = [];
  triggers = [];
  replica_states = [];
  vectorizers = [];
  vectorizer_statuses = [];
  outbox_watermarks = [];
  mirror_progress = [];
}

abbrev current_store : Vectorizer
current_store = record {
  id = 1;
  target_table = some "books_store_v01234567";
  view_name = none;
  name = "books";
}

abbrev old_store : Vectorizer
old_store = record {
  id = 2;
  target_table = some "books_store_vffffffff";
  view_name = none;
  name = "books_old";
}

-- a sink in which the index of the books is complete and live
abbrev settled : SinkState
settled = record {
  tables =
      ("_replica_state", "config_hash" ∷ "last_id" ∷ "last_lsn" ∷ [])
      ∷ ("_sink_outbox", [])
      ∷ ("_embedding_cache", [])
      ∷ ("books", "id" ∷ "title" ∷ [])
      ∷ [];
  views = "books_search" ∷ [];
  view_targets = ("books", some "books_store_v01234567") ∷ [];
  triggers = "trg_outbox_books_01234567" ∷ [];
  replica_states =
      (
        "books",
        record {
          last_id = some "7";
          last_lsn = none;
          config_hash = some (some "0123456789abcdef");
        },
      )
      ∷ [];
  vectorizers = ("books", current_store ∷ []) ∷ [];
  vectorizer_statuses = ("books_store_v01234567", 0) ∷ [];
  outbox_watermarks = (version, 7) ∷ [];
  mirror_progress = (("engine", "books"), 7) ∷ [];
}

-- the same, with the old index live and left over
abbrev superseded : SinkState
superseded = record settled {
  view_targets = ("books", some "books_store_vffffffff") ∷ [];
  vectorizers = ("books", current_store ∷ old_store ∷ []) ∷ [];
}

settled-plan : plan digest book_settings (found live_source) settled ≡ ok []
unfolding plan plan_pipelines plan_pipeline plan_known read_config_hash state_table_actions
    outbox_actions cache_actions source_actions publication_drift table_actions missing_columns
    recovery_actions needs_recovery vectorizer_actions vectorizer_exists trigger_actions
    view_actions should_promote is_synced mirrors_caught_up cleanup_actions reachable_actions
    managed_vectorizers managed_branches get_config_hash get_version_id strategy_of
settled-plan = refl

plan-empty-InPlace_example :
    InPlace book_settings settled
      (managed_vectorizers digest book_settings.pipelines)
      "books"
      books
      live_source
      (get_version_id digest books)
      (get_config_hash digest books)
plan-empty-InPlace_example =
    plan-empty-InPlace digest book_settings (found live_source) settled "books" books live_source
      (inl refl) refl settled-plan

-- the view moves on to the new index, and the old store is cleaned up after that only
abbrev swap : Action
swap = action sink_view_setup (Params.view "0123456789abcdef" "01234567" none) (some "books")

superseded-plan : plan digest book_settings (found live_source) superseded ≡ ok (swap ∷ [])
unfolding plan plan_pipelines plan_pipeline plan_known read_config_hash state_table_actions
    outbox_actions cache_actions source_actions publication_drift table_actions missing_columns
    recovery_actions needs_recovery vectorizer_actions vectorizer_exists trigger_actions
    view_actions should_promote is_synced mirrors_caught_up cleanup_actions reachable_actions
    managed_vectorizers managed_branches get_config_hash get_version_id strategy_of
superseded-plan = refl

plan-Promotes_example : Promotes digest book_settings superseded swap
plan-Promotes_example =
    plan-Promotes digest book_settings (found live_source) superseded (swap ∷ []) swap
      superseded-plan (inl refl) refl

-- the new index is live and the old one left over
abbrev littered : SinkState
littered = record settled { vectorizers = ("books", current_store ∷ old_store ∷ []) ∷ [] }

littered-plan :
    plan digest book_settings (found live_source) littered ≡ ok (cleanup_of "books" old_store ∷ [])
unfolding plan plan_pipelines plan_pipeline plan_known read_config_hash state_table_actions
    outbox_actions cache_actions source_actions publication_drift table_actions missing_columns
    recovery_actions needs_recovery vectorizer_actions vectorizer_exists trigger_actions
    view_actions should_promote is_synced mirrors_caught_up cleanup_actions reachable_actions
    managed_vectorizers managed_branches get_config_hash get_version_id strategy_of
littered-plan = refl

plan-Cleans_example : Cleans digest book_settings littered (cleanup_of "books" old_store)
plan-Cleans_example =
    plan-Cleans digest book_settings (found live_source) littered
      (cleanup_of "books" old_store ∷ []) (cleanup_of "books" old_store) littered-plan (inl refl)
      refl

apart : ¬ (false ≡ true)
apart h = cc

old_store-IsOrphan :
    IsOrphan littered (managed_vectorizers digest book_settings.pipelines) "books" "books" old_store
unfolding managed_vectorizers managed_branches get_config_hash get_version_id
old_store-IsOrphan = record {
  present = inr (inl refl);
  unmanaged = refl;
  offline = λ e. apart (ap (is_target "books_store_v01234567") e);
}

-- a state table from before the column `config_hash`
abbrev old_row : ReplicaState
old_row = record { last_id = some "7"; last_lsn = none; config_hash = none }

abbrev outdated : SinkState
outdated = record settled { replica_states = ("books", old_row) ∷ [] }

no_old_row :
    (name : String) (config : SearchPipeline)
    → Elem (name, config) book_settings.pipelines
    → HasNoOldRow blank name
no_old_row name config m = inl refl

plan-Returns_example :
    (actions : List Action) × (plan digest book_settings (found live_source) blank ≡ ok actions)
plan-Returns_example = plan-Returns digest book_settings (found live_source) blank no_old_row

-- the vectorizer of the branch
abbrev shadow_index : Action
shadow_index = record {
  type = sink_vectorizer_setup;
  params =
      Params.vectorizer "01234567" (some "books_branch_small_store_v01234567") (some "pub_books");
  target_name = some "books_branch_small";
  ephemeral_config = some (shadow_of books small_chunks);
}

abbrev shadow_view : Action
shadow_view = record {
  type = sink_view_setup;
  params = Params.view "0123456789abcdef" "01234567" (some "books_branch_small_store_v01234567");
  target_name = some "books_branch_small";
  ephemeral_config = some (shadow_of books small_chunks);
}

-- the source publishes the branch already
abbrev branch_source : SourceState
branch_source = record live_source {
  publications = some (("pub_books_branch_small", ("books", none) ∷ []) ∷ []);
}

expanded :
    expand_branches digest (found branch_source) settled book_settings.pipelines
    ≡ ok (shadow_index ∷ shadow_view ∷ [])
unfolding expand_branches expand_pipeline expand_branch needs_branch_pub branch_source_actions
    branch_table_actions branch_vectorizer_actions branch_view_actions vectorizer_exists
    get_config_hash get_version_id
expanded = refl

expand-IsShadow_example : IsShadow digest settled book_settings.pipelines shadow_index
expand-IsShadow_example =
    expand-IsShadow digest (found branch_source) settled book_settings.pipelines
      (shadow_index ∷ shadow_view ∷ []) shadow_index expanded (inl refl)
