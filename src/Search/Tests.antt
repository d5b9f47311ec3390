-- ===== src/Search/Tests.antt =====
-- Searches at concrete views, and the theorems about them there.
use postgres_search_replica.Prelude.{
  ℕ, ◌-◌, ◌≡◌, refl, String, string_eq, inl, inr, Option, none, some, List, [], ◌∷◌, map, arith,
  Elem,
}
use postgres_search_replica.Prelude.Effects.{Result, ok, ◌>>=◌}
use postgres_search_replica.Config.{Profile, MirrorConfig, qdrant, SearchPipeline}
use postgres_search_replica.Config.Samples.{books, settings_with}
use postgres_search_replica.Mirror.Qdrant.{collection_name}
use postgres_search_replica.Search.Postgres.{
  ViewRow, ranked, order_by, insert_by, rrf_score, row_number, count_if,
}
use postgres_search_replica.Search.Ranking.{hybrid-Precedes, vector-nearest}
use postgres_search_replica.Search.Qdrant.{
  SearchEngine, find_mirror, search_qdrant, found_of, search_qdrant-version,
}
use postgres_search_replica.Search.Client
use postgres_search_replica.Search.Client.{search-runs, strategy_of}

abbrev row : ℕ → String → ℕ → ℕ → ViewRow
row index id distance text_place = record {
  index = index;
  id = id;
  chunk = some id;
  distance = distance;
  text_place = text_place;
}

abbrev view : List ViewRow
view = row 0 "a" 9 3 ∷ row 1 "b" 2 1 ∷ row 2 "c" 5 2 ∷ []

-- a quotient that falls strictly, for small divisors
abbrev falling : ℕ → ℕ
falling n = 1000 - n

best : map (λ (r : ViewRow). r.id) (ranked falling Profile.hybrid 2 view) ≡ "b" ∷ "c" ∷ []
unfolding ranked order_by insert_by rrf_score row_number count_if
best = refl

hybrid-Precedes_example : Elem (row 1 "b" 2 1) (ranked falling Profile.hybrid 2 view)
unfolding ranked order_by insert_by rrf_score row_number count_if
hybrid-Precedes_example =
    hybrid-Precedes falling view 2 (row 1 "b" 2 1) (row 2 "c" 5 2) (λ a b h k. omega (arith, h, k))
      (inr (inl refl)) (refl, refl) (inr (inl refl))

vector-nearest_example : Elem (row 1 "b" 2 1) (ranked falling Profile.vector 2 view)
unfolding ranked order_by insert_by
vector-nearest_example =
    vector-nearest falling view 2 (row 1 "b" 2 1) (row 2 "c" 5 2) (inr (inl refl)) (omega arith)
      (inr (inl refl))

abbrev engine_at : Option String → SearchEngine ℕ ℕ ℕ
engine_at url = record {
  get_collections = ok ("books_01234567" ∷ []);
  query_points =
      λ name v limit. ok (record { id = 1; score = 3; chunk = none; content = some name } ∷ []);
}

abbrev engine : MirrorConfig
engine = record { id = "engine"; type = qdrant; config = [] }

search_qdrant-version_example :
    search_qdrant engine_at (settings_with engine) books "01234567" 0 5 ≡ (
      (engine_at none).query_points (collection_name "" "books" "01234567") 0 5 >>= λ hits.
      ok (map (found_of engine_at) hits))
unfolding find_mirror
search_qdrant-version_example =
    search_qdrant-version engine_at (settings_with engine) books "01234567" 0 5 engine
      ("books_01234567" ∷ []) refl refl refl

abbrev embed : String → Result ℕ
embed model = ok 7

abbrev run : Client.Strategy → String → SearchPipeline → ℕ → Result String
run strategy target config v = ok target

search-runs_example :
    Client.search embed run (some "books") none (("films", books) ∷ ("books", books) ∷ [])
    ≡ ok "books"
unfolding strategy_of
search-runs_example =
    search-runs embed run "books" none (("films", books) ∷ ("books", books) ∷ []) books 7
      Client.Strategy.postgres (λ h. cc) refl refl refl
