-- ===== src/Search/Postgres.antt =====
-- `PostgresSearchStrategy` of src/pg_replica/strategies.py. The rows of the search view come with the
-- distance of their vector to the query and the place of their text in the order of ts_rank, as
-- numbers of some unit; rows that tie keep the order of the table. `reciprocal n` stands for the
-- quotient 1.0 / n of Postgres, in units of its last place.
use postgres_search_replica.Prelude.{
  ℕ, suc, ◌+◌, String, Bool, ◌&&◌, ◌||◌, Option, List, [], ◌∷◌, map, take, ltb, nat_eq, ◌==◌,
  if◌then◌else◌,
}
use postgres_search_replica.Config.{Profile, SearchPipeline}

-- `index` is the place of the row in the table; a smaller `text_place` is a better ts_rank.
pub record ViewRow : Type 0 where
  pub index : ℕ
  pub id : String
  pub chunk : Option String
  pub distance : ℕ
  pub text_place : ℕ

pub data Measure : Type 0 where
  score distance : ℕ → Measure

-- an item of the answer
pub record Found : Type 0 where
  pub id : String
  pub content : Option String
  pub measure : Measure

-- `row_number() OVER (ORDER BY key)` counts the rows that come before.
abbrev pub comes_before : (ViewRow → ℕ) → ViewRow → ViewRow → Bool
comes_before key y x = ltb (key y) (key x) || (key y == key x && ltb y.index x.index)

unfoldable pub count_if : (ViewRow → Bool) → List ViewRow → ℕ
count_if p [] = 0
count_if p (x ∷ xs) = let rest = count_if p xs in if p x then suc rest else rest

unfoldable pub row_number : (ViewRow → ℕ) → List ViewRow → ViewRow → ℕ
row_number key rows x = suc (count_if (λ y. comes_before key y x) rows)

-- ORDER BY measure, as `first a b` tells that a is listed before b
unfoldable pub insert_by : (ViewRow → ViewRow → Bool) → ViewRow → List ViewRow → List ViewRow
insert_by first x [] = x ∷ []
insert_by first x (y ∷ ys) =
    let rest = insert_by first x ys in if first y x then y ∷ rest else x ∷ y ∷ ys

unfoldable pub order_by : (ViewRow → ViewRow → Bool) → List ViewRow → List ViewRow
order_by first [] = []
order_by first (x ∷ xs) = insert_by first x (order_by first xs)

module _ (reciprocal : ℕ → ℕ) where
  -- (1.0 / (60 + vector_rank) + 1.0 / (60 + text_rank))
  unfoldable pub rrf_score : List ViewRow → ViewRow → ℕ
  rrf_score rows x =
      reciprocal (60 + row_number (λ r. r.distance) rows x)
      + reciprocal (60 + row_number (λ r. r.text_place) rows x)

  abbrev pub by_score : List ViewRow → ViewRow → ViewRow → Bool
  by_score rows a b = ltb (rrf_score rows b) (rrf_score rows a)

  abbrev pub by_distance : ViewRow → ViewRow → Bool
  by_distance a b = ltb a.distance b.distance

  -- the rows that the query of the profile returns
  unfoldable pub ranked : Profile → ℕ → List ViewRow → List ViewRow
  ranked Profile.hybrid limit rows = take limit (order_by (by_score rows) rows)
  ranked Profile.vector limit rows = take limit (order_by by_distance rows)

  abbrev pub item_of : Profile → List ViewRow → ViewRow → Found
  item_of Profile.hybrid rows r = record {
    id = r.id;
    content = r.chunk;
    measure = score (rrf_score rows r);
  }
  item_of Profile.vector rows r = record {
    id = r.id;
    content = r.chunk;
    measure = Measure.distance r.distance;
  }

  unfoldable pub search_postgres : SearchPipeline → ℕ → List ViewRow → List Found
  search_postgres config limit rows =
      map (item_of config.storage.profile rows) (ranked config.storage.profile limit rows)
