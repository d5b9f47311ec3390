-- ===== src/Config/Tests.antt =====
-- The theorem about the hash of a configuration at concrete settings.
use postgres_search_replica.Prelude.{String, false, refl, ◌≡◌, ◌↔◌}
use postgres_search_replica.Config.{SearchPipeline}
use postgres_search_replica.Config.Json.{Json, relevant_config}
use postgres_search_replica.Config.Hash.{get_config_hash, SameIndex, get_config_hash_iff}
use postgres_search_replica.Config.Samples.{books}

-- a pipeline that is no longer active keeps its index
abbrev retired : SearchPipeline
retired = record books { active = false }

abbrev digest : Json → String
digest j = "0123456789abcdef"

get_config_hash_iff_example :
    (get_config_hash digest books ≡ get_config_hash digest retired) ↔ SameIndex books retired
unfolding relevant_config
get_config_hash_iff_example = get_config_hash_iff digest books retired (λ h. refl)
