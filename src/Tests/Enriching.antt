-- ===== src/Tests/Enriching.antt =====
-- Runs of the theorems on the enricher.
use assisted_events_stream.Prelude.{◌≡◌, refl, some, none, [], ◌∷◌, All}
use assisted_events_stream.Value.{str, obj, Fields, end, field, lookup, insert}
use assisted_events_stream.Enricher.{get_hosts_with_embedded_infra_env}
use assisted_events_stream.Enricher.Embedding.{
  completed_hosts, HasTextId, get_hosts_with_embedded_infra_env-completed,
}

abbrev host : Fields
host = field "id" (str "h") (field "infra_env_id" (str "e") end)

abbrev old_env : Fields
old_env = field "id" (str "e") (field "type" (str "full-iso") end)

abbrev new_env : Fields
new_env = field "id" (str "e") (field "type" (str "minimal-iso") end)

abbrev odd_env : Fields
odd_env = field "id" (obj end) end

hosts-HasTextId : All HasTextId (some host ∷ none ∷ [])
unfolding lookup
hosts-HasTextId = (tt, (tt, tt))

get_hosts_with_embedded_infra_env-completed_example :
    get_hosts_with_embedded_infra_env
      (some host ∷ none ∷ [])
      (some old_env ∷ some odd_env ∷ none ∷ some new_env ∷ [])
    ≡ some (
        completed_hosts
          (some host ∷ none ∷ [])
          (some old_env ∷ some odd_env ∷ none ∷ some new_env ∷ []))
get_hosts_with_embedded_infra_env-completed_example =
    get_hosts_with_embedded_infra_env-completed (some host ∷ none ∷ [])
      (some old_env ∷ some odd_env ∷ none ∷ some new_env ∷ []) hosts-HasTextId

-- the last infra-env with the identifier is the one that stays
last_one :
    completed_hosts (some host ∷ []) (some old_env ∷ some new_env ∷ [])
    ≡ some (
        field "id" (str "h") (field "infra_env_id" (str "e") (field "infra_env" (obj new_env) end)))
      ∷ []
unfolding lookup insert
last_one = refl
