-- ===== src/Publishing/Examples.antt =====
-- A journey from its entry to its exit and a page, published to a list of the calls made.
use openjourney.Common.{
  ◌≡◌, ◌≢◌, refl, Option, none, some, String, Result, ok, List, [], ◌∷◌, contains,
}
use openjourney.Common.Int.{ℤ}
use openjourney.Json.{
  Json, nil, cons, end, field, RawMessage, value, decode_field, unmarshal_struct, same_key,
  same_codes,
}
use openjourney.Journey.Graph.{Graph, outgoing}
use openjourney.Journey.Outgoing.{fine, validate_outgoing, validate_exact_branches}
use openjourney.Journey.Validate.{validate}
use openjourney.Journey.Config.{decode_config}
use openjourney.Journey.Reachable.{reachable_nodes}
use openjourney.Journey.Parse.{parse_graph}
use openjourney.Publishing.{
  Actor, Effect, ManifestKey, PublishError, publish_resource, publish_journey, and_then,
  parsed_graph, checked_graph,
}
use openjourney.Publishing.Manifest.{publish_journey-IsValid, publish_resource-stored}

abbrev node_json : String → String → Json
node_json id type =
    Json.obj
      (field "id" (Json.str id) (field "type" (Json.str type) (field "config" (Json.obj end) end)))

abbrev short_draft : RawMessage
short_draft = value (
    Json.obj (
      field "entry_node_id" (Json.str "in") (
        field "nodes" (Json.arr (cons (node_json "in" "entry") (cons (node_json "out" "exit") nil)))
          (field "edges"
            (Json.arr (
              cons (Json.obj (field "from" (Json.str "in") (field "to" (Json.str "out") end))) nil))
            end))))

abbrev approver_id : String
approver_id = "u"

abbrev page : String
page = "page"

abbrev pages : String
pages = "pages"

abbrev Calls : Type 0
Calls = List String

abbrev put_call : ManifestKey → String → Effect Calls (Unit {0})
put_call key bytes w = (ok tt, "put" ∷ w)

abbrev commit_call : String → String → ManifestKey → Effect Calls String
commit_call id user key w = (ok key.digest, "commit" ∷ w)

abbrev no_durations : String → Option ℤ
no_durations s = none

abbrev same_digest : String → String
same_digest s = s

abbrev short_bytes : Graph → Result PublishError String
short_bytes g = ok "{}"

abbrev stored_draft : String → Calls → Result PublishError RawMessage
stored_draft id w = ok short_draft

published :
    publish_journey no_durations same_digest short_bytes stored_draft commit_call
      (some put_call)
      "t"
      "j"
      "u"
      []
    ≡ (ok "{}", "commit" ∷ "put" ∷ [])
unfolding publish_journey and_then parsed_graph checked_graph parse_graph validate decode_config
    reachable_nodes contains decode_field unmarshal_struct validate_outgoing outgoing
    validate_exact_branches same_key same_codes
published = refl

publish_journey-IsValid_example :
    (approver_id ≢ "")
    × ((draft : RawMessage) × (g : Graph) × (bytes : String) × (stored_draft "j" [] ≡ ok draft)
        × (parse_graph draft ≡ some g)
        × (validate no_durations (some g) ≡ fine)
        × (short_bytes g ≡ ok bytes)
        × (let key : ManifestKey = record {
          namespace = "journeys";
          tenant_id = "t";
          resource_id = "j";
          digest = bytes;
        } in
            ((put_call key bytes []).0 ≡ ok tt)
            × (commit_call "j" "u" key (put_call key bytes []).1
                ≡ (ok "{}", "commit" ∷ "put" ∷ []))))
publish_journey-IsValid_example =
    publish_journey-IsValid no_durations same_digest short_bytes stored_draft commit_call put_call
      "t" "j" "u" [] ("commit" ∷ "put" ∷ []) "{}" published

abbrev ada : Actor
ada = record { tenant_id = "t"; actor_type = "user"; user_id = "u" }

abbrev page_bytes : String → Result PublishError String
page_bytes draft = ok draft

published_page :
    publish_resource same_digest ada "page" "pages" "hello"
      (some put_call)
      (some page_bytes)
      (some commit_call)
      []
    ≡ (ok "hello", "commit" ∷ "put" ∷ [])
unfolding publish_resource and_then
published_page = refl

publish_resource-stored_example :
    ((ada.actor_type ≡ "user") × (ada.user_id ≢ "") × (page ≢ "") × (pages ≢ ""))
    × ((bytes : String) × (page_bytes "hello" ≡ ok bytes)
        × (let key : ManifestKey = record {
          namespace = "pages";
          tenant_id = "t";
          resource_id = "page";
          digest = bytes;
        } in
            ((put_call key bytes []).0 ≡ ok tt)
            × (commit_call "page" "u" key (put_call key bytes []).1
                ≡ (ok "hello", "commit" ∷ "put" ∷ []))))
publish_resource-stored_example =
    publish_resource-stored same_digest ada "page" "pages" "hello" put_call page_bytes commit_call
      [] ("commit" ∷ "put" ∷ []) "hello" published_page
