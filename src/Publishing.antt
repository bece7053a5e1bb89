-- ===== src/Publishing.antt =====
-- internal/publishing/publishing.go, and `Publish` of internal/journey/publish.go. The blob store and
-- the resource's store change a world of any type; encoding to JSON and SHA-256 are parameters.
mod Manifest
mod Examples
use openjourney.Common.{
  ℕ, Bool, true, false, not, ◌&&◌, Option, none, some, String, ◌==◌, is_empty, if◌then◌else◌,
  Result, ok, err,
}
use openjourney.Common.Int.{ℤ}
use openjourney.Json.{RawMessage}
use openjourney.Journey.Graph.{Graph}
use openjourney.Journey.Outgoing.{ValidationError}
use openjourney.Journey.Validate.{validate}
use openjourney.Journey.Parse.{parse_graph}

-- The key `namespace/tenant/id/manifests/digest.json`.
pub record ManifestKey : Type 0 where
  pub namespace : String
  pub tenant_id : String
  pub resource_id : String
  pub digest : String

pub data PublishError : Type 0 where
  human_actor_required blob_store_required approver_required : PublishError
  ids_required functions_required undecodable : PublishError
  invalid_graph : ValidationError → PublishError
  store_failed put_failed canonical_failed commit_failed : String → PublishError

pub record Actor : Type 0 where
  pub tenant_id : String
  pub actor_type : String
  pub user_id : String

-- A call that may change the world.
abbrev pub Effect : Type 0 → Type 0 → Type 0
Effect W A = W → Result PublishError A × W

-- The rest, unless a call failed.
unfoldable pub and_then :
    {W A B : Type 0}
    → Result PublishError A × W
    → (A → W → Result PublishError B × W)
    → Result PublishError B × W
and_then (err e, w) next = (err e, w)
and_then (ok a, w) next = next a w

-- `Publish` of internal/publishing. A function that is nil is none.
unfoldable pub publish_resource :
    {W Draft Published : Type 0} (sha256_hex : String → String)
    → Actor
    → (resource_id namespace : String) → Draft
    → Option (ManifestKey → String → Effect W (Unit {0}))
    → Option (Draft → Result PublishError String)
    → Option ((resource_id user_id : String) → ManifestKey → Effect W Published)
    → Effect W Published
unfolding and_then
publish_resource sha256_hex p resource_id namespace draft blobs canonicalize commit w =
    if not (p.actor_type == "user" && not (is_empty p.user_id))
    then (err human_actor_required, w)
    else elim blobs [
      | none ↦ (err blob_store_required, w)
      | some put_blob ↦
          if not (not (is_empty resource_id) && not (is_empty namespace))
          then (err ids_required, w)
          else elim canonicalize [
            | none ↦ (err functions_required, w)
            | some canonical_bytes ↦ elim commit [
              | none ↦ (err functions_required, w)
              | some commit_version ↦
                  and_then (canonical_bytes draft, w)
                    λ bytes w1.
                      let key : ManifestKey = record {
                        namespace = namespace;
                        tenant_id = p.tenant_id;
                        resource_id = resource_id;
                        digest = sha256_hex bytes;
                      } in
                      and_then (put_blob key bytes w1)
                        λ stored w2. commit_version resource_id p.user_id key w2
            ]
          ]
    ]

unfoldable pub parsed_graph : RawMessage → Result PublishError Graph
parsed_graph raw = elim (parse_graph raw) [ none ↦ err undecodable | some g ↦ ok g ]

unfoldable pub checked_graph : (String → Option ℤ) → Graph → Result PublishError Graph
checked_graph parse_duration g = elim (validate parse_duration (some g)) [
  | err e ↦ err (invalid_graph e)
  | ok u ↦ ok g
]

-- `Publish` of internal/journey.
unfoldable pub publish_journey :
    {W Version : Type 0} (parse_duration : String → Option ℤ) (sha256_hex : String → String)
    (marshal : Graph → Result PublishError String)
    (get_journey : String → W → Result PublishError RawMessage)
    (commit_journey : (journey_id approver : String) → ManifestKey → Effect W Version)
    → Option (ManifestKey → String → Effect W (Unit {0}))
    → (tenant journey_id approver : String) → Effect W Version
unfolding and_then parsed_graph checked_graph
publish_journey parse_duration sha256_hex marshal get_journey commit_journey blobs tenant journey_id
      approver w =
    if is_empty approver then (err approver_required, w) else elim blobs [
      | none ↦ (err blob_store_required, w)
      | some put_blob ↦
          and_then (get_journey journey_id w, w)
            λ draft w1.
              and_then (parsed_graph draft, w1)
                λ g w2.
                  and_then (checked_graph parse_duration g, w2)
                    λ valid w3.
                      and_then (marshal g, w3)
                        λ bytes w4.
                          let key : ManifestKey = record {
                            namespace = "journeys";
                            tenant_id = tenant;
                            resource_id = journey_id;
                            digest = sha256_hex bytes;
                          } in
                          and_then (put_blob key bytes w4)
                            λ stored w5. commit_journey journey_id approver key w5
    ]
