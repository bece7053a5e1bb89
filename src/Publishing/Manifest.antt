-- ===== src/Publishing/Manifest.antt =====
-- What a publication by internal/publishing or internal/journey/publish.go has stored.
use openjourney.Common.{
  ◌≡◌, ◌≢◌, refl, ap, not, ◌&&◌, Option, some, String, ◌==◌, eq_iff, arith, is_empty, Result, ok,
  err, Bool-cases, Option-cases, Result-cases, inl, inr,
}
use openjourney.Common.Int.{ℤ}
use openjourney.Json.{RawMessage}
use openjourney.Journey.Graph.{Graph}
use openjourney.Journey.Outgoing.{fine}
use openjourney.Journey.Validate.{validate}
use openjourney.Journey.Parse.{parse_graph}
use openjourney.Publishing.{
  Actor, Effect, ManifestKey, PublishError, and_then, publish_resource, parsed_graph, checked_graph,
  publish_journey,
}

failed_lem :
    {A : Type 0} {a : A} (e : PublishError)
    → (let r : Result PublishError A = err e in r) ≡ ok a
    → ⊥
failed_lem e h = ground arith

-- The call that comes next, of a call that did not fail.
and_then-ok :
    {W A B : Type 0} {b : B} {out : W} (r : Result PublishError A × W)
    (next : A → W → Result PublishError B × W)
    → and_then r next ≡ (ok b, out)
    → (a : A) × (r.0 ≡ ok a) × (next a r.1 ≡ (ok b, out))
unfolding and_then
and_then-ok (err e, w) next h = absurd (failed_lem e (ap (λ p. p.0) h))
and_then-ok (ok a, w) next h = (a, refl, h)

checked_graph-fine :
    (parse_duration : String → Option ℤ) (g valid : Graph)
    → checked_graph parse_duration g ≡ ok valid
    → validate parse_duration (some g) ≡ fine
unfolding checked_graph
checked_graph-fine parse_duration g valid h =
    elim (Result-cases (validate parse_duration (some g))) [
      | inl (u, accepted) ↦ accepted
      | inr (e, refused) ↦ absurd (ground arith)
    ]

parsed_graph-some :
    (raw : RawMessage) (g : Graph) → parsed_graph raw ≡ ok g → parse_graph raw ≡ some g
unfolding parsed_graph
parsed_graph-some raw g h = elim (Option-cases (parse_graph raw)) [
  | inl bad ↦ absurd (ground arith)
  | inr (g', read) ↦ ground arith
]

-- A publication of a journey that succeeds has an approver. Its draft was read and decodes to a graph
-- that `Validate` accepts, the encoding of that graph was put into the blob store under the key of its
-- own digest, and only then was the version with that key committed, in the world after the blob.
pub publish_journey-IsValid :
    {W Version : Type 0} (parse_duration : String → Option ℤ) (sha256_hex : String → String)
    (marshal : Graph → Result PublishError String)
    (get_journey : String → W → Result PublishError RawMessage)
    (commit_journey : (journey_id approver : String) → ManifestKey → Effect W Version)
    (put_blob : ManifestKey → String → Effect W (Unit {0})) (tenant journey_id approver : String)
    (w after : W) (version : Version)
    → publish_journey parse_duration sha256_hex marshal get_journey commit_journey
        (some put_blob)
        tenant
        journey_id
        approver
        w
      ≡ (ok version, after)
    → (approver ≢ "")
      × ((draft : RawMessage) × (g : Graph) × (bytes : String) × (get_journey journey_id w
            ≡ ok draft)
          × (parse_graph draft ≡ some g)
          × (validate parse_duration (some g) ≡ fine)
          × (marshal g ≡ ok bytes)
          × (let key : ManifestKey = record {
            namespace = "journeys";
            tenant_id = tenant;
            resource_id = journey_id;
            digest = sha256_hex bytes;
          } in
              ((put_blob key bytes w).0 ≡ ok tt)
              × (commit_journey journey_id approver key (put_blob key bytes w).1
                  ≡ (ok version, after))))
unfolding publish_journey
publish_journey-IsValid parse_duration sha256_hex marshal get_journey commit_journey put_blob tenant
      journey_id approver w after version h =
    elim (Bool-cases (is_empty approver)) [
      | inl absent ↦ absurd (failed_lem _ (ap (λ p. p.0) (rw absent at h)))
      | inr given ↦
          let (draft, read, h1) = and_then-ok (get_journey journey_id w, w) _ (rw given at h) in
          let (g, decoded, h2) = and_then-ok (parsed_graph draft, w) _ h1 in
          let (valid, checked, h3) = and_then-ok (checked_graph parse_duration g, w) _ h2 in
          let (bytes, encoded, h4) = and_then-ok (marshal g, w) _ h3 in
          let (stored, put, committed) = and_then-ok (put_blob _ bytes w) _ h4 in
          (
            ground (arith, eq_iff approver ""),
            (
              draft,
              g,
              bytes,
              read,
              parsed_graph-some draft g decoded,
              checked_graph-fine parse_duration g valid checked,
              encoded,
              (put, committed),
            ),
          )
    ]

-- A publication of any resource that succeeds is by a user with an id, for a resource with an id and a
-- namespace. The canonical bytes of the draft were put under the key of their own digest, and only
-- then was the version with that key committed for the same user, in the world after the blob.
pub publish_resource-stored :
    {W Draft Published : Type 0} (sha256_hex : String → String) (p : Actor)
    (resource_id namespace : String) (draft : Draft)
    (put_blob : ManifestKey → String → Effect W (Unit {0}))
    (canonicalize : Draft → Result PublishError String)
    (commit : (resource_id user_id : String) → ManifestKey → Effect W Published) (w after : W)
    (published : Published)
    → publish_resource sha256_hex p resource_id namespace draft
        (some put_blob)
        (some canonicalize)
        (some commit)
        w
      ≡ (ok published, after)
    → ((p.actor_type ≡ "user") × (p.user_id ≢ "") × (resource_id ≢ "") × (namespace ≢ ""))
      × ((bytes : String) × (canonicalize draft ≡ ok bytes)
          × (let key : ManifestKey = record {
            namespace = namespace;
            tenant_id = p.tenant_id;
            resource_id = resource_id;
            digest = sha256_hex bytes;
          } in
              ((put_blob key bytes w).0 ≡ ok tt)
              × (commit resource_id p.user_id key (put_blob key bytes w).1
                  ≡ (ok published, after))))
unfolding publish_resource
publish_resource-stored sha256_hex p resource_id namespace draft put_blob canonicalize commit w
      after published h =
    elim (Bool-cases (p.actor_type == "user" && not (is_empty p.user_id))) [
      | inr refused ↦ absurd (failed_lem _ (ap (λ r. r.0) (rw refused at h)))
      | inl human ↦ elim (Bool-cases (not (is_empty resource_id) && not (is_empty namespace))) [
        | inr missing ↦ absurd (failed_lem _ (ap (λ r. r.0) (rw (human, missing) at h)))
        | inl given ↦
            let (bytes, canonical, h1) =
              and_then-ok (canonicalize draft, w) _ (rw (human, given) at h) in
            let (stored, put, committed) = and_then-ok (put_blob _ bytes w) _ h1 in
            (
              (
                ground (arith, eq_iff p.actor_type "user"),
                ground (arith, eq_iff p.user_id ""),
                ground (arith, eq_iff resource_id ""),
                ground (arith, eq_iff namespace ""),
              ),
              (bytes, canonical, (put, committed)),
            )
      ]
    ]
