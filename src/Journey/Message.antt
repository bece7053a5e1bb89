-- ===== src/Journey/Message.antt =====
-- internal/journey/nodes.go: the case of `execute` for message nodes, up to the lookup of the next
-- node: the template, the variant and the endpoints, and the intents that are made of them.
pub mod Errors
use openjourney.Common.{
  ℕ, Bool, true, false, ◌&&◌, List, [], ◌∷◌, map, Option, none, some, String, ◌==◌, if◌then◌else◌,
  is_empty, Result, ok, err,
}
use openjourney.Json.{Json, null, str, obj, Fields, end, field, RawMessage, empty, malformed, value}
use openjourney.Journey.Graph.{Node}
use openjourney.Journey.Config.{MessageConfig}
use openjourney.Journey.Runs.{Time, JourneyRun, MessageIntent}
use openjourney.Journey.Store.{
  M, Store, ExperimentVariant, ExecutionError, bad_attributes, pure, ask, ◌>>=◌, ◌>>◌,
}
use openjourney.Journey.Choose.{principal, assigned}

-- The value of a key in the map that an object's members make: the last one counts.
get_field : String → Fields → Option Json
get_field key end = none
get_field key (field k v rest) = elim (get_field key rest) [
  | some w ↦ some w
  | none ↦ if k == key then some v else none
]

-- `json.Unmarshal` into a `map[string]any`, of attributes that are not empty and not null.
abbrev pub attributes : RawMessage → Result ExecutionError Fields
attributes empty = ok end
attributes (value null) = ok end
attributes (value (obj fs)) = ok fs
attributes _ = err bad_attributes

abbrev text_of : Option Json → List String
text_of (some (str s)) = if is_empty s then [] else s ∷ []
text_of _ = []

abbrev pub channel_of : MessageConfig → String
channel_of cfg = if is_empty cfg.channel then "email" else cfg.channel

abbrev or_blank : List String → List String
or_blank [] = "" ∷ []
or_blank (e ∷ es) = e ∷ es

-- The template that a variant has in place of the node's.
variant_template : String → String → List ExperimentVariant → String
variant_template variant template_id [] = template_id
variant_template variant template_id (v ∷ vs) =
    let rest = variant_template variant template_id vs in
    if v.label == variant
    then (elim v.template_id [ none ↦ rest | some t ↦ if is_empty t then rest else t ])
    else rest

-- The experiment's id, the variant and the template.
pub record Choice : Type 0 where
  pub experiment_id : Option String
  pub variant : String
  pub template_id : String

module _ {W : Type 0} (store : Store W) (run : JourneyRun) where
  unfoldable pub endpoints : String → Fields → M W (List String)
  unfolding get_field
  endpoints channel attrs =
      if channel == "email"
      then pure (ok (text_of (get_field "email" attrs)))
      else if channel == "sms"
      then pure (ok (text_of (get_field "phone" attrs)))
      else if channel == "push"
      then ask "list active device tokens"
          (store.list_active_device_tokens (principal run) run.profile_id)
      else if channel == "in_app"
      then pure (ok (run.profile_id ∷ []))
      else pure (ok (text_of (get_field channel attrs)))

  unfoldable pub message_choice : (hash : String → ℕ) → MessageConfig → M W Choice
  unfolding variant_template
  message_choice hash cfg =
      if is_empty cfg.experiment_id
      then pure (ok (record { experiment_id = none; variant = ""; template_id = cfg.template_id }))
      else assigned hash store run cfg.experiment_id >>= λ (exp, variant). pure (
          ok (record {
            experiment_id = some exp.id;
            variant = variant;
            template_id = variant_template variant cfg.template_id exp.variants;
          }))

  -- The choice and the endpoints: one endpoint with no text if there is none.
  unfoldable pub message_parts : (hash : String → ℕ) → MessageConfig → M W (Choice × List String)
  message_parts hash cfg = do
    choice ← message_choice hash cfg
    raw ← ask "get profile" (store.get_profile (principal run) run.profile_id)
    attrs ← pure (attributes raw)
    ends ← endpoints (channel_of cfg) attrs
    pure (ok (choice, or_blank ends))

-- A choice that holds the profile out of the experiment.
abbrev pub is_holdout : Choice → Bool
is_holdout c = elim c.experiment_id [ none ↦ false | some id ↦ c.variant == "holdout" ]

-- The intent for one endpoint.
unfoldable pub intent : Node → JourneyRun → Time → MessageConfig → Choice → String → MessageIntent
intent n run now cfg c endpoint = record {
  run_id = run.id;
  tenant_id = run.tenant_id;
  workspace_id = run.workspace_id;
  journey_id = run.journey_id;
  journey_version_id = run.journey_version_id;
  node_id = n.id;
  profile_id = run.profile_id;
  experiment_id = c.experiment_id;
  variant = c.variant;
  template_id = c.template_id;
  channel = channel_of cfg;
  endpoint = endpoint;
  transactional = cfg.transactional;
  status = if is_holdout c then "completed" else "pending";
  available_at = now;
  decision = if is_holdout c then some "holdout" else none;
  reason = if is_holdout c then some "experiment holdout" else none;
}

abbrev pub intents :
    Node → JourneyRun → Time → MessageConfig → Choice → List String → List MessageIntent
intents n run now cfg c ends = map (intent n run now cfg c) ends
