-- ===== src/Journey/Execute/Accepted.antt =====
-- The execution of a node of a graph that `Validate` accepts.
use openjourney.Common.{
  ◌≡◌, ◌≢◌, refl, sym, ap, ◌∙◌, subst, inl, inr, Bool, true, false, not, List, [], ◌∷◌, map, some,
  String, eq_iff, arith, ok, err, In, All-at, is_empty, contains, contains-In, guard, guard-eq-ok,
  >>=-eq-ok, ◌>>=◌,
}
use openjourney.Json.{RawMessage}
use openjourney.Journey.Graph.{Node, Edge, Graph, NodeType, node_type, is_exit, outgoing}
use openjourney.Journey.Graph.Edges.{IsTarget, Offers}
use openjourney.Journey.Config.{NodeConfig, decode_config}
use openjourney.Journey.Config.Fits.{Fits, decode_config-Fits}
use openjourney.Journey.Reachable.Paths.{In-outgoing}
use openjourney.Journey.Outgoing.{
  Check, fine, config_of, validate_exact_branches, one_plain_edge, with_fallback, ai_outgoing,
  extension_outgoing, outgoing_as, validate_outgoing,
}
use openjourney.Journey.Outgoing.Branches.{validate_exact_branches-HasExactly}
use openjourney.Journey.Validate.{validate}
use openjourney.Journey.Validate.Sound.{validate-IsValid}
use openjourney.Journey.Runs.{JourneyRun}
use openjourney.Journey.Store.{no_edge}
use openjourney.Journey.Store.Ensures.{Outcome, IsOther}
use openjourney.Journey.Choose.Declared.{Declared}
use openjourney.Journey.Execute.{Env, next_node, execute}
use openjourney.Journey.Execute.Steps.{IsStep, next_node-offered}
use openjourney.Journey.Execute.Branches.{Branches, Wanted, execute-Fine}

-- The node types whose branches `Validate` knows: the label that a split by experiment follows is
-- the store's, and that of a feature flag node is the flag's.
abbrev pub is_static : NodeType → Bool
is_static NodeType.split = false
is_static NodeType.feature_flag = false
is_static _ = true

In-branches :
    (b : String) (es : List Edge)
    → In b (map Edge.branch es)
    → (e : Edge) × In e es × (e.branch ≡ b)
In-branches b [] m = absurd m
In-branches b (e ∷ es) (inl same) = (e, inl refl, sym same)
In-branches b (e ∷ es) (inr later) =
    let (d, listed, label) = In-branches b es later in (d, inr listed, label)

-- An edge with the label is among those that leave the node.
abbrev Has : List Edge → String → Type 0
Has es b = (e : Edge) × In e es × (e.branch ≡ b)

one_plain_edge-Has : (id : String) (es : List Edge) → one_plain_edge id es ≡ fine → Has es ""
unfolding one_plain_edge
one_plain_edge-Has id [] h = cc
one_plain_edge-Has id (e ∷ []) h = (e, inl refl, ground (arith, eq_iff e.branch ""))
one_plain_edge-Has id (e ∷ d ∷ es) h = cc

exact-Has :
    (id : String) (es : List Edge) (labels : List String)
    → validate_exact_branches id es labels ≡ fine
    → (b : String) → In b labels
    → Has es b
exact-Has id es labels h b m =
    In-branches b es ((validate_exact_branches-HasExactly id es labels h).every b m)

with_fallback-Has :
    (id : String) (es : List Edge) (fallback : String) (labels : List String)
    → with_fallback id es fallback labels ≡ fine
    → (b : String) → Declared labels fallback b
    → Has es b
unfolding with_fallback
with_fallback-Has id es fallback labels h b d =
    let (_, _, h1) = >>=-eq-ok (guard (not (is_empty fallback)) _) _ h in
    let (_, declared, exact) = >>=-eq-ok (guard (contains labels fallback) _) _ h1 in
    let listed : In fallback labels = contains-In labels fallback (guard-eq-ok _ _ declared) in
    elim d [
      | inl same ↦ exact-Has id es labels exact b (subst (λ l. In l labels) (sym same) listed)
      | inr other ↦ exact-Has id es labels exact b other
    ]

-- Every branch of the configuration leaves the node.
abbrev HasAll : List Edge → NodeConfig → Type 0
HasAll es c = (b : String) → Branches c b → Has es b

module _ (n : Node) (es : List Edge) where
  plain_Has : one_plain_edge n.id es ≡ fine → (b : String) → b ≡ "" → Has es b
  plain_Has h b blank = subst (Has es) (sym blank) (one_plain_edge-Has n.id es h)

  condition-HasAll :
      (dsl : RawMessage)
      → outgoing_as NodeType.condition n es ≡ fine
      → HasAll es (NodeConfig.condition dsl)
  unfolding outgoing_as
  condition-HasAll dsl h b (inl matched) =
      exact-Has n.id es ("true" ∷ "false" ∷ []) h b (inl matched)
  condition-HasAll dsl h b (inr unmatched) =
      exact-Has n.id es ("true" ∷ "false" ∷ []) h b (inr (inl unmatched))

  from_config :
      (f : NodeConfig → Check (Unit {0})) (c : NodeConfig)
      → decode_config n ≡ ok c
      → (config_of n >>= f) ≡ fine
      → f c ≡ fine
  from_config f c d h =
      let known : config_of n ≡ ok c = rw (d, config_of) refl in
      subst (λ r. (r >>= f) ≡ fine) known h

  -- What the check of the node's edges gives for the branches of its configuration.
  outgoing_as-HasAll :
      (t : NodeType) (c : NodeConfig)
      → is_static t ≡ true
      → (is_exit t ≡ false)
      → decode_config n ≡ ok c
      → Fits t c
      → outgoing_as t n es ≡ fine
      → HasAll es c
  unfolding outgoing_as
  outgoing_as-HasAll NodeType.entry c s x d (a, e) h = subst (HasAll es) (sym e) (plain_Has h)
  outgoing_as-HasAll NodeType.delay c s x d (a, e) h = subst (HasAll es) (sym e) (plain_Has h)
  outgoing_as-HasAll NodeType.action c s x d (a, e) h = subst (HasAll es) (sym e) (plain_Has h)
  outgoing_as-HasAll NodeType.message c s x d (a, e) h = subst (HasAll es) (sym e) (plain_Has h)
  outgoing_as-HasAll NodeType.goal c s x d (a, e) h = subst (HasAll es) (sym e) (plain_Has h)
  outgoing_as-HasAll NodeType.condition c s x d (a, e) h =
      subst (HasAll es) (sym e) (condition-HasAll a h)
  outgoing_as-HasAll NodeType.wait_event c s x d (a, e) h =
      subst (HasAll es) (sym e)
        λ b m. exact-Has n.id es ("success" ∷ "timeout" ∷ []) h b (inr (inl m))
  outgoing_as-HasAll NodeType.ai_decision c s x d (a, e) h = subst (HasAll es) (sym e) (
      with_fallback-Has n.id es a.fallback a.branches
        (from_config (ai_outgoing n es) _ (d ∙ ap ok e) h))
  outgoing_as-HasAll NodeType.extension_action c s x d (a, e) h = subst (HasAll es) (sym e) (
      with_fallback-Has n.id es a.fallback a.branches
        (from_config (extension_outgoing n es) _ (d ∙ ap ok e) h))
  outgoing_as-HasAll NodeType.extension_condition c s x d (a, e) h = subst (HasAll es) (sym e) (
      with_fallback-Has n.id es a.fallback a.branches
        (from_config (extension_outgoing n es) _ (d ∙ ap ok e) h))
  outgoing_as-HasAll NodeType.exit c s x d f h = cc
  outgoing_as-HasAll NodeType.split c s x d f h = cc
  outgoing_as-HasAll NodeType.feature_flag c s x d f h = cc
  outgoing_as-HasAll NodeType.reserved c s x d f h = absurd f
  outgoing_as-HasAll NodeType.unknown c s x d f h = absurd f

-- The edges that leave a node are the graph's.
offered : (g : Graph) (n : Node) (b : String) → Has (outgoing g.edges n.id) b → Offers g n b
offered g n b (e, m, label) =
    let (listed, from) = (In-outgoing g.edges n.id e).0 m in (e, listed, from, label)

module _ {W : Type 0} (env : Env W) (g : Graph) (n : Node) (run : JourneyRun) where
  abbrev Lookups : NodeType → Type 0
  Lookups t = Wanted IsOther (λ e o. o) env g n run t

  plain-Lookup :
      one_plain_edge n.id (outgoing g.edges n.id) ≡ fine
      → Outcome IsOther (IsTarget g n) (next_node g n "")
  plain-Lookup h = next_node-offered IsOther g n "" (offered g n "" (one_plain_edge-Has n.id _ h))

  configured-Lookups :
      is_static (node_type n.type) ≡ true
      → is_exit (node_type n.type) ≡ false
      → outgoing_as (node_type n.type) n (outgoing g.edges n.id) ≡ fine
      → (c : NodeConfig) → decode_config n ≡ ok c
      → (b : String) → Branches c b
      → Outcome IsOther (IsTarget g n) (next_node g n b)
  configured-Lookups s x h c d b m =
      let has =
        outgoing_as-HasAll n (outgoing g.edges n.id) (node_type n.type) c s x d
          (decode_config-Fits n c d) h in
      next_node-offered IsOther g n b (offered g n b (has b m))

  found :
      {t : NodeType}
      → node_type n.type ≡ t
      → is_static t ≡ true
      → is_exit t ≡ false
      → outgoing_as t n (outgoing g.edges n.id) ≡ fine
      → (c : NodeConfig) → decode_config n ≡ ok c
      → (b : String) → Branches c b
      → Outcome IsOther (IsTarget g n) (next_node g n b)
  found same s x h =
      configured-Lookups (rw same s) (rw same x)
        (subst (λ u. outgoing_as u n (outgoing g.edges n.id) ≡ fine) (sym same) h)

  lookups :
      (t : NodeType)
      → node_type n.type ≡ t
      → is_static t ≡ true
      → outgoing_as t n (outgoing g.edges n.id) ≡ fine
      → Lookups t
  unfolding outgoing_as
  lookups NodeType.entry same s h = plain-Lookup h
  lookups NodeType.goal same s h = plain-Lookup h
  lookups NodeType.exit same s h = tt
  lookups NodeType.reserved same s h = tt
  lookups NodeType.unknown same s h = tt
  lookups NodeType.split same s h = cc
  lookups NodeType.feature_flag same s h = cc
  lookups NodeType.delay same s h = found same refl refl h
  lookups NodeType.condition same s h = found same refl refl h
  lookups NodeType.message same s h = found same refl refl h
  lookups NodeType.wait_event same s h = found same refl refl h
  lookups NodeType.action same s h = found same refl refl h
  lookups NodeType.ai_decision same s h = found same refl refl h
  lookups NodeType.extension_action same s h = found same refl refl h
  lookups NodeType.extension_condition same s h = found same refl refl h

  -- In a graph that `Validate` accepts, the execution of a node of the graph never fails for want of
  -- an edge, whatever the store, the gateway and the extension host answer, if the node is no split
  -- and no feature flag node.
  pub execute-ne-no_edge :
      validate env.parse_duration (some g) ≡ fine
      → In n g.nodes
      → is_static (node_type n.type) ≡ true
      → (w : W) (id branch : String) → (execute env g n run w).0 ≢ err (no_edge id branch)
  unfolding validate_outgoing
  execute-ne-no_edge accepted listed static w id branch fails =
      let valid = validate-IsValid env.parse_duration g accepted in
      let edges = All-at _ n g.nodes valid.branched listed in
      let fine' =
        execute-Fine IsOther (λ e o. o) env g n run
          (lookups (node_type n.type) refl static edges) in
      subst (Outcome IsOther (IsStep g n run env.now)) fails (fine'.at_world w)
