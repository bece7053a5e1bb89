-- ===== src/Journey/Execute/Steps.antt =====
-- What the step of a run is: the parts of `execute` that follow an edge, and their results.
use openjourney.Common.{
  ◌≡◌, refl, ◌⊎◌, inl, inr, true, List, [], ◌∷◌, Option, none, some, String, ◌==◌, Bool-cases,
  Option-cases,
}
use openjourney.Common.Int.{ℤ}
use openjourney.Json.{RawMessage, empty, malformed, value, null, obj}
use openjourney.Journey.Graph.{Node, Graph, node_type, find_edge, is_exit}
use openjourney.Journey.Graph.Edges.{IsTarget, Offers, find_edge-target, find_edge-finds}
use openjourney.Journey.Config.{WaitConfig, ActionConfig, MessageConfig}
use openjourney.Journey.Runs.{Time, JourneyRun, JourneyStep, ExecutionResult}
use openjourney.Journey.Store.{
  M, Store, ExecutionError, invalid_duration, bad_state, unsupported_action, pure, perform, ◌>>=◌,
}
use openjourney.Journey.Store.Ensures.{
  Outcome, Ensures, IsOther, >>=-Ensures, pure-Ensures, perform-Ensures,
}
use openjourney.Journey.Choose.{principal}
use openjourney.Journey.Message.{Choice}
use openjourney.Journey.Execute.{
  next_node, state_map, moved, exited, waiting, follow, as_is, advance, decide, take_branch, send,
  act, update_event, wait, sleep, no_detail, branch_outcome, reach_goal,
}

module _ (E : ExecutionError → Type 0) (g : Graph) (n : Node) where
  pub next_node-offered :
      (branch : String) → Offers g n branch → Outcome E (IsTarget g n) (next_node g n branch)
  next_node-offered branch (e, listed, from, label) =
      let (to, found) = find_edge-finds g.edges e n.id branch listed from label in
      rw (found, Outcome) (find_edge-target g.edges n.id branch to found)

  pub next_node-any :
      ((e : ExecutionError) → E e)
      → (branch : String) → Outcome E (IsTarget g n) (next_node g n branch)
  next_node-any all branch = elim (Option-cases (find_edge g.edges n.id branch)) [
    | inl missing ↦ rw (missing, Outcome) (all _)
    | inr (to, found) ↦ rw (found, Outcome) (find_edge-target g.edges n.id branch to found)
  ]

state_map-Outcome :
    (E : ExecutionError → Type 0) (other : (e : ExecutionError) → IsOther e → E e)
    (raw : RawMessage)
    → Outcome E (λ _. Unit {0}) (state_map raw)
state_map-Outcome E other empty = tt
state_map-Outcome E other malformed = other bad_state tt
state_map-Outcome E other (value null) = tt
state_map-Outcome E other (value (obj fs)) = tt
state_map-Outcome E other (value _) = other bad_state tt

abbrev pub pending_step : JourneyRun → (node_id kind : String) → Time → JourneyStep
pending_step run node_id kind t = record {
  run_id = run.id;
  tenant_id = run.tenant_id;
  node_id = node_id;
  kind = kind;
  status = "pending";
  available_at = t;
}

module _ (g : Graph) (n : Node) (run : JourneyRun) (now : Time) (r : ExecutionResult) where
  -- The run moves along an edge, and one pending step waits at the edge's target.
  pub record Moves : Type 0 where
    pub target : IsTarget g n r.next_node_id
    pub step : (t : Time) × (r.next_step ≡ some (pending_step run r.next_node_id "advance" t))
    pub crossed : r.transition.to_node ≡ some r.next_node_id

  -- The run waits at the node until the time of a pending timeout.
  pub record Waits : Type 0 where
    pub stays : r.next_node_id ≡ n.id
    pub step :
        (t : Time) × (r.next_step ≡ some (pending_step run n.id "timeout" t))
        × (r.wait_until ≡ some t)
    pub status : r.next_status ≡ "waiting"

  -- The run is completed at an exit, with no further step.
  pub record Ends : Type 0 where
    pub exit : is_exit (node_type n.type) ≡ true
    pub stops : r.next_step ≡ none
    pub status : r.next_status ≡ "completed"
    pub completed : r.completed_at ≡ some now

  abbrev pub IsStep : Type 0
  IsStep = Moves ⊎ Waits ⊎ Ends

module _ (g : Graph) (n : Node) (run : JourneyRun) (now : Time) where
  moved-Moves :
      (t : Time) (to outcome : String) (detail : RawMessage)
      → IsTarget g n to
      → Moves g n run now (moved n run now t to outcome detail)
  unfolding moved
  moved-Moves t to outcome detail target = record {
    target = target;
    step = (t, refl);
    crossed = refl;
  }

  pub exited-Ends : is_exit (node_type n.type) ≡ true → Ends g n run now (exited n run now)
  unfolding exited
  exited-Ends e = record { exit = e; stops = refl; status = refl; completed = refl }

  waiting-Waits :
      (event_type : String) (t : Time) → Waits g n run now (waiting n run now event_type t)
  unfolding waiting
  waiting-Waits event_type t = record { stays = refl; step = (t, refl, refl); status = refl }

  abbrev Keeps : (ExecutionResult → ExecutionResult) → Type 0
  Keeps change = (r : ExecutionResult) → Moves g n run now r → Moves g n run now (change r)

  pub reach_goal-Keeps : Keeps reach_goal
  reach_goal-Keeps r m = record { target = m.target; step = m.step; crossed = m.crossed }

  module _ {W : Type 0} (E : ExecutionError → Type 0) where
    abbrev pub Steps : M W ExecutionResult → Type 0
    Steps m = Ensures E (IsStep g n run now) m

    pub follow-Steps :
        (branch outcome : String) (detail : RawMessage) (t : Time)
        (change : ExecutionResult → ExecutionResult)
        → Keeps change
        → Outcome E (IsTarget g n) (next_node g n branch)
        → Steps (follow g n run now branch outcome detail t change)
    unfolding follow
    follow-Steps branch outcome detail t change keeps next =
        >>=-Ensures E (IsTarget g n) (IsStep g n run now) (pure (next_node g n branch)) _
          (pure-Ensures E _ _ next)
          λ to target. pure-Ensures E _ _ (inl (keeps _ (moved-Moves t to outcome detail target)))

    pub advance-Steps :
        (branch outcome : String)
        → Outcome E (IsTarget g n) (next_node g n branch)
        → Steps (advance g n run now branch outcome)
    advance-Steps branch outcome next =
        follow-Steps branch outcome no_detail now as_is (λ r m. m) next

    pub decide-Steps :
        (name : String) (p : String × String)
        → Outcome E (IsTarget g n) (next_node g n p.0)
        → Steps (decide g n run now name p)
    decide-Steps name (branch, id) next =
        follow-Steps branch (branch_outcome branch) _ now as_is (λ r m. m) next

    pub send-Steps :
        (cfg : MessageConfig) (p : Choice × List String)
        → Outcome E (IsTarget g n) (next_node g n "")
        → Steps (send g n run now cfg p)
    send-Steps cfg (choice, ends) next =
        follow-Steps "" _ no_detail now _
          (λ r m. record { target = m.target; step = m.step; crossed = m.crossed }) next

    module _ (other : (e : ExecutionError) → IsOther e → E e) where
      pub take_branch-Steps :
          (branch : String)
          → Outcome E (IsTarget g n) (next_node g n branch)
          → Steps (take_branch g n run now branch)
      take_branch-Steps branch next =
          >>=-Ensures E (IsTarget g n) (IsStep g n run now) (pure (next_node g n branch)) _
            (pure-Ensures E _ _ next)
            λ to target.
              >>=-Ensures E (λ _. Unit {0}) (IsStep g n run now) (pure (state_map run.state)) _
                (pure-Ensures E _ _ (state_map-Outcome E other run.state))
                λ fs _. pure-Ensures E _ _ (
                  inl (
                    let m = moved-Moves now to (branch_outcome branch) no_detail target in
                    record { target = m.target; step = m.step; crossed = m.crossed }))

      pub act-Steps :
          (store : Store W) (cfg : ActionConfig)
          → Outcome E (IsTarget g n) (next_node g n "")
          → Steps (act g n run now store cfg)
      unfolding act
      act-Steps store cfg next =
          let put = store.update_profile_attributes (principal run) run.profile_id cfg.set in
          let emit = store.accept_events (principal run) (update_event n run now cfg ∷ []) in
          let update = perform "update profile attributes" put in
          let tell = perform "emit profile.updated event" emit in
          let rest : Unit {0} → M W ExecutionResult = λ _. advance g n run now "" "advanced" in
          elim (Bool-cases (cfg.action == "profile_update")) [
            | inr no_update ↦
                rw no_update (pure-Ensures E _ _ (other (unsupported_action cfg.action) tt))
            | inl allowed ↦ rw allowed (
                >>=-Ensures E (λ _. Unit {0}) (IsStep g n run now) update (λ _. tell >>= rest)
                  (perform-Ensures E other _ put)
                  λ u _.
                    >>=-Ensures E (λ _. Unit {0}) (IsStep g n run now) tell rest
                      (perform-Ensures E other _ emit) (λ u _. advance-Steps "" "advanced" next))
          ]

      pub sleep-Steps :
          (raw : String) (o : Option ℤ)
          → Outcome E (IsTarget g n) (next_node g n "")
          → Steps (sleep g n run now raw o)
      unfolding sleep
      sleep-Steps raw none next = pure-Ensures E _ _ (other (invalid_duration raw) tt)
      sleep-Steps raw (some d) next = follow-Steps "" "waited" no_detail _ as_is (λ r m. m) next

      pub wait-Steps :
          (step_kind : String) (cfg : WaitConfig) (o : Option ℤ)
          → Outcome E (IsTarget g n) (next_node g n "timeout")
          → Steps (wait g n run now step_kind cfg o)
      unfolding wait
      wait-Steps step_kind cfg none next =
          pure-Ensures E _ _ (other (invalid_duration cfg.timeout) tt)
      wait-Steps step_kind cfg (some d) next = elim (Bool-cases (step_kind == "timeout")) [
        | inl timeout ↦ rw timeout (
            follow-Steps "timeout" "timeout" no_detail now _
              (λ r m. record { target = m.target; step = m.step; crossed = m.crossed }) next)
        | inr early ↦ rw early (pure-Ensures E _ _ (inr (inl (waiting-Waits cfg.event_type _))))
      ]
