-- ===== src/Journey/Runtime/Settling.antt =====
-- What becomes of a step that is claimed.
use openjourney.Common.{
  ◌≡◌, refl, ◌⊎◌, inl, inr, true, some, String, ◌==◌, Result, ok, err, Result-cases, Option-cases,
  Bool-cases,
}
use openjourney.Common.Int.{ℤ}
use openjourney.Journey.Graph.{Node, Graph}
use openjourney.Journey.Runs.{Time, JourneyRun, ExecutionResult}
use openjourney.Journey.Store.{ExecutionError}
use openjourney.Journey.Execute.{Env}
use openjourney.Journey.Parse.{parse_graph}
use openjourney.Journey.Runtime.{
  ClaimedStep, Version, Failure, Advance, RuntimeStore, find_node, skip_advance, result_advance,
  is_late, settle, finish, fail, at_node, process, tick_next, get_run, get_version, advance_run,
  skip, reschedule, bad_graph, node_not_found, execute_node,
}

module _ {W : Type 0} (rs : RuntimeStore W) (step : ClaimedStep) where
  -- The world in which the step is settled: a successful write of the run and the step, a successful
  -- reschedule of the step, or the successful mark that the step failed; or, if the store returned an
  -- error for that mark, the world that it left.
  abbrev pub IsSettled : W → Type 0
  IsSettled w' =
      ((a : Advance) × (w : W) × (a.step_id ≡ step.id) × (rs.advance_run a w ≡ (ok tt, w')))
      ⊎ ((t : Time) × (w : W) × (rs.reschedule_step step.id t w ≡ (ok tt, w')))
      ⊎ ((f : Failure) × (w : W) × (rs.fail_step step.id f w ≡ (ok tt, w')))
      ⊎ ((f : Failure) × (w : W) × (m : String) × (rs.fail_step step.id f w ≡ (err m, w')))

  marked :
      (f : Failure) (w : W) (p : Result String (Unit {0}) × W)
      → rs.fail_step step.id f w ≡ p
      → IsSettled p.1
  marked f w (ok u, w') h = inr (inr (inl (f, w, h)))
  marked f w (err m, w') h = inr (inr (inr (f, w, m, h)))

  failed : (f : Failure) (w : W) → IsSettled (rs.fail_step step.id f w).1
  failed f w = marked f w _ refl

  module _ (env : Env W) (late : ℤ) where
    settle-advance :
        (f : String → Failure) (a : Advance) (w : W) (p : Result String (Unit {0}) × W)
        → a.step_id ≡ step.id
        → rs.advance_run a w ≡ p
        → IsSettled (settle rs env late step f p)
    unfolding settle fail
    settle-advance f a w (ok u, w') same h = inl (a, w, same, h)
    settle-advance f a w (err m, w') same h = failed (f m) w'

    settle-reschedule :
        (t : Time) (w : W) (p : Result String (Unit {0}) × W)
        → rs.reschedule_step step.id t w ≡ p
        → IsSettled (settle rs env late step reschedule p)
    unfolding settle fail
    settle-reschedule t w (ok u, w') h = inr (inl (t, w, h))
    settle-reschedule t w (err m, w') h = failed (reschedule m) w'

    result_step :
        (run : JourneyRun) (r : ExecutionResult) → (result_advance step run r).step_id ≡ step.id
    unfolding result_advance
    result_step run r = refl

    skip_step :
        (run : JourneyRun) (g : Graph) (n : Node)
        → (skip_advance env.now step run g n).step_id ≡ step.id
    unfolding skip_advance
    skip_step run g n = refl

    finish-IsSettled :
        (run : JourneyRun) (p : Result ExecutionError ExecutionResult × W)
        → IsSettled (finish rs env late step run p)
    unfolding finish fail
    finish-IsSettled run (err e, w) = failed (execute_node e) w
    finish-IsSettled run (ok r, w) =
        settle-advance advance_run (result_advance step run r) w _ (result_step run r) refl

    at_node-IsSettled :
        (run : JourneyRun) (version : Version) (g : Graph) (n : Node) (w : W)
        → IsSettled (at_node rs env late step run version g n w)
    unfolding at_node settle finish fail
    at_node-IsSettled run version g n w = elim (Bool-cases (is_late env.now late step)) [
      | inr in_time ↦ rw in_time (finish-IsSettled run _)
      | inl stale ↦ elim (Bool-cases (version.late_policy == "skip")) [
        | inl skips ↦
            rw (stale, skips)
              (settle-advance skip (skip_advance env.now step run g n) w _ (skip_step run g n) refl)
        | inr runs ↦ elim (Bool-cases (version.late_policy == "reschedule")) [
          | inl later ↦ rw (stale, runs, later) (settle-reschedule _ w _ refl)
          | inr now ↦ rw (stale, runs, now) (finish-IsSettled run _)
        ]
      ]
    ]

    process-IsSettled : (w : W) → IsSettled (process rs env late step w)
    unfolding process fail
    process-IsSettled w = elim (Result-cases (rs.get_run step.tenant_id step.run_id w)) [
      | inr (m, no_run) ↦ rw (no_run, process) (failed (get_run m) w)
      | inl (run, has_run) ↦
          elim (Result-cases (rs.get_version run.tenant_id run.journey_version_id w)) [
            | inr (m, no_version) ↦ rw (has_run, no_version, process) (failed (get_version m) w)
            | inl (version, has_version) ↦ elim (Option-cases (parse_graph version.graph)) [
              | inl unread ↦ rw (has_run, has_version, unread, process) (failed bad_graph w)
              | inr (g, read) ↦ elim (Option-cases (find_node step.node_id g.nodes)) [
                | inl missing ↦
                    rw (has_run, has_version, read, missing, process)
                      (failed (node_not_found step.node_id) w)
                | inr (n, found) ↦
                    rw (has_run, has_version, read, found, process)
                      (at_node-IsSettled run version g n w)
              ]
            ]
          ]
    ]

-- A tick that claims a step reports that it worked, whatever fails on the way, and its last call of
-- the store is a successful write of the run, which names the step, a successful reschedule of the
-- step, the successful mark that the step failed, or such a mark for which the store returned an
-- error: only then does the tick leave the step claimed.
pub tick_next-IsSettled :
    {W : Type 0} (rs : RuntimeStore W) (env : Env W) (late_threshold : ℤ) (step : ClaimedStep)
    (w w1 : W)
    → rs.claim_step w ≡ (ok (some step), w1)
    → ((tick_next rs env late_threshold w).0 ≡ ok true)
      × IsSettled rs step (tick_next rs env late_threshold w).1
unfolding tick_next
tick_next-IsSettled rs env late step w w1 h = rw h (refl, process-IsSettled rs step env late w1)
