-- ===== src/Runs/Queries/StopNotices.antt =====
-- Which workers are told to stop a run.
use mcpdrill.Prelude.{
  ℕ, ◌≡◌, refl, ap, sym, subst, ◌∙◌, inl, inr, Str-cases, List, [], ◌∷◌, Bool, true, false, ◌&&◌,
  ◌||◌, Option, none, some, arith, Str, str_eq, lookup, values, Bool-cases,
}
use mcpdrill.Scheduler.Types.{Lease}
use mcpdrill.Scheduler.Leases.{
  LeaseManager, list_worker_run_ids, run_ids_of, add_to_set, mem, of_worker, is_active,
}
use mcpdrill.Runs.States.{
  RunState, created, preflight_running, preflight_passed, preflight_failed, baseline_running,
  ramp_running, soak_running, stopping, analyzing, completed, failed, aborted, StopMode, StopReason,
}
use mcpdrill.Runs.EventLog.{Evidence}
use mcpdrill.Runs.Manager.{RunManager, RunRecord, RunError}
use mcpdrill.Runs.Stop.{request_stop_with_reason}
use mcpdrill.Runs.Stop.Outcomes.{request_stop-StopResult, Stopped, stop_answer}
use mcpdrill.Runs.Queries.{ending_run, is_ending, runs_that, list_stopping_runs_for_worker}

-- Does the worker have an active lease in the run?
abbrev pub holds_lease : Str → Str → List Lease → Bool
holds_lease worker_id run_id [] = false
holds_lease worker_id run_id (l ∷ ls) =
    (of_worker worker_id l && is_active l.state && str_eq l.assignment.run_id run_id)
    || holds_lease worker_id run_id ls

mem-add_to_set : (x y : Str) (s : List Str) → mem y (add_to_set x s) ≡ (str_eq x y || mem y s)
unfolding mem add_to_set
mem-add_to_set x y s = elim (Bool-cases (mem x s)) [
  | inl old ↦ elim (Str-cases x y) [
    | inl (same, e) ↦ rw (old, e) (subst (λ z. mem z s ≡ true) same old)
    | inr e ↦ rw (old, e) refl
  ]
  | inr new ↦ rw new refl
]

mem-run_ids_of : (w id : Str) (ls : List Lease) → mem id (run_ids_of w ls) ≡ holds_lease w id ls
unfolding mem run_ids_of
mem-run_ids_of w id [] = refl
mem-run_ids_of w id (l ∷ ls) =
    ground (arith, mem-run_ids_of w id ls, mem-add_to_set l.assignment.run_id id (run_ids_of w ls))

and_false : (b : Bool) → (b && false) ≡ false
and_false b = ground arith

mem-runs_that :
    (p : Option RunRecord → Bool) (rm : RunManager) (id : Str) (ids : List Str)
    → mem id (runs_that p rm ids) ≡ (mem id ids && p (lookup id rm.runs))
unfolding mem runs_that
mem-runs_that p rm id [] = refl
mem-runs_that p rm id (j ∷ ids) = elim (Bool-cases (p (lookup j rm.runs))) [
  | inl in_it ↦ rw in_it (elim (Str-cases j id) [
    | inl (same, e) ↦ rw e (subst (λ k. true ≡ p (lookup k rm.runs)) same (sym in_it))
    | inr e ↦ rw e (mem-runs_that p rm id ids)
  ])
  | inr out ↦ rw out (elim (Str-cases j id) [
    | inl (same, e) ↦ rw e (
        mem-runs_that p rm id ids
        ∙ subst (λ k. (mem k ids && p (lookup k rm.runs)) ≡ p (lookup k rm.runs)) same
            (rw out (and_false (mem j ids))))
    | inr e ↦ rw e (mem-runs_that p rm id ids)
  ])
]

pub mem-list_stopping_runs_for_worker :
    (rm : RunManager) (lm : LeaseManager) (w id : Str)
    → mem id (list_stopping_runs_for_worker rm (some lm) w)
      ≡ (holds_lease w id (values lm.leases) && ending_run (lookup id rm.runs))
unfolding list_stopping_runs_for_worker list_worker_run_ids
mem-list_stopping_runs_for_worker rm lm w id =
    mem-runs_that ending_run rm id (run_ids_of w (values lm.leases))
    ∙ ap (λ b. b && ending_run (lookup id rm.runs)) (mem-run_ids_of w id (values lm.leases))

-- The states of a run whose workers are told to stop. A run that is analyzing is not among them.
abbrev pub is_told : RunState → Bool
is_told created = false
is_told preflight_running = false
is_told preflight_passed = false
is_told preflight_failed = false
is_told baseline_running = false
is_told ramp_running = false
is_told soak_running = false
is_told stopping = true
is_told analyzing = false
is_told completed = true
is_told failed = true
is_told aborted = true

is_ending-is_told : (s : RunState) → is_ending s ≡ is_told s
is_ending-is_told created = refl
is_ending-is_told preflight_running = refl
is_ending-is_told preflight_passed = refl
is_ending-is_told preflight_failed = refl
is_ending-is_told baseline_running = refl
is_ending-is_told ramp_running = refl
is_ending-is_told soak_running = refl
is_ending-is_told stopping = refl
is_ending-is_told analyzing = refl
is_ending-is_told completed = refl
is_ending-is_told failed = refl
is_ending-is_told aborted = refl

-- And the states in which its workers are told so once it was requested.
abbrev pub is_told_after : RunState → Bool
is_told_after created = false
is_told_after preflight_running = true
is_told_after preflight_passed = true
is_told_after preflight_failed = true
is_told_after baseline_running = true
is_told_after ramp_running = true
is_told_after soak_running = true
is_told_after stopping = true
is_told_after analyzing = false
is_told_after completed = true
is_told_after failed = true
is_told_after aborted = true

accepted_told : (s : RunState) → none ≡ stop_answer s → true ≡ is_told_after s
accepted_told created e = cc
accepted_told preflight_running e = refl
accepted_told preflight_passed e = refl
accepted_told preflight_failed e = refl
accepted_told baseline_running e = refl
accepted_told ramp_running e = refl
accepted_told soak_running e = refl
accepted_told stopping e = refl
accepted_told analyzing e = cc
accepted_told completed e = cc
accepted_told failed e = cc
accepted_told aborted e = cc

refused_told :
    (s : RunState) (why : RunError) → some why ≡ stop_answer s → is_ending s ≡ is_told_after s
refused_told created why e = refl
refused_told preflight_running why e = cc
refused_told preflight_passed why e = cc
refused_told preflight_failed why e = cc
refused_told baseline_running why e = cc
refused_told ramp_running why e = cc
refused_told soak_running why e = cc
refused_told stopping why e = cc
refused_told analyzing why e = refl
refused_told completed why e = refl
refused_told failed why e = refl
refused_told aborted why e = refl

told_after :
    (r r' : RunRecord) (why : StopReason) (answer : Option RunError)
    → answer ≡ stop_answer r.state
    → Stopped r why r' answer
    → is_ending r'.state ≡ is_told_after r.state
told_after r r' why none e h = ap is_ending h.0 ∙ accepted_told r.state e
told_after r r' why (some x) e h = ap is_ending h.0 ∙ refused_told r.state x e

-- A worker that asks is told to stop a run exactly if it has an active lease in it and the run is
-- stopping, completed, failed or aborted; while a run is analyzing no worker is told. A worker that
-- asks right after a stop request is told so exactly if it has an active lease in the run and the run
-- was not created or analyzing.
pub request_stop-mem :
    (rm : RunManager) (lm : LeaseManager) (id w : Str) (mode : StopMode) (actor reason : Str)
    (evidence : List Evidence) (now : ℕ) (r : RunRecord)
    → lookup id rm.runs ≡ some r
    → (mem id (list_stopping_runs_for_worker rm (some lm) w)
        ≡ (holds_lease w id (values lm.leases) && is_told r.state))
      × (mem id (
            list_stopping_runs_for_worker
              (request_stop_with_reason rm id mode actor reason evidence now).0
              (some lm)
              w)
          ≡ (holds_lease w id (values lm.leases) && is_told_after r.state))
request_stop-mem rm lm id w mode actor reason evidence now r found =
    let held = holds_lease w id (values lm.leases) in
    let (after, answer) = request_stop_with_reason rm id mode actor reason evidence now in
    let result = (request_stop-StopResult rm id mode actor reason evidence now r found).0 in
    let (r', there, stopped) = result.1 in
    let why : StopReason = record { mode = mode; reason = reason; actor = actor; at_ms = now } in
    (
      mem-list_stopping_runs_for_worker rm lm w id
          ∙ ap (λ o. held && ending_run o) found
          ∙ ap (λ b. held && b) (is_ending-is_told r.state),
      mem-list_stopping_runs_for_worker after lm w id
          ∙ ap (λ o. held && ending_run o) there
          ∙ ap (λ b. held && b) (told_after r r' why answer result.0 stopped),
    )
