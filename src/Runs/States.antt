-- ===== src/Runs/States.antt =====
-- internal/controlplane/runmanager: types.go, state_machine.go and the stop reasons of manager.go.
use mcpdrill.Prelude.{
  ℕ, ◌==◌, Bool, true, false, ◌≡◌, refl, sym, ap, ◌∙◌, Str, if◌then◌else◌, arith,
}

pub data RunState : Type 0 where
  created : RunState
  preflight_running : RunState
  preflight_passed : RunState
  preflight_failed : RunState
  baseline_running : RunState
  ramp_running : RunState
  soak_running : RunState
  stopping : RunState
  analyzing : RunState
  completed : RunState
  failed : RunState
  aborted : RunState

-- The table `allowedTransitions`.
abbrev pub can_transition : RunState → RunState → Bool
can_transition created preflight_running = true
can_transition created failed = true
can_transition created aborted = true
can_transition preflight_running preflight_passed = true
can_transition preflight_running preflight_failed = true
can_transition preflight_running stopping = true
can_transition preflight_failed stopping = true
can_transition preflight_passed baseline_running = true
can_transition preflight_passed stopping = true
can_transition baseline_running ramp_running = true
can_transition baseline_running stopping = true
can_transition ramp_running soak_running = true
can_transition ramp_running stopping = true
can_transition soak_running stopping = true
can_transition stopping analyzing = true
can_transition stopping stopping = true
can_transition analyzing completed = true
can_transition analyzing failed = true
can_transition analyzing aborted = true
can_transition _ _ = false

abbrev code_of : RunState → ℕ
code_of created = 0
code_of preflight_running = 1
code_of preflight_passed = 2
code_of preflight_failed = 3
code_of baseline_running = 4
code_of ramp_running = 5
code_of soak_running = 6
code_of stopping = 7
code_of analyzing = 8
code_of completed = 9
code_of failed = 10
code_of aborted = 11

-- `==` on states.
abbrev pub same_state : RunState → RunState → Bool
same_state s t = code_of s == code_of t

state_at : ℕ → RunState
state_at n =
    if n == 0
    then created
    else if n == 1
    then preflight_running
    else if n == 2
    then preflight_passed
    else if n == 3
    then preflight_failed
    else if n == 4
    then baseline_running
    else if n == 5
    then ramp_running
    else if n == 6
    then soak_running
    else if n == 7
    then stopping
    else if n == 8
    then analyzing
    else if n == 9
    then completed
    else if n == 10
    then failed
    else aborted

state_at-code_of : (s : RunState) → state_at (code_of s) ≡ s
unfolding state_at
state_at-code_of created = refl
state_at-code_of preflight_running = refl
state_at-code_of preflight_passed = refl
state_at-code_of preflight_failed = refl
state_at-code_of baseline_running = refl
state_at-code_of ramp_running = refl
state_at-code_of soak_running = refl
state_at-code_of stopping = refl
state_at-code_of analyzing = refl
state_at-code_of completed = refl
state_at-code_of failed = refl
state_at-code_of aborted = refl

pub same_state_sound : (s t : RunState) → same_state s t ≡ true → s ≡ t
same_state_sound s t e =
    let codes_agree : code_of s ≡ code_of t = ground arith in
    sym (state_at-code_of s) ∙ ap state_at codes_agree ∙ state_at-code_of t

-- The test that the stop requests begin with.
abbrev pub is_terminal : RunState → Bool
is_terminal completed = true
is_terminal failed = true
is_terminal aborted = true
is_terminal _ = false

abbrev pub is_running_state : RunState → Bool
is_running_state preflight_running = true
is_running_state baseline_running = true
is_running_state ramp_running = true
is_running_state soak_running = true
is_running_state _ = false

pub data StopMode : Type 0 where
  drain : StopMode
  immediate : StopMode

pub record StopReason : Type 0 where
  pub mode : StopMode
  pub reason : Str
  pub actor : Str
  pub at_ms : ℕ

pub data StageName : Type 0 where
  preflight : StageName
  baseline : StageName
  ramp : StageName
  soak : StageName
  spike : StageName
  custom : StageName

pub record ActiveStageInfo : Type 0 where
  pub stage : StageName
  pub stage_id : Str
