-- ===== src/Worker/Shipper/Histories.antt =====
-- The shipper through any history of its steps.
use mcpdrill.Prelude.{
  ◌+◌, ◌≡◌, refl, sym, ap, ◌∙◌, ◌++◌, List, [], ◌∷◌, false, append_nil, append_assoc, arith, Str,
}
use mcpdrill.Worker.Shipper.{
  Answers, TelemetryShipper, Step, step, run_steps, new_telemetry_shipper,
}
use mcpdrill.Worker.Shipper.Kept.{records_of}
use mcpdrill.Worker.Shipper.Ships.{taken_of, accepted_of, refused, IsSound}
use mcpdrill.Worker.Shipper.Steps.{step-IsSound, step-records_of, step-refusal}

-- What a history from `s` to `s'` does with what it is given.
pub record Accounts (accepts : Answers) (ts : List Step) (s s' : TelemetryShipper) : Type 0 where
  pub records : (r : Str) → records_of r s' ≡ records_of r s ++ accepted_of accepts r ts s
  pub dropped : s'.dropped_count ≡ s.dropped_count + refused accepts ts s
  pub sound : IsSound s'

pub run_steps-Accounts :
    (accepts : Answers) (ts : List Step) (s : TelemetryShipper)
    → IsSound s
    → Accounts accepts ts s (run_steps accepts ts s)
unfolding run_steps
run_steps-Accounts accepts [] s h = record {
  records = λ r. sym (append_nil (records_of r s));
  dropped = omega arith;
  sound = h;
}
run_steps-Accounts accepts (t ∷ ts) s h =
    let s' = step accepts t s in
    let later = run_steps-Accounts accepts ts s' (step-IsSound accepts s h t) in
    record {
      records = λ r.
          later.records r
          ∙ ap (λ x. x ++ accepted_of accepts r ts s') (step-records_of accepts s h r t)
          ∙ append_assoc (records_of r s) (taken_of r t s) (accepted_of accepts r ts s');
      dropped = omega (arith, later.dropped, step-refusal accepts t s h);
      sound = later.sound;
    }

pub new_telemetry_shipper-IsSound : IsSound new_telemetry_shipper
new_telemetry_shipper-IsSound = record {
  keyed = tt;
  shuts = λ e. cc e;
  calm = refl;
  flushed = λ e. refl;
  emptied = λ e d. cc e;
}

-- Through any history of a new shipper, of its clients, of its `Close`, of the ticks and of the end of
-- its context in any order, and whatever the control plane answers: the records of each run that it
-- posted, then those of the run's batch, then those in the buffer are the records of the run that it
-- took, each once and in the order of the calls; it counts each record that it refused as dropped; and
-- no call sends to the closed buffer, which would panic.
pub run_steps-kept :
    (accepts : Answers) (ts : List Step) (r : Str)
    → (records_of r (run_steps accepts ts new_telemetry_shipper)
        ≡ accepted_of accepts r ts new_telemetry_shipper)
      × ((run_steps accepts ts new_telemetry_shipper).dropped_count
          ≡ refused accepts ts new_telemetry_shipper)
      × ((run_steps accepts ts new_telemetry_shipper).panicked ≡ false)
run_steps-kept accepts ts r =
    let all = run_steps-Accounts accepts ts new_telemetry_shipper new_telemetry_shipper-IsSound in
    (all.records r, omega (arith, all.dropped), all.sound.calm)
