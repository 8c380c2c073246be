-- ===== src/Api/Store/Histories.antt =====
-- Calls of the store in any order.
use mcpdrill.Prelude.{List, [], ◌∷◌, Str}
use mcpdrill.Api.Store.Records.{OperationOutcome, OperationLog, TelemetryStore}
use mcpdrill.Api.Store.Batches.{
  add_telemetry_batch, add_telemetry_batch_with_context, set_run_metadata, delete_run,
}

pub data Call : Type 0 where
  add_batch : Str → List OperationOutcome → Call
  add_in_context : Str → List OperationOutcome → Str → Str → Str → Str → Call
  set_metadata : Str → Str → Str → Call
  delete : Str → Call

unfoldable pub apply :
    (List OperationLog → List OperationLog) → Call → TelemetryStore → TelemetryStore
unfolding add_telemetry_batch add_telemetry_batch_with_context set_run_metadata delete_run
apply sort (add_batch id os) s = add_telemetry_batch sort id os s
apply sort (add_in_context id os worker_id stage stage_id vu_id) s =
    add_telemetry_batch_with_context sort id os worker_id stage stage_id vu_id s
apply sort (set_metadata id scenario_id stop_reason) s =
    set_run_metadata id scenario_id stop_reason s
apply sort (delete id) s = delete_run id s

unfoldable pub run_calls :
    (List OperationLog → List OperationLog) → List Call → TelemetryStore → TelemetryStore
unfolding apply
run_calls sort [] s = s
run_calls sort (c ∷ cs) s = run_calls sort cs (apply sort c s)
