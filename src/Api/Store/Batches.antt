-- ===== src/Api/Store/Batches.antt =====
-- The calls of internal/controlplane/api/telemetry_store.go that change it. `sort` stands for
-- sort.Slice by the timestamps, which leaves open how entries with the same time follow each other.
use mcpdrill.Prelude.{
  ℕ, ◌++◌, List, [], ◌∷◌, Bool, true, ◌&&◌, ◌||◌, Option, none, some, ltb, leb, ◌==◌, if◌then◌else◌,
  length, map, Str, str_eq, Dict, lookup, erase, insert, update_at,
}
use mcpdrill.Api.Store.Records.{
  OperationOutcome, OperationResult, OperationLog, TelemetryStoreConfig, RunTelemetry,
  TelemetryStore, new_run_telemetry,
}

unfoldable pub is_full : ℕ → ℕ → Bool
is_full limit n = ltb 0 limit && leb limit n

unfoldable pub result_of : OperationOutcome → OperationResult
result_of o = record {
  operation = o.operation;
  tool_name = o.tool_name;
  latency_ms = o.latency_ms;
  ok = o.ok;
  error_type = o.error_type;
  session_id = o.session_id;
}

unfoldable pub log_of : Str → OperationOutcome → OperationLog
log_of id o = record {
  timestamp_ms = o.timestamp_ms;
  run_id = id;
  execution_id = o.execution_id;
  stage = o.stage;
  stage_id = o.stage_id;
  worker_id = o.worker_id;
  vu_id = o.vu_id;
  session_id = o.session_id;
  operation = o.operation;
  tool_name = o.tool_name;
  latency_ms = o.latency_ms;
  ok = o.ok;
  error_type = o.error_type;
  error_code = o.error_code;
  stream = o.stream;
  token_index = o.token_index;
}

-- Whether an entry is not earlier than the last one.
abbrev pub follows : List OperationLog → OperationLog → Bool
follows [] l = true
follows (x ∷ []) l = leb x.timestamp_ms l.timestamp_ms
follows (x ∷ y ∷ ys) l = follows (y ∷ ys) l

unfoldable pub widen_times : ℕ → RunTelemetry → RunTelemetry
widen_times t rt = record rt {
  start_time_ms = if rt.start_time_ms == 0 || ltb t rt.start_time_ms then t else rt.start_time_ms;
  end_time_ms = if ltb rt.end_time_ms t then t else rt.end_time_ms;
}

unfoldable pub add_result : ℕ → OperationOutcome → RunTelemetry → RunTelemetry
unfolding is_full result_of
add_result limit o rt =
    if is_full limit (length rt.operations)
    then record rt { operations_truncated = true }
    else record rt { operations = rt.operations ++ (result_of o ∷ []) }

unfoldable pub add_log : ℕ → Str → OperationOutcome → RunTelemetry → RunTelemetry
unfolding is_full log_of
add_log limit id o rt =
    if is_full limit (length rt.logs) then record rt { logs_truncated = true } else record rt {
      logs = rt.logs ++ (log_of id o ∷ []);
      logs_sorted = rt.logs_sorted && follows rt.logs (log_of id o);
    }

unfoldable pub add_operations :
    TelemetryStoreConfig → Str → List OperationOutcome → RunTelemetry → RunTelemetry
unfolding widen_times add_result add_log
add_operations c id [] rt = rt
add_operations c id (o ∷ os) rt =
    let timed = widen_times o.timestamp_ms rt in
    let counted = add_result c.max_operations_per_run o timed in
    add_operations c id os (add_log c.max_logs_per_run id o counted)

unfoldable pub sort_logs : (List OperationLog → List OperationLog) → RunTelemetry → RunTelemetry
sort_logs sort rt =
    if rt.logs_sorted then rt else record rt { logs = sort rt.logs; logs_sorted = true }

-- The loop that evicts the oldest runs.
unfoldable pub evict_oldest : ℕ → Dict RunTelemetry → List Str → Dict RunTelemetry × List Str
evict_oldest limit runs [] = (runs, [])
evict_oldest limit runs (id ∷ ids) =
    let rest = evict_oldest limit (erase id runs) ids in
    if leb limit (length runs) then rest else (runs, id ∷ ids)

unfoldable pub evict_if_needed : TelemetryStore → TelemetryStore
unfolding evict_oldest
evict_if_needed s =
    let r = evict_oldest s.config.max_total_runs s.runs s.run_order in
    if s.config.max_total_runs == 0 then s else record s { runs = r.0; run_order = r.1 }

unfoldable pub register_run : Str → TelemetryStore → TelemetryStore
register_run id s = record s {
  runs = insert id (new_run_telemetry id) s.runs;
  run_order = s.run_order ++ (id ∷ []);
}

-- By what the map says of the run.
unfoldable pub create_unless : Option RunTelemetry → Str → TelemetryStore → TelemetryStore
unfolding evict_if_needed register_run new_run_telemetry
create_unless (some rt) id s = s
create_unless none id s = register_run id (evict_if_needed s)

-- The entry stands in the store after it, and its callers change it there.
unfoldable pub get_or_create_run_telemetry : Str → TelemetryStore → TelemetryStore
unfolding create_unless
get_or_create_run_telemetry id s = create_unless (lookup id s.runs) id s

-- A change of the entry of a run, in place.
unfoldable pub with_run : Str → (RunTelemetry → RunTelemetry) → TelemetryStore → TelemetryStore
with_run id f s = record s { runs = update_at id f s.runs }

unfoldable pub add_telemetry_batch :
    (List OperationLog → List OperationLog)
    → Str
    → List OperationOutcome
    → TelemetryStore
    → TelemetryStore
unfolding get_or_create_run_telemetry with_run sort_logs add_operations
add_telemetry_batch sort id os s =
    with_run id (λ rt. sort_logs sort (add_operations s.config id os rt))
      (get_or_create_run_telemetry id s)

unfoldable pub or_else : Str → Str → Str
or_else [] d = d
or_else (c ∷ cs) d = c ∷ cs

unfoldable pub in_context : Str → Str → Str → Str → OperationOutcome → OperationOutcome
unfolding or_else
in_context worker_id stage stage_id vu_id o = record o {
  worker_id = or_else o.worker_id worker_id;
  stage = or_else o.stage stage;
  stage_id = or_else o.stage_id stage_id;
  vu_id = or_else o.vu_id vu_id;
}

unfoldable pub add_telemetry_batch_with_context :
    (List OperationLog → List OperationLog)
    → Str
    → List OperationOutcome
    → Str
    → Str
    → Str
    → Str
    → TelemetryStore
    → TelemetryStore
unfolding add_telemetry_batch in_context
add_telemetry_batch_with_context sort id os worker_id stage stage_id vu_id s =
    add_telemetry_batch sort id (map (in_context worker_id stage stage_id vu_id) os) s

unfoldable pub set_run_metadata : Str → Str → Str → TelemetryStore → TelemetryStore
unfolding get_or_create_run_telemetry with_run or_else
set_run_metadata id scenario_id stop_reason s =
    with_run id
      (λ rt. record rt {
        scenario_id = or_else scenario_id rt.scenario_id;
        stop_reason = or_else stop_reason rt.stop_reason;
      })
      (get_or_create_run_telemetry id s)

-- The loop that takes a run out of the order, where it stands first.
unfoldable pub remove_first : Str → List Str → List Str
remove_first id [] = []
remove_first id (j ∷ js) = if str_eq j id then js else j ∷ remove_first id js

unfoldable pub delete_run : Str → TelemetryStore → TelemetryStore
unfolding remove_first
delete_run id s = record s { runs = erase id s.runs; run_order = remove_first id s.run_order }
