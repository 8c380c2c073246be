-- ===== src/Api/Store/Queries.antt =====
-- The queries of internal/controlplane/api/telemetry_store.go. The error of a run that the store
-- does not have is none.
use mcpdrill.Prelude.{
  ℕ, suc, ◌+◌, ◌-◌, ◌++◌, List, [], ◌∷◌, Bool, true, false, not, ◌&&◌, Option, none, some, ltb, leb,
  ◌==◌, if◌then◌else◌, length, Str, str_eq, codes, Dict, lookup,
}
use mcpdrill.Api.Store.Records.{
  OperationResult, OperationLog, LogFilters, RunTelemetry, TelemetryStore,
}

-- A filter that is empty lets everything pass.
unfoldable pub passes : Str → Str → Bool
passes [] s = true
passes (c ∷ cs) s = str_eq s (c ∷ cs)

unfoldable pub passes_index : Option ℕ → Option ℕ → Bool
passes_index none i = true
passes_index (some n) none = false
passes_index (some n) (some i) = i == n

unfoldable pub matches_filters : LogFilters → OperationLog → Bool
unfolding passes passes_index
matches_filters f l =
    passes f.stage l.stage
    && passes f.stage_id l.stage_id
    && passes f.worker_id l.worker_id
    && passes f.vu_id l.vu_id
    && passes f.session_id l.session_id
    && passes f.operation l.operation
    && passes f.tool_name l.tool_name
    && passes f.error_type l.error_type
    && passes f.error_code l.error_code
    && passes_index f.token_index l.token_index

unfoldable pub count_matches : LogFilters → List OperationLog → ℕ
unfolding matches_filters
count_matches f [] = 0
count_matches f (l ∷ ls) =
    if matches_filters f l then suc (count_matches f ls) else count_matches f ls

-- The loop that collects a page of `size`, by the matches met so far and the result so far.
unfoldable pub collect :
    LogFilters → ℕ → ℕ → List OperationLog → List OperationLog → List OperationLog
unfolding matches_filters
collect f size matched result [] = result
collect f size matched result (l ∷ ls) =
    let result' =
      if leb f.offset matched && ltb (length result) size then result ++ (l ∷ []) else result in
    let skipped = collect f size matched result ls in
    let rest = collect f size (suc matched) result' ls in
    if not (matches_filters f l)
    then skipped
    else if leb size (length result')
    then result'
    else rest

-- From the last entry to the first.
unfoldable pub backwards : List OperationLog → List OperationLog
backwards [] = []
backwards (l ∷ ls) = backwards ls ++ (l ∷ [])

unfoldable pub page_of : LogFilters → List OperationLog → List OperationLog × ℕ
unfolding count_matches collect backwards
page_of f logs =
    let count = count_matches f logs in
    let end : ℕ = if ltb count (f.offset + f.limit) then count else f.offset + f.limit in
    let size = end - f.offset in
    if leb count f.offset
    then ([], count)
    else if str_eq f.order (codes "asc")
    then (collect f size 0 [] logs, count)
    else (collect f size 0 [] (backwards logs), count)

unfoldable pub page_if_known : LogFilters → Option RunTelemetry → Option (List OperationLog × ℕ)
unfolding page_of
page_if_known f none = none
page_if_known f (some rt) = some (page_of f rt.logs)

unfoldable pub query_logs : Str → LogFilters → TelemetryStore → Option (List OperationLog × ℕ)
unfolding page_if_known
query_logs id f s = page_if_known f (lookup id s.runs)

pub record TelemetryData : Type 0 where
  pub run_id : Str
  pub scenario_id : Str
  pub start_time_ms : ℕ
  pub end_time_ms : ℕ
  pub stop_reason : Str
  pub operations : List OperationResult

unfoldable pub data_of : RunTelemetry → TelemetryData
data_of rt = record {
  run_id = rt.run_id;
  scenario_id = rt.scenario_id;
  start_time_ms = rt.start_time_ms;
  end_time_ms = rt.end_time_ms;
  stop_reason = rt.stop_reason;
  operations = rt.operations;
}

-- An answer about a run that the store has, and another if it does not.
unfoldable pub of_run {ℓ} : {A : Type ℓ} → A → (RunTelemetry → A) → Option RunTelemetry → A
of_run d f none = d
of_run d f (some rt) = f rt

unfoldable pub get_telemetry_data : Str → TelemetryStore → Option TelemetryData
unfolding of_run data_of
get_telemetry_data id s = of_run none (λ rt. some (data_of rt)) (lookup id s.runs)

unfoldable pub get_operation_count : Str → TelemetryStore → ℕ
unfolding of_run
get_operation_count id s = of_run 0 (λ rt. length rt.operations) (lookup id s.runs)

unfoldable pub has_run : Str → TelemetryStore → Bool
unfolding of_run
has_run id s = of_run false (λ rt. true) (lookup id s.runs)

unfoldable pub run_count : TelemetryStore → ℕ
run_count s = length s.runs

-- The operations first, then the logs.
unfoldable pub is_truncated : Str → TelemetryStore → Bool × Bool
unfolding of_run
is_truncated id s =
    of_run (false, false) (λ rt. (rt.operations_truncated, rt.logs_truncated)) (lookup id s.runs)

-- The ends of the runs, by their ids.
unfoldable pub list_runs_for_retention : Dict RunTelemetry → List (Str × ℕ)
list_runs_for_retention [] = []
list_runs_for_retention ((id, rt) ∷ m) = (id, rt.end_time_ms) ∷ list_runs_for_retention m

pub record ErrorLog : Type 0 where
  pub timestamp_ms : ℕ
  pub operation : Str
  pub tool_name : Str
  pub error_type : Str

unfoldable pub errors_in : List OperationLog → List ErrorLog
errors_in [] = []
errors_in (l ∷ ls) =
    let entry : ErrorLog = record {
      timestamp_ms = l.timestamp_ms;
      operation = l.operation;
      tool_name = l.tool_name;
      error_type = l.error_type;
    } in
    if l.ok then errors_in ls else entry ∷ errors_in ls

unfoldable pub get_error_logs : Str → TelemetryStore → Option (List ErrorLog)
unfolding of_run errors_in
get_error_logs id s = of_run none (λ rt. some (errors_in rt.logs)) (lookup id s.runs)
