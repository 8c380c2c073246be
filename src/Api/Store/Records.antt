-- ===== src/Api/Store/Records.antt =====
-- The records of internal/controlplane/api/telemetry_store.go, with OperationLog and LogFilters of
-- types.go beside it, OperationOutcome and StreamInfo of internal/types/outcome.go and
-- OperationResult of internal/analysis/aggregator.go. Counts, latencies, times and indices are not
-- negative, and a limit that is not positive is zero.
use mcpdrill.Prelude.{ℕ, List, [], Bool, true, false, Option, none, some, Str, Dict}

pub record StreamInfo : Type 0 where
  pub is_streaming : Bool
  pub events_count : ℕ
  pub ended_normally : Bool
  pub stalled : Bool
  pub stall_duration_ms : ℕ

pub record OperationOutcome : Type 0 where
  pub op_id : Str
  pub operation : Str
  pub tool_name : Str
  pub latency_ms : ℕ
  pub ok : Bool
  pub error_type : Str
  pub error_code : Str
  pub http_status : ℕ
  pub timestamp_ms : ℕ
  pub stream : Option StreamInfo
  pub worker_id : Str
  pub execution_id : Str
  pub stage : Str
  pub stage_id : Str
  pub vu_id : Str
  pub session_id : Str
  pub token_index : Option ℕ

pub record OperationResult : Type 0 where
  pub operation : Str
  pub tool_name : Str
  pub latency_ms : ℕ
  pub ok : Bool
  pub error_type : Str
  pub session_id : Str

pub record OperationLog : Type 0 where
  pub timestamp_ms : ℕ
  pub run_id : Str
  pub execution_id : Str
  pub stage : Str
  pub stage_id : Str
  pub worker_id : Str
  pub vu_id : Str
  pub session_id : Str
  pub operation : Str
  pub tool_name : Str
  pub latency_ms : ℕ
  pub ok : Bool
  pub error_type : Str
  pub error_code : Str
  pub stream : Option StreamInfo
  pub token_index : Option ℕ

pub record LogFilters : Type 0 where
  pub stage : Str
  pub stage_id : Str
  pub worker_id : Str
  pub vu_id : Str
  pub session_id : Str
  pub operation : Str
  pub tool_name : Str
  pub error_type : Str
  pub error_code : Str
  pub token_index : Option ℕ
  pub limit : ℕ
  pub offset : ℕ
  pub order : Str

-- A limit of zero is none.
pub record TelemetryStoreConfig : Type 0 where
  pub max_operations_per_run : ℕ
  pub max_logs_per_run : ℕ
  pub max_total_runs : ℕ

abbrev pub default_telemetry_store_config : TelemetryStoreConfig
default_telemetry_store_config = record {
  max_operations_per_run = 20000000;
  max_logs_per_run = 20000000;
  max_total_runs = 100;
}

pub record RunTelemetry : Type 0 where
  pub run_id : Str
  pub scenario_id : Str
  pub start_time_ms : ℕ
  pub end_time_ms : ℕ
  pub stop_reason : Str
  pub operations : List OperationResult
  pub logs : List OperationLog
  pub logs_sorted : Bool
  pub operations_truncated : Bool
  pub logs_truncated : Bool

pub record TelemetryStore : Type 0 where
  pub config : TelemetryStoreConfig
  pub runs : Dict RunTelemetry
  pub run_order : List Str

unfoldable pub new_telemetry_store : Option TelemetryStoreConfig → TelemetryStore
new_telemetry_store none = record {
  config = default_telemetry_store_config;
  runs = [];
  run_order = [];
}
new_telemetry_store (some c) = record { config = c; runs = []; run_order = [] }

-- The entry that a run starts with.
unfoldable pub new_run_telemetry : Str → RunTelemetry
new_run_telemetry id = record {
  run_id = id;
  scenario_id = [];
  start_time_ms = 0;
  end_time_ms = 0;
  stop_reason = [];
  operations = [];
  logs = [];
  logs_sorted = true;
  operations_truncated = false;
  logs_truncated = false;
}
