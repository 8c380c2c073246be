-- ===== src/Api/Store/Examples.antt =====
-- The store of telemetry at concrete inputs.
use mcpdrill.Prelude.{
  ℕ, suc, ◌≡◌, refl, ap, ◌∙◌, List, [], ◌∷◌, Bool, true, false, ◌&&◌, none, some, leb,
  if◌then◌else◌, if_cases, length, take, drop, keep, arith, Str-discrete, codes,
}
use mcpdrill.Api.Store.Records.{
  OperationOutcome, OperationLog, LogFilters, TelemetryStoreConfig, RunTelemetry, TelemetryStore,
  new_telemetry_store, new_run_telemetry,
}
use mcpdrill.Api.Store.Batches.{log_of}
use mcpdrill.Api.Store.Queries.{query_logs, matches_filters, passes, passes_index, backwards}
use mcpdrill.Scheduler.Leases.{mem}
use mcpdrill.Api.Store.Histories.{Call, add_batch, set_metadata, run_calls}
use mcpdrill.Api.Store.Order.{IsQueue, queue_of, run_calls-IsQueue}
use mcpdrill.Api.Store.Entries.{is_sorted}
use mcpdrill.Api.Store.Bounds.{Sorts, AllKept, run_calls-AllKept}
use mcpdrill.Api.Store.Pages.{in_order, query_logs-page}

-- A sort that does what sort.Slice promises.
abbrev insert_log : OperationLog → List OperationLog → List OperationLog
insert_log x [] = x ∷ []
insert_log x (y ∷ ys) =
    if leb x.timestamp_ms y.timestamp_ms then x ∷ y ∷ ys else y ∷ insert_log x ys

abbrev insertion_sort : List OperationLog → List OperationLog
insertion_sort [] = []
insertion_sort (x ∷ xs) = insert_log x (insertion_sort xs)

length-insert_log :
    (x : OperationLog) (ys : List OperationLog) → length (insert_log x ys) ≡ suc (length ys)
length-insert_log x [] = refl
length-insert_log x (y ∷ ys) =
    if_cases (λ zs. length zs ≡ suc (suc (length ys))) (leb x.timestamp_ms y.timestamp_ms)
      (x ∷ y ∷ ys) (y ∷ insert_log x ys) (λ before. refl) (λ after. ap suc (length-insert_log x ys))

and_both : {a b : Bool} → a ≡ true → b ≡ true → (a && b) ≡ true
and_both h k = rw (h, k) refl

and_right : (a b : Bool) → (a && b) ≡ true → b ≡ true
and_right a b h = ground arith

and_left : (a b : Bool) → (a && b) ≡ true → a ≡ true
and_left a b h = ground arith

later_first : (n m : ℕ) → leb n m ≡ false → leb m n ≡ true
later_first n m h = ground arith

is_sorted-insert_log :
    (x : OperationLog) (ys : List OperationLog)
    → is_sorted ys ≡ true
    → is_sorted (insert_log x ys) ≡ true
is_sorted-insert_log x [] h = refl
is_sorted-insert_log x (y ∷ []) h =
    if_cases (λ zs. is_sorted zs ≡ true) (leb x.timestamp_ms y.timestamp_ms) (x ∷ y ∷ [])
      (y ∷ x ∷ []) (λ before. and_both before refl)
      (λ after. and_both (later_first x.timestamp_ms y.timestamp_ms after) refl)
is_sorted-insert_log x (y ∷ z ∷ zs) h =
    if_cases (λ ls. is_sorted ls ≡ true) (leb x.timestamp_ms y.timestamp_ms) (x ∷ y ∷ z ∷ zs)
      (y ∷ insert_log x (z ∷ zs)) (λ before. and_both before h)
      (λ after.
        if_cases (λ ls. is_sorted ls ≡ true → is_sorted (y ∷ ls) ≡ true)
          (leb x.timestamp_ms z.timestamp_ms) (x ∷ z ∷ zs) (z ∷ insert_log x zs)
          (λ between rest. and_both (later_first x.timestamp_ms y.timestamp_ms after) rest)
          (λ beyond rest. and_both (and_left _ _ h) rest)
          (is_sorted-insert_log x (z ∷ zs) (and_right _ _ h)))

insertion_sort-Sorts : Sorts insertion_sort
insertion_sort-Sorts = record { in_time = in_time; as_many = as_many }
  where
    in_time : (ls : List OperationLog) → is_sorted (insertion_sort ls) ≡ true
    in_time [] = refl
    in_time (x ∷ xs) = is_sorted-insert_log x (insertion_sort xs) (in_time xs)

    as_many : (ls : List OperationLog) → length (insertion_sort ls) ≡ length ls
    as_many [] = refl
    as_many (x ∷ xs) = length-insert_log x (insertion_sort xs) ∙ ap suc (as_many xs)

abbrev two_runs : TelemetryStoreConfig
two_runs = record { max_operations_per_run = 2; max_logs_per_run = 3; max_total_runs = 2 }

abbrev ping : ℕ → Bool → OperationOutcome
ping t ok = record {
  op_id = [];
  operation = codes "ping";
  tool_name = [];
  latency_ms = 5;
  ok = ok;
  error_type = [];
  error_code = [];
  http_status = 200;
  timestamp_ms = t;
  stream = none;
  worker_id = [];
  execution_id = [];
  stage = if ok then codes "steady" else codes "ramp";
  stage_id = [];
  vu_id = [];
  session_id = [];
  token_index = none;
}

-- The third run finds no room, and the first leaves; a batch for the second changes no order.
abbrev some_calls : List Call
some_calls =
    add_batch (codes "a") (ping 9 true ∷ [])
    ∷ add_batch (codes "b") (ping 7 true ∷ ping 3 true ∷ ping 5 false ∷ ping 4 true ∷ [])
    ∷ set_metadata (codes "c") (codes "scenario") []
    ∷ add_batch (codes "b") (ping 1 true ∷ [])
    ∷ []

run_calls-IsQueue_example :
    IsQueue 2
      (queue_of 2 some_calls [])
      (run_calls insertion_sort some_calls (new_telemetry_store (some two_runs)))
run_calls-IsQueue_example = run_calls-IsQueue insertion_sort two_runs some_calls

oldest_gone : queue_of 2 some_calls [] ≡ codes "b" ∷ codes "c" ∷ []
unfolding mem Str-discrete
oldest_gone = refl

run_calls-AllKept_example :
    AllKept two_runs (run_calls insertion_sort some_calls (new_telemetry_store (some two_runs)))
run_calls-AllKept_example =
    run_calls-AllKept insertion_sort two_runs some_calls insertion_sort-Sorts

abbrev kept_logs : List OperationLog
kept_logs =
    log_of (codes "b") (ping 3 true)
    ∷ log_of (codes "b") (ping 5 false)
    ∷ log_of (codes "b") (ping 7 true)
    ∷ []

abbrev kept_run : RunTelemetry
kept_run = record (new_run_telemetry (codes "b")) { logs = kept_logs }

abbrev one_run : TelemetryStore
one_run = record {
  config = two_runs;
  runs = (codes "b", kept_run) ∷ [];
  run_order = codes "b" ∷ [];
}

-- The latest entry but one of the stage.
abbrev steady_second : LogFilters
steady_second = record {
  stage = codes "steady";
  stage_id = [];
  worker_id = [];
  vu_id = [];
  session_id = [];
  operation = [];
  tool_name = [];
  error_type = [];
  error_code = [];
  token_index = none;
  limit = 5;
  offset = 1;
  order = codes "desc";
}

query_logs-page_example :
    query_logs (codes "b") steady_second one_run
    ≡ some (
      take 5 (drop 1 (keep (matches_filters steady_second) (in_order steady_second kept_logs))),
      length (keep (matches_filters steady_second) kept_logs),
    )
unfolding Str-discrete
query_logs-page_example = query_logs-page (codes "b") steady_second one_run kept_run refl

earliest_steady :
    take 5 (drop 1 (keep (matches_filters steady_second) (in_order steady_second kept_logs)))
    ≡ log_of (codes "b") (ping 3 true) ∷ []
unfolding Str-discrete matches_filters passes passes_index backwards log_of
earliest_steady = refl
