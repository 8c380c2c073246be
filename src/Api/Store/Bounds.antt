-- ===== src/Api/Store/Bounds.antt =====
-- The entries of the store keep their limits, and their logs are in order.
use mcpdrill.Prelude.{
  ℕ, ◌≡◌, refl, sym, ap, subst, ◌∙◌, inr, List, [], ◌∷◌, true, Option, none, some, leb, ◌==◌,
  if_cases, length, map, All, arith, Str, str_eq, Dict, lookup, erase, update_at, values, All-erase,
}
use mcpdrill.Api.Store.Records.{
  OperationOutcome, OperationLog, TelemetryStoreConfig, RunTelemetry, TelemetryStore,
  new_telemetry_store, new_run_telemetry,
}
use mcpdrill.Api.Store.Batches.{
  is_full, add_operations, sort_logs, evict_oldest, evict_if_needed, register_run, create_unless,
  get_or_create_run_telemetry, with_run, add_telemetry_batch, add_telemetry_batch_with_context,
  set_run_metadata, delete_run, in_context,
}
use mcpdrill.Api.Store.Histories.{
  Call, add_batch, add_in_context, set_metadata, delete, apply, run_calls,
}
use mcpdrill.Api.Store.Entries.{is_sorted, Fits, IsBounded, add_operations-IsBounded}

-- Between calls the logs are in order.
abbrev pub IsKept : TelemetryStoreConfig → RunTelemetry → Type 0
IsKept c rt = IsBounded c rt × (is_sorted rt.logs ≡ true)

abbrev pub AreKept : TelemetryStoreConfig → Dict RunTelemetry → Type 0
AreKept c runs = All (IsKept c) (values runs)

-- What sort.Slice promises: the entries in order, and as many as before.
pub record Sorts (sort : List OperationLog → List OperationLog) : Type 0 where
  pub in_time : (ls : List OperationLog) → is_sorted (sort ls) ≡ true
  pub as_many : (ls : List OperationLog) → length (sort ls) ≡ length ls

AreKept-update_at :
    (c : TelemetryStoreConfig) (id : Str) (f : RunTelemetry → RunTelemetry) (m : Dict RunTelemetry)
    → ((rt : RunTelemetry) → IsKept c rt → IsKept c (f rt))
    → AreKept c m
    → AreKept c (update_at id f m)
AreKept-update_at c id f [] keeps a = tt
AreKept-update_at c id f ((j, rt) ∷ m) keeps a = (
  if_cases (IsKept c) (str_eq j id) (f rt) rt (λ here. keeps rt a.0) (λ there. a.0),
  AreKept-update_at c id f m keeps a.1,
)

new_run_telemetry-IsKept : (c : TelemetryStoreConfig) (id : Str) → IsKept c (new_run_telemetry id)
unfolding new_run_telemetry
new_run_telemetry-IsKept c id = (
  record {
    operations_fit = inr (omega arith);
    logs_fit = inr (omega arith);
    operations_cut = λ e. cc e;
    logs_cut = λ e. cc e;
    flag = refl;
  },
  refl,
)

evict_oldest-AreKept :
    (c : TelemetryStoreConfig) (limit : ℕ) (m : Dict RunTelemetry) (ids : List Str)
    → AreKept c m
    → AreKept c (evict_oldest limit m ids).0
unfolding evict_oldest
evict_oldest-AreKept c limit m [] a = a
evict_oldest-AreKept c limit m (id ∷ ids) a =
    if_cases (λ (r : Dict RunTelemetry × List Str). AreKept c r.0) (leb limit (length m))
      (evict_oldest limit (erase id m) ids) (m, id ∷ ids)
      (λ full. evict_oldest-AreKept c limit (erase id m) ids (All-erase (IsKept c) id m a))
      (λ room. a)

-- A store with the configuration `c` whose entries are kept.
pub record AllKept (c : TelemetryStoreConfig) (s : TelemetryStore) : Type 0 where
  pub same_config : s.config ≡ c
  pub kept : AreKept c s.runs

module _ (c : TelemetryStoreConfig) (s : TelemetryStore) (h : AllKept c s) where
  evict_if_needed-AllKept : AllKept c (evict_if_needed s)
  unfolding evict_if_needed
  evict_if_needed-AllKept =
      let limit = s.config.max_total_runs in
      let r = evict_oldest limit s.runs s.run_order in
      if_cases (AllKept c) (limit == 0) s (record s { runs = r.0; run_order = r.1 })
        (λ unlimited. h)
        (λ limited. record {
          same_config = h.same_config;
          kept = evict_oldest-AreKept c limit s.runs s.run_order h.kept;
        })

  register_run-AllKept : (id : Str) → AllKept c (register_run id s)
  unfolding register_run
  register_run-AllKept id = record {
    same_config = h.same_config;
    kept = (new_run_telemetry-IsKept c id, All-erase (IsKept c) id s.runs h.kept);
  }

  with_run-AllKept :
      (id : Str) (f : RunTelemetry → RunTelemetry)
      → ((rt : RunTelemetry) → IsKept c rt → IsKept c (f rt))
      → AllKept c (with_run id f s)
  unfolding with_run
  with_run-AllKept id f keeps = record {
    same_config = h.same_config;
    kept = AreKept-update_at c id f s.runs keeps h.kept;
  }

  delete_run-AllKept : (id : Str) → AllKept c (delete_run id s)
  unfolding delete_run
  delete_run-AllKept id = record {
    same_config = h.same_config;
    kept = All-erase (IsKept c) id s.runs h.kept;
  }

create_unless-AllKept :
    (c : TelemetryStoreConfig) (s : TelemetryStore) (id : Str) (o : Option RunTelemetry)
    → AllKept c s
    → AllKept c (create_unless o id s)
unfolding create_unless
create_unless-AllKept c s id (some rt) h = h
create_unless-AllKept c s id none h =
    register_run-AllKept c (evict_if_needed s) (evict_if_needed-AllKept c s h) id

module _ (sort : List OperationLog → List OperationLog) (sorts : Sorts sort)
    (c : TelemetryStoreConfig) where
  sort_logs-IsKept : (rt : RunTelemetry) → IsBounded c rt → IsKept c (sort_logs sort rt)
  unfolding sort_logs
  sort_logs-IsKept rt h =
      let as_many = sorts.as_many rt.logs in
      if_cases (IsKept c) rt.logs_sorted rt (record rt { logs = sort rt.logs; logs_sorted = true })
        (λ in_order. (h, sym h.flag ∙ in_order))
        (λ mixed. (
          record {
            operations_fit = h.operations_fit;
            logs_fit = subst (Fits c.max_logs_per_run) (sym as_many) h.logs_fit;
            operations_cut = h.operations_cut;
            logs_cut = λ e. ap (is_full c.max_logs_per_run) as_many ∙ h.logs_cut e;
            flag = sym (sorts.in_time rt.logs);
          },
          sorts.in_time rt.logs,
        ))

  batch-IsKept :
      (id : Str) (os : List OperationOutcome) (d : TelemetryStoreConfig)
      → d ≡ c
      → (rt : RunTelemetry) → IsKept c rt
      → IsKept c (sort_logs sort (add_operations d id os rt))
  batch-IsKept id os d same rt h = sort_logs-IsKept (add_operations d id os rt) (
      subst (λ d'. IsBounded c (add_operations d' id os rt)) (sym same)
        (add_operations-IsBounded c id os rt h.0))

  module _ (s : TelemetryStore) (h : AllKept c s) where
    update-AllKept :
        (id : Str) (f : RunTelemetry → RunTelemetry)
        → ((rt : RunTelemetry) → IsKept c rt → IsKept c (f rt))
        → AllKept c (with_run id f (get_or_create_run_telemetry id s))
    unfolding get_or_create_run_telemetry
    update-AllKept id f keeps =
        with_run-AllKept c (get_or_create_run_telemetry id s)
          (create_unless-AllKept c s id (lookup id s.runs) h) id f keeps

    apply-AllKept : (call : Call) → AllKept c (apply sort call s)
    unfolding apply add_telemetry_batch_with_context add_telemetry_batch set_run_metadata
    apply-AllKept (add_batch id os) =
        update-AllKept id _ (batch-IsKept id os s.config h.same_config)
    apply-AllKept (add_in_context id os worker_id stage stage_id vu_id) = update-AllKept id _ (
        batch-IsKept id (map (in_context worker_id stage stage_id vu_id) os) s.config h.same_config)
    apply-AllKept (set_metadata id scenario_id stop_reason) = update-AllKept id _ (λ rt k. (
      record {
        operations_fit = k.0.operations_fit;
        logs_fit = k.0.logs_fit;
        operations_cut = k.0.operations_cut;
        logs_cut = k.0.logs_cut;
        flag = k.0.flag;
      },
      k.1,
    ))
    apply-AllKept (delete id) = delete_run-AllKept c s h id

  run_calls-kept :
      (cs : List Call) (s : TelemetryStore) → AllKept c s → AllKept c (run_calls sort cs s)
  unfolding run_calls
  run_calls-kept [] s h = h
  run_calls-kept (call ∷ cs) s h = run_calls-kept cs (apply sort call s) (apply-AllKept s h call)

-- However the calls on a new store follow each other, if `sort` puts entries in order and loses none: no
-- entry of the store has more operations or more logs than its limit, if there is one; it says that it
-- was cut only if it is full; and its logs stand in the order of their times, as the queries take for
-- granted.
pub run_calls-AllKept :
    (sort : List OperationLog → List OperationLog) (c : TelemetryStoreConfig) (cs : List Call)
    → Sorts sort
    → AllKept c (run_calls sort cs (new_telemetry_store (some c)))
unfolding new_telemetry_store
run_calls-AllKept sort c cs sorts =
    run_calls-kept sort sorts c cs (new_telemetry_store (some c))
      (record { same_config = refl; kept = tt })
