-- ===== src/Api/Store/Entries.antt =====
-- An entry of the store keeps its limits while a batch is added to it.
use mcpdrill.Prelude.{
  ℕ, ◌+◌, ◌≤◌, ◌≡◌, refl, sym, ap, subst, ◌∙◌, ◌⊎◌, inl, inr, ◌++◌, List, [], ◌∷◌, Bool, true,
  false, ◌&&◌, leb, ◌==◌, if_cases, Bool-cases, length, length-append, arith, Str,
}
use mcpdrill.Api.Store.Records.{OperationOutcome, OperationLog, TelemetryStoreConfig, RunTelemetry}
use mcpdrill.Api.Store.Batches.{
  is_full, log_of, result_of, follows, widen_times, add_result, add_log, add_operations,
}

-- Whether logs stand in the order of their times.
abbrev pub is_sorted : List OperationLog → Bool
is_sorted [] = true
is_sorted (x ∷ []) = true
is_sorted (x ∷ y ∷ ys) = leb x.timestamp_ms y.timestamp_ms && is_sorted (y ∷ ys)

and_assoc : (a b c : Bool) → ((a && b) && c) ≡ (a && (b && c))
and_assoc a b c = ground arith

is_sorted-append :
    (ls : List OperationLog) (l : OperationLog)
    → is_sorted (ls ++ (l ∷ [])) ≡ (is_sorted ls && follows ls l)
is_sorted-append [] l = refl
is_sorted-append (x ∷ []) l = ground arith
is_sorted-append (x ∷ y ∷ ys) l =
    ap (λ b. leb x.timestamp_ms y.timestamp_ms && b) (is_sorted-append (y ∷ ys) l)
    ∙ sym (and_assoc (leb x.timestamp_ms y.timestamp_ms) (is_sorted (y ∷ ys)) (follows (y ∷ ys) l))

-- A limit of zero is none.
abbrev pub Fits : ℕ → ℕ → Type 0
Fits limit n = (limit ≡ 0) ⊎ (n ≤ limit)

is_full-Fits : (limit n : ℕ) → is_full limit n ≡ false → Fits limit (n + 1)
unfolding is_full
is_full-Fits limit n h = elim (Bool-cases (limit == 0)) [
  | inl unlimited ↦ inl (ground (arith, unlimited))
  | inr limited ↦ inr (ground (arith, h, limited))
]

-- An entry within its limits, which is cut only if it is full, and knows whether its logs are in order.
pub record IsBounded (c : TelemetryStoreConfig) (rt : RunTelemetry) : Type 0 where
  pub operations_fit : Fits c.max_operations_per_run (length rt.operations)
  pub logs_fit : Fits c.max_logs_per_run (length rt.logs)
  pub operations_cut :
      rt.operations_truncated ≡ true
      → is_full c.max_operations_per_run (length rt.operations) ≡ true
  pub logs_cut : rt.logs_truncated ≡ true → is_full c.max_logs_per_run (length rt.logs) ≡ true
  pub flag : rt.logs_sorted ≡ is_sorted rt.logs

module _ (c : TelemetryStoreConfig) (rt : RunTelemetry) (h : IsBounded c rt) where
  widen_times-IsBounded : (t : ℕ) → IsBounded c (widen_times t rt)
  unfolding widen_times
  widen_times-IsBounded t = record {
    operations_fit = h.operations_fit;
    logs_fit = h.logs_fit;
    operations_cut = h.operations_cut;
    logs_cut = h.logs_cut;
    flag = h.flag;
  }

  add_result-IsBounded :
      (o : OperationOutcome) → IsBounded c (add_result c.max_operations_per_run o rt)
  unfolding add_result
  add_result-IsBounded o =
      let limit = c.max_operations_per_run in
      let n = length rt.operations in
      let ops = rt.operations ++ (result_of o ∷ []) in
      if_cases (IsBounded c) (is_full limit n) (record rt { operations_truncated = true })
        (record rt { operations = ops })
        (λ full. record {
          operations_fit = h.operations_fit;
          logs_fit = h.logs_fit;
          operations_cut = λ e. full;
          logs_cut = h.logs_cut;
          flag = h.flag;
        })
        (λ room. record {
          operations_fit =
              subst (Fits limit) (sym (length-append rt.operations (result_of o ∷ [])))
                (is_full-Fits limit n room);
          logs_fit = h.logs_fit;
          operations_cut = λ e. cc (h.operations_cut e, room);
          logs_cut = h.logs_cut;
          flag = h.flag;
        })

  add_log-IsBounded :
      (id : Str) (o : OperationOutcome) → IsBounded c (add_log c.max_logs_per_run id o rt)
  unfolding add_log
  add_log-IsBounded id o =
      let limit = c.max_logs_per_run in
      let n = length rt.logs in
      let l = log_of id o in
      if_cases (IsBounded c) (is_full limit n) (record rt { logs_truncated = true })
        (record rt {
          logs = rt.logs ++ (l ∷ []);
          logs_sorted = rt.logs_sorted && follows rt.logs l;
        })
        (λ full. record {
          operations_fit = h.operations_fit;
          logs_fit = h.logs_fit;
          operations_cut = h.operations_cut;
          logs_cut = λ e. full;
          flag = h.flag;
        })
        (λ room. record {
          operations_fit = h.operations_fit;
          logs_fit =
              subst (Fits limit) (sym (length-append rt.logs (l ∷ []))) (is_full-Fits limit n room);
          operations_cut = h.operations_cut;
          logs_cut = λ e. cc (h.logs_cut e, room);
          flag = ap (λ b. b && follows rt.logs l) h.flag ∙ sym (is_sorted-append rt.logs l);
        })

pub add_operations-IsBounded :
    (c : TelemetryStoreConfig) (id : Str) (os : List OperationOutcome) (rt : RunTelemetry)
    → IsBounded c rt
    → IsBounded c (add_operations c id os rt)
unfolding add_operations
add_operations-IsBounded c id [] rt h = h
add_operations-IsBounded c id (o ∷ os) rt h =
    let timed = widen_times o.timestamp_ms rt in
    let counted = add_result c.max_operations_per_run o timed in
    add_operations-IsBounded c id os (add_log c.max_logs_per_run id o counted) (
      add_log-IsBounded c counted
        (add_result-IsBounded c timed (widen_times-IsBounded c rt h o.timestamp_ms) o) id o)
