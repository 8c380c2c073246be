-- ===== src/Api/Store/Order.antt =====
-- The runs of the store are a queue: the oldest leaves when a new one finds no room.
use mcpdrill.Prelude.{
  ℕ, zero, suc, ◌-◌, ◌≤◌, ◌<◌, ◌≡◌, refl, sym, ap, subst, ◌∙◌, ◌⊎◌, inl, inr, ◌++◌, List, [], ◌∷◌,
  true, false, Option, none, some, ◌==◌, if◌then◌else◌, if_cases, if_true, if_false, length, drop,
  length-drop, length-append, arith, Str, lookup, IsKeyed, erase-IsKeyed, insert-IsKeyed,
  update_at-IsKeyed,
}
use mcpdrill.Scheduler.Leases.{mem}
use mcpdrill.Api.Store.Records.{
  OperationLog, TelemetryStoreConfig, RunTelemetry, TelemetryStore, new_telemetry_store,
  new_run_telemetry,
}
use mcpdrill.Api.Store.Batches.{
  evict_oldest, evict_if_needed, register_run, create_unless, get_or_create_run_telemetry, with_run,
  add_telemetry_batch, add_telemetry_batch_with_context, set_run_metadata, delete_run,
}
use mcpdrill.Api.Store.Queries.{of_run, has_run, run_count}
use mcpdrill.Api.Store.Histories.{
  Call, add_batch, add_in_context, set_metadata, delete, apply, run_calls,
}
use mcpdrill.Api.Store.Keys.{known}
use mcpdrill.Api.Store.Tracks.{
  without, Tracks, Tracks-length, Tracks-mem, Tracks-update_at, Tracks-insert, Tracks-remove,
  evict_oldest-Evicted,
}

-- What is promised: a queue of the ids of runs, the oldest first. A limit of zero is none.
abbrev pub room_in : ℕ → List Str → List Str
room_in limit q = if limit == 0 then q else drop (suc (length q) - limit) q

abbrev pub touched : ℕ → Str → List Str → List Str
touched limit id q = if mem id q then q else room_in limit q ++ (id ∷ [])

abbrev pub queue_after : ℕ → Call → List Str → List Str
queue_after limit (add_batch id os) q = touched limit id q
queue_after limit (add_in_context id os worker_id stage stage_id vu_id) q = touched limit id q
queue_after limit (set_metadata id scenario_id stop_reason) q = touched limit id q
queue_after limit (delete id) q = without id q

abbrev pub queue_of : ℕ → List Call → List Str → List Str
queue_of limit [] q = q
queue_of limit (c ∷ cs) q = queue_of limit cs (queue_after limit c q)

-- The order of a store follows its map, and is the queue `q`.
record Follows (limit : ℕ) (q : List Str) (s : TelemetryStore) : Type 0 where
  limits : s.config.max_total_runs ≡ limit
  keyed : IsKeyed s.runs
  tracks : Tracks s.runs s.run_order
  in_queue : s.run_order ≡ q

module _ (limit : ℕ) (q : List Str) (s : TelemetryStore) (h : Follows limit q s) where
  evict_if_needed-Follows : Follows limit (room_in limit q) (evict_if_needed s)
  unfolding evict_if_needed
  evict_if_needed-Follows =
      let n = s.config.max_total_runs in
      let r = evict_oldest n s.runs s.run_order in
      let queue = ap (room_in n) h.in_queue ∙ ap (λ k. room_in k q) h.limits in
      let cut = drop (suc (length s.run_order) - n) s.run_order in
      if_cases (Follows limit (room_in limit q)) (n == 0) s
        (record s { runs = r.0; run_order = r.1 })
        (λ unlimited. record {
          limits = h.limits;
          keyed = h.keyed;
          tracks = h.tracks;
          in_queue = sym (if_true (n == 0) s.run_order cut unlimited) ∙ queue;
        })
        (λ limited.
          let e =
            evict_oldest-Evicted n s.runs s.run_order (ground (arith, limited)) h.keyed h.tracks in
          record {
            limits = h.limits;
            keyed = e.keyed;
            tracks = e.tracks;
            in_queue = e.left ∙ sym (if_false (n == 0) s.run_order cut limited) ∙ queue;
          })

  known-queue : (id : Str) → known id s.runs ≡ mem id q
  known-queue id = Tracks-mem s.runs s.run_order h.tracks id ∙ ap (mem id) h.in_queue

  with_run-Follows :
      (id : Str) (f : RunTelemetry → RunTelemetry) → Follows limit q (with_run id f s)
  unfolding with_run
  with_run-Follows id f = record {
    limits = h.limits;
    keyed = update_at-IsKeyed id f s.runs h.keyed;
    tracks = Tracks-update_at id f s.runs s.run_order h.tracks;
    in_queue = h.in_queue;
  }

  delete_run-Follows : (id : Str) → Follows limit (without id q) (delete_run id s)
  unfolding delete_run
  delete_run-Follows id =
      let t = Tracks-remove id s.runs s.run_order h.tracks in
      record {
        limits = h.limits;
        keyed = erase-IsKeyed id s.runs h.keyed;
        tracks = t.0;
        in_queue = t.1 ∙ ap (without id) h.in_queue;
      }

  register_run-Follows :
      (id : Str) → known id s.runs ≡ false → Follows limit (q ++ (id ∷ [])) (register_run id s)
  unfolding register_run
  register_run-Follows id new = record {
    limits = h.limits;
    keyed = insert-IsKeyed id (new_run_telemetry id) s.runs h.keyed;
    tracks = Tracks-insert id (new_run_telemetry id) s.runs s.run_order new h.tracks;
    in_queue = ap (λ q'. q' ++ (id ∷ [])) h.in_queue;
  }

-- What is evicted was in the queue.
mem-drop : (id : Str) (n : ℕ) (q : List Str) → mem id q ≡ false → mem id (drop n q) ≡ false
unfolding mem
mem-drop id zero q h = h
mem-drop id (suc n) [] h = refl
mem-drop id (suc n) (j ∷ q) h = mem-drop id n q (ground (arith, h))

mem-room_in :
    (id : Str) (limit : ℕ) (q : List Str) → mem id q ≡ false → mem id (room_in limit q) ≡ false
mem-room_in id limit q h =
    if_cases (λ q'. mem id q' ≡ false) (limit == 0) q (drop (suc (length q) - limit) q)
      (λ unlimited. h) (λ limited. mem-drop id (suc (length q) - limit) q h)

create_unless-Follows :
    (limit : ℕ) (q : List Str) (s : TelemetryStore) (id : Str) (o : Option RunTelemetry)
    → lookup id s.runs ≡ o
    → Follows limit q s
    → Follows limit (touched limit id q) (create_unless o id s)
unfolding create_unless of_run
create_unless-Follows limit q s id (some rt) e h =
    let old : mem id q ≡ true =
      sym (known-queue limit q s h id) ∙ ap (of_run false (λ rt. true)) e in
    subst (λ q'. Follows limit q' s) (sym (if_true (mem id q) q (room_in limit q ++ (id ∷ [])) old))
      h
create_unless-Follows limit q s id none e h =
    let new : mem id q ≡ false =
      sym (known-queue limit q s h id) ∙ ap (of_run false (λ rt. true)) e in
    let h' = evict_if_needed-Follows limit q s h in
    subst (λ q'. Follows limit q' (register_run id (evict_if_needed s)))
      (sym (if_false (mem id q) q (room_in limit q ++ (id ∷ [])) new))
      (register_run-Follows limit (room_in limit q) (evict_if_needed s) h' id (
        known-queue limit (room_in limit q) (evict_if_needed s) h' id ∙ mem-room_in id limit q new))

module _ (limit : ℕ) (q : List Str) (s : TelemetryStore) (h : Follows limit q s) where
  update-Follows :
      (id : Str) (f : RunTelemetry → RunTelemetry)
      → Follows limit (touched limit id q) (with_run id f (get_or_create_run_telemetry id s))
  unfolding get_or_create_run_telemetry
  update-Follows id f =
      with_run-Follows limit (touched limit id q) (get_or_create_run_telemetry id s)
        (create_unless-Follows limit q s id (lookup id s.runs) refl h) id f

  apply-Follows :
      (sort : List OperationLog → List OperationLog) (c : Call)
      → Follows limit (queue_after limit c q) (apply sort c s)
  unfolding apply add_telemetry_batch_with_context add_telemetry_batch set_run_metadata
  apply-Follows sort (add_batch id os) = update-Follows id _
  apply-Follows sort (add_in_context id os worker_id stage stage_id vu_id) = update-Follows id _
  apply-Follows sort (set_metadata id scenario_id stop_reason) = update-Follows id _
  apply-Follows sort (delete id) = delete_run-Follows limit q s h id

run_calls-Follows :
    (sort : List OperationLog → List OperationLog) (limit : ℕ) (cs : List Call) (q : List Str)
    (s : TelemetryStore)
    → Follows limit q s
    → Follows limit (queue_of limit cs q) (run_calls sort cs s)
unfolding run_calls
run_calls-Follows sort limit [] q s h = h
run_calls-Follows sort limit (c ∷ cs) q s h =
    run_calls-Follows sort limit cs (queue_after limit c q) (apply sort c s)
      (apply-Follows limit q s h sort c)

-- A queue that keeps within a limit.
abbrev pub Within : ℕ → List Str → Type 0
Within limit q = (limit ≡ 0) ⊎ (length q ≤ limit)

length-without : (id : Str) (q : List Str) → length (without id q) ≤ length q
length-without id [] = omega arith
length-without id (j ∷ q) = ground (arith, length-without id q)

touched-Within :
    (limit : ℕ) (id : Str) (q : List Str) → Within limit q → Within limit (touched limit id q)
touched-Within limit id q (inl z) = inl z
touched-Within limit id q (inr fits) =
    if_cases (Within limit) (mem id q) q (room_in limit q ++ (id ∷ [])) (λ old. inr fits)
      (λ new.
        if_cases (λ q'. Within limit (q' ++ (id ∷ []))) (limit == 0) q
          (drop (suc (length q) - limit) q) (λ unlimited. inl (ground (arith, unlimited)))
          (λ limited.
            let cut = drop (suc (length q) - limit) q in
            let some_room : 0 < limit = ground (arith, limited) in
            inr (
              omega (
                arith,
                fits,
                some_room,
                length-append cut (id ∷ []),
                length-drop (suc (length q) - limit) q,
              ))))

queue_after-Within :
    (limit : ℕ) (c : Call) (q : List Str) → Within limit q → Within limit (queue_after limit c q)
queue_after-Within limit (add_batch id os) q h = touched-Within limit id q h
queue_after-Within limit (add_in_context id os worker_id stage stage_id vu_id) q h =
    touched-Within limit id q h
queue_after-Within limit (set_metadata id scenario_id stop_reason) q h = touched-Within limit id q h
queue_after-Within limit (delete id) q (inl z) = inl z
queue_after-Within limit (delete id) q (inr fits) = inr (omega (arith, fits, length-without id q))

queue_of-Within :
    (limit : ℕ) (cs : List Call) (q : List Str)
    → Within limit q
    → Within limit (queue_of limit cs q)
queue_of-Within limit [] q h = h
queue_of-Within limit (c ∷ cs) q h =
    queue_of-Within limit cs (queue_after limit c q) (queue_after-Within limit c q h)

-- What a store shows of a queue within a limit.
pub record IsQueue (limit : ℕ) (q : List Str) (s : TelemetryStore) : Type 0 where
  pub order : s.run_order ≡ q
  pub has : (id : Str) → has_run id s ≡ mem id q
  pub count : run_count s ≡ length q
  pub fits : Within limit q

-- However the calls on a new store follow each other, and whatever `sort` does, the store is a queue of
-- runs: a batch or a change of the metadata of a run that is not in it puts the run at its end, after
-- as many runs have left at its front as make room for it within the limit, if there is one; for a run
-- that is in it the queue stays; a deletion takes the run out. The store has the runs of the queue and
-- no other, counts each once, and is never above its limit.
pub run_calls-IsQueue :
    (sort : List OperationLog → List OperationLog) (c : TelemetryStoreConfig) (cs : List Call)
    → IsQueue c.max_total_runs
        (queue_of c.max_total_runs cs [])
        (run_calls sort cs (new_telemetry_store (some c)))
unfolding new_telemetry_store has_run run_count
run_calls-IsQueue sort c cs =
    let limit = c.max_total_runs in
    let q = queue_of limit cs [] in
    let s = run_calls sort cs (new_telemetry_store (some c)) in
    let h =
      run_calls-Follows sort limit cs [] (new_telemetry_store (some c))
        (record { limits = refl; keyed = tt; tracks = refl; in_queue = refl }) in
    record {
      order = h.in_queue;
      has = known-queue limit q s h;
      count = Tracks-length s.runs s.run_order h.keyed h.tracks ∙ ap length h.in_queue;
      fits = queue_of-Within limit cs [] (inr (omega arith));
    }
