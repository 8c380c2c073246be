-- ===== src/Scheduler/FleetExamples.antt =====
-- Runs of the registry, the allocator and the heartbeat monitor at concrete inputs.
use mcpdrill.Prelude.{
  ◌≡◌, refl, [], ◌∷◌, List, some, none, false, Str, codes, arith, lookup, Str-discrete, ℕ, ◌++◌,
  ◌+◌,
}
use mcpdrill.Prelude.Hex.{to_hex}
use mcpdrill.Prelude.Int.{pos}
use mcpdrill.Scheduler.Types.{
  WorkerHealth, WorkerInfo, HostInfo, WorkerCapacity, Assignment, Lease, active,
}
use mcpdrill.Scheduler.Leases.{
  LeaseManager, new_lease_manager, issues, renews_worker, generate_lease_id, issue_lease,
  any_blocks,
}
use mcpdrill.Scheduler.Leases as Leases
use mcpdrill.Scheduler.Leases.Fresh.{IsMintedManager, run-IsMinted}
use mcpdrill.Scheduler.Registry.{
  Registry, Call, registers, heartbeats, run, step, new_registry, register_worker,
  generate_worker_id, beat, get_worker, ok, err, worker_not_found, percent, list_workers,
}
use mcpdrill.Scheduler.Registry.Saturation.{beat_lem}
use mcpdrill.Scheduler.Registry.Membership.{
  Inv, run-Inv, new-Inv, generate_worker_id-injective, register_worker-get_worker,
}
use mcpdrill.Scheduler.Allocator.{available, reallocate_assignments, allocate_assignments}
use mcpdrill.Scheduler.Allocator.Methods.{Answers, IsEligible, reallocate_assignments-Answers}
use mcpdrill.Scheduler.Allocator.Named.{AnswersFor, allocate_assignments-AnswersFor, HasDistinct}
use mcpdrill.Scheduler.Heartbeat.{
  Monitor, Pause, Pauses, new_heartbeat_monitor, set_on_worker_lost, check_workers,
}
use mcpdrill.Scheduler.Heartbeat.Round.{is_registered, OnlyBeats, heard}
use mcpdrill.Scheduler.Heartbeat.Revoked.{Spent, AreUsual}
use mcpdrill.Scheduler.Heartbeat.Checks.{
  check_workers-workers, check_workers-leases, check_workers-calls, dropped,
}

abbrev noon : ℕ
noon = 1700000000000

abbrev host : HostInfo
host = record { hostname = codes "h"; ip_addr = codes "10.0.0.1"; platform = codes "linux" }

abbrev capacity_of : ℕ → WorkerCapacity
capacity_of n = record { max_vus = n; max_concurrent_ops = n; max_rps = 0 }

abbrev load : ℕ → ℕ → WorkerHealth
load cpu vus = record {
  cpu_percent = percent cpu;
  mem_bytes = 0;
  active_vus = vus;
  active_sessions = 0;
  in_flight_ops = 0;
  queue_depth = 0;
}

abbrev joins : List Call
joins = registers host (capacity_of 5) noon noon ∷ registers host (capacity_of 8) noon noon ∷ []

abbrev fleet : Registry
fleet = run new_registry joins

abbrev wkr : ℕ → Str
wkr n = generate_worker_id noon n

abbrev member : ℕ → ℕ → WorkerInfo
member n room = record {
  worker_id = wkr n;
  host_info = host;
  capacity = capacity_of room;
  effective_capacity = capacity_of room;
  saturated = false;
  registered_at = noon;
  last_heartbeat = noon;
  health = none;
}

fleet-Inv : Inv fleet
fleet-Inv = run-Inv new_registry joins (omega arith) new-Inv

fleet_open : fleet.closed ≡ false
unfolding run step register_worker new_registry generate_worker_id Str-discrete to_hex
fleet_open = refl

fleet_first : lookup (wkr 1) fleet.workers ≡ some (member 1 5)
unfolding run step register_worker new_registry generate_worker_id Str-discrete to_hex
fleet_first = refl

beat_lem_example : (beat (some (load 95 2)) noon (member 1 5)).worker_id ≡ wkr 1
beat_lem_example = (beat_lem (load 95 2) noon (member 1 5)).2

third_registers :
    (register_worker fleet host (capacity_of 3) noon noon).1 ≡ ok (generate_worker_id noon 3)
unfolding run step register_worker new_registry generate_worker_id Str-discrete to_hex
third_registers = refl

register_worker-get_worker_example :
    get_worker fleet (generate_worker_id noon 3) ≡ err worker_not_found
register_worker-get_worker_example =
    (register_worker-get_worker fleet host (capacity_of 3) noon noon (generate_worker_id noon 3)
      fleet-Inv (omega arith) third_registers).0

reallocate_assignments-Answers_example :
    Answers
      (IsEligible fleet.workers [])
      (codes "run_1")
      (codes "stg_1")
      (pos 10)
      (available [] (list_workers fleet))
      (reallocate_assignments fleet (codes "run_1") (codes "stg_1") (pos 10) [])
reallocate_assignments-Answers_example =
    reallocate_assignments-Answers fleet (codes "run_1") (codes "stg_1") (pos 10) [] fleet-Inv

wkrs_differ : HasDistinct (wkr 1 ∷ wkr 2 ∷ [])
wkrs_differ = (
  (
    (λ e.
        let counters : ◌≡◌ {A = ℕ} 2 1 =
          generate_worker_id-injective noon noon 2 1 (omega arith) (omega arith) e in
        absurd (omega arith)),
    tt,
  ),
  (tt, tt),
)

allocate_assignments-AnswersFor_example :
    AnswersFor fleet
      (codes "run_1")
      (codes "stg_1")
      (pos 10)
      (wkr 1 ∷ wkr 2 ∷ [])
      (allocate_assignments fleet (codes "run_1") (codes "stg_1") (pos 10) (wkr 1 ∷ wkr 2 ∷ []))
allocate_assignments-AnswersFor_example =
    allocate_assignments-AnswersFor fleet (codes "run_1") (codes "stg_1") (pos 10)
      (wkr 1 ∷ wkr 2 ∷ []) wkrs_differ

abbrev work : Assignment
work = record {
  run_id = codes "run_1";
  stage_id = codes "stg_1";
  vu_id_range = record { start = 0; end = 5 };
}

abbrev leased : LeaseManager
leased = Leases.run (new_lease_manager (pos 0)) (issues (wkr 1) work noon noon ∷ [])

abbrev lease : Lease
lease = record {
  lease_id = generate_lease_id noon 1;
  worker_id = wkr 1;
  assignment = work;
  state = active;
  issued_at = noon;
  expires_at = noon + 60000;
  revoked_at = none;
}

leased-IsMinted : IsMintedManager leased
leased-IsMinted =
    run-IsMinted (new_lease_manager (pos 0)) (issues (wkr 1) work noon noon ∷ [])
      (unfold new_lease_manager in tt) (omega arith)

leased_open : leased.closed ≡ false
unfolding Leases.run Leases.step issue_lease new_lease_manager any_blocks
leased_open = refl

lease_held : lookup (generate_lease_id noon 1) leased.leases ≡ some lease
unfolding Leases.run Leases.step issue_lease new_lease_manager generate_lease_id any_blocks
    Str-discrete to_hex generate_worker_id
lease_held = refl

abbrev watch : Monitor
watch = set_on_worker_lost (new_heartbeat_monitor fleet leased (pos 0) (pos 0))

abbrev later : ℕ → ℕ
later i = 1700000040000 + i

abbrev quiet : Pause
quiet = record { on_registry = []; on_leases = [] }

-- The first worker beats after all, and its leases are renewed, while its turn is under way.
abbrev comes_back : Pause
comes_back = record {
  on_registry = heartbeats (wkr 1) none 1700000040005 ∷ [];
  on_leases = renews_worker (wkr 1) 1700000040005 ∷ [];
}

abbrev meanwhile : ℕ → Pauses
meanwhile i = record { before_list = quiet; before_revoke = comes_back; before_remove = quiet }

meanwhile-OnlyBeats : OnlyBeats meanwhile
meanwhile-OnlyBeats i = (tt, (tt, tt), tt)

meanwhile-AreUsual : AreUsual meanwhile
meanwhile-AreUsual i = (tt, ((tt, λ e. cc), tt), tt)

check_workers-workers_example :
    is_registered (wkr 1) (check_workers watch later meanwhile comes_back noon).registry ≡ false
unfolding set_on_worker_lost new_heartbeat_monitor run step register_worker new_registry
    generate_worker_id Str-discrete to_hex
check_workers-workers_example =
    check_workers-workers watch later meanwhile comes_back noon fleet-Inv fleet_open
      meanwhile-OnlyBeats (tt, tt) (wkr 1)

check_workers-leases_example :
    Spent
      (check_workers watch later meanwhile quiet noon).lease_manager
      (generate_lease_id noon 1)
      lease
unfolding set_on_worker_lost new_heartbeat_monitor
check_workers-leases_example =
    check_workers-leases watch later meanwhile quiet noon fleet-Inv (wkr 1) (member 1 5)
      (generate_lease_id noon 1) lease fleet_first refl leased_open leased-IsMinted
      meanwhile-AreUsual tt lease_held refl

check_workers-calls_example :
    heard (check_workers watch later meanwhile quiet noon).calls ≡ [] ++ dropped watch (later 0)
unfolding set_on_worker_lost new_heartbeat_monitor
check_workers-calls_example =
    check_workers-calls watch later meanwhile quiet noon fleet-Inv fleet_open meanwhile-OnlyBeats
      refl
