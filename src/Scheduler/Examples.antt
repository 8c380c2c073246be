-- ===== src/Scheduler/Examples.antt =====
-- Runs of the scheduler at concrete inputs.
use mcpdrill.Prelude.{
  ◌≡◌, refl, ◌≢◌, [], ◌∷◌, List, some, none, false, Str, codes, arith, lookup, Str-discrete, ℕ,
}
use mcpdrill.Prelude.Int.{pos}
use mcpdrill.Prelude.Hex.{to_hex}
use mcpdrill.Scheduler.Types.{Assignment, Lease, active, Covers}
use mcpdrill.Scheduler.Leases.{
  LeaseManager, Call, issues, expires, run, new_lease_manager, generate_lease_id, issue_lease, step,
  renews_worker, expire_leases, renew_lease, ok, any_blocks, blocks,
}
use mcpdrill.Scheduler.Leases.Exclusive.{run-exclusive_vus}
use mcpdrill.Scheduler.Leases.Fresh.{
  run-Evolves, IsMintedManager, run-IsMinted, generate_lease_id-injective,
}
use mcpdrill.Scheduler.Leases.Lifecycle.{Kept}
use mcpdrill.Scheduler.Leases.Expiry.{
  Issued, issue_lease-Issued, expire_leases-renew, expire_leases_lem, Expires,
}

abbrev stage_work : ℕ → ℕ → Assignment
stage_work s e = record {
  run_id = codes "run_1";
  stage_id = codes "stg_1";
  vu_id_range = record { start = s; end = e };
}

-- A time in 2023.
abbrev noon : ℕ
noon = 1700000000000

abbrev two_grants : List Call
two_grants =
    issues (codes "wkr_a") (stage_work 0 5) noon noon
    ∷ issues (codes "wkr_b") (stage_work 5 9) noon noon
    ∷ issues (codes "wkr_b") (stage_work 3 6) noon noon
    ∷ []

abbrev granted : LeaseManager
granted = run (new_lease_manager (pos 0)) two_grants

abbrev id_of : ℕ → Str
id_of n = generate_lease_id noon n

abbrev grant : ℕ → Str → ℕ → ℕ → Lease
grant n worker_id s e = record {
  lease_id = id_of n;
  worker_id = worker_id;
  assignment = stage_work s e;
  state = active;
  issued_at = noon;
  expires_at = 1700000060000;
  revoked_at = none;
}

granted_two :
    granted.leases
    ≡ (id_of 2, grant 2 (codes "wkr_b") 5 9) ∷ (id_of 1, grant 1 (codes "wkr_a") 0 5) ∷ []
unfolding run step issue_lease new_lease_manager generate_lease_id Str-discrete any_blocks blocks
    to_hex
granted_two = refl

ids_differ : id_of 1 ≢ id_of 2
ids_differ e =
    let counters : ◌≡◌ {A = ℕ} 1 2 =
      generate_lease_id-injective noon noon 1 2 (omega arith) (omega arith) e in
    absurd (omega arith)

first_held : lookup (id_of 1) granted.leases ≡ some (grant 1 (codes "wkr_a") 0 5)
first_held = rw granted_two (unfold generate_lease_id to_hex Str-discrete in refl)

second_held : lookup (id_of 2) granted.leases ≡ some (grant 2 (codes "wkr_b") 5 9)
second_held = rw granted_two (unfold generate_lease_id to_hex Str-discrete in refl)

run-exclusive_vus_example : ¬ Covers (grant 2 (codes "wkr_b") 5 9).assignment.vu_id_range 3
run-exclusive_vus_example =
    run-exclusive_vus (pos 0) two_grants (id_of 1) (id_of 2) (grant 1 (codes "wkr_a") 0 5)
      (grant 2 (codes "wkr_b") 5 9) 3 ids_differ first_held second_held refl refl refl refl
      (omega arith)

granted-IsMinted : IsMintedManager granted
granted-IsMinted =
    run-IsMinted (new_lease_manager (pos 0)) two_grants (unfold new_lease_manager in tt)
      (omega arith)

run-Evolves_example :
    Kept
      (run granted (renews_worker (codes "wkr_a") 1700000050000 ∷ expires 1700000070000 ∷ []))
      (id_of 1)
      (grant 1 (codes "wkr_a") 0 5)
run-Evolves_example =
    run-Evolves granted (renews_worker (codes "wkr_a") 1700000050000 ∷ expires 1700000070000 ∷ [])
      (id_of 1) (grant 1 (codes "wkr_a") 0 5) granted-IsMinted (tt, (tt, tt))
      ((λ e. cc), ((λ e. cc), tt)) first_held

granted_open : granted.closed ≡ false
unfolding run step issue_lease new_lease_manager generate_lease_id Str-discrete any_blocks blocks
    to_hex
granted_open = refl

granted_ttl : granted.ttl_ms ≡ 60000
unfolding run step issue_lease new_lease_manager generate_lease_id Str-discrete any_blocks blocks
    to_hex
granted_ttl = refl

issue_lease-Issued_example :
    Issued granted
      (codes "wkr_c")
      (stage_work 8 12)
      noon
      (issue_lease granted (codes "wkr_c") (stage_work 8 12) noon noon).0
      (issue_lease granted (codes "wkr_c") (stage_work 8 12) noon noon).1
issue_lease-Issued_example =
    issue_lease-Issued granted (codes "wkr_c") (stage_work 8 12) noon noon granted_open

expire_leases_lem_example : Expires granted 1700000060001 (expire_leases granted 1700000060001)
expire_leases_lem_example = expire_leases_lem granted 1700000060001

expire_leases-renew_example : (renew_lease granted (id_of 1) 1700000050000).1 ≡ ok tt
expire_leases-renew_example =
    (expire_leases-renew granted (id_of 1) (grant 1 (codes "wkr_a") 0 5) 1700000050000 1700000100000
      granted_open first_held refl (rw granted_ttl (omega arith))).0
