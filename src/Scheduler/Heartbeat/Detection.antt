-- ===== src/Scheduler/Heartbeat/Detection.antt =====
-- The detector finds the registered workers that were silent for longer than the timeout.
use mcpdrill.Prelude.{
  ℕ, ◌≡◌, refl, List, [], ◌∷◌, Bool, false, ◌||◌, some, none, arith, Str, str_eq, Dict, lookup,
  values, IsKeyed, Option,
}
use mcpdrill.Prelude.Int.{ℤ}
use mcpdrill.Scheduler.Types.{WorkerInfo}
use mcpdrill.Scheduler.Registry.Membership.{IsNamed}
use mcpdrill.Scheduler.Heartbeat.{is_lost, lost_ids}

abbrev pub contains : Str → List Str → Bool
contains k [] = false
contains k (x ∷ xs) = str_eq x k || contains k xs

-- Is a silent worker registered under the key?
abbrev pub lost_at : ℤ → ℕ → Option WorkerInfo → Bool
lost_at timeout_ms now none = false
lost_at timeout_ms now (some w) = is_lost timeout_ms now w

pub contains-lost_ids :
    (timeout_ms : ℤ) (now : ℕ) (k : Str) (m : Dict WorkerInfo)
    → IsNamed m
    → IsKeyed m
    → contains k (lost_ids timeout_ms now (values m)) ≡ lost_at timeout_ms now (lookup k m)
unfolding lost_ids
contains-lost_ids timeout_ms now k [] n d = refl
contains-lost_ids timeout_ms now k ((j, w) ∷ m) n d =
    ground (arith, contains-lost_ids timeout_ms now k m n.1 d.1)

abbrev pub AllDistinct : List Str → Type 0
AllDistinct [] = Unit {0}
AllDistinct (x ∷ xs) = (contains x xs ≡ false) × AllDistinct xs

pub lost_ids-AllDistinct :
    (timeout_ms : ℤ) (now : ℕ) (m : Dict WorkerInfo)
    → IsNamed m
    → IsKeyed m
    → AllDistinct (lost_ids timeout_ms now (values m))
unfolding lost_ids
lost_ids-AllDistinct timeout_ms now [] n d = tt
lost_ids-AllDistinct timeout_ms now ((j, w) ∷ m) n d = ground (
  arith,
  lost_ids-AllDistinct timeout_ms now m n.1 d.1,
  contains-lost_ids timeout_ms now j m n.1 d.1,
)
