-- ===== src/Session/Examples.antt =====
-- The pool at concrete inputs.
use mcpdrill.Prelude.{
  List, [], ◌∷◌, ◌+◌, ◌≤◌, ◌≡◌, refl, inr, true, false, some, codes, Str-discrete, arith, ltb,
  if◌then◌else◌,
}
use mcpdrill.Session.Types.{SessionInfo, active, idle, touch}
use mcpdrill.Session.Pool.{
  SessionPool, new_session_pool, creates, waits, refused_closed, acquire, wake, close, size, add,
  release, attempt, attempt_from, reserve,
}
use mcpdrill.Session.Pool.Capacity.{Call, acquires, adds, releases, run, step, AreAllowed}
use mcpdrill.Session.Pool.Holders.{Given, run_new-size, acquire_or_wake, acquire-Given, close-wake}

abbrev first : SessionInfo
first = record {
  id = codes "ses_1";
  vu_id = [];
  state = active;
  created_at = 100;
  last_used_at = 100;
  expires_at = some 1100;
  idle_expires_at = some 600;
  operation_count = 0;
  has_connection = true;
}

-- A caller creates a session and gives it back; a second caller is still about to create one.
abbrev calls : List Call
calls = acquires false 100 ∷ adds first ∷ acquires true 110 ∷ releases first 120 ∷ []

calls-AreAllowed : AreAllowed (new_session_pool 2 1000 500) calls
unfolding new_session_pool step acquire attempt attempt_from reserve add Str-discrete
calls-AreAllowed = (tt, (inr (omega arith, refl, tt), (tt, (inr (first, refl), tt))))

abbrev used : SessionPool
used = run (new_session_pool 2 1000 500) calls

run_new-size_example : size used + used.pending_creates ≤ used.max_size
run_new-size_example = run_new-size 2 1000 500 calls calls-AreAllowed

abbrev again : SessionInfo
again = touch 500 130 (record (touch 500 120 (record first { state = idle })) { state = active })

acquire-Given_example : Given used 130 again (acquire_or_wake true used false 130).0
unfolding acquire_or_wake wake new_session_pool run step acquire attempt attempt_from reserve add
    release touch Str-discrete
acquire-Given_example = acquire-Given 2 1000 500 calls true false 130 again calls-AreAllowed refl

close-wake_example :
    (size (close used) ≡ 0)
    × ((acquire (close used) false 130).1 ≡ refused_closed)
    × ((wake (close used) false 130).1
        ≡ (if ltb used.pending_creates used.max_size then creates else waits))
unfolding new_session_pool run step acquire attempt attempt_from reserve add release touch
    Str-discrete
close-wake_example = close-wake used false 130 refl
