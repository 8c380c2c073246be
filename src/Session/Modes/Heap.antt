-- ===== src/Session/Modes/Heap.antt =====
-- Sessions as objects that the modes, the evictor, the timers and the callers share: a session is
-- named by its reference.
use mcpdrill.Prelude.{ℕ, ◌+◌, true, List, ◌∷◌, ◌==◌, if◌then◌else◌, Str}
use mcpdrill.Session.Types.{SessionInfo, SessionState, active, new_session_info, touch}

pub record Heap : Type 0 where
  pub at : ℕ → SessionInfo
  pub next : ℕ

abbrev pub write : ℕ → SessionInfo → Heap → Heap
write r s h = record h { at = λ k. if k == r then s else h.at k }

abbrev pub set_state : ℕ → SessionState → Heap → Heap
set_state r st h = write r (record (h.at r) { state = st }) h

-- `createSession` once the handshake is done: the new object, under the reference `h.next`.
abbrev pub allocate : Str → Str → ℕ → ℕ → ℕ → Heap → Heap
allocate id vu ttl_ms max_idle_ms now h = record {
  at = λ k.
      if k == h.next
      then record (new_session_info id true ttl_ms max_idle_ms now) { vu_id = vu }
      else h.at k;
  next = h.next + 1;
}

-- A session is taken up again: `SetState(StateActive)` and `Touch`.
abbrev pub take_up : ℕ → ℕ → ℕ → Heap → Heap
take_up r max_idle_ms now h = write r (touch max_idle_ms now (record (h.at r) { state = active })) h

-- `closeWithLog`, if there is a connection; the log is of references, latest first.
abbrev pub close_connection : Heap → ℕ → List ℕ → List ℕ
close_connection h r log = if (h.at r).has_connection then r ∷ log else log
