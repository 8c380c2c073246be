-- ===== src/Runs/EventLog.antt =====
-- internal/controlplane/runmanager/event_log.go. An event carries a payload of any type; one that is
-- nil is none. The correlation keys of an event and the lines that Go's logger prints are left out.
pub mod Pages
use mcpdrill.Prelude.{
  ℕ, ◌+◌, ◌-◌, ◌++◌, List, [], ◌∷◌, Bool, true, false, not, ◌&&◌, Option, none, some, ltb, leb,
  ◌==◌, if◌then◌else◌, length, take, drop, Str, str_eq, codes, ◌⊎◌, inl, inr,
}
use mcpdrill.Prelude.Int.{ℤ, pos, negsuc}
use mcpdrill.Prelude.Hex.{to_hex}

pub record Evidence : Type 0 where
  pub kind : Str
  pub ref : Str
  pub note : Option Str

pub record RunEvent {ℓ} (P : Type ℓ) : Type ℓ where
  pub schema_version : Str
  pub event_id : Str
  pub timestamp_ms : ℕ
  pub run_id : Str
  pub execution_id : Str
  pub type : Str
  pub actor : Str
  pub payload : Option P
  pub evidence : Option (List Evidence)

pub record EventLog {ℓ} (P : Type ℓ) : Type ℓ where
  pub events : List (RunEvent P)
  pub max_events : ℕ
  pub truncated : Bool
  pub run_id : Str

abbrev pub default_max_events_per_log : ℕ
default_max_events_per_log = 10000

pub data EventLogError : Type 0 where
  missing_run_id : EventLogError
  missing_execution_id : EventLogError
  missing_type : EventLogError
  missing_actor : EventLogError
  missing_payload : EventLogError
  missing_evidence : EventLogError
  negative_limit : EventLogError
  negative_cursor : EventLogError

abbrev pub is_empty {ℓ} : {A : Type ℓ} → List A → Bool
is_empty [] = true
is_empty (x ∷ xs) = false

abbrev pub is_none {ℓ} : {A : Type ℓ} → Option A → Bool
is_none none = true
is_none (some x) = false

-- The clock and the counter of the whole program.
unfoldable pub generate_event_id : ℕ → ℕ → Str
generate_event_id ts counter = codes "evt_" ++ (to_hex ts ++ to_hex counter)

module _ {ℓ} {P : Type ℓ} where
  unfoldable pub new_event_log_with_limit : ℕ → EventLog P
  new_event_log_with_limit n = record {
    events = [];
    max_events = n;
    truncated = false;
    run_id = [];
  }

  unfoldable pub new_event_log : EventLog P
  unfolding new_event_log_with_limit
  new_event_log = new_event_log_with_limit default_max_events_per_log

  unfoldable pub missing_field : RunEvent P → Option EventLogError
  missing_field e =
      if is_empty e.run_id
      then some missing_run_id
      else if is_empty e.execution_id
      then some missing_execution_id
      else if is_empty e.type
      then some missing_type
      else if is_empty e.actor
      then some missing_actor
      else if is_none e.payload
      then some missing_payload
      else if is_none e.evidence
      then some missing_evidence
      else none

  -- The fields that `Append` fills in, at a clock reading.
  unfoldable pub fill_in : RunEvent P → ℕ → ℕ → RunEvent P
  unfolding generate_event_id
  fill_in e now counter = record e {
    event_id = if is_empty e.event_id then generate_event_id now counter else e.event_id;
    schema_version = codes "event/v1";
    timestamp_ms = if e.timestamp_ms == 0 then now else e.timestamp_ms;
  }

  -- `Append` after the checks.
  unfoldable pub store : EventLog P → RunEvent P → EventLog P
  store el e =
      let run_id = if is_empty el.run_id then e.run_id else el.run_id in
      if not (el.max_events == 0) && leb el.max_events (length el.events)
      then record el { run_id = run_id; truncated = true }
      else record el { run_id = run_id; events = el.events ++ e ∷ [] }

  unfoldable pub append : EventLog P → RunEvent P → ℕ → ℕ → EventLog P × Option EventLogError
  unfolding missing_field fill_in store
  append el e now counter = elim (missing_field e) [
    | some err ↦ (el, some err)
    | none ↦ (store el (fill_in e now counter), none)
  ]

  -- `Tail` after the checks of the signs.
  unfoldable pub page : EventLog P → ℕ → ℕ → List (RunEvent P)
  page el cursor limit =
      let count = length el.events in
      let end = if ltb count (cursor + limit) then count else cursor + limit in
      if leb count cursor then [] else take (end - cursor) (drop cursor el.events)

  unfoldable pub tail : EventLog P → ℤ → ℤ → EventLogError ⊎ List (RunEvent P)
  unfolding page
  tail el cursor (negsuc n) = inl negative_limit
  tail el (negsuc n) (pos limit) = inl negative_cursor
  tail el (pos cursor) (pos limit) = inr (page el cursor limit)

  unfoldable pub get_all : EventLog P → List (RunEvent P)
  get_all el = el.events

  unfoldable pub len : EventLog P → ℕ
  len el = length el.events

  unfoldable pub is_truncated : EventLog P → Bool
  is_truncated el = el.truncated

  -- The index of the first event of an id; Go's -1 is none.
  index_from : ℕ → List (RunEvent P) → Str → Option ℕ
  index_from i [] id = none
  index_from i (e ∷ es) id = if str_eq e.event_id id then some i else index_from (i + 1) es id

  unfoldable pub find_event_index : EventLog P → Str → Option ℕ
  unfolding index_from
  find_event_index el id = index_from 0 el.events id
