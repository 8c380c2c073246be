-- ===== src/Worker/Shipper.antt =====
-- internal/worker/telemetry_shipper.go. `accepts` says which posts the control plane answers with
-- status 200, by the posts before. The steps of a shipper are the calls of its clients and what the
-- goroutine that runs it meets: an entry of the buffer, a tick, the end of its context.
pub mod Kept
pub mod Ships
pub mod Steps
pub mod Histories
pub mod Closing
mod Examples
use mcpdrill.Prelude.{
  ℕ, suc, ◌+◌, ◌++◌, List, [], ◌∷◌, Bool, true, false, ◌||◌, Option, none, some, ltb, leb,
  if◌then◌else◌, length, Str, Dict, lookup, erase, insert,
}
use mcpdrill.Api.Store.Records.{OperationOutcome}

abbrev pub default_batch_size : ℕ
default_batch_size = 100

abbrev pub default_buffer_size : ℕ
default_buffer_size = 10000

pub record TelemetryItem : Type 0 where
  pub run_id : Str
  pub outcome : OperationOutcome

pub record TelemetryBatchRequest : Type 0 where
  pub run_id : Str
  pub operations : List OperationOutcome

abbrev pub Answers : Type 0
Answers = List TelemetryBatchRequest → TelemetryBatchRequest → Bool

-- What was posted, the first post first, and how many records the control plane took.
pub record Outbox : Type 0 where
  pub posted : List TelemetryBatchRequest
  pub shipped_count : ℕ

-- `batches`, `draining` and `stopped` are of the goroutine: its batches, whether it saw the end of its
-- context, and whether it returned.
pub record TelemetryShipper : Type 0 where
  pub buffer : List TelemetryItem
  pub buffer_size : ℕ
  pub batch_size : ℕ
  pub closed : Bool
  pub buffer_closed : Bool
  pub dropped_count : ℕ
  pub batches : Dict (List OperationOutcome)
  pub outbox : Outbox
  pub draining : Bool
  pub stopped : Bool
  pub panicked : Bool

abbrev pub new_telemetry_shipper : TelemetryShipper
new_telemetry_shipper = record {
  buffer = [];
  buffer_size = default_buffer_size;
  batch_size = default_batch_size;
  closed = false;
  buffer_closed = false;
  dropped_count = 0;
  batches = [];
  outbox = record { posted = []; shipped_count = 0 };
  draining = false;
  stopped = false;
  panicked = false;
}

-- A send on a closed channel panics.
unfoldable pub ship : TelemetryItem → TelemetryShipper → TelemetryShipper
ship i s =
    if s.closed
    then record s { dropped_count = suc s.dropped_count }
    else if s.buffer_closed
    then record s { panicked = true }
    else if ltb (length s.buffer) s.buffer_size
    then record s { buffer = s.buffer ++ (i ∷ []) }
    else record s { dropped_count = suc s.dropped_count }

-- `Close` sets the flag, and then closes the channel, if no call did so before.
unfoldable pub begin_close : TelemetryShipper → TelemetryShipper
begin_close s = record s { closed = true }

unfoldable pub finish_close : TelemetryShipper → TelemetryShipper
finish_close s = if s.closed then record s { buffer_closed = true } else s

unfoldable pub ship_batch : Answers → Str → List OperationOutcome → Outbox → Outbox
ship_batch accepts id [] b = b
ship_batch accepts id (o ∷ os) b =
    let request : TelemetryBatchRequest = record { run_id = id; operations = o ∷ os } in
    record {
      posted = b.posted ++ (request ∷ []);
      shipped_count =
          if accepts b.posted request then b.shipped_count + length (o ∷ os) else b.shipped_count;
    }

unfoldable pub flush_all : Answers → Dict (List OperationOutcome) → Outbox → Outbox
unfolding ship_batch
flush_all accepts [] b = b
flush_all accepts ((id, os) ∷ m) b = flush_all accepts m (ship_batch accepts id os b)

unfoldable pub flush : Answers → TelemetryShipper → TelemetryShipper
unfolding flush_all
flush accepts s = record s { batches = []; outbox = flush_all accepts s.batches s.outbox }

abbrev pub or_nil : Option (List OperationOutcome) → List OperationOutcome
or_nil none = []
or_nil (some os) = os

-- An entry joins the batch of its run, which is posted when it is full.
unfoldable pub add_item : Answers → TelemetryItem → TelemetryShipper → TelemetryShipper
unfolding ship_batch
add_item accepts i s =
    let os = or_nil (lookup i.run_id s.batches) ++ (i.outcome ∷ []) in
    if leb s.batch_size (length os)
    then record s {
      batches = erase i.run_id s.batches;
      outbox = ship_batch accepts i.run_id os s.outbox;
    }
    else record s { batches = insert i.run_id os s.batches }

-- The goroutine turns to the buffer: it waits if the buffer is empty, but if the buffer is closed, or
-- its context is over, it returns.
unfoldable pub receive_from : Answers → List TelemetryItem → TelemetryShipper → TelemetryShipper
unfolding flush add_item
receive_from accepts [] s =
    if s.buffer_closed || s.draining then record (flush accepts s) { stopped = true } else s
receive_from accepts (i ∷ is) s = add_item accepts i (record s { buffer = is })

unfoldable pub receive : Answers → TelemetryShipper → TelemetryShipper
unfolding receive_from
receive accepts s = if s.stopped then s else receive_from accepts s.buffer s

unfoldable pub tick : Answers → TelemetryShipper → TelemetryShipper
unfolding flush
tick accepts s = if s.stopped || s.draining then s else flush accepts s

unfoldable pub cancel : TelemetryShipper → TelemetryShipper
cancel s = record s { draining = true }

pub data Step : Type 0 where
  ships : TelemetryItem → Step
  begins_close : Step
  finishes_close : Step
  receives : Step
  ticks : Step
  cancels : Step

unfoldable pub step : Answers → Step → TelemetryShipper → TelemetryShipper
unfolding ship begin_close finish_close receive tick cancel
step accepts (ships i) s = ship i s
step accepts begins_close s = begin_close s
step accepts finishes_close s = finish_close s
step accepts receives s = receive accepts s
step accepts ticks s = tick accepts s
step accepts cancels s = cancel s

unfoldable pub run_steps : Answers → List Step → TelemetryShipper → TelemetryShipper
unfolding step
run_steps accepts [] s = s
run_steps accepts (t ∷ ts) s = run_steps accepts ts (step accepts t s)
