-- ===== src/Runtime/Executor.antt =====
-- crates/fd-runtime/src/executor.rs: the records of the action pipeline, the two-phase submission and
-- the validation step. `Advance` has the passes over the pending records.
pub mod Advance
pub mod Progress
pub mod Induction
pub mod Evidence
pub mod Outcomes
pub mod Deadline
pub mod Passes
pub mod Reachable
use flightdeck_os.Base.{
  ℕ, ◌+◌, Bool, true, false, Option, none, some, List, [], ◌∷◌, ◌++◌, ltb, if◌then◌else◌, Result,
  ok, err, all,
}
use flightdeck_os.Core.Actions.{
  ActionId, Actor, CockpitAction, ActionRejectionReason, unsupported_by_adapter,
  adapter_unavailable, precondition_failed, ActionStatus, requested, VerifyFn, PreconditionDef,
  CatalogEntry, ActionRequest,
}
use flightdeck_os.Core.Adapter.{Capability, unsupported, blocks_dispatch, AdapterError}
use flightdeck_os.Core.Events.{EventSeq}
use flightdeck_os.Core.Telemetry.{SimTimestamp, TelemetrySnapshot, DataQuality, get}
use flightdeck_os.Runtime.Trace.{TraceEvent, action_requested}

abbrev pub Status : Type 0
Status = ActionStatus AdapterError

pub record ActionRecord (F : Type 0) : Type 0 where
  pub request : ActionRequest
  pub status : Status
  pub verify : Option (VerifyFn F)
  pub ticks_since_dispatch : ℕ  -- u64
  pub dispatched_ts_ms : ℕ  -- u64

pub record ActionExecutor (F : Type 0) : Type 0 where
  pub staged : List (ActionRecord F)
  pub pending : List (ActionRecord F)
  pub completed : List (ActionId × Status)
  pub next_id : ℕ  -- u64
  pub deadline : ℕ  -- u64

abbrev pub default_deadline : ℕ
default_deadline = 150

abbrev pub u64_max : ℕ
u64_max = 18446744073709551615

abbrev pub blocked_reason : Capability → ActionRejectionReason
blocked_reason unsupported = unsupported_by_adapter
blocked_reason _ = adapter_unavailable

-- The channel gate: a channel that is not annotated is fresh.
abbrev pub is_fresh : Option DataQuality → Bool
is_fresh none = true
is_fresh (some DataQuality.fresh) = true
is_fresh (some _) = false

module _ {F : Type 0} where
  abbrev pub new_record : ActionRequest → ActionRecord F
  new_record request = record {
    request = request;
    status = requested;
    verify = none;
    ticks_since_dispatch = 0;
    dispatched_ts_ms = 0;
  }

  abbrev pub new : ℕ → ActionExecutor F
  new deadline = record {
    staged = [];
    pending = [];
    completed = [];
    next_id = 0;
    deadline = deadline;
  }

  -- `checked_add` on the id, and its `expect`.
  unfoldable pub submit :
      ActionExecutor F
      → CockpitAction
      → Actor
      → SimTimestamp
      → EventSeq
      → Option (ActionId × TraceEvent F × ActionExecutor F)
  submit ex action actor at seq =
      if ltb ex.next_id u64_max
      then some (
        ex.next_id,
        action_requested seq at action actor ex.next_id,
        record ex {
          staged =
              ex.staged
              ++ new_record (record { id = ex.next_id; action = action; actor = actor; at = at })
                ∷ [];
          next_id = ex.next_id + 1;
        },
      )
      else none

  unfoldable pub commit : ActionExecutor F → ActionExecutor F
  commit ex = record ex { staged = []; pending = ex.pending ++ ex.staged }

  unfoldable pub take_completed : ActionExecutor F → List (ActionId × Status) × ActionExecutor F
  take_completed ex = (ex.completed, record ex { completed = [] })

  -- The loop over the preconditions; the first that fails is the reason.
  unfoldable pub check_preconditions :
      List (PreconditionDef F) → TelemetrySnapshot F → Result (Unit {0}) ActionRejectionReason
  check_preconditions [] snapshot = ok tt
  check_preconditions (pre ∷ rest) snapshot = elim (pre.check snapshot) [
    | ok _ ↦ check_preconditions rest snapshot
    | err reason ↦ err (precondition_failed pre.id reason)
  ]

  unfoldable pub validate_entry :
      CatalogEntry F → Capability → TelemetrySnapshot F → Result (VerifyFn F) ActionRejectionReason
  validate_entry entry capability snapshot =
      if blocks_dispatch capability
      then err (blocked_reason capability)
      else elim (check_preconditions entry.preconditions snapshot) [
        | ok _ ↦ ok entry.verify
        | err reason ↦ err reason
      ]

  unfoldable pub channels_ok : Option (CatalogEntry F) → TelemetrySnapshot F → Bool
  channels_ok none snapshot = true
  channels_ok (some entry) snapshot =
      all (λ ch. is_fresh (get ch snapshot.channel_quality)) entry.verification_channels
