-- ===== src/Runtime/Executor/Evidence.antt =====
-- crates/fd-runtime/src/executor.rs, `advance`: what an action needs to be reported as verified.
use flightdeck_os.Base.{
  ℕ, ◌<◌, ◌≡◌, refl, inl, inr, Bool, true, Option, none, some, List, ◌++◌, arith, All, All-append,
  All-mono, Any, Any-mono, ◌⊎◌, all, [], ◌∷◌, Any-append_split, >>=-eq-some,
}
use flightdeck_os.Core.Actions.{
  CockpitAction, ActionId, ActionCatalog, CatalogEntry, kind, lookup, requested, validated,
  dispatched, verified, VerifyFn,
}
use flightdeck_os.Core.Adapter.{SimulatorAdapter}
use flightdeck_os.Core.Telemetry.{TelemetrySnapshot, DataQuality, fresh, BTreeMap, get}
use flightdeck_os.Runtime.Trace.{TraceEvent}
use flightdeck_os.Runtime.Executor.{Status, ActionRecord, ActionExecutor, is_fresh, channels_ok}
use flightdeck_os.Runtime.Executor.Induction.{rounds_induction}
use flightdeck_os.Runtime.Executor.Advance.{
  Pass, advance_requested, advance_validated, advance_dispatched, advance_record, rounds,
  advance_fuel, advance,
}

-- The answer of the record's verifier for its action.
abbrev pub observed :
    {F : Type 0} → Option (VerifyFn F) → CockpitAction → TelemetrySnapshot F → Option Bool
observed none action snapshot = none
observed (some verify) action snapshot = verify action snapshot

-- No verification channel of the entry has a mark of quality in the snapshot but `fresh`.
abbrev pub AllFresh : {F : Type 0} → Option (CatalogEntry F) → TelemetrySnapshot F → Type 0
AllFresh none snapshot = Unit
AllFresh (some entry) snapshot =
    All
      (λ ch.
        (get ch snapshot.channel_quality ≡ none) ⊎ (get ch snapshot.channel_quality ≡ some fresh))
      entry.verification_channels

-- What the code asks of the record and the snapshot.
record Admits {F : Type 0} (catalog : ActionCatalog F) (snapshot : TelemetrySnapshot F)
    (id : ActionId) (rec : ActionRecord F) : Type 0 where
  same_id : rec.request.id ≡ id
  was_dispatched : rec.status ≡ dispatched
  newer : rec.dispatched_ts_ms < snapshot.timestamp.ms
  fresh_channels : channels_ok (lookup catalog (kind rec.request.action)) snapshot ≡ true
  target_observed : observed rec.verify rec.request.action snapshot ≡ some true

-- The snapshot confirms the action of a record that was dispatched before the snapshot was taken.
pub record Confirms {F : Type 0} (catalog : ActionCatalog F) (snapshot : TelemetrySnapshot F)
    (id : ActionId) (rec : ActionRecord F) : Type 0 where
  pub same_id : rec.request.id ≡ id
  pub was_dispatched : rec.status ≡ dispatched
  pub newer : rec.dispatched_ts_ms < snapshot.timestamp.ms
  pub fresh_channels : AllFresh (lookup catalog (kind rec.request.action)) snapshot
  pub target_observed : observed rec.verify rec.request.action snapshot ≡ some true

is_fresh-eq : (q : Option DataQuality) → is_fresh q ≡ true → (q ≡ none) ⊎ (q ≡ some fresh)
is_fresh-eq q h = ground (arith, h)

channels-fresh :
    (marks : BTreeMap DataQuality) (chs : List ℕ)
    → all (λ ch. is_fresh (get ch marks)) chs ≡ true
    → All (λ ch. (get ch marks ≡ none) ⊎ (get ch marks ≡ some fresh)) chs
channels-fresh marks [] h = tt
channels-fresh marks (ch ∷ chs) h =
    (is_fresh-eq (get ch marks) (ground (arith, h)), channels-fresh marks chs (ground (arith, h)))

channels_ok-AllFresh :
    {F : Type 0} (o : Option (CatalogEntry F)) (snapshot : TelemetrySnapshot F)
    → channels_ok o snapshot ≡ true
    → AllFresh o snapshot
unfolding channels_ok
channels_ok-AllFresh none snapshot h = tt
channels_ok-AllFresh (some entry) snapshot h =
    channels-fresh snapshot.channel_quality entry.verification_channels h

Admits-Confirms :
    {F : Type 0} (catalog : ActionCatalog F) (snapshot : TelemetrySnapshot F) (id : ActionId)
    (rec : ActionRecord F)
    → Admits catalog snapshot id rec
    → Confirms catalog snapshot id rec
Admits-Confirms catalog snapshot id rec a = record {
  same_id = a.same_id;
  was_dispatched = a.was_dispatched;
  newer = a.newer;
  fresh_channels =
      channels_ok-AllFresh (lookup catalog (kind rec.request.action)) snapshot a.fresh_channels;
  target_observed = a.target_observed;
}

module _ {F S : Type 0} (ad : SimulatorAdapter F S) (catalog : ActionCatalog F) (deadline : ℕ)
    (snapshot : TelemetrySnapshot F) where
  abbrev AdmitsHere : ActionId → ActionRecord F → Type 0
  AdmitsHere = Admits catalog snapshot

  record FromRecord (rec : ActionRecord F) (p : Pass F S) : Type 0 where
    back : (id : ActionId) → Any (AdmitsHere id) p.kept → AdmitsHere id rec
    reported : All (λ c. (c.1 ≡ verified) × AdmitsHere c.0 rec) p.completed

  requested_FromRecord :
      (rec : ActionRecord F) (s : S)
      → FromRecord rec (advance_requested ad catalog deadline snapshot rec s)
  unfolding advance_requested
  requested_FromRecord rec s = ground arith

  validated_FromRecord :
      (rec : ActionRecord F) (s : S)
      → FromRecord rec (advance_validated ad catalog deadline snapshot rec s)
  unfolding advance_validated
  validated_FromRecord rec s = ground arith

  dispatched_FromRecord :
      (rec : ActionRecord F) (s : S) (v : Option (VerifyFn F)) (p : Pass F S)
      → rec.status ≡ dispatched
      → rec.verify ≡ v
      → advance_dispatched ad catalog deadline snapshot rec v s ≡ some p
      → FromRecord rec p
  unfolding advance_dispatched
  dispatched_FromRecord rec s none p h e q = cc
  dispatched_FromRecord rec s (some v) p h e q = ground arith

  status_FromRecord :
      (st : Status) (rec : ActionRecord F) (s : S) (p : Pass F S)
      → rec.status ≡ st
      → advance_record ad catalog deadline snapshot rec s ≡ some p
      → FromRecord rec p
  unfolding advance_record
  status_FromRecord requested rec s p e q = ground (arith, requested_FromRecord rec s)
  status_FromRecord validated rec s p e q = ground (arith, validated_FromRecord rec s)
  status_FromRecord dispatched rec s p e q =
      ground (arith, dispatched_FromRecord rec s rec.verify p)
  status_FromRecord _ rec s p e q = ground arith

-- What a run over several records shows: confirmed records descend from those it began with.
record FromRecords {F S : Type 0} (catalog : ActionCatalog F) (snapshot : TelemetrySnapshot F)
    (recs : List (ActionRecord F)) (p : Pass F S) : Type 0 where
  back :
      (id : ActionId)
      → Any (Admits catalog snapshot id) p.kept
      → Any (Admits catalog snapshot id) recs
  reported : All (λ c. (c.1 ≡ verified) × Any (Admits catalog snapshot c.0) recs) p.completed

module _ {F S : Type 0} (ad : SimulatorAdapter F S) (catalog : ActionCatalog F) (deadline : ℕ)
    (snapshot : TelemetrySnapshot F) where
  rounds-FromRecords :
      (fuel : ℕ) (recs : List (ActionRecord F)) (s : S) (p : Pass F S)
      → rounds ad catalog deadline snapshot fuel recs s ≡ some p
      → FromRecords catalog snapshot recs p
  rounds-FromRecords =
      rounds_induction ad catalog deadline snapshot (FromRecords catalog snapshot)
        (λ s. record { back = λ id h. h; reported = tt })
        (λ rec recs s one rest e b.
          let a = status_FromRecord ad catalog deadline snapshot rec.status rec s one refl e in
          record {
            back = λ id h.
                elim (Any-append_split (Admits catalog snapshot id) one.kept rest.kept h) [
                  | inl x ↦ inl (a.back id x)
                  | inr x ↦ inr (b.back id x)
                ];
            reported =
                All-append _ one.completed rest.completed
                  (All-mono (λ c h. (h.0, inl h.1)) one.completed a.reported)
                  (All-mono (λ c h. (h.0, inr h.1)) rest.completed b.reported);
          })
        (λ recs now later a b. record {
          back = λ id h. a.back id (b.back id h);
          reported =
              All-append _ now.completed later.completed a.reported
                (All-mono (λ c h. (h.0, a.back c.0 h.1)) later.completed b.reported);
        })

-- Every outcome that `advance` reports is `Verified`, and it is reported for an action that was in
-- the queue as dispatched, against a snapshot strictly newer than the dispatch, with all its
-- verification channels unmarked or marked fresh, in which its verifier observed the target.
pub advance-completed :
    {F S : Type 0} (ad : SimulatorAdapter F S) (catalog : ActionCatalog F)
    (snapshot : TelemetrySnapshot F) (ex ex' : ActionExecutor F) (s s' : S)
    (events : List (TraceEvent F))
    → advance ad catalog snapshot ex s ≡ some (events, ex', s')
    → (new : List (ActionId × Status)) × (ex'.completed ≡ ex.completed ++ new)
      × All (λ c. (c.1 ≡ verified) × Any (Confirms catalog snapshot c.0) ex.pending) new
unfolding advance
advance-completed ad catalog snapshot ex ex' s s' events e =
    let (p, e₁, e₂) =
      >>=-eq-some (rounds ad catalog ex.deadline snapshot (advance_fuel ex.pending) ex.pending s) _
        e in
    (
      p.completed,
      ground arith,
      All-mono (λ c h. (h.0, Any-mono (Admits-Confirms catalog snapshot c.0) ex.pending h.1))
          p.completed
          (rounds-FromRecords ad catalog ex.deadline snapshot _ ex.pending s p e₁).reported,
    )
