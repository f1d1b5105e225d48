-- ===== src/Runtime/Executor/Reachable.antt =====
-- crates/fd-runtime/src/executor.rs: every executor that the operations of the pipeline can build.
use mathlib.Core.List.{append-nil, append_assoc}
use mathlib.Core.Path.{subst}
use flightdeck_os.Base.{
  ℕ, suc, ◌+◌, ◌≤◌, ◌≡◌, refl, sym, ap, ◌∙◌, ◌⊎◌, inl, inr, some, List, [], ◌∷◌, ◌++◌, arith, All,
  All-append, All-mono, >>=-eq-some, eq_of_some,
}
use flightdeck_os.Core.Actions.{
  ActionId, Actor, CockpitAction, ActionCatalog, requested, validated, dispatched,
}
use flightdeck_os.Core.Adapter.{SimulatorAdapter}
use flightdeck_os.Core.Events.{EventSeq}
use flightdeck_os.Core.Telemetry.{SimTimestamp, TelemetrySnapshot}
use flightdeck_os.Runtime.Trace.{TraceEvent}
use flightdeck_os.Runtime.Executor.{
  Status, ActionRecord, ActionExecutor, new_record, new, submit, commit, take_completed,
}
use flightdeck_os.Runtime.Executor.Induction.{rounds_induction}
use flightdeck_os.Runtime.Executor.Outcomes.{ids}
use flightdeck_os.Runtime.Executor.Progress.{IsLive, total_left-le, rounds_done, advance_total}
use flightdeck_os.Runtime.Executor.Advance.{
  Pass, joined, advance_requested, advance_validated, advance_dispatched, advance_record, rounds,
  advance_fuel, advance,
}

-- The numbers rise along the list, from `lo` on and below `hi`.
abbrev pub Rising : ℕ → List ℕ → ℕ → Type 0
Rising lo [] hi = lo ≤ hi
Rising lo (x ∷ xs) hi = (lo ≤ x) × Rising (suc x) xs hi

Rising-weaken : (lo lo' : ℕ) (xs : List ℕ) (hi : ℕ) → lo ≤ lo' → Rising lo' xs hi → Rising lo xs hi
Rising-weaken lo lo' [] hi h r = omega arith
Rising-weaken lo lo' (x ∷ xs) hi h r = (omega arith, r.1)

Rising-snoc : (lo : ℕ) (xs : List ℕ) (hi : ℕ) → Rising lo xs hi → Rising lo (xs ++ hi ∷ []) (hi + 1)
Rising-snoc lo [] hi r = omega arith
Rising-snoc lo (x ∷ xs) hi r = (r.0, Rising-snoc (suc x) xs hi r.1)

-- The actions in the queue and then the staged ones, in the order of their identifiers.
abbrev pub queue_ids : {F : Type 0} → ActionExecutor F → List ActionId
queue_ids ex = ids ex.pending ++ ids ex.staged

-- No terminal record is queued, staged requests are untouched, and the identifiers are distinct,
-- in submission order and below the next one.
pub record IsSound {F : Type 0} (ex : ActionExecutor F) : Type 0 where
  pub live : All IsLive ex.pending
  pub untouched : All (λ rec. rec.status ≡ requested) ex.staged
  pub ordered : Rising 0 (queue_ids ex) ex.next_id

-- How an executor comes about: the public operations, in any order, against an adapter.
pub data Reach {F S : Type 0} (ad : SimulatorAdapter F S) (catalog : ActionCatalog F) (deadline : ℕ)
    : ActionExecutor F → Type 0 where
  fresh : Reach ad catalog deadline (new deadline)
  submits :
      {ex ex' : ActionExecutor F} {id : ActionId} {event : TraceEvent F}
      → Reach ad catalog deadline ex
      → (action : CockpitAction) (actor : Actor) (at : SimTimestamp) (seq : EventSeq)
      → submit ex action actor at seq ≡ some (id, event, ex')
      → Reach ad catalog deadline ex'
  commits :
      {ex : ActionExecutor F} → Reach ad catalog deadline ex → Reach ad catalog deadline (commit ex)
  takes :
      {ex : ActionExecutor F}
      → Reach ad catalog deadline ex
      → Reach ad catalog deadline (take_completed ex).1
  advances :
      {ex ex' : ActionExecutor F}
      → Reach ad catalog deadline ex
      → (snapshot : TelemetrySnapshot F) (s s' : S) (events : List (TraceEvent F))
      → advance ad catalog snapshot ex s ≡ some (events, ex', s')
      → Reach ad catalog deadline ex'

ids-append : {F : Type 0} (xs ys : List (ActionRecord F)) → ids (xs ++ ys) ≡ ids xs ++ ids ys
ids-append [] ys = refl
ids-append (x ∷ xs) ys = rw (ids-append xs ys)

module _ {F : Type 0} where
  new-IsSound : (deadline : ℕ) → IsSound {F = F} (new deadline)
  new-IsSound deadline = ground arith

  staged_ids :
      (ex : ActionExecutor F) (rec : ActionRecord F)
      → ids ex.pending ++ ids (ex.staged ++ rec ∷ []) ≡ queue_ids ex ++ rec.request.id ∷ []
  staged_ids ex rec = simp (ids-append, append_assoc)

  submit-IsSound :
      (ex ex' : ActionExecutor F) (action : CockpitAction) (actor : Actor) (at : SimTimestamp)
      (seq : EventSeq) (id : ActionId) (event : TraceEvent F)
      → submit ex action actor at seq ≡ some (id, event, ex')
      → IsSound ex
      → IsSound ex'
  unfolding submit
  submit-IsSound ex ex' action actor at seq id event e h = ground (arith, untouched, ordered)
    where
      rec : ActionRecord F
      rec = new_record (record { id = ex.next_id; action = action; actor = actor; at = at })

      untouched : All (λ rec. rec.status ≡ requested) (ex.staged ++ rec ∷ [])
      untouched = All-append _ ex.staged (rec ∷ []) h.untouched (refl, tt)

      ordered : Rising 0 (ids ex.pending ++ ids (ex.staged ++ rec ∷ [])) (ex.next_id + 1)
      ordered = rw (staged_ids ex rec) (Rising-snoc 0 (queue_ids ex) ex.next_id h.ordered)

  commit-IsSound : (ex : ActionExecutor F) → IsSound ex → IsSound (commit ex)
  unfolding commit
  commit-IsSound ex h = record {
    live =
        All-append IsLive ex.pending ex.staged h.live
          (All-mono (λ r q. ground (arith, q)) ex.staged h.untouched);
    untouched = tt;
    ordered = rw (append-nil, ids-append ex.pending ex.staged) h.ordered;
  }

  take_completed-IsSound : (ex : ActionExecutor F) → IsSound ex → IsSound (take_completed ex).1
  unfolding take_completed
  take_completed-IsSound ex h = ground arith

-- A part of the loop keeps the identifiers that it leaves in order, whatever stands behind them.
abbrev KeepsOrder : {F S : Type 0} → List (ActionRecord F) → Pass F S → Type 0
KeepsOrder recs p =
    (lo hi : ℕ) (ys : List ℕ) → Rising lo (ids recs ++ ys) hi → Rising lo (ids p.kept ++ ys) hi

module _ {F S : Type 0} (ad : SimulatorAdapter F S) (catalog : ActionCatalog F) (deadline : ℕ)
    (snapshot : TelemetrySnapshot F) where
  abbrev SameOrGone : ActionRecord F → Pass F S → Type 0
  SameOrGone rec p = (ids p.kept ≡ []) ⊎ (ids p.kept ≡ rec.request.id ∷ [])

  advance_record_ids :
      (st : Status) (rec : ActionRecord F) (s : S) (p : Pass F S)
      → rec.status ≡ st
      → advance_record ad catalog deadline snapshot rec s ≡ some p
      → SameOrGone rec p
  unfolding advance_record advance_requested advance_validated advance_dispatched
  advance_record_ids requested rec s p e q = ground arith
  advance_record_ids validated rec s p e q = ground arith
  advance_record_ids dispatched rec s p e q = ground arith
  advance_record_ids _ rec s p e q = ground arith

  one_more-KeepsOrder :
      (rec : ActionRecord F) (recs : List (ActionRecord F)) (one rest : Pass F S)
      → SameOrGone rec one
      → KeepsOrder recs rest
      → KeepsOrder (rec ∷ recs) (joined one rest)
  one_more-KeepsOrder rec recs one rest (inl e) b lo hi ys r =
      rw (ids-append one.kept rest.kept, e)
        (b lo hi ys (Rising-weaken lo (suc rec.request.id) (ids recs ++ ys) hi (omega arith) r.1))
  one_more-KeepsOrder rec recs one rest (inr e) b lo hi ys r =
      rw (ids-append one.kept rest.kept, e) (r.0, b (suc rec.request.id) hi ys r.1)

  rounds-KeepsOrder :
      (fuel : ℕ) (recs : List (ActionRecord F)) (s : S) (p : Pass F S)
      → rounds ad catalog deadline snapshot fuel recs s ≡ some p
      → KeepsOrder recs p
  rounds-KeepsOrder =
      rounds_induction ad catalog deadline snapshot KeepsOrder (λ s lo hi ys r. r)
        (λ rec recs s one rest e b.
          one_more-KeepsOrder rec recs one rest (advance_record_ids rec.status rec s one refl e) b)
        (λ recs now later a b lo hi ys r. b lo hi ys (a lo hi ys r))

module _ {F S : Type 0} (ad : SimulatorAdapter F S) (catalog : ActionCatalog F)
    (snapshot : TelemetrySnapshot F) where
  advance-IsSound :
      (ex ex' : ActionExecutor F) (s s' : S) (events : List (TraceEvent F))
      → advance ad catalog snapshot ex s ≡ some (events, ex', s')
      → IsSound ex
      → IsSound ex'
  unfolding advance
  advance-IsSound ex ex' s s' events e h =
      let (p, e₁, e₂) =
        >>=-eq-some (rounds ad catalog ex.deadline snapshot (advance_fuel ex.pending) ex.pending s)
          _ e in
      let (p', e₃, live) =
        rounds_done ad catalog ex.deadline snapshot (advance_fuel ex.pending) ex.pending s h.live
          (omega (arith, total_left-le ex.pending)) in
      subst IsSound (ap (λ t. t.1) (eq_of_some e₂)) (record {
        live = subst (λ q. All IsLive q.kept) (eq_of_some (sym e₃ ∙ e₁)) live;
        untouched = h.untouched;
        ordered =
            rounds-KeepsOrder ad catalog ex.deadline snapshot (advance_fuel ex.pending) ex.pending s
              p e₁ 0 ex.next_id (ids ex.staged) h.ordered;
      })

module _ {F S : Type 0} {ad : SimulatorAdapter F S} {catalog : ActionCatalog F} {deadline : ℕ} where
  Reach-IsSound : {ex : ActionExecutor F} → Reach ad catalog deadline ex → IsSound ex
  Reach-IsSound fresh = new-IsSound deadline
  Reach-IsSound (submits {ex} {ex'} {id} {event} r action actor at seq e) =
      submit-IsSound ex ex' action actor at seq id event e (Reach-IsSound r)
  Reach-IsSound (commits {ex} r) = commit-IsSound ex (Reach-IsSound r)
  Reach-IsSound (takes {ex} r) = take_completed-IsSound ex (Reach-IsSound r)
  Reach-IsSound (advances {ex} {ex'} r snapshot s s' events e) =
      advance-IsSound ad catalog snapshot ex ex' s s' events e (Reach-IsSound r)

  -- From any executor that submissions, commits, drains and advances can build, `advance` returns:
  -- neither `expect` nor `unreachable!` panics and the loop ends. The executor that it returns holds
  -- no terminal record, and its identifiers are distinct, in submission order and below the next.
  pub Reach-advance :
      {ex : ActionExecutor F}
      → Reach ad catalog deadline ex
      → (snapshot : TelemetrySnapshot F) (s : S)
      → (events : List (TraceEvent F)) × (ex' : ActionExecutor F) × (s' : S) × (advance ad catalog
            snapshot ex s
          ≡ some (events, ex', s'))
        × IsSound ex'
  Reach-advance {ex} r snapshot s =
      let sound = Reach-IsSound r in
      let (events, ex', s', e, live) = advance_total ad catalog snapshot ex s sound.live in
      (events, ex', s', e, advance-IsSound ad catalog snapshot ex ex' s s' events e sound)
