-- ===== src/Mission/OffRoute/History.antt =====
-- crates/fd-mission/src/monitor.rs, `OffRouteDetector::update`: the events as a function of the
-- observations so far.
use flightdeck_os.Base.{
  ℕ, suc, ◌+◌, ◌≤◌, ◌<◌, ◌%◌, ◌^◌, ◌≡◌, refl, ap, ◌∙◌, Bool, true, false, not, ◌&&◌, Option, none,
  some, List, [], ◌∷◌, length, leb, ltb, ◌==◌, if◌then◌else◌, arith, if_false,
}
use flightdeck_os.Base.Floats.{Float}
use flightdeck_os.Mission.Monitor.{RouteObservation}
use flightdeck_os.Mission.OffRoute.{
  OffRouteConfig, OffRouteEvent, OffRouteDetector, new, deviating, deviate, raise, update_xtk,
  update,
}

module _ {F : Type 0} (fl : Float F) (config : OffRouteConfig F) where
  abbrev pub extend : List (ℕ × F) → ℕ → Option F → List (ℕ × F)
  extend streak seq none = []
  extend streak seq (some xtk) = if deviating fl config xtk then (seq, fl.abs xtk) ∷ streak else []

  -- The deviating observations since the last one that is not, latest first.
  abbrev pub streak_of : List (ℕ × RouteObservation F) → List (ℕ × F)
  streak_of [] = []
  streak_of ((seq, obs) ∷ history) = extend (streak_of history) seq obs.cross_track_error_nm

  abbrev pub since_of : ℕ → List (ℕ × F) → ℕ
  since_of seq [] = seq
  since_of seq ((seq', _) ∷ streak) = since_of seq' streak

  abbrev pub peak_of : F → List (ℕ × F) → F
  peak_of x [] = x
  peak_of x ((_, y) ∷ streak) = fl.max (peak_of y streak) x

  -- The detector that a streak amounts to.
  abbrev view : List (ℕ × F) → OffRouteDetector F
  view [] = new fl config
  view ((seq, x) ∷ streak) = record {
    config = config;
    sustained_count = length ((seq, x) ∷ streak);
    since_seq = some (since_of seq streak);
    peak_xtk_nm = peak_of x streak;
    active = leb config.sustain_samples (length ((seq, x) ∷ streak));
  }

  -- The length of a streak at which it becomes an event.
  abbrev pub onset : ℕ
  onset = if config.sustain_samples == 0 then 1 else config.sustain_samples

  -- The event when a streak is just long enough.
  abbrev pub onset_event : List (ℕ × F) → Option (OffRouteEvent F)
  onset_event [] = none
  onset_event ((seq, x) ∷ streak) =
      if length ((seq, x) ∷ streak) == onset
      then some (record { since_seq = since_of seq streak; peak_xtk_nm = peak_of x streak })
      else none

  -- Whether the next deviating observation is the onset, by the tests of the code and by the length.
  onset_cases :
      (sustain n : ℕ) (was_active : Bool)
      → was_active ≡ (ltb 0 n && leb sustain n)
      → ((leb sustain (suc n) && not was_active) ≡ (suc n == (if sustain == 0 then 1 else sustain)))
        × ((if leb sustain (suc n) && not was_active then true else was_active)
            ≡ leb sustain (suc n))
  onset_cases sustain n was_active e = ground (arith, e)

  raise-onset :
      (n since : ℕ) (peak : F) (was_active : Bool) (seq : ℕ)
      → was_active ≡ (ltb 0 n && leb config.sustain_samples n)
      → raise fl
          (record {
            config = config;
            sustained_count = suc n;
            since_seq = some since;
            peak_xtk_nm = peak;
            active = was_active;
          })
          seq
        ≡ (
          (if suc n == onset
              then some (record { since_seq = since; peak_xtk_nm = peak })
              else none),
          record {
            config = config;
            sustained_count = suc n;
            since_seq = some since;
            peak_xtk_nm = peak;
            active = leb config.sustain_samples (suc n);
          },
        )
  raise-onset n since peak was_active seq e =
      let (at_onset, stays) = onset_cases config.sustain_samples n was_active e in
      go (leb config.sustain_samples (suc n) && not was_active)
      ∙ (ap
            (λ q.
              out q
                (if leb config.sustain_samples (suc n) && not was_active then true else was_active))
            at_onset
          ∙ ap (out (suc n == onset)) stays)
    where
      out : Bool → Bool → Option (OffRouteEvent F) × OffRouteDetector F
      out q b = (
        (if q then some (record { since_seq = since; peak_xtk_nm = peak }) else none),
        record {
          config = config;
          sustained_count = suc n;
          since_seq = some since;
          peak_xtk_nm = peak;
          active = b;
        },
      )

      go :
          (c : Bool)
          → (if c
              then (some (record { since_seq = since; peak_xtk_nm = peak }), (out true true).1)
              else (none, (out true was_active).1))
            ≡ out c (if c then true else was_active)
      go true = refl
      go false = refl

  deviate-view :
      (streak : List (ℕ × F)) (seq : ℕ) (xtk : F)
      → length streak + 1 < 2 ^ 32
      → raise fl (deviate fl (view streak) seq xtk) seq
        ≡ (onset_event ((seq, fl.abs xtk) ∷ streak), view ((seq, fl.abs xtk) ∷ streak))
  deviate-view [] seq xtk h = raise-onset 0 seq (fl.abs xtk) false seq refl
  deviate-view ((seq', x) ∷ streak) seq xtk h =
      let n = length ((seq', x) ∷ streak) in
      let later : (n == 0) ≡ false = ground arith in
      let d = view ((seq', x) ∷ streak) in
      let fits : (n + 1) % 2 ^ 32 ≡ suc n = omega (arith, h) in
      ap (λ d'. raise fl d' seq) (deviated fits later)
      ∙ raise-onset n (since_of seq' streak) (fl.max (peak_of x streak) (fl.abs xtk))
          (leb config.sustain_samples n) seq (ground arith)
    where
      with_evidence : ℕ → Option ℕ → F → OffRouteDetector F
      with_evidence n since peak = record {
        config = config;
        sustained_count = n;
        since_seq = since;
        peak_xtk_nm = peak;
        active = leb config.sustain_samples (length ((seq', x) ∷ streak));
      }

      deviated :
          (length ((seq', x) ∷ streak) + 1) % 2 ^ 32 ≡ suc (length ((seq', x) ∷ streak))
          → (length ((seq', x) ∷ streak) == 0) ≡ false
          → deviate fl (view ((seq', x) ∷ streak)) seq xtk ≡ record {
            config = config;
            sustained_count = suc (length ((seq', x) ∷ streak));
            since_seq = some (since_of seq' streak);
            peak_xtk_nm = fl.max (peak_of x streak) (fl.abs xtk);
            active = leb config.sustain_samples (length ((seq', x) ∷ streak));
          }
      deviated fits later =
          ap
            (λ n.
              with_evidence n
                (if length ((seq', x) ∷ streak) == 0 then some seq else some (since_of seq' streak))
                (if length ((seq', x) ∷ streak) == 0
                  then fl.abs xtk
                  else fl.max (peak_of x streak) (fl.abs xtk)))
            fits
          ∙ (ap
                (λ q. with_evidence (suc (length ((seq', x) ∷ streak))) q (
                  if length ((seq', x) ∷ streak) == 0
                  then fl.abs xtk
                  else fl.max (peak_of x streak) (fl.abs xtk)))
                (if_false _ _ later)
              ∙ ap
                  (λ q.
                    with_evidence (suc (length ((seq', x) ∷ streak))) (some (since_of seq' streak))
                      q)
                  (if_false _ _ later))

  length-extend :
      (streak : List (ℕ × F)) (seq : ℕ) (xtk : Option F)
      → length (extend streak seq xtk) ≤ length streak + 1
  length-extend streak seq none = omega arith
  length-extend streak seq (some xtk) = ground arith

  length-streak_of :
      (history : List (ℕ × RouteObservation F)) → length (streak_of history) ≤ length history
  length-streak_of [] = omega arith
  length-streak_of ((seq, obs) ∷ history) = omega (
    arith,
    length-streak_of history,
    length-extend (streak_of history) seq obs.cross_track_error_nm,
  )

  -- The event at an observation: a deviation that has just lasted long enough.
  abbrev pub expected : List (ℕ × F) → ℕ → Option F → Option (OffRouteEvent F)
  expected streak seq xtk = onset_event (extend streak seq xtk)

  sample-view :
      (streak : List (ℕ × F)) (seq : ℕ) (xtk : F)
      → length streak + 1 < 2 ^ 32
      → (b : Bool)
      → (if b then raise fl (deviate fl (view streak) seq xtk) seq else (none, new fl config)) ≡ (
        onset_event (if b then (seq, fl.abs xtk) ∷ streak else []),
        view (if b then (seq, fl.abs xtk) ∷ streak else []),
      )
  sample-view streak seq xtk h true = deviate-view streak seq xtk h
  sample-view streak seq xtk h false = refl

  update_xtk-view :
      (streak : List (ℕ × F)) (seq : ℕ) (xtk : Option F)
      → length streak + 1 < 2 ^ 32
      → update_xtk fl (view streak) seq xtk
        ≡ (expected streak seq xtk, view (extend streak seq xtk))
  unfolding update_xtk
  update_xtk-view [] seq none h = refl
  update_xtk-view (c ∷ streak) seq none h = refl
  update_xtk-view [] seq (some xtk) h = sample-view [] seq xtk h (deviating fl config xtk)
  update_xtk-view (c ∷ streak) seq (some xtk) h =
      sample-view (c ∷ streak) seq xtk h (deviating fl config xtk)

  -- A detector that has been fed observations, latest first, since it was new.
  pub data Fed : List (ℕ × RouteObservation F) → OffRouteDetector F → Type 0 where
    start : Fed [] (new fl config)
    fed :
        {history : List (ℕ × RouteObservation F)} {d : OffRouteDetector F}
        → Fed history d
        → (seq : ℕ) (obs : RouteObservation F) → Fed ((seq, obs) ∷ history) (update fl d seq obs).1

  Fed-view :
      {history : List (ℕ × RouteObservation F)} {d : OffRouteDetector F}
      → Fed history d
      → length history < 2 ^ 32
      → d ≡ view (streak_of history)
  unfolding update
  Fed-view start h = refl
  Fed-view (fed {history} {d} f seq obs) h =
      ap (λ x. (update_xtk fl x seq obs.cross_track_error_nm).1) (Fed-view f (omega (arith, h)))
      ∙ ap (λ r. r.1)
          (update_xtk-view (streak_of history) seq obs.cross_track_error_nm
            (omega (arith, h, length-streak_of history)))

  -- For a detector that has been fed observations since it was new, fewer than 2 ^ 32 with the next
  -- one: the next observation is an event exactly when it makes the row of deviations it ends as
  -- long as the configured number of samples, or one where that number is 0. The event carries the
  -- sequence number of the first of these deviations and the greatest of them.
  pub Fed-event :
      {history : List (ℕ × RouteObservation F)} {d : OffRouteDetector F}
      → Fed history d
      → length history + 1 < 2 ^ 32
      → (seq : ℕ) (obs : RouteObservation F)
      → (update fl d seq obs).0 ≡ onset_event (streak_of ((seq, obs) ∷ history))
  unfolding update
  Fed-event {history} f h seq obs =
      ap (λ x. (update_xtk fl x seq obs.cross_track_error_nm).0) (Fed-view f (omega (arith, h)))
      ∙ ap (λ r. r.0)
          (update_xtk-view (streak_of history) seq obs.cross_track_error_nm
            (omega (arith, h, length-streak_of history)))
