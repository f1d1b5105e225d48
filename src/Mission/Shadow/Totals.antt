-- ===== src/Mission/Shadow/Totals.antt =====
-- Shadow: the running totals against the classification of the recorded entries.
use mathlib.Core.List.{append_assoc, append-nil}
use mathlib.Core.Path.{subst}
use flightdeck_os.Base.{
  ℕ, suc, ◌+◌, ◌*◌, Bool, true, false, ◌≡◌, refl, sym, ap, ◌∙◌, List, [], ◌∷◌, ◌++◌, Option, none,
  some, length, length-append, Bool-cases, inl, inr, ◌&&◌, if◌then◌else◌, arith,
}
use flightdeck_os.Base.Floats.{Float, Trig}
use flightdeck_os.Base.Texts.{String}
use flightdeck_os.Mission.Controller.{
  MissionPhase, MissionContext, MissionParameters, name, intended_commands,
}
use flightdeck_os.Mission.Shadow.{
  ObservedApTargets, ChannelClass, ChannelStats, ShadowEntry, MissionShadow, new, pairs,
  within_tolerance, classify, classify_all, classes, compare_all, observe, ShadowSummary,
  count_class, count_classes, differs, ambiguous_boundary, summarise_entry, summarise, summary,
  bump, count_intent, no_summary,
}

abbrev pub is_class : ChannelClass → ChannelClass → Bool
is_class ChannelClass.matched ChannelClass.matched = true
is_class ChannelClass.diverged ChannelClass.diverged = true
is_class ChannelClass.unknown ChannelClass.unknown = true
is_class ChannelClass.not_comparable ChannelClass.not_comparable = true
is_class _ _ = false

-- How many channels are of a class.
pub count_of : ChannelClass → List ChannelClass → ℕ
count_of c [] = 0
count_of c (d ∷ ds) = (if is_class c d then 1 else 0) + count_of c ds

abbrev pub sum_by : (ChannelStats → ℕ) → List ChannelStats → ℕ
sum_by f [] = 0
sum_by f (s ∷ ss) = f s + sum_by f ss

-- One sample, as `observe` takes it.
pub record Sample (F : Type 0) : Type 0 where
  pub sample_seq : ℕ
  pub phase : MissionPhase
  pub ctx : MissionContext F
  pub observed : ObservedApTargets F

count_all :
    (cs : List ChannelClass)
    → count_of ChannelClass.matched cs
        + count_of ChannelClass.diverged cs
        + count_of ChannelClass.unknown cs
        + count_of ChannelClass.not_comparable cs
      ≡ length cs
unfolding count_of
count_all [] = refl
count_all (ChannelClass.matched ∷ cs) = omega (arith, count_all cs)
count_all (ChannelClass.diverged ∷ cs) = omega (arith, count_all cs)
count_all (ChannelClass.unknown ∷ cs) = omega (arith, count_all cs)
count_all (ChannelClass.not_comparable ∷ cs) = omega (arith, count_all cs)

-- What a summary gains from the classes of an entry.
record Gains (cs : List ChannelClass) (s s' : ShadowSummary) : Type 0 where
  matches : s'.matches ≡ s.matches + count_of ChannelClass.matched cs
  divergences : s'.divergences ≡ s.divergences + count_of ChannelClass.diverged cs
  unknown : s'.unknown ≡ s.unknown + count_of ChannelClass.unknown cs
  not_comparable : s'.not_comparable ≡ s.not_comparable + count_of ChannelClass.not_comparable cs

count_classes-Gains : (cs : List ChannelClass) (s : ShadowSummary) → Gains cs s (count_classes cs s)
unfolding count_classes count_of
count_classes-Gains [] s = omega arith
count_classes-Gains (ChannelClass.matched ∷ cs) s =
    let g = count_classes-Gains cs (count_class s ChannelClass.matched) in omega (arith, g)
count_classes-Gains (ChannelClass.diverged ∷ cs) s =
    let g = count_classes-Gains cs (count_class s ChannelClass.diverged) in omega (arith, g)
count_classes-Gains (ChannelClass.unknown ∷ cs) s =
    let g = count_classes-Gains cs (count_class s ChannelClass.unknown) in omega (arith, g)
count_classes-Gains (ChannelClass.not_comparable ∷ cs) s =
    let g = count_classes-Gains cs (count_class s ChannelClass.not_comparable) in omega (arith, g)

module _ {F : Type 0} (fl : Float F) (tr : Trig F) where
  -- The classes of all channels of all entries.
  pub all_classes : List (ShadowEntry F) → List ChannelClass
  all_classes [] = []
  all_classes (e ∷ es) = classes fl tr e ++ all_classes es

  count_of-append :
      (c : ChannelClass) (xs ys : List ChannelClass)
      → count_of c (xs ++ ys) ≡ count_of c xs + count_of c ys
  unfolding count_of
  count_of-append c [] ys = omega arith
  count_of-append c (x ∷ xs) ys = omega (arith, count_of-append c xs ys)

  Gains-append :
      (xs ys : List ChannelClass) (s s' s'' : ShadowSummary)
      → Gains xs s s'
      → Gains ys s' s''
      → Gains (xs ++ ys) s s''
  Gains-append xs ys s s' s'' g h = record {
    matches = omega (arith, g, h, count_of-append ChannelClass.matched xs ys);
    divergences = omega (arith, g, h, count_of-append ChannelClass.diverged xs ys);
    unknown = omega (arith, g, h, count_of-append ChannelClass.unknown xs ys);
    not_comparable = omega (arith, g, h, count_of-append ChannelClass.not_comparable xs ys);
  }

  summarise_entry-Gains :
      (prev : Option MissionPhase) (e : ShadowEntry F) (s : ShadowSummary)
      → Gains (classes fl tr e) s (summarise_entry fl tr prev e s)
  unfolding summarise_entry
  summarise_entry-Gains prev e s =
      let g = count_classes-Gains (classes fl tr e) started in
      if_gains (differs prev e.phase && ambiguous_boundary fl tr e)
        (count_classes (classes fl tr e) started)
        (record {
          matches = g.matches;
          divergences = g.divergences;
          unknown = g.unknown;
          not_comparable = g.not_comparable;
        })
    where
      started : ShadowSummary
      started = record s {
        states_traversed = bump (name e.phase) s.states_traversed;
        intents_emitted = count_intent e.intent s.intents_emitted;
      }

      if_gains :
          (b : Bool) (t : ShadowSummary)
          → Gains (classes fl tr e) s t
          → Gains
              (classes fl tr e)
              s
              (if b then record t { ambiguous_transitions = t.ambiguous_transitions + 1 } else t)
      if_gains true t g = record {
        matches = g.matches;
        divergences = g.divergences;
        unknown = g.unknown;
        not_comparable = g.not_comparable;
      }
      if_gains false t g = g

  summarise-Gains :
      (es : List (ShadowEntry F)) (prev : Option MissionPhase) (s : ShadowSummary)
      → Gains (all_classes es) s (summarise fl tr prev es s)
  unfolding summarise all_classes
  summarise-Gains [] prev s = unfold count_of in omega arith
  summarise-Gains (e ∷ es) prev s =
      Gains-append (classes fl tr e) (all_classes es) s (summarise_entry fl tr prev e s) _
        (summarise_entry-Gains prev e s)
        (summarise-Gains es (some e.phase) (summarise_entry fl tr prev e s))

  all_classes-append :
      (xs ys : List (ShadowEntry F)) → all_classes (xs ++ ys) ≡ all_classes xs ++ all_classes ys
  unfolding all_classes
  all_classes-append [] ys = refl
  all_classes-append (x ∷ xs) ys =
      ap (λ l. classes fl tr x ++ l) (all_classes-append xs ys)
      ∙ sym (append_assoc (classes fl tr x) _ _)

  length-classify_all :
      (i : ℕ) (ps : List (Option F × Option F)) → length (classify_all fl tr i ps) ≡ length ps
  unfolding classify_all
  length-classify_all i [] = refl
  length-classify_all i (p ∷ ps) = ap suc (length-classify_all (i + 1) ps)

  length-all_classes : (es : List (ShadowEntry F)) → length (all_classes es) ≡ 4 * length es
  unfolding all_classes
  length-all_classes [] = refl
  length-all_classes (e ∷ es) = omega (
    arith,
    length-append {0} (classes fl tr e) (all_classes es),
    length-classify_all 0 (pairs fl tr e.observed e.intended),
    length-all_classes es,
  )

  module _ (describe : ℕ → F → F → String) where
    -- What a comparison adds to the statistics, and how many reasons it gives.
    record Compares (cs : List ChannelClass) (old new : List ChannelStats) (reasons : List String)
        : Type 0 where
      matched :
          sum_by (λ s. s.matched) new
          ≡ sum_by (λ s. s.matched) old + count_of ChannelClass.matched cs
      diverged :
          sum_by (λ s. s.diverged) new
          ≡ sum_by (λ s. s.diverged) old + count_of ChannelClass.diverged cs
      evaluated :
          sum_by (λ s. s.evaluated) new
          ≡ sum_by (λ s. s.evaluated) old
            + count_of ChannelClass.matched cs
            + count_of ChannelClass.diverged cs
      explained : length reasons ≡ count_of ChannelClass.diverged cs
      same : length new ≡ length old

    compare_all-Compares :
        (i : ℕ) (channels : List ChannelStats) (ps : List (Option F × Option F))
        → length channels ≡ length ps
        → let (channels', matches, reasons) = compare_all fl tr describe i channels ps in
          Compares (classify_all fl tr i ps) channels channels' reasons
    unfolding compare_all classify_all classify count_of
    compare_all-Compares i [] [] h = omega arith
    compare_all-Compares i [] (p ∷ ps) h = absurd (omega (arith, h))
    compare_all-Compares i (s ∷ channels) [] h = absurd (omega (arith, h))
    compare_all-Compares i (s ∷ channels) ((none, got) ∷ ps) h =
        let c = compare_all-Compares (i + 1) channels ps (omega (arith, h)) in omega (arith, c)
    compare_all-Compares i (s ∷ channels) ((some want, none) ∷ ps) h =
        let c = compare_all-Compares (i + 1) channels ps (omega (arith, h)) in omega (arith, c)
    compare_all-Compares i (s ∷ channels) ((some want, some got) ∷ ps) h =
        let c = compare_all-Compares (i + 1) channels ps (omega (arith, h)) in
        elim (Bool-cases (within_tolerance fl tr i want got)) [
          | inl y ↦ rw y (omega (arith, c))
          | inr n ↦ rw n (omega (arith, c))
        ]

    observe_sample : MissionParameters F → Sample F → MissionShadow F → MissionShadow F
    observe_sample params x = observe fl tr describe x.sample_seq x.phase x.ctx params x.observed

    -- The recorder after some samples.
    pub observe_all : MissionParameters F → List (Sample F) → MissionShadow F → MissionShadow F
    unfolding observe_sample
    observe_all params [] shadow = shadow
    observe_all params (x ∷ xs) shadow = observe_all params xs (observe_sample params x shadow)

    record IsTallied (seen : ℕ) (shadow : MissionShadow F) : Type 0 where
      four : length shadow.channels ≡ 4
      matched :
          sum_by (λ s. s.matched) shadow.channels
          ≡ count_of ChannelClass.matched (all_classes shadow.entries)
      diverged :
          sum_by (λ s. s.diverged) shadow.channels
          ≡ count_of ChannelClass.diverged (all_classes shadow.entries)
      evaluated :
          sum_by (λ s. s.evaluated) shadow.channels
          ≡ count_of ChannelClass.matched (all_classes shadow.entries)
            + count_of ChannelClass.diverged (all_classes shadow.entries)
      explained :
          shadow.divergences_count ≡ count_of ChannelClass.diverged (all_classes shadow.entries)
      entered : length shadow.entries ≡ seen

    count_push :
        (c : ChannelClass) (es : List (ShadowEntry F)) (e : ShadowEntry F)
        → count_of c (all_classes (es ++ (e ∷ [])))
          ≡ count_of c (all_classes es) + count_of c (classes fl tr e)
    unfolding all_classes
    count_push c es e =
        ap (count_of c) (all_classes-append es (e ∷ []))
        ∙ count_of-append c (all_classes es) (classes fl tr e ++ [])
        ∙ ap (λ l. count_of c (all_classes es) + count_of c l) (append-nil (classes fl tr e))

    push-IsTallied :
        (seen : ℕ) (shadow : MissionShadow F) (e : ShadowEntry F) (channels : List ChannelStats)
        (reasons : List String)
        → IsTallied seen shadow
        → Compares (classes fl tr e) shadow.channels channels reasons
        → IsTallied (seen + 1) (record {
          entries = shadow.entries ++ (e ∷ []);
          channels = channels;
          divergences_count = shadow.divergences_count + length reasons;
        })
    push-IsTallied seen shadow e channels reasons t c =
        let m = count_push ChannelClass.matched shadow.entries e in
        let d = count_push ChannelClass.diverged shadow.entries e in
        record {
          four = omega (arith, t, c);
          matched = omega (arith, t, c, m);
          diverged = omega (arith, t, c, d);
          evaluated = omega (arith, t, c, m, d);
          explained = omega (arith, t, c, d);
          entered = omega (arith, t, length-append {0} shadow.entries (e ∷ []));
        }

    observe_all-IsTallied :
        (params : MissionParameters F) (xs : List (Sample F)) (seen : ℕ) (shadow : MissionShadow F)
        → IsTallied seen shadow
        → IsTallied (seen + length xs) (observe_all params xs shadow)
    unfolding observe_all observe
    observe_all-IsTallied params [] seen shadow t = rw (sum_zero seen) t
      where
        sum_zero : (n : ℕ) → n + 0 ≡ n
        sum_zero n = omega arith
    observe_all-IsTallied params (x ∷ xs) seen shadow t =
        let intended = intended_commands fl x.phase x.ctx params in
        subst (λ n. IsTallied n (observe_all params (x ∷ xs) shadow)) (shift seen (length xs))
          (observe_all-IsTallied params xs (seen + 1) _ (
            push-IsTallied seen shadow _ _ _ t
              (compare_all-Compares 0 shadow.channels (pairs fl tr x.observed intended) t.four)))
      where
        shift : (a b : ℕ) → a + 1 + b ≡ a + suc b
        shift a b = omega arith

    -- After any samples, the recorder has an entry for each, and its running statistics agree with the
    -- summary that is computed from the entries: as many matches, as many divergences, and a channel
    -- evaluated exactly when it matched or diverged. The count of divergence reasons is that of the
    -- divergences, and the four classes make up four channels for each sample.
    pub observe_all-summary :
        (params : MissionParameters F) (xs : List (Sample F))
        → let shadow = observe_all params xs new in
          let s = summary fl tr shadow in
          (s.matches ≡ sum_by (λ c. c.matched) shadow.channels)
          × (s.divergences ≡ sum_by (λ c. c.diverged) shadow.channels)
          × (s.matches + s.divergences ≡ sum_by (λ c. c.evaluated) shadow.channels)
          × (s.divergences ≡ shadow.divergences_count)
          × (s.matches + s.divergences + s.unknown + s.not_comparable ≡ 4 * length xs)
          × (length shadow.entries ≡ length xs)
    unfolding summary
    observe_all-summary params xs =
        let shadow = observe_all params xs new in
        let t =
          observe_all-IsTallied params xs 0 new (unfold all_classes count_of in omega arith) in
        let g = summarise-Gains shadow.entries none no_summary in
        let n = count_all (all_classes shadow.entries) in
        let l = length-all_classes shadow.entries in omega (arith, t, g, n, l)
