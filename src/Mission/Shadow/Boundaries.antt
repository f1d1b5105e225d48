-- ===== src/Mission/Shadow/Boundaries.antt =====
-- Shadow: the counts of a summary that do not come from the channels.
use flightdeck_os.Base.{
  ℕ, ◌+◌, ◌≤◌, Bool, true, false, not, ◌≡◌, refl, ap, ◌∙◌, List, [], ◌∷◌, Option, none, some,
  length, Bool-cases, inl, inr, ◌&&◌, if◌then◌else◌, if_true, if_false, arith,
}
use flightdeck_os.Base.Floats.{Float, Trig}
use flightdeck_os.Base.Texts.{String, str_eq}
use flightdeck_os.Mission.Controller.{MissionPhase, name}
use flightdeck_os.Mission.Intents.{HighLevelIntent, variant_name}
use flightdeck_os.Mission.Shadow.{
  ChannelClass, ShadowEntry, MissionShadow, phase_eq, classes, bump, sum_values, ShadowSummary,
  no_summary, count_class, count_classes, differs, count_intent, ambiguous_boundary,
  summarise_entry, summarise, summary, transitions, from_shadow,
}

sum_values-bump :
    (key : String) (m : List (String × ℕ)) → sum_values (bump key m) ≡ sum_values m + 1
unfolding bump
sum_values-bump key [] = refl
sum_values-bump key ((k, n) ∷ m) = elim (Bool-cases (str_eq k key)) [
  | inl y ↦ ap sum_values (if_true _ _ y) ∙ omega arith
  | inr f ↦ ap sum_values (if_false _ _ f) ∙ omega (arith, sum_values-bump key m)
]

record SameCounts (s s' : ShadowSummary) : Type 0 where
  states : sum_values s'.states_traversed ≡ sum_values s.states_traversed
  intents : sum_values s'.intents_emitted ≡ sum_values s.intents_emitted
  ambiguous : s'.ambiguous_transitions ≡ s.ambiguous_transitions

count_classes_same :
    (cs : List ChannelClass) (s : ShadowSummary) → SameCounts s (count_classes cs s)
unfolding count_classes
count_classes_same [] s = record { states = refl; intents = refl; ambiguous = refl }
count_classes_same (ChannelClass.matched ∷ cs) s =
    let c = count_classes_same cs (count_class s ChannelClass.matched) in
    record { states = c.states; intents = c.intents; ambiguous = c.ambiguous }
count_classes_same (ChannelClass.diverged ∷ cs) s =
    let c = count_classes_same cs (count_class s ChannelClass.diverged) in
    record { states = c.states; intents = c.intents; ambiguous = c.ambiguous }
count_classes_same (ChannelClass.unknown ∷ cs) s =
    let c = count_classes_same cs (count_class s ChannelClass.unknown) in
    record { states = c.states; intents = c.intents; ambiguous = c.ambiguous }
count_classes_same (ChannelClass.not_comparable ∷ cs) s =
    let c = count_classes_same cs (count_class s ChannelClass.not_comparable) in
    record { states = c.states; intents = c.intents; ambiguous = c.ambiguous }

abbrev pub has_intent : {F : Type 0} → Option (HighLevelIntent F) → ℕ
has_intent none = 0
has_intent (some _) = 1

-- The entries with an intent.
pub with_intent : {F : Type 0} → List (ShadowEntry F) → ℕ
with_intent [] = 0
with_intent (e ∷ es) = has_intent e.intent + with_intent es

sum_values-count_intent :
    {F : Type 0} (o : Option (HighLevelIntent F)) (m : List (String × ℕ))
    → sum_values (count_intent o m) ≡ sum_values m + has_intent o
sum_values-count_intent none m = omega arith
sum_values-count_intent (some i) m = sum_values-bump (variant_name i) m

module _ {F : Type 0} (fl : Float F) (tr : Trig F) where
  -- What one entry, after an entry with the phase `prev`, adds to a summary.
  record Adds (changed : ℕ) (intents : ℕ) (entries : ℕ) (s s' : ShadowSummary) : Type 0 where
    states : sum_values s'.states_traversed ≡ sum_values s.states_traversed + entries
    emitted : sum_values s'.intents_emitted ≡ sum_values s.intents_emitted + intents
    ambiguous : s'.ambiguous_transitions ≤ s.ambiguous_transitions + changed

  summarise_entry-Adds :
      (prev : Option MissionPhase) (e : ShadowEntry F) (s : ShadowSummary)
      → Adds
          (if differs prev e.phase then 1 else 0)
          (has_intent e.intent)
          1
          s
          (summarise_entry fl tr prev e s)
  unfolding summarise_entry
  summarise_entry-Adds prev e s =
      at_boundary (differs prev e.phase) (ambiguous_boundary fl tr e)
        (count_classes (classes fl tr e) started) (count_classes_same (classes fl tr e) started)
    where
      started : ShadowSummary
      started = record s {
        states_traversed = bump (name e.phase) s.states_traversed;
        intents_emitted = count_intent e.intent s.intents_emitted;
      }

      at_boundary :
          (b c : Bool) (t : ShadowSummary)
          → SameCounts started t
          → Adds (if b then 1 else 0) (has_intent e.intent) 1 s (
              if b && c
              then record t { ambiguous_transitions = t.ambiguous_transitions + 1 }
              else t)
      at_boundary true true t k = omega (
        arith,
        k,
        sum_values-bump (name e.phase) s.states_traversed,
        sum_values-count_intent e.intent s.intents_emitted,
      )
      at_boundary true false t k = omega (
        arith,
        k,
        sum_values-bump (name e.phase) s.states_traversed,
        sum_values-count_intent e.intent s.intents_emitted,
      )
      at_boundary false c t k = omega (
        arith,
        k,
        sum_values-bump (name e.phase) s.states_traversed,
        sum_values-count_intent e.intent s.intents_emitted,
      )

  -- The boundaries from a phase on.
  abbrev from_phase : Option MissionPhase → List (ShadowEntry F) → ℕ
  from_phase prev [] = 0
  from_phase prev (e ∷ es) = (if differs prev e.phase then 1 else 0) + from_phase (some e.phase) es

  from_phase-transitions :
      (e : ShadowEntry F) (es : List (ShadowEntry F))
      → from_phase (some e.phase) es ≡ transitions fl tr (e ∷ es)
  unfolding transitions
  from_phase-transitions e [] = refl
  from_phase-transitions e (f ∷ es) =
      ap (λ n. (if not (phase_eq e.phase f.phase) then 1 else 0) + n) (from_phase-transitions f es)

  summarise-Adds :
      (es : List (ShadowEntry F)) (prev : Option MissionPhase) (s : ShadowSummary)
      → Adds (from_phase prev es) (with_intent es) (length es) s (summarise fl tr prev es s)
  unfolding summarise with_intent
  summarise-Adds [] prev s = omega arith
  summarise-Adds (e ∷ es) prev s =
      let one = summarise_entry-Adds prev e s in
      let rest = summarise-Adds es (some e.phase) (summarise_entry fl tr prev e s) in
      record {
        states = omega (arith, one, rest);
        emitted = omega (arith, one, rest);
        ambiguous = omega (arith, one, rest);
      }

  transitions_all : (es : List (ShadowEntry F)) → from_phase none es ≡ transitions fl tr es
  transitions_all [] = unfold transitions in refl
  transitions_all (e ∷ es) = omega (arith, from_phase-transitions e es)

  -- The summary of any entries has no more ambiguous phase boundaries than the observability counters
  -- have transitions; those count one intent for each entry that has one, and the phases traversed
  -- one tick for each entry.
  pub from_shadow-summary :
      (shadow : MissionShadow F)
      → let s = summary fl tr shadow in
        let counters = from_shadow fl tr shadow in
        (s.ambiguous_transitions ≤ counters.mission_transitions)
        × (counters.intents_emitted ≡ with_intent shadow.entries)
        × (sum_values s.states_traversed ≡ length shadow.entries)
  unfolding summary from_shadow
  from_shadow-summary shadow =
      let a = summarise-Adds shadow.entries none no_summary in
      omega (arith, a, transitions_all shadow.entries)
