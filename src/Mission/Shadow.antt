-- ===== src/Mission/Shadow.antt =====
-- crates/fd-mission/src/shadow.rs: the mission's decisions compared with the autopilot's settings. The
-- four channels are the places of lists in the order altitude, speed, heading, vertical speed; a map
-- from names to counts is an association list; a reason's text is a parameter.
pub mod Totals
pub mod Boundaries
use flightdeck_os.Base.{
  ℕ, zero, suc, ◌+◌, Bool, true, false, not, ◌&&◌, List, [], ◌∷◌, ◌++◌, Option, none, some, all,
  length, get_elem?, ltb, ◌==◌, if◌then◌else◌,
}
use mathlib.Core.Option
use flightdeck_os.Base.Floats.{Float, Trig}
use flightdeck_os.Base.Texts.{String, str_eq}
use flightdeck_os.Mission.Controller.{
  MissionPhase, MissionContext, MissionCommands, MissionParameters, intended_commands, name,
}
use flightdeck_os.Mission.Intents
use flightdeck_os.Mission.Intents.{HighLevelIntent, variant_name, intent_from_tick}

pub record ObservedApTargets (F : Type 0) : Type 0 where
  pub heading_deg : Option F
  pub altitude_ft : Option F
  pub vertical_speed_fpm : Option F
  pub speed_kt : Option F

pub data ChannelClass : Type 0 where
  matched diverged unknown not_comparable : ChannelClass

pub record ChannelStats : Type 0 where
  pub evaluated : ℕ
  pub matched : ℕ
  pub diverged : ℕ

pub record ShadowEntry (F : Type 0) : Type 0 where
  pub sample_seq : ℕ
  pub phase : MissionPhase
  pub intended : MissionCommands F
  pub observed : ObservedApTargets F
  pub matches : List Bool
  pub divergences : List String
  pub intent : Option (HighLevelIntent F)
  pub reason : Option String

pub record MissionShadow (F : Type 0) : Type 0 where
  pub entries : List (ShadowEntry F)
  pub channels : List ChannelStats
  pub divergences_count : ℕ

abbrev pub no_stats : ChannelStats
no_stats = record { evaluated = 0; matched = 0; diverged = 0 }

abbrev pub new : {F : Type 0} → MissionShadow F
new = record {
  entries = [];
  channels = no_stats ∷ no_stats ∷ no_stats ∷ no_stats ∷ [];
  divergences_count = 0;
}

-- The derived `==` of phases, by their number in the declaration.
abbrev pub phase_number : MissionPhase → ℕ
phase_number MissionPhase.preflight = 0
phase_number MissionPhase.takeoff = 1
phase_number MissionPhase.climb = 2
phase_number MissionPhase.cruise = 3
phase_number MissionPhase.descent = 4
phase_number MissionPhase.approach = 5
phase_number MissionPhase.landing = 6
phase_number MissionPhase.parked = 7
phase_number MissionPhase.completed = 8
phase_number MissionPhase.failed = 9

abbrev pub phase_eq : MissionPhase → MissionPhase → Bool
phase_eq p q = phase_number p == phase_number q

module _ {F : Type 0} (fl : Float F) (tr : Trig F) where
  open fl use {lit, lt, le, sub, abs}

  -- `ObservedApTargets::pairs` and `intended_pairs`.
  abbrev pub pairs : ObservedApTargets F → MissionCommands F → List (Option F × Option F)
  pairs o c =
      (c.set_target_altitude_ft, o.altitude_ft)
      ∷ (c.set_target_speed_kt, o.speed_kt)
      ∷ (c.set_target_heading_deg, o.heading_deg)
      ∷ (c.set_target_vertical_speed_fpm, o.vertical_speed_fpm)
      ∷ []

  unfoldable pub heading_delta_deg : F → F → F
  heading_delta_deg a b =
      let d = tr.rem_euclid (sub a b) (lit 360) in if lt (lit 180) d then sub (lit 360) d else d

  abbrev pub tolerance : ℕ → F
  tolerance channel =
      if channel == 0
      then lit 200
      else if channel == 1
      then lit 10
      else if channel == 2
      then lit 3
      else lit 100

  unfoldable pub within_tolerance : ℕ → F → F → Bool
  unfolding heading_delta_deg
  within_tolerance channel want got =
      if channel == 2
      then le (heading_delta_deg want got) (tolerance channel)
      else le (abs (sub want got)) (tolerance channel)

  unfoldable pub classify : ℕ → Option F × Option F → ChannelClass
  classify i (none, observed) = not_comparable
  classify i (some w, none) = unknown
  classify i (some w, some g) =
      if within_tolerance i w g then ChannelClass.matched else ChannelClass.diverged

  -- `classify_channel` of the four channels, from the first on.
  unfoldable pub classify_all : ℕ → List (Option F × Option F) → List ChannelClass
  classify_all i [] = []
  classify_all i (p ∷ ps) = classify i p ∷ classify_all (i + 1) ps

  abbrev pub classes : ShadowEntry F → List ChannelClass
  classes e = classify_all 0 (pairs e.observed e.intended)

  -- What the loop of `observe` does for one channel: its statistics, the verdict and the reasons.
  unfoldable pub compare_channel :
      (ℕ → F → F → String)
      → ℕ
      → ChannelStats
      → Option F × Option F
      → ChannelStats × Bool × List String
  compare_channel describe i s (some want, some got) =
      let counted = record s { evaluated = s.evaluated + 1 } in
      if within_tolerance i want got
      then (record counted { matched = s.matched + 1 }, true, [])
      else (record counted { diverged = s.diverged + 1 }, false, describe i want got ∷ [])
  compare_channel describe i s _ = (s, false, [])

  unfoldable pub compare_all :
      (ℕ → F → F → String)
      → ℕ
      → List ChannelStats
      → List (Option F × Option F)
      → List ChannelStats × List Bool × List String
  unfolding compare_channel
  compare_all describe i (s ∷ channels) (p ∷ ps) =
      let (s', m, d) = compare_channel describe i s p in
      let (channels', ms, ds) = compare_all describe (i + 1) channels ps in
      (s' ∷ channels', m ∷ ms, d ++ ds)
  compare_all describe i channels _ = (channels, [], [])

  unfoldable pub observe :
      (ℕ → F → F → String)
      → ℕ
      → MissionPhase
      → MissionContext F
      → MissionParameters F
      → ObservedApTargets F
      → MissionShadow F
      → MissionShadow F
  unfolding intended_commands intent_from_tick
  observe describe sample_seq phase ctx params observed shadow =
      let intended = intended_commands fl phase ctx params in
      let intent = intent_from_tick fl phase intended ctx params in
      let (channels, matches, divergences) =
        compare_all describe 0 shadow.channels (pairs observed intended) in
      record {
        entries =
            shadow.entries
            ++ (record {
              sample_seq = sample_seq;
              phase = phase;
              intended = intended;
              observed = observed;
              matches = matches;
              divergences = divergences;
              intent = intent;
              reason = Option.map Intents.reason intent;
            }
                ∷ []);
        channels = channels;
        divergences_count = shadow.divergences_count + length divergences;
      }

-- `*map.entry(key).or_default() += 1`.
unfoldable pub bump : String → List (String × ℕ) → List (String × ℕ)
bump key [] = (key, 1) ∷ []
bump key ((k, n) ∷ m) =
    let rest = bump key m in if str_eq k key then (k, n + 1) ∷ m else (k, n) ∷ rest

pub record ShadowSummary : Type 0 where
  pub states_traversed : List (String × ℕ)
  pub intents_emitted : List (String × ℕ)
  pub matches : ℕ
  pub divergences : ℕ
  pub unknown : ℕ
  pub not_comparable : ℕ
  pub ambiguous_transitions : ℕ

abbrev pub no_summary : ShadowSummary
no_summary = record {
  states_traversed = [];
  intents_emitted = [];
  matches = 0;
  divergences = 0;
  unknown = 0;
  not_comparable = 0;
  ambiguous_transitions = 0;
}

abbrev pub count_class : ShadowSummary → ChannelClass → ShadowSummary
count_class s ChannelClass.matched = record s { matches = s.matches + 1 }
count_class s ChannelClass.diverged = record s { divergences = s.divergences + 1 }
count_class s ChannelClass.unknown = record s { unknown = s.unknown + 1 }
count_class s ChannelClass.not_comparable = record s { not_comparable = s.not_comparable + 1 }

unfoldable pub count_classes : List ChannelClass → ShadowSummary → ShadowSummary
count_classes [] s = s
count_classes (c ∷ cs) s = count_classes cs (count_class s c)

abbrev pub is_comparable : ChannelClass → Bool
is_comparable ChannelClass.matched = true
is_comparable ChannelClass.diverged = true
is_comparable _ = false

abbrev pub differs : Option MissionPhase → MissionPhase → Bool
differs none phase = false
differs (some p) phase = not (phase_eq p phase)

abbrev pub count_intent :
    {F : Type 0} → Option (HighLevelIntent F) → List (String × ℕ) → List (String × ℕ)
count_intent none m = m
count_intent (some intent) m = bump (variant_name intent) m

module _ {F : Type 0} (fl : Float F) (tr : Trig F) where
  unfoldable pub ambiguous_boundary : ShadowEntry F → Bool
  ambiguous_boundary e = all (λ c. not (is_comparable c)) (classes fl tr e)

  -- One round of the loop of `from_entries`, and the loop.
  unfoldable pub summarise_entry :
      Option MissionPhase → ShadowEntry F → ShadowSummary → ShadowSummary
  unfolding count_classes ambiguous_boundary bump
  summarise_entry prev_phase e s =
      let counted = count_classes (classes fl tr e) (record s {
        states_traversed = bump (name e.phase) s.states_traversed;
        intents_emitted = count_intent e.intent s.intents_emitted;
      }) in
      if differs prev_phase e.phase && ambiguous_boundary e
      then record counted { ambiguous_transitions = counted.ambiguous_transitions + 1 }
      else counted

  unfoldable pub summarise :
      Option MissionPhase → List (ShadowEntry F) → ShadowSummary → ShadowSummary
  unfolding summarise_entry
  summarise prev_phase [] s = s
  summarise prev_phase (e ∷ es) s = summarise (some e.phase) es (summarise_entry prev_phase e s)

  unfoldable pub from_entries : List (ShadowEntry F) → ShadowSummary
  unfolding summarise
  from_entries entries = summarise none entries no_summary

pub record ShadowReport (F : Type 0) : Type 0 where
  pub entries : List (ShadowEntry F)
  pub channels : List ChannelStats
  pub divergences_count : ℕ
  pub summary : ShadowSummary

pub record AutonomyObservability : Type 0 where
  pub mission_transitions : ℕ
  pub intents_emitted : ℕ
  pub shadow_matches : ℕ
  pub shadow_divergences : ℕ
  pub shadow_unknown : ℕ
  pub shadow_not_comparable : ℕ
  pub capability_missing_events : ℕ
  pub route_unknown_ticks : ℕ

-- The sum of a map's values.
abbrev pub sum_values : List (String × ℕ) → ℕ
sum_values [] = 0
sum_values ((_, n) ∷ m) = n + sum_values m

module _ {F : Type 0} (fl : Float F) (tr : Trig F) where
  unfoldable pub summary : MissionShadow F → ShadowSummary
  unfolding from_entries
  summary shadow = from_entries fl tr shadow.entries

  unfoldable pub report : MissionShadow F → ShadowReport F
  unfolding summary
  report shadow = record {
    entries = shadow.entries;
    channels = shadow.channels;
    divergences_count = shadow.divergences_count;
    summary = summary shadow;
  }

  -- The pairs of neighbours whose phases differ.
  unfoldable pub transitions : List (ShadowEntry F) → ℕ
  transitions [] = 0
  transitions (a ∷ []) = 0
  transitions (a ∷ b ∷ es) =
      (if not (phase_eq a.phase b.phase) then 1 else 0) + transitions (b ∷ es)

  unfoldable pub from_shadow : MissionShadow F → AutonomyObservability
  unfolding summary transitions
  from_shadow shadow =
      let s = summary shadow in
      record {
        mission_transitions = transitions shadow.entries;
        intents_emitted = sum_values s.intents_emitted;
        shadow_matches = s.matches;
        shadow_divergences = s.divergences;
        shadow_unknown = s.unknown;
        shadow_not_comparable = s.not_comparable;
        capability_missing_events = 0;
        route_unknown_ticks = 0;
      }
