-- ===== src/Xplane/Adapter/Quality.antt =====
-- Adapter: which channels of a snapshot carry a mark of quality.
use flightdeck_os.Base.{
  ◌+◌, ◌%◌, ◌^◌, ◌<◌, ℕ, Bool, true, false, not, ◌&&◌, ◌==◌, ◌≡◌, ◌↔◌, refl, ap, ◌∙◌, sym, List, [],
  ◌∷◌, Option, none, some, All, leb, unwrap_or, arith,
}
use mathlib.Core.Option
use flightdeck_os.Base.Floats.{Float}
use flightdeck_os.Core.Telemetry.{DataQuality, BTreeMap, get}
use flightdeck_os.Xplane.Client.{Shared}
use flightdeck_os.Xplane.Refs.{DataRefId, wire_id}
use flightdeck_os.Xplane.Adapter.{
  Units, XPlaneAdapter, invalidate_aircraft, is_some, raw, value, mark, add_mark, annotate,
  set_warmup, core_channels, observed, build_snapshot,
}

abbrev away : ℕ → List (DataRefId × Bool) → Bool
away k [] = true
away k ((id, _) ∷ channels) = not (wire_id id == k) && away k channels

abbrev distinct : List (DataRefId × Bool) → Bool
distinct [] = true
distinct ((id, _) ∷ channels) = away (wire_id id) channels && distinct channels

away-split : (k j : ℕ) {b : Bool} → (not (j == k) && b) ≡ true → ((j == k) ≡ false) × (b ≡ true)
away-split k j h = (ground arith, ground arith)

split : {b c : Bool} → (b && c) ≡ true → (b ≡ true) × (c ≡ true)
split h = (ground arith, ground arith)

get-add_mark :
    (k w : ℕ) (q : Option DataQuality) (marks : BTreeMap DataQuality)
    → (w == k) ≡ false
    → get k (add_mark w q marks) ≡ get k marks
get-add_mark k w none marks h = refl
get-add_mark k w (some q) marks h = ground arith

get-add_mark_self :
    (w : ℕ) (q : Option DataQuality) (marks : BTreeMap DataQuality)
    → get w marks ≡ none
    → get w (add_mark w q marks) ≡ q
get-add_mark_self w none marks h = h
get-add_mark_self w (some q) marks h = ground arith

set_warmup-other :
    (k w n : ℕ) (warmup : ℕ → Option ℕ) → (k == w) ≡ false → set_warmup w n warmup k ≡ warmup k
set_warmup-other k w n warmup h = ground arith

module _ {F : Type 0} (fl : Float F) (un : Units F) (shared : Shared) (now : ℕ) where
  annotate-away :
      (k : ℕ) (channels : List (DataRefId × Bool)) (warmup : ℕ → Option ℕ)
      → away k channels ≡ true
      → get k (annotate fl un shared now channels warmup).0 ≡ none
  unfolding annotate
  annotate-away k [] warmup h = refl
  annotate-away k ((id, known) ∷ channels) warmup h =
      let (other, rest) = away-split k (wire_id id) h in
      get-add_mark k (wire_id id) _ _ other ∙ annotate-away k channels _ rest

  -- The mark of a channel, from its own samples and its own count.
  abbrev own : (ℕ → Option ℕ) → DataRefId × Bool → Option DataQuality
  own warmup (id, known) =
      (mark fl un shared now id known (raw fl un shared now id) (warmup (wire_id id))).0

  abbrev Has : (ℕ → Option ℕ) → BTreeMap DataQuality → DataRefId × Bool → Type 0
  Has warmup marks (id, known) = get (wire_id id) marks ≡ own warmup (id, known)

  later :
      (w n : ℕ) (q : Option DataQuality) (warmup : ℕ → Option ℕ) (marks : BTreeMap DataQuality)
      (channels : List (DataRefId × Bool))
      → away w channels ≡ true
      → All (Has (set_warmup w n warmup) marks) channels
      → All (Has warmup (add_mark w q marks)) channels
  later w n q warmup marks [] h all = tt
  later w n q warmup marks ((id, known) ∷ channels) h (first, all) =
      let (other, rest) = away-split w (wire_id id) h in
      (
        get-add_mark (wire_id id) w q marks (flip w (wire_id id) other)
            ∙ first
            ∙ ap (λ (c : Option ℕ). (mark fl un shared now id known (raw fl un shared now id) c).0)
                (set_warmup-other (wire_id id) w n warmup other),
        later w n q warmup marks channels rest all,
      )
    where
      flip : (a b : ℕ) → (b == a) ≡ false → (a == b) ≡ false
      flip a b e = ground arith

  annotate-own :
      (channels : List (DataRefId × Bool)) (warmup : ℕ → Option ℕ)
      → distinct channels ≡ true
      → All (Has warmup (annotate fl un shared now channels warmup).0) channels
  unfolding annotate
  annotate-own [] warmup h = tt
  annotate-own ((id, known) ∷ channels) warmup h =
      let (first, rest) = split h in
      (
        get-add_mark_self (wire_id id) _ _ (annotate-away (wire_id id) channels _ first),
        later (wire_id id) _ _ warmup _ channels first (annotate-own channels _ rest),
      )

counted-Fits :
    (o : Option ℕ)
    → unwrap_or o 0 + 1 < 2 ^ 32
    → unwrap_or (Option.map (λ (c : ℕ). (c + 1) % 2 ^ 32) o) 1 ≡ unwrap_or o 0 + 1
counted-Fits none h = refl
counted-Fits (some c) h = omega (arith, h)

uncounted : (c : Option ℕ) → c ≡ none → ¬ (leb 2 (unwrap_or c 0) ≡ true)
uncounted c e counted = ground arith

module _ {F W : Type 0} (fl : Float F) (un : Units F) where
  -- A channel that is served with a finite value, whose field the snapshot has, and that at least
  -- two snapshots in a row have already counted.
  abbrev pub IsServed : XPlaneAdapter W → ℕ → DataRefId × Bool → Type 0
  IsServed a now (id, known) =
      (is_some (value fl un a.shared now id) ≡ true)
      × (known ≡ true)
      × (leb 2 (unwrap_or (a.warmup (wire_id id)) 0) ≡ true)

  -- No channel has been counted in 2 ^ 32 snapshots in a row, with the next.
  abbrev pub CountsFit : XPlaneAdapter W → Type 0
  CountsFit a = (k : ℕ) → unwrap_or (a.warmup k) 0 + 1 < 2 ^ 32

  mark-none :
      (a : XPlaneAdapter W) (now : ℕ) (id : DataRefId) (known : Bool)
      → CountsFit a
      → ((mark fl un a.shared now id known (raw fl un a.shared now id) (a.warmup (wire_id id))).0
          ≡ none)
        ↔ IsServed a now (id, known)
  unfolding mark value
  mark-none a now id known fits =
      ground (arith, counted-Fits (a.warmup (wire_id id)) (fits (wire_id id)))

  unmarked :
      (a : XPlaneAdapter W) (now : ℕ) (marks : BTreeMap DataQuality)
      (channels : List (DataRefId × Bool))
      → CountsFit a
      → All (Has fl un a.shared now a.warmup marks) channels
      → All (λ (c : DataRefId × Bool). (get (wire_id c.0) marks ≡ none) ↔ IsServed a now c) channels
  unmarked a now marks [] fits h = tt
  unmarked a now marks ((id, known) ∷ channels) fits (first, rest) =
      let (to, from) = mark-none a now id known fits in
      (((λ e. to (sym first ∙ e)), (λ s. first ∙ from s)), unmarked a now marks channels fits rest)

  -- Each of the twelve core channels is left without a mark of quality exactly when it is served with a
  -- finite value, the snapshot has its field, and at least two snapshots in a row counted it before,
  -- while no count has reached the end of a `u32`.
  pub build_snapshot-Unmarked :
      (a : XPlaneAdapter W) (now epoch_ms : ℕ)
      → CountsFit a
      → All
          (λ (c : DataRefId × Bool).
            (get (wire_id c.0) (build_snapshot fl un now epoch_ms a).0.channel_quality ≡ none)
            ↔ IsServed a now c)
          (core_channels (build_snapshot fl un now epoch_ms a).0)
  unfolding build_snapshot
  build_snapshot-Unmarked a now epoch_ms fits =
      let s = observed fl un a.shared now epoch_ms in
      unmarked a now (annotate fl un a.shared now (core_channels s) a.warmup).0 (core_channels s)
        fits (annotate-own fl un a.shared now (core_channels s) a.warmup refl)

  none_served :
      (a : XPlaneAdapter W) (now : ℕ) (marks : BTreeMap DataQuality)
      (channels : List (DataRefId × Bool))
      → ((k : ℕ) → a.warmup k ≡ none)
      → All (λ (c : DataRefId × Bool). (get (wire_id c.0) marks ≡ none) ↔ IsServed a now c) channels
      → All (λ (c : DataRefId × Bool). ¬ (get (wire_id c.0) marks ≡ none)) channels
  none_served a now marks [] h all = tt
  none_served a now marks ((id, known) ∷ channels) h (first, rest) = (
    (λ e.
        let (_, _, counted) = first.0 e in
        uncounted (a.warmup (wire_id id)) (h (wire_id id)) counted),
    none_served a now marks channels h rest,
  )

  -- In the first snapshot after the aircraft was invalidated, whatever was served before, every one of
  -- the twelve core channels carries a mark.
  pub invalidate_aircraft-Marked :
      (a : XPlaneAdapter W) (invalidate_session : W → W) (now epoch_ms : ℕ)
      → All
          (λ (c : DataRefId × Bool). ¬ (
            get
              (wire_id c.0)
              (build_snapshot fl un now epoch_ms
                (invalidate_aircraft invalidate_session a)).0.channel_quality
            ≡ none))
          (core_channels
            (build_snapshot fl un now epoch_ms (invalidate_aircraft invalidate_session a)).0)
  unfolding invalidate_aircraft
  invalidate_aircraft-Marked a invalidate_session now epoch_ms =
      let b = invalidate_aircraft invalidate_session a in
      let s = (build_snapshot fl un now epoch_ms b).0 in
      none_served b now s.channel_quality (core_channels s) (λ (k : ℕ). refl)
        (build_snapshot-Unmarked b now epoch_ms (λ k. omega arith))
