-- ===== src/Core/Capability/Evidence.antt =====
-- crates/fd-core/src/capability.rs: what a report says of a path, and on what evidence.
use flightdeck_os.Base.{
  ◌≡◌, sym, ap, ◌∙◌, true, false, not, ◌||◌, Option, some, List, [], ◌∷◌, find, if◌then◌else◌, inl,
  inr, ◌⊎◌, Bool-cases, if_true, if_false, true_ne_false, eq_of_some, arith,
}
use mathlib.Core.Option.{none-ne-some}
use flightdeck_os.Base.Texts.{String, str_eq, str_eq_iff}
use flightdeck_os.Core.Capability.{
  CapabilityStatus, EvidenceSource, CapabilityEntry, CapabilityReport, new, is_verified, is_live,
  set_entry, set_with_evidence, status, status_or_unknown, evidence, evidence_or_unavailable,
}

-- The two values that a report holds for a path.
abbrev read : Option CapabilityEntry → CapabilityStatus × EvidenceSource
read o = (status_or_unknown o, evidence_or_unavailable o)

abbrev entry_at : List CapabilityEntry → String → Option CapabilityEntry
entry_at entries path = find (λ e. str_eq e.path path) entries

-- Only the path overwritten reads otherwise.
overwritten :
    (e : CapabilityEntry) (es : List CapabilityEntry) (path : String) (s : CapabilityStatus)
    (v : EvidenceSource) (q : String)
    → str_eq e.path q ≡ str_eq path q
    → read (entry_at (record e { status = s; evidence = v } ∷ es) q)
      ≡ (if str_eq path q then (s, v) else read (entry_at (e ∷ es) q))
overwritten e es path s v q same = elim (Bool-cases (str_eq path q)) [
  | inl y ↦ ap read (if_true _ _ (same ∙ y)) ∙ sym (if_true _ _ y)
  | inr y ↦
      ap read (if_false _ _ (same ∙ y))
      ∙ (sym (ap read (if_false _ _ (same ∙ y))) ∙ sym (if_false _ _ y))
]

differ : (a b q : String) → str_eq a b ≡ false → str_eq a q ≡ true → str_eq b q ≡ false
differ a b q x z = elim (Bool-cases (str_eq b q)) [
  | inl y ↦ absurd (
      true_ne_false
        (sym ((str_eq_iff a b).1 ((str_eq_iff a q).0 z ∙ sym ((str_eq_iff b q).0 y))) ∙ x))
  | inr y ↦ y
]

read-set_entry :
    (es : List CapabilityEntry) (path : String) (s : CapabilityStatus) (v : EvidenceSource)
    (q : String)
    → read (entry_at (set_entry es path s v) q)
      ≡ (if str_eq path q then (s, v) else read (entry_at es q))
read-set_entry [] path s v q = elim (Bool-cases (str_eq path q)) [
  | inl c ↦ ap read (if_true _ _ c) ∙ sym (if_true _ _ c)
  | inr c ↦ ap read (if_false _ _ c) ∙ sym (if_false _ _ c)
]
read-set_entry (e ∷ es) path s v q = elim (Bool-cases (str_eq e.path path)) [
  | inl x ↦
      ap (λ l. read (entry_at l q)) (if_true _ _ x)
      ∙ overwritten e es path s v q (ap (λ p. str_eq p q) ((str_eq_iff e.path path).0 x))
  | inr x ↦ ap (λ l. read (entry_at l q)) (if_false _ _ x) ∙ elim (Bool-cases (str_eq e.path q)) [
    | inl z ↦
        let other : str_eq path q ≡ false = differ e.path path q x z in
        ap read (if_true _ _ z) ∙ (sym (ap read (if_true _ _ z)) ∙ sym (if_false _ _ other))
    | inr z ↦
        ap read (if_false _ _ z)
        ∙ (read-set_entry es path s v q
            ∙ ap (λ r. if str_eq path q then (s, v) else r) (sym (ap read (if_false _ _ z))))
  ]
]

-- The reports that settings build, where none panics.
pub data Reach : CapabilityReport → Type 0 where
  start : Reach new
  sets :
      {report report' : CapabilityReport}
      → Reach report
      → (path : String) (s : CapabilityStatus) (v : EvidenceSource)
      → set_with_evidence report path s v ≡ some report'
      → Reach report'

reads :
    (report report' : CapabilityReport) (path : String) (s : CapabilityStatus) (v : EvidenceSource)
    → set_with_evidence report path s v ≡ some report'
    → ((not (is_verified s) || is_live v) ≡ true)
      × ((q : String)
          → read (entry_at report'.entries q)
            ≡ (if str_eq path q then (s, v) else read (entry_at report.entries q)))
unfolding set_with_evidence
reads report report' path s v e = elim (Bool-cases (not (is_verified s) || is_live v)) [
  | inl c ↦ (
    c,
    λ q.
        ap (λ r. read (entry_at r.entries q)) (sym (eq_of_some (sym (if_true _ _ c) ∙ e)))
        ∙ read-set_entry report.entries path s v q,
  )
  | inr c ↦ absurd (none-ne-some _ (sym (if_false _ _ c) ∙ e))
]

verified_live :
    {report : CapabilityReport}
    → Reach report
    → (path : String) → is_verified (status report path) ≡ true
    → is_live (evidence report path) ≡ true
verified_live start path h = absurd (true_ne_false (sym h))
verified_live (sets {report} {report'} r p s v e) path h =
    let (guard, f) = reads report report' p s v e in
    elim (Bool-cases (str_eq p path)) [
      | inl c ↦
          let same = f path ∙ if_true _ _ c in
          ap (λ r. is_live r.1) same ∙ live s v guard (ap (λ r. is_verified r.0) (sym same) ∙ h)
      | inr c ↦
          let same = f path ∙ if_false _ _ c in
          ap (λ r. is_live r.1) same
          ∙ verified_live r path (ap (λ r. is_verified r.0) (sym same) ∙ h)
    ]
  where
    live :
        (s : CapabilityStatus) (v : EvidenceSource)
        → (not (is_verified s) || is_live v) ≡ true
        → is_verified s ≡ true
        → is_live v ≡ true
    live s v g h = ground (arith, g, h)

-- The evidence of a running simulator: X-Plane or MSFS, and nothing else.
abbrev IsSimulator : EvidenceSource → Type 0
IsSimulator v = (v ≡ EvidenceSource.live_xplane) ⊎ (v ≡ EvidenceSource.live_msfs)

simulator : (v : EvidenceSource) → is_live v ≡ true → IsSimulator v
simulator v h = ground (arith, h)

-- In a report that settings build from an empty one, where none panics: a path reads as verified
-- only on the evidence of live X-Plane or live MSFS.
pub Reach-live :
    {report : CapabilityReport}
    → Reach report
    → (path : String) → status report path ≡ CapabilityStatus.verified
    → IsSimulator (evidence report path)
Reach-live {report} r path h =
    simulator (evidence report path) (verified_live r path (ap is_verified h))
