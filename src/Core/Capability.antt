-- ===== src/Core/Capability.antt =====
-- crates/fd-core/src/capability.rs: the capability report. `none` is the panic of an assertion; the
-- sorted list of entries is left out.
pub mod Evidence
use flightdeck_os.Base.{
  ℕ, Bool, true, false, not, ◌&&◌, ◌||◌, Option, none, some, List, [], ◌∷◌, find, if◌then◌else◌,
  length,
}
use flightdeck_os.Base.Texts.{String, str_eq}

pub data CapabilityStatus : Type 0 where
  verified supported degraded unavailable unsupported unknown : CapabilityStatus

pub data EvidenceSource : Type 0 where
  static virtual_sim live_xplane live_msfs unavailable : EvidenceSource

pub record CapabilityEntry : Type 0 where
  pub path : String
  pub status : CapabilityStatus
  pub evidence : EvidenceSource

pub record CapabilityReport : Type 0 where
  pub entries : List CapabilityEntry

abbrev pub new : CapabilityReport
new = record { entries = [] }

abbrev pub is_verified : CapabilityStatus → Bool
is_verified CapabilityStatus.verified = true
is_verified _ = false

abbrev pub is_unknown : CapabilityStatus → Bool
is_unknown CapabilityStatus.unknown = true
is_unknown _ = false

abbrev pub is_live : EvidenceSource → Bool
is_live EvidenceSource.live_xplane = true
is_live EvidenceSource.live_msfs = true
is_live _ = false

-- The entry with the path is overwritten, or a new one is pushed.
abbrev pub set_entry :
    List CapabilityEntry → String → CapabilityStatus → EvidenceSource → List CapabilityEntry
set_entry [] path status evidence =
    record { path = path; status = status; evidence = evidence } ∷ []
set_entry (e ∷ es) path status evidence =
    if str_eq e.path path
    then record e { status = status; evidence = evidence } ∷ es
    else e ∷ set_entry es path status evidence

unfoldable pub set_with_evidence :
    CapabilityReport → String → CapabilityStatus → EvidenceSource → Option CapabilityReport
set_with_evidence report path status evidence =
    if not (is_verified status) || is_live evidence
    then some (record { entries = set_entry report.entries path status evidence })
    else none

-- `set`.
abbrev pub set_static : CapabilityReport → String → CapabilityStatus → Option CapabilityReport
set_static report path status = set_with_evidence report path status EvidenceSource.static

abbrev pub status_or_unknown : Option CapabilityEntry → CapabilityStatus
status_or_unknown none = CapabilityStatus.unknown
status_or_unknown (some e) = e.status

abbrev pub status : CapabilityReport → String → CapabilityStatus
status report path = status_or_unknown (find (λ e. str_eq e.path path) report.entries)

abbrev pub evidence_or_unavailable : Option CapabilityEntry → EvidenceSource
evidence_or_unavailable none = EvidenceSource.unavailable
evidence_or_unavailable (some e) = e.evidence

abbrev pub evidence : CapabilityReport → String → EvidenceSource
evidence report path = evidence_or_unavailable (find (λ e. str_eq e.path path) report.entries)

pub data SupportTier : Type 0 where
  unknown generic discovered profiled : SupportTier

unfoldable pub support_tier : CapabilityReport → Bool → SupportTier
support_tier report has_package =
    if has_package && not (is_unknown (status report "procedure.any"))
    then SupportTier.profiled
    else if not (is_unknown (status report "telemetry.position"))
        || not (is_unknown (status report "aircraft.values"))
    then SupportTier.generic
    else SupportTier.unknown
