-- ===== src/Examples/Reports.antt =====
-- Capability reports and the virtual systems on concrete inputs.
use flightdeck_os.Base.{◌⊎◌, [], ◌∷◌, ◌≡◌, refl}
use flightdeck_os.Core.Capability.{
  CapabilityStatus, EvidenceSource, CapabilityReport, evidence, set_with_evidence,
}
use flightdeck_os.Core.Capability.Evidence.{Reach, start, sets, Reach-live}

abbrev proven : CapabilityReport
proven = record {
  entries =
      record {
        path = "telemetry.position";
        status = CapabilityStatus.verified;
        evidence = EvidenceSource.live_xplane;
      }
      ∷ [];
}

proven-Reach : Reach proven
unfolding set_with_evidence
proven-Reach =
    sets start "telemetry.position" CapabilityStatus.verified EvidenceSource.live_xplane refl

Reach-live_example :
    (evidence proven "telemetry.position" ≡ EvidenceSource.live_xplane)
    ⊎ (evidence proven "telemetry.position" ≡ EvidenceSource.live_msfs)
Reach-live_example = Reach-live proven-Reach "telemetry.position" refl
