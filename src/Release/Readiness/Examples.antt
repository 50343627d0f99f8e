-- ===== src/Release/Readiness/Examples.antt =====
-- Evidence that is complete but for one piece, and the theorem of this part at it.
use subagent_bridge.Prelude.{not, ◌&&◌, String, ◌≡◌, refl, List, [], ◌∷◌, all, any, ◌==◌}
use subagent_bridge.Prelude.Dict.{Dict, get}
use subagent_bridge.Release.Readiness.{required_evidence, evaluate}
use subagent_bridge.Release.Readiness.Claims.{says, evaluated_by_evidence}

abbrev passed : List String → Dict String
passed [] = []
passed (k ∷ ks) = (k, "PASS") ∷ passed ks

abbrev skipped : Dict String
skipped = ("security_review", "SKIPPED") ∷ passed required_evidence

tests :
    ((evaluate (passed required_evidence)).status ≡ "CLAIMS_PRESENT_UNVERIFIED")
    × ((evaluate skipped).missing ≡ "security_review" ∷ [])
    × ((evaluate (("ci_linux", "REJECTED") ∷ skipped)).status ≡ "REJECTED")
unfolding evaluate get
tests = (refl, refl, refl)

evaluated_by_evidence_example :
    (((evaluate skipped).status == "CLAIMS_PRESENT_UNVERIFIED")
      ≡ all (λ k. says skipped "PASS" k) required_evidence)
    × (((evaluate skipped).status == "REJECTED")
        ≡ any (λ k. says skipped "REJECTED" k) required_evidence)
    × (((evaluate skipped).status == "UNVERIFIED") ≡ (
        not (all (λ k. says skipped "PASS" k) required_evidence)
        && not (any (λ k. says skipped "REJECTED" k) required_evidence)))
evaluated_by_evidence_example = evaluated_by_evidence skipped
