-- ===== src/Release/Readiness/Claims.antt =====
-- What the status of a release says of its evidence.
use subagent_bridge.Prelude.{
  String, Bool, true, false, not, ◌&&◌, ◌≡◌, refl, ◌∙◌, Option, none, some, List, [], ◌∷◌, keep_if,
  all, any, is_empty, opt_eq, arith, ◌==◌, ==→eq,
}
use subagent_bridge.Prelude.Dict.{Dict, get}
use subagent_bridge.Release.Readiness.{required_evidence, has_status, decide_release, evaluate}

abbrev same_text : String → String → Bool
same_text a b = a == b

-- The evidence of this name is there, and it says this.
abbrev pub says : Dict String → String → String → Bool
says evidence status k = opt_eq same_text (get evidence k) (some status)

has_status-says :
    (evidence : Dict String) (status k : String)
    → has_status status (get evidence k) ≡ says evidence status k
has_status-says evidence status k = ground arith

module _ (p q : String → Bool) (same : (k : String) → p k ≡ q k) where
  is_empty-keep_if : (xs : List String) → is_empty (keep_if (λ k. not (p k)) xs) ≡ all q xs
  is_empty-keep_if [] = refl
  is_empty-keep_if (x ∷ xs) = ground (arith, same x, is_empty-keep_if xs)

  some_are_kept : (xs : List String) → not (is_empty (keep_if p xs)) ≡ any q xs
  some_are_kept [] = refl
  some_are_kept (x ∷ xs) = ground (arith, same x, some_are_kept xs)

none_rejected :
    (p q : String → Bool) (xs : List String)
    → ((k : String) → p k ≡ true → q k ≡ false)
    → all p xs ≡ true
    → any q xs ≡ false
none_rejected p q [] apart h = refl
none_rejected p q (x ∷ xs) apart h = ground (arith, apart x, none_rejected p q xs apart)

passed_not_rejected :
    (o : Option String)
    → opt_eq same_text o (some "PASS") ≡ true
    → opt_eq same_text o (some "REJECTED") ≡ false
passed_not_rejected none h = refl
passed_not_rejected (some s) h = rw (==→eq s "PASS" h) refl

decided :
    (missing rejected : List String)
    → ((decide_release missing rejected).status == "CLAIMS_PRESENT_UNVERIFIED")
      ≡ (is_empty missing && is_empty rejected)
decided [] [] = refl
decided (k ∷ ks) [] = refl
decided [] (k ∷ ks) = refl
decided (j ∷ js) (k ∷ ks) = refl

refused :
    (missing rejected : List String)
    → ((decide_release missing rejected).status == "REJECTED") ≡ not (is_empty rejected)
refused [] [] = refl
refused (k ∷ ks) [] = refl
refused [] (k ∷ ks) = refl
refused (j ∷ js) (k ∷ ks) = refl

both : (a b c d : Bool) → a ≡ b → not c ≡ d → (b ≡ true → d ≡ false) → (a && c) ≡ b
both a b c d h g k = ground (arith, h, g, k)

unverified :
    (missing rejected : List String)
    → ((decide_release missing rejected).status == "UNVERIFIED")
      ≡ (not (is_empty missing) && is_empty rejected)
unverified [] [] = refl
unverified (k ∷ ks) [] = refl
unverified [] (k ∷ ks) = refl
unverified (j ∷ js) (k ∷ ks) = refl

open_otherwise : (a b c d : Bool) → a ≡ b → not c ≡ d → (not a && c) ≡ (not b && not d)
open_otherwise a b c d h g = ground (arith, h, g)

-- The claims of a release count as present exactly if every required piece of evidence is there
-- with PASS, the release is rejected exactly if one of them is REJECTED, and it is unverified
-- exactly if one of them is missing or not PASS and none is REJECTED.
pub evaluated_by_evidence :
    (evidence : Dict String)
    → (((evaluate evidence).status == "CLAIMS_PRESENT_UNVERIFIED")
        ≡ all (λ k. says evidence "PASS" k) required_evidence)
      × (((evaluate evidence).status == "REJECTED")
          ≡ any (λ k. says evidence "REJECTED" k) required_evidence)
      × (((evaluate evidence).status == "UNVERIFIED") ≡ (
          not (all (λ k. says evidence "PASS" k) required_evidence)
          && not (any (λ k. says evidence "REJECTED" k) required_evidence)))
unfolding evaluate
evaluated_by_evidence evidence =
    let passed = says evidence "PASS" in
    let bad = says evidence "REJECTED" in
    let missing = keep_if (λ k. not (has_status "PASS" (get evidence k))) required_evidence in
    let rejected = keep_if (λ k. has_status "REJECTED" (get evidence k)) required_evidence in
    let complete =
      is_empty-keep_if (λ k. has_status "PASS" (get evidence k)) passed
        (has_status-says evidence "PASS") required_evidence in
    let some_bad =
      some_are_kept (λ k. has_status "REJECTED" (get evidence k)) bad
        (has_status-says evidence "REJECTED") required_evidence in
    (
      decided missing rejected
          ∙ both (is_empty missing) (all passed required_evidence) (is_empty rejected)
              (any bad required_evidence) complete some_bad
              (none_rejected passed bad required_evidence
                (λ k. passed_not_rejected (get evidence k))),
      refused missing rejected ∙ some_bad,
      unverified missing rejected
          ∙ open_otherwise (is_empty missing) (all passed required_evidence) (is_empty rejected)
              (any bad required_evidence) complete some_bad,
    )
