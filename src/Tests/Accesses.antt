-- ===== src/Tests/Accesses.antt =====
-- A caller who may write a file under a directory of root's.
use sayfirst_control_plane.Common.{
  ◌≤◌, ◌≡◌, ◌≢◌, ◌↔◌, ◌⊎◌, true, false, some, List, [], ◌∷◌, length,
}
use sayfirst_control_plane.Evidence.Verify.{observability, evidence, weakest}
use sayfirst_control_plane.Evidence.Grading.{CallerAccess, PathFacts, evaluate_grade}
use sayfirst_control_plane.Evidence.Grading.Claims.{
  evaluate_grade_iff, AreEstablished, CanWrite, is_evidence, is_unverified, weakest-claims,
}

abbrev caller : CallerAccess
caller = record { uid = 7; gids = 7 ∷ [] }

abbrev paths : List PathFacts
paths =
    record {
      exists = true;
      owner_uid = some 0;
      owner_gid = some 0;
      mode = some 493;
      acl_present = some false;
    }
    ∷ record {
      exists = true;
      owner_uid = some 7;
      owner_gid = some 7;
      mode = some 420;
      acl_present = some false;
    }
    ∷ []

evaluate_grade_iff_example :
    (((evaluate_grade caller paths 5).grade ≡ observability)
      ↔ ((caller.uid ≡ 0) ⊎ (AreEstablished paths × CanWrite caller paths)))
    × ((evaluate_grade caller paths 5).grade ≢ evidence)
    × ((evaluate_grade caller paths 5).paths_inspected ≤ length paths)
evaluate_grade_iff_example = evaluate_grade_iff caller paths 5

weakest-claims_example :
    (is_evidence (weakest (evidence ∷ observability ∷ [])) ≡ false)
    × (is_unverified (weakest (evidence ∷ observability ∷ [])) ≡ false)
weakest-claims_example = weakest-claims (evidence ∷ observability ∷ [])
