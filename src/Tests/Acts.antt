-- ===== src/Tests/Acts.antt =====
-- A person's act on the wait that was told of, judged and written.
use sayfirst_control_plane.Common.{
  ◌≡◌, refl, true, none, some, arith, ok, ap, pair_keyed, text_keyed,
}
use sayfirst_control_plane.Common.Dict.{lookup, insert}
use sayfirst_control_plane.Approval.{Approval, checked}
use sayfirst_control_plane.ApprovalStore.Acts.{
  approve, ResolvedApproval, resolved_by, write_resolution,
}
use sayfirst_control_plane.Common.Text.{head_code}
use sayfirst_control_plane.ApprovalStore.{
  read, open_if_absent, newest_live, newest_in, open_wait, publish, keep,
}
use sayfirst_control_plane.ApprovalStore.Histories.{run, perform}
use sayfirst_control_plane.ApprovalStore.Provider.{
  SuspendedApproval, ApprovalAction, resume, resume_kept, write_resolution_ends,
}
use sayfirst_control_plane.Tests.Waits.{wait, after_telling, after_telling-Inv}

abbrev suspended : SuspendedApproval
suspended = record {
  request = record {
    approval_ref = "a1";
    decision_ref = "d1";
    scope = "site";
    capability = "pump.start";
    requested_at = 10;
    deadline = 310;
  };
  scope = "site";
}

abbrev action : ApprovalAction
action = record {
  approval_ref = "a1";
  scope = "site";
  person = "bea";
  resolution = approve;
  reason = none;
}

abbrev resolved : ResolvedApproval
resolved = record {
  approval_ref = "a1";
  decision_ref = "d1";
  scope = "site";
  person = "bea";
  resolution = approve;
  reason = none;
}

abbrev published_wait : Approval
published_wait = record wait { published = true }

wait-kept : lookup ("site", "a1") after_telling.by_reference ≡ some published_wait
unfolding run perform open_if_absent newest_live newest_in open_wait publish read keep lookup insert
    checked
wait-kept = refl

act-judged : resume suspended action after_telling ≡ ok resolved
unfolding resume read
act-judged = rw wait-kept

resume_kept_example :
    (kept : Approval) × (lookup ("site", "a1") after_telling.by_reference ≡ some kept)
    × (kept.question.scope ≡ "site")
    × (kept.approval_ref ≡ "a1")
    × (resolved.scope ≡ "site")
    × (resolved.approval_ref ≡ "a1")
    × (resolved.decision_ref ≡ "d1")
    × (kept.decision_ref ≡ "d1")
    × (resolved.person ≡ "bea")
    × (resolved.resolution ≡ approve)
    × (resolved.reason ≡ none)
resume_kept_example =
    resume_kept suspended action after_telling resolved after_telling-Inv act-judged

write_resolution_ends_example :
    ((write_resolution resolved 20 after_telling).0
      ≡ ok (resolved_by published_wait "bea" approve none 20))
    × (lookup ("site", "a1") (write_resolution resolved 20 after_telling).1.by_reference
        ≡ some (resolved_by published_wait "bea" approve none 20))
write_resolution_ends_example =
    write_resolution_ends resolved 20 after_telling published_wait after_telling-Inv wait-kept refl
      (omega arith) (omega arith) (λ e. omega (arith, ap head_code e))
