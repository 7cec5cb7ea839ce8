-- ===== src/Submissions/Examples.antt =====
-- The theorems on submissions at a concrete vendor, and tests.
use reliastra_backend.Prelude.{◌≡◌, refl, inr, Bool, true, none, some, [], ◌∷◌}
use reliastra_backend.Prelude.Text.{Text, codes, lower}
use reliastra_backend.Prelude.Result.{Failure, ok, err, conflict}
use reliastra_backend.Submissions.Names.{sanitize_vendor_name, python_lower}
use reliastra_backend.Submissions.Model.{
  pending_review, rejected, VendorSubmission, Db, get_by_id, update_status,
}
use reliastra_backend.Submissions.Service.{
  VendorSubmitRequest, ApproveVendorRequest, awaits_review, submit_vendor, approve_submission,
  reject_submission,
}
use reliastra_backend.Submissions.Steps.{here}
use reliastra_backend.Submissions.Review.{review_is_final, rejected_name_is_blocked}

sanitized : sanitize_vendor_name (codes "  Acme --  Cloud! (EU)  ") ≡ codes "acme-cloud-eu"
unfolding sanitize_vendor_name python_lower lower
sanitized = refl

-- The Kelvin sign becomes a k.
kelvin : sanitize_vendor_name (8490 ∷ 304 ∷ 233 ∷ []) ≡ codes "ki"
unfolding sanitize_vendor_name python_lower lower
kelvin = refl

-- Every address passes.
abbrev all_safe : Text → Bool
all_safe url = true

abbrev request : VendorSubmitRequest
request = record {
  vendor_name = codes "Acme Cloud";
  display_name = "Acme Cloud";
  category = none;
  website_url = some (codes "https://acme.example");
  submitter_email = "ann@acme.example";
  submitter_name = none;
  reason = none;
  endpoints = [];
}

abbrev waiting : VendorSubmission
waiting = record {
  id = 4;
  vendor_name = codes "acme-cloud";
  display_name = "Acme Cloud";
  category = none;
  website_url = some (codes "https://acme.example");
  submitter_email = "ann@acme.example";
  submitter_name = none;
  submitter_user_id = none;
  reason = none;
  status = pending_review;
  review_note = none;
  reviewed_by = none;
  reviewed_at = none;
}

abbrev site : Db
site = record {
  submissions = waiting ∷ [];
  submission_endpoints = [];
  vendors = [];
  vendor_endpoints = [];
  lead_captures = codes "acme-cloud" ∷ [];
}

abbrev empty : Db
empty = record {
  submissions = [];
  submission_endpoints = [];
  vendors = [];
  vendor_endpoints = [];
  lead_captures = [];
}

submitted :
    submit_vendor all_safe 4 none request empty
    ≡ ok (record { id = 4; status = awaits_review }, site)
unfolding submit_vendor sanitize_vendor_name python_lower lower
submitted = refl

abbrev turned_down : Db
turned_down = update_status 50 4 rejected 9 (some "no public status") site

is_turned_down : reject_submission 50 4 9 "no public status" site ≡ ok turned_down
unfolding reject_submission
is_turned_down = refl

abbrev approval : ApproveVendorRequest
approval = record {
  vendor_name = codes "acme-cloud";
  display_name = "Acme Cloud";
  category = none;
  endpoints = [];
}

review_is_final_example :
    (get_by_id 4 turned_down ≡ get_by_id 4 turned_down)
    × (approve_submission 60 7 4 9 approval turned_down ≡ err conflict)
    × (reject_submission 60 4 9 "again" turned_down ≡ err conflict)
review_is_final_example =
    review_is_final all_safe 50 6 4 9 approval "no public status" site turned_down turned_down
      (inr is_turned_down) here 60 7 9 approval "again"

rejected_name_is_blocked_example :
    (e : Failure) × (submit_vendor all_safe 5 none request turned_down ≡ err e)
unfolding sanitize_vendor_name python_lower lower
rejected_name_is_blocked_example =
    rejected_name_is_blocked all_safe 50 9 "no public status" 5 none request waiting site
      turned_down turned_down refl refl is_turned_down here refl
