-- ===== src/Submissions/Model.antt =====
-- app/modules/vendor_submissions/models.py and repository.py, and the vendors that a review adds
-- (app/modules/vendors/models.py and repository.py).
use reliastra_backend.Prelude.{
  ℕ, Bool, ◌&&◌, Option, none, some, String, List, [], ◌∷◌, ◌++◌, ◌==◌, not, any, find_first,
  update_where,
}
use reliastra_backend.Prelude.Text.{Text, text_eq, lower}
use reliastra_backend.Prelude.Result.{Result, ok, conflict, require, ◌>>=◌, ◌>>◌}

pub data SubmissionStatus : Type 0 where
  pending_review approved rejected : SubmissionStatus

pub record VendorSubmission : Type 0 where
  pub id : ℕ
  pub vendor_name : Text
  pub display_name : String
  pub category : Option Text
  pub website_url : Option Text
  pub submitter_email : String
  pub submitter_name : Option String
  pub submitter_user_id : Option ℕ
  pub reason : Option String
  pub status : SubmissionStatus
  pub review_note : Option String
  pub reviewed_by : Option ℕ
  pub reviewed_at : Option ℕ

pub record VendorSubmitEndpoint : Type 0 where
  pub name : String
  pub url : Text
  pub method : String
  pub expected_status : ℕ

pub record VendorSubmissionEndpoint : Type 0 where
  pub submission_id : ℕ
  pub endpoint : VendorSubmitEndpoint

pub record VendorTracking : Type 0 where
  pub id : ℕ
  pub vendor_name : Text
  pub display_name : String
  pub endpoint_url : Text
  pub category : Text

pub record VendorEndpoint : Type 0 where
  pub vendor_id : ℕ
  pub endpoint_url : Text

pub record Db : Type 0 where
  pub submissions : List VendorSubmission
  pub submission_endpoints : List VendorSubmissionEndpoint
  pub vendors : List VendorTracking
  pub vendor_endpoints : List VendorEndpoint
  pub lead_captures : List Text

abbrev pub is_named : Text → VendorSubmission → Bool
is_named name s = text_eq s.vendor_name name

-- `vendor_name` is a unique column.
abbrev pub create_submission : VendorSubmission → Db → Result Db
create_submission s db = do
  require (not (any (is_named s.vendor_name) db.submissions)) conflict
  ok (record db { submissions = db.submissions ++ s ∷ [] })

-- `create_submission_endpoint`, for each endpoint of a request
abbrev pub create_submission_endpoints : ℕ → List VendorSubmitEndpoint → Db → Db
create_submission_endpoints sid [] db = db
create_submission_endpoints sid (e ∷ es) db = create_submission_endpoints sid es (record db {
  submission_endpoints =
      db.submission_endpoints ++ record { submission_id = sid; endpoint = e } ∷ [];
})

abbrev pub get_by_vendor_name : Text → Db → Option VendorSubmission
get_by_vendor_name name db = find_first (is_named (lower name)) db.submissions

abbrev pub has_id : ℕ → VendorSubmission → Bool
has_id sid s = s.id == sid

abbrev pub get_by_id : ℕ → Db → Option VendorSubmission
get_by_id sid db = find_first (has_id sid) db.submissions

-- The row after `update_status`; a note of None is skipped.
abbrev pub reviewed : ℕ → SubmissionStatus → ℕ → Option String → VendorSubmission → VendorSubmission
reviewed now status admin none s = record s {
  status = status;
  reviewed_by = some admin;
  reviewed_at = some now;
}
reviewed now status admin (some note) s = record s {
  status = status;
  reviewed_by = some admin;
  reviewed_at = some now;
  review_note = some note;
}

abbrev pub update_status : ℕ → ℕ → SubmissionStatus → ℕ → Option String → Db → Db
update_status now sid status admin note db = record db {
  submissions = update_where (has_id sid) (reviewed now status admin note) db.submissions;
}

-- VendorRepository
abbrev pub get_by_name : Text → Db → Option VendorTracking
get_by_name name db =
    find_first (λ (v : VendorTracking). text_eq v.vendor_name (lower name)) db.vendors

-- A vendor has an address once.
abbrev pub create_vendor_endpoint : ℕ → Text → Db → Result Db
create_vendor_endpoint vid url db = do
  require
      (not (
        any (λ (e : VendorEndpoint). (e.vendor_id == vid) && text_eq e.endpoint_url url)
          db.vendor_endpoints))
      conflict
  ok (record db {
    vendor_endpoints = db.vendor_endpoints ++ record { vendor_id = vid; endpoint_url = url } ∷ [];
  })

abbrev pub create_vendor_endpoints : ℕ → List Text → Db → Result Db
create_vendor_endpoints vid [] db = ok db
create_vendor_endpoints vid (url ∷ urls) db = do
  grown ← create_vendor_endpoint vid url db
  create_vendor_endpoints vid urls grown

-- `create`, whose vendor has a unique name
abbrev pub create_vendor : VendorTracking → Db → Result Db
create_vendor v db = do
  require (not (any (λ (x : VendorTracking). text_eq x.vendor_name v.vendor_name) db.vendors))
      conflict
  create_vendor_endpoint v.id v.endpoint_url (record db { vendors = db.vendors ++ v ∷ [] })
