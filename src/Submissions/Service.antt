-- ===== src/Submissions/Service.antt =====
-- app/modules/vendor_submissions/service.py. The check of an address is a parameter; a `ValueError`
-- of it is `validation` here. Mails, and the HEAD request, whose outcome is ignored, are left out.
use reliastra_backend.Prelude.{
  ℕ, zero, Bool, true, false, not, Option, none, some, String, List, [], ◌∷◌, ◌++◌, map,
  if◌then◌else◌,
}
use reliastra_backend.Prelude.Text.{Text, codes, text_or, is_empty, lower}
use reliastra_backend.Prelude.Result.{
  Result, ok, validation, not_found, conflict, require, or_raise, ◌>>=◌, ◌>>◌,
}
use reliastra_backend.Submissions.Names.{sanitize_vendor_name}
use reliastra_backend.Submissions.Model.{
  SubmissionStatus, pending_review, approved, rejected, VendorSubmission, VendorSubmitEndpoint,
  VendorTracking, Db, create_submission, create_submission_endpoints, get_by_vendor_name, get_by_id,
  update_status, get_by_name, create_vendor_endpoints, create_vendor,
}

pub record VendorSubmitRequest : Type 0 where
  pub vendor_name : Text
  pub display_name : String
  pub category : Option Text
  pub website_url : Option Text
  pub submitter_email : String
  pub submitter_name : Option String
  pub reason : Option String
  pub endpoints : List VendorSubmitEndpoint

-- The `status` of a `VendorSubmitResponse`
pub data SubmitAnswer : Type 0 where
  already_exists awaits_review : SubmitAnswer

pub record VendorSubmitResponse : Type 0 where
  pub id : ℕ
  pub status : SubmitAnswer

pub record ApproveVendorRequest : Type 0 where
  pub vendor_name : Text
  pub display_name : String
  pub category : Option Text
  pub endpoints : List VendorSubmitEndpoint

abbrev pub is_pending : SubmissionStatus → Bool
is_pending pending_review = true
is_pending _ = false

-- `value or d`
abbrev pub value_or_text : Option Text → Text → Text
value_or_text none d = d
value_or_text (some t) d = text_or t d

abbrev pub is_none {ℓ} : {A : Type ℓ} → Option A → Bool
is_none none = true
is_none (some a) = false

abbrev pub submission_of : ℕ → Text → Option ℕ → VendorSubmitRequest → VendorSubmission
submission_of new_id name user_id request = record {
  id = new_id;
  vendor_name = name;
  display_name = request.display_name;
  category = request.category;
  website_url = request.website_url;
  submitter_email = request.submitter_email;
  submitter_name = request.submitter_name;
  submitter_user_id = user_id;
  reason = request.reason;
  status = pending_review;
  review_note = none;
  reviewed_by = none;
  reviewed_at = none;
}

-- The addresses of the endpoints that an approval names, or one default.
abbrev pub endpoint_urls : List VendorSubmitEndpoint → List Text
endpoint_urls es = map (λ (e : VendorSubmitEndpoint). e.url) es

abbrev pub primary_url : List Text → VendorSubmission → Text
primary_url [] s = value_or_text s.website_url (codes "https://example.com")
primary_url (url ∷ urls) s = url

abbrev pub further_urls : List Text → List Text
further_urls [] = []
further_urls (url ∷ urls) = urls

abbrev pub vendor_of : ℕ → ApproveVendorRequest → VendorSubmission → VendorTracking
vendor_of new_id request s = record {
  id = new_id;
  vendor_name = lower request.vendor_name;
  display_name = request.display_name;
  endpoint_url = primary_url (endpoint_urls request.endpoints) s;
  category = value_or_text request.category (value_or_text s.category (codes "uncategorized"));
}

-- `_log_lead_capture`, with the name alone
abbrev pub log_lead_capture : Text → Db → Db
log_lead_capture name db = record db { lead_captures = db.lead_captures ++ name ∷ [] }

module _ (is_safe : Text → Bool) where
  abbrev pub validate_urls : List Text → Result (Unit {0})
  validate_urls [] = ok tt
  validate_urls (url ∷ urls) = do require (is_safe url) validation; validate_urls urls

  -- `if request.website_url`
  abbrev pub validate_website : Option Text → Result (Unit {0})
  validate_website none = ok tt
  validate_website (some []) = ok tt
  validate_website (some (c ∷ t)) = require (is_safe (c ∷ t)) validation

  abbrev pub insert_submission :
      ℕ → Text → Option ℕ → VendorSubmitRequest → Db → Result (VendorSubmitResponse × Db)
  insert_submission new_id name user_id request db = do
    validate_website request.website_url
    validate_urls (endpoint_urls request.endpoints)
    made ← create_submission (submission_of new_id name user_id request) db
    ok (
      record { id = new_id; status = awaits_review },
      log_lead_capture name (create_submission_endpoints new_id request.endpoints made),
    )

  -- The second search for duplicates.
  abbrev pub submit_new :
      Option VendorSubmission
      → ℕ
      → Text
      → Option ℕ
      → VendorSubmitRequest
      → Db
      → Result (VendorSubmitResponse × Db)
  submit_new none new_id name user_id request db = insert_submission new_id name user_id request db
  submit_new (some s) new_id name user_id request db =
      if is_pending s.status
      then ok (record { id = s.id; status = awaits_review }, db)
      else insert_submission new_id name user_id request db

  -- The first search for duplicates.
  abbrev pub submit_named :
      Option VendorTracking
      → ℕ
      → Text
      → Option ℕ
      → VendorSubmitRequest
      → Db
      → Result (VendorSubmitResponse × Db)
  submit_named (some v) new_id name user_id request db =
      ok (record { id = zero; status = already_exists }, db)
  submit_named none new_id name user_id request db =
      submit_new (get_by_vendor_name name db) new_id name user_id request db

  unfoldable pub submit_vendor :
      ℕ → Option ℕ → VendorSubmitRequest → Db → Result (VendorSubmitResponse × Db)
  submit_vendor new_id user_id request db =
      let name = sanitize_vendor_name request.vendor_name in
      do
        require (not (is_empty name)) validation
        submit_named (get_by_name name db) new_id name user_id request db

unfoldable pub approve_submission : ℕ → ℕ → ℕ → ℕ → ApproveVendorRequest → Db → Result Db
approve_submission now new_id sid admin request db = do
  s ← or_raise (get_by_id sid db) not_found
  require (is_pending s.status) conflict
  require (is_none (get_by_name request.vendor_name db)) conflict
  made ← create_vendor (vendor_of new_id request s) db
  full ← create_vendor_endpoints new_id (further_urls (endpoint_urls request.endpoints)) made
  ok (update_status now sid approved admin none full)

unfoldable pub reject_submission : ℕ → ℕ → ℕ → String → Db → Result Db
reject_submission now sid admin reason db = do
  s ← or_raise (get_by_id sid db) not_found
  require (is_pending s.status) conflict
  ok (update_status now sid rejected admin (some reason) db)
