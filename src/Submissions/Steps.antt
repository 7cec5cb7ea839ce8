-- ===== src/Submissions/Steps.antt =====
-- Submissions and reviews in sequence, and what they do to a reviewed row.
use reliastra_backend.Prelude.{ℕ, ◌≡◌, inl, inr, Bool, not, Option, none, some, String, find_first}
use reliastra_backend.Prelude.Text.{Text, is_empty}
use reliastra_backend.Prelude.Result.{ok, validation, require_inv}
use reliastra_backend.Submissions.Names.{sanitize_vendor_name}
use reliastra_backend.Submissions.Model.{
  approved, rejected, VendorSubmission, Db, has_id, reviewed, get_by_name,
}
use reliastra_backend.Submissions.Service.{
  VendorSubmitRequest, VendorSubmitResponse, ApproveVendorRequest, submit_vendor,
  approve_submission, reject_submission,
}
use reliastra_backend.Submissions.Inverted.{approve_inv, reject_inv, submit_named-Grows}
use reliastra_backend.Submissions.Reviewed.{
  IsReviewed, IsKept, pending_is_other, review-find_first, append-find_first, id-IsKept,
}

module _ (is_safe : Text → Bool) where
  pub data Step (db : Db) : Db → Type 0 where
    submits :
        (new_id : ℕ) (user_id : Option ℕ) (request : VendorSubmitRequest)
        (response : VendorSubmitResponse) {after : Db}
        → submit_vendor is_safe new_id user_id request db ≡ ok (response, after)
        → Step db after
    approves :
        (now new_id sid admin : ℕ) (request : ApproveVendorRequest) {after : Db}
        → approve_submission now new_id sid admin request db ≡ ok after
        → Step db after
    rejects :
        (now sid admin : ℕ) (reason : String) {after : Db}
        → reject_submission now sid admin reason db ≡ ok after
        → Step db after

  pub data Reach (db : Db) : Db → Type 0 where
    here : Reach db db
    next : {mid after : Db} → Reach db mid → Step mid after → Reach db after

  -- A reviewed row is found by a kept column after every step.
  Step-find_first :
      (q : VendorSubmission → Bool) (s : VendorSubmission) {db after : Db}
      → IsKept q
      → Step db after
      → IsReviewed s db
      → find_first q db.submissions ≡ some s
      → find_first q after.submissions ≡ some s
  unfolding submit_vendor
  Step-find_first q s {db} {after} keeps (submits new_id user_id request response h) r found =
      let name = sanitize_vendor_name request.vendor_name in
      let (b, h1) = require_inv (not (is_empty name)) validation _ h in
      elim (submit_named-Grows is_safe (get_by_name name db) new_id name user_id request db h1) [
        | inl e ↦ rw e found
        | inr (n, e) ↦ rw e (append-find_first q db.submissions n s found)
      ]
  Step-find_first q s {db} keeps (approves now new_id sid admin request h) r found =
      let (x, f, p, e) = approve_inv now new_id sid admin request db h in
      rw e (
        review-find_first q sid (reviewed now approved admin none) db.submissions s
          (keeps now approved admin none) (pending_is_other sid s x db r f p) found)
  Step-find_first q s {db} keeps (rejects now sid admin reason h) r found =
      let (x, f, p, e) = reject_inv now sid admin reason db h in
      rw e (
        review-find_first q sid (reviewed now rejected admin (some reason)) db.submissions s
          (keeps now rejected admin (some reason)) (pending_is_other sid s x db r f p) found)

  pub Reach-find_first :
      (q : VendorSubmission → Bool) (s : VendorSubmission) {db after : Db}
      → IsKept q
      → Reach db after
      → IsReviewed s db
      → find_first q db.submissions ≡ some s
      → (find_first q after.submissions ≡ some s) × IsReviewed s after
  Reach-find_first q s keeps here r found = (found, r)
  Reach-find_first q s keeps (next run step) r found =
      let (f, again) = Reach-find_first q s keeps run r found in
      (
        Step-find_first q s keeps step again f,
        (Step-find_first (has_id s.id) s (id-IsKept s.id) step again again.0, again.1),
      )
