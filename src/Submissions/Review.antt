-- ===== src/Submissions/Review.antt =====
-- Reviews of submissions: what stays of one, and what the submitter can do afterwards.
use reliastra_backend.Prelude.{
  ℕ, ◌≡◌, ◌⊎◌, refl, sym, ap, ◌∙◌, inl, inr, Bool, true, Option, none, some, String, any,
  find_first, find_first_sound, arith, Bool-cases,
}
use mathlib.Core.Path.{subst}
use reliastra_backend.Prelude.Text.{Text, is_empty, lower}
use reliastra_backend.Prelude.Rows.{some_injective, found-any}
use reliastra_backend.Prelude.Result.{Failure, ok, err, Result-cases, validation, conflict}
use reliastra_backend.Submissions.Names.{sanitize_vendor_name, lower-sanitize_vendor_name}
use reliastra_backend.Submissions.Model.{
  approved, rejected, VendorSubmission, Db, get_by_vendor_name, has_id, is_named, get_by_id,
  reviewed, get_by_name,
}
use reliastra_backend.Submissions.Service.{
  VendorSubmitRequest, ApproveVendorRequest, insert_submission, submit_vendor, approve_submission,
  reject_submission,
}
use reliastra_backend.Submissions.Inverted.{approve_inv, reject_inv, insert_inv}
use reliastra_backend.Submissions.Reviewed.{
  IsReviewed, id-IsKept, named-IsKept, review-found, review-IsReviewed,
}
use reliastra_backend.Submissions.Steps.{Reach, Reach-find_first}

module _ (is_safe : Text → Bool) where
  -- A reviewed submission is not reviewed again.
  refuses :
      (s : VendorSubmission) (db : Db) (later new_id admin : ℕ) (request : ApproveVendorRequest)
      (reason : String)
      → IsReviewed s db
      → (approve_submission later new_id s.id admin request db ≡ err conflict)
        × (reject_submission later s.id admin reason db ≡ err conflict)
  unfolding approve_submission reject_submission
  refuses s db later new_id admin request reason r = (rw (r.0, r.1) refl, rw (r.0, r.1) refl)

  -- A review is final: after a submission was approved or rejected, whatever is submitted and reviewed
  -- next, its row stays as the review left it, and a further approval or rejection is a conflict.
  pub review_is_final :
      (now new_id sid admin : ℕ) (request : ApproveVendorRequest) (reason : String)
      (db mid after : Db)
      → (approve_submission now new_id sid admin request db ≡ ok mid)
        ⊎ (reject_submission now sid admin reason db ≡ ok mid)
      → Reach is_safe mid after
      → (later id2 admin2 : ℕ) (request2 : ApproveVendorRequest) (reason2 : String)
      → (get_by_id sid after ≡ get_by_id sid mid)
        × (approve_submission later id2 sid admin2 request2 after ≡ err conflict)
        × (reject_submission later sid admin2 reason2 after ≡ err conflict)
  review_is_final now new_id sid admin request reason db mid after decided run later id2 admin2
        request2 reason2 =
      let (s, same, r) = settled decided in
      let (found, again) = Reach-find_first is_safe (has_id s.id) s (id-IsKept s.id) run r r.0 in
      subst
        (λ k.
          (get_by_id k after ≡ get_by_id k mid)
          × (approve_submission later id2 k admin2 request2 after ≡ err conflict)
          × (reject_submission later k admin2 reason2 after ≡ err conflict))
        same
        (
          found ∙ sym r.0,
          (refuses s after later id2 admin2 request2 reason2 again).0,
          (refuses s after later id2 admin2 request2 reason2 again).1,
        )
    where
      settled :
          (approve_submission now new_id sid admin request db ≡ ok mid)
            ⊎ (reject_submission now sid admin reason db ≡ ok mid)
          → (s : VendorSubmission) × (s.id ≡ sid) × IsReviewed s mid
      settled (inl h) =
          let (x, f, p, e) = approve_inv now new_id sid admin request db h in
          let (same, r) = review-IsReviewed sid now approved admin none x db mid f refl e in
          (reviewed now approved admin none x, same, r)
      settled (inr h) =
          let (x, f, p, e) = reject_inv now sid admin reason db h in
          let (same, r) =
            review-IsReviewed sid now rejected admin (some reason) x db mid f refl e in
          (reviewed now rejected admin (some reason) x, same, r)

  -- A name that belongs to a reviewed row cannot be inserted.
  insert_refused :
      (new_id : ℕ) (name : Text) (user_id : Option ℕ) (request : VendorSubmitRequest) (db : Db)
      → any (is_named name) db.submissions ≡ true
      → (e : Failure) × (insert_submission is_safe new_id name user_id request db ≡ err e)
  insert_refused new_id name user_id request db taken =
      elim (Result-cases (insert_submission is_safe new_id name user_id request db)) [
        | inl (e, h) ↦ (e, h)
        | inr ((response, after), h) ↦
            absurd (ground (arith, taken, (insert_inv is_safe new_id name user_id request db h).0))
      ]

  -- A vendor whose submission was rejected cannot be submitted again: as long as no vendor has the
  -- name, every later request with it fails, since the rejected row still holds the name. The rejected
  -- row is the one that its name and its id find.
  pub rejected_name_is_blocked :
      (now admin : ℕ) (reason : String) (new_id : ℕ) (user_id : Option ℕ)
      (request : VendorSubmitRequest) (s : VendorSubmission) (db mid after : Db)
      → get_by_vendor_name (sanitize_vendor_name request.vendor_name) db ≡ some s
      → get_by_id s.id db ≡ some s
      → reject_submission now s.id admin reason db ≡ ok mid
      → Reach is_safe mid after
      → get_by_name (sanitize_vendor_name request.vendor_name) after ≡ none
      → (e : Failure) × (submit_vendor is_safe new_id user_id request after ≡ err e)
  unfolding submit_vendor
  rejected_name_is_blocked now admin reason new_id user_id request s db mid after named found h run
        free =
      let name = sanitize_vendor_name request.vendor_name in
      let (x, f, p, e) = reject_inv now s.id admin reason db h in
      let equal : x ≡ s = some_injective (sym f ∙ found) in
      let final = reviewed now rejected admin (some reason) s in
      let r : IsReviewed final mid =
        (review-IsReviewed s.id now rejected admin (some reason) s db mid found refl e).1 in
      let held : find_first (is_named (lower name)) mid.submissions ≡ some final =
        ap (find_first (is_named (lower name))) e
        ∙ review-found (is_named (lower name)) s.id now rejected admin (some reason) db.submissions
            s (named-IsKept (lower name)) named (ground arith) in
      let (still, again) =
        Reach-find_first is_safe (is_named (lower name)) final (named-IsKept (lower name)) run r
          held in
      let here_named = find_first_sound (is_named (lower name)) after.submissions still in
      let taken : any (is_named name) after.submissions ≡ true =
        found-any (is_named (lower name)) (is_named name) after.submissions still (
          subst (λ t. is_named t final ≡ true) (lower-sanitize_vendor_name request.vendor_name)
            here_named) in
      elim (Bool-cases (is_empty name)) [
        | inl b ↦ (validation, rw b refl)
        | inr b ↦
            let (e2, refused) = insert_refused new_id name user_id request after taken in
            (e2, rw (b, free, still) refused)
      ]
