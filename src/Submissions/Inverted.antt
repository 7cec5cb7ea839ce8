-- ===== src/Submissions/Inverted.antt =====
-- What an operation that returned has found, and what it did to the table of submissions.
use reliastra_backend.Prelude.{
  ℕ, ◌≡◌, ◌⊎◌, refl, sym, ap, ◌∙◌, inl, inr, Bool, true, false, not, Option, none, some, String,
  List, [], ◌∷◌, ◌++◌, any, update_where, arith, Bool-cases,
}
use reliastra_backend.Prelude.Text.{Text}
use reliastra_backend.Prelude.Result.{
  ok, not_found, conflict, or_raise, bind_inv, require_inv, or_raise_inv, ok_injective,
}
use reliastra_backend.Submissions.Model.{
  approved, rejected, VendorSubmission, VendorSubmitEndpoint, VendorTracking, Db, create_submission,
  create_submission_endpoints, get_by_vendor_name, has_id, is_named, get_by_id, reviewed,
  get_by_name, create_vendor_endpoint, create_vendor_endpoints, create_vendor,
}
use reliastra_backend.Submissions.Service.{
  VendorSubmitRequest, VendorSubmitResponse, ApproveVendorRequest, is_pending, is_none,
  submission_of, endpoint_urls, further_urls, vendor_of, validate_urls, validate_website,
  insert_submission, submit_new, submit_named, approve_submission, reject_submission,
}

-- What the operations do to the table of submissions.
create_submission_endpoints-submissions :
    (sid : ℕ) (es : List VendorSubmitEndpoint) (db : Db)
    → (create_submission_endpoints sid es db).submissions ≡ db.submissions
create_submission_endpoints-submissions sid [] db = refl
create_submission_endpoints-submissions sid (e ∷ es) db =
    create_submission_endpoints-submissions sid es _

create_vendor_endpoint-submissions :
    (vid : ℕ) (url : Text) (db : Db) {after : Db}
    → create_vendor_endpoint vid url db ≡ ok after
    → after.submissions ≡ db.submissions
create_vendor_endpoint-submissions vid url db h =
    let (a, e) = require_inv _ conflict _ h in sym (ap (λ (x : Db). x.submissions) (ok_injective e))

create_vendor_endpoints-submissions :
    (vid : ℕ) (urls : List Text) (db : Db) {after : Db}
    → create_vendor_endpoints vid urls db ≡ ok after
    → after.submissions ≡ db.submissions
create_vendor_endpoints-submissions vid [] db h =
    sym (ap (λ (x : Db). x.submissions) (ok_injective h))
create_vendor_endpoints-submissions vid (url ∷ urls) db h =
    let (grown, one, rest) = bind_inv (create_vendor_endpoint vid url db) _ h in
    create_vendor_endpoints-submissions vid urls grown rest
    ∙ create_vendor_endpoint-submissions vid url db one

create_vendor-submissions :
    (v : VendorTracking) (db : Db) {after : Db}
    → create_vendor v db ≡ ok after
    → after.submissions ≡ db.submissions
create_vendor-submissions v db h =
    let (a, e) = require_inv _ conflict _ h in
    create_vendor_endpoint-submissions v.id v.endpoint_url _ e

-- An approval reviews a pending submission.
pub approve_inv :
    (now new_id sid admin : ℕ) (request : ApproveVendorRequest) (db : Db) {after : Db}
    → approve_submission now new_id sid admin request db ≡ ok after
    → (s : VendorSubmission) × (get_by_id sid db ≡ some s)
      × (is_pending s.status ≡ true)
      × (after.submissions
          ≡ update_where (has_id sid) (reviewed now approved admin none) db.submissions)
unfolding approve_submission
approve_inv now new_id sid admin request db h =
    let (s, found, h1) = bind_inv (or_raise (get_by_id sid db) not_found) _ h in
    let (p, h2) = require_inv (is_pending s.status) conflict _ h1 in
    let (n, h3) = require_inv (is_none (get_by_name request.vendor_name db)) conflict _ h2 in
    let (made, m, h4) = bind_inv (create_vendor (vendor_of new_id request s) db) _ h3 in
    let (full, f, h5) =
      bind_inv
        (create_vendor_endpoints new_id (further_urls (endpoint_urls request.endpoints)) made) _
        h4 in
    (
      s,
      or_raise_inv _ _ found,
      p,
      sym (ap (λ (x : Db). x.submissions) (ok_injective h5))
          ∙ ap (update_where (has_id sid) (reviewed now approved admin none)) (
              create_vendor_endpoints-submissions new_id _ made f
              ∙ create_vendor-submissions (vendor_of new_id request s) db m),
    )

pub reject_inv :
    (now sid admin : ℕ) (reason : String) (db : Db) {after : Db}
    → reject_submission now sid admin reason db ≡ ok after
    → (s : VendorSubmission) × (get_by_id sid db ≡ some s)
      × (is_pending s.status ≡ true)
      × (after.submissions
          ≡ update_where (has_id sid) (reviewed now rejected admin (some reason)) db.submissions)
unfolding reject_submission
reject_inv now sid admin reason db h =
    let (s, found, h1) = bind_inv (or_raise (get_by_id sid db) not_found) _ h in
    let (p, h2) = require_inv (is_pending s.status) conflict _ h1 in
    (s, or_raise_inv _ _ found, p, sym (ap (λ (x : Db). x.submissions) (ok_injective h2)))

module _ (is_safe : Text → Bool) where
  pub insert_inv :
      (new_id : ℕ) (name : Text) (user_id : Option ℕ) (request : VendorSubmitRequest) (db : Db)
      {response : VendorSubmitResponse} {after : Db}
      → insert_submission is_safe new_id name user_id request db ≡ ok (response, after)
      → (any (is_named name) db.submissions ≡ false)
        × (after.submissions ≡ db.submissions ++ submission_of new_id name user_id request ∷ [])
  insert_inv new_id name user_id request db h =
      let (a, w, h1) = bind_inv (validate_website is_safe request.website_url) _ h in
      let (b, v, h2) = bind_inv (validate_urls is_safe (endpoint_urls request.endpoints)) _ h1 in
      let (made, m, h3) =
        bind_inv (create_submission (submission_of new_id name user_id request) db) _ h2 in
      let (free, grown) = require_inv (not (any (is_named name) db.submissions)) conflict _ m in
      (
        ground (arith, free),
        sym (ap (λ (r : VendorSubmitResponse × Db). r.1.submissions) (ok_injective h3))
            ∙ create_submission_endpoints-submissions new_id request.endpoints made
            ∙ sym (ap (λ (x : Db). x.submissions) (ok_injective grown)),
      )

  -- A submission leaves the table or adds a row to it.
  abbrev pub Grows : Db → Db → Type 0
  Grows db after =
      (after.submissions ≡ db.submissions)
      ⊎ ((n : VendorSubmission) × (after.submissions ≡ db.submissions ++ n ∷ []))

  submit_new-Grows :
      (o : Option VendorSubmission) (new_id : ℕ) (name : Text) (user_id : Option ℕ)
      (request : VendorSubmitRequest) (db : Db) {response : VendorSubmitResponse} {after : Db}
      → submit_new is_safe o new_id name user_id request db ≡ ok (response, after)
      → Grows db after
  submit_new-Grows none new_id name user_id request db h =
      inr (_, (insert_inv new_id name user_id request db h).1)
  submit_new-Grows (some s) new_id name user_id request db h =
      elim (Bool-cases (is_pending s.status)) [
        | inl e ↦ inl (
            sym
              (ap (λ (r : VendorSubmitResponse × Db). r.1.submissions) (ok_injective (rw e at h))))
        | inr e ↦ inr (_, (insert_inv new_id name user_id request db (rw e at h)).1)
      ]

  pub submit_named-Grows :
      (o : Option VendorTracking) (new_id : ℕ) (name : Text) (user_id : Option ℕ)
      (request : VendorSubmitRequest) (db : Db) {response : VendorSubmitResponse} {after : Db}
      → submit_named is_safe o new_id name user_id request db ≡ ok (response, after)
      → Grows db after
  submit_named-Grows none new_id name user_id request db h =
      submit_new-Grows (get_by_vendor_name name db) new_id name user_id request db h
  submit_named-Grows (some v) new_id name user_id request db h =
      inl (sym (ap (λ (r : VendorSubmitResponse × Db). r.1.submissions) (ok_injective h)))
