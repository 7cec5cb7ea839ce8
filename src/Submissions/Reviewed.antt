-- ===== src/Submissions/Reviewed.antt =====
-- Rows of submissions that were reviewed.
use reliastra_backend.Prelude.{
  ℕ, ◌≡◌, refl, sym, ap, ◌∙◌, inl, inr, Bool, true, false, Option, none, some, String, List, [],
  ◌∷◌, ◌++◌, find_first, find_first_sound, update_where, arith, Bool-cases, if◌then◌else◌,
}
use mathlib.Core.Option
use reliastra_backend.Prelude.Text.{Text}
use reliastra_backend.Prelude.Tables.{find_first-update_where}
use reliastra_backend.Prelude.Rows.{some_injective}
use reliastra_backend.Submissions.Model.{
  SubmissionStatus, VendorSubmission, Db, has_id, is_named, get_by_id, reviewed,
}
use reliastra_backend.Submissions.Service.{is_pending}

-- A submission that was reviewed, as the row of its id.
abbrev pub IsReviewed : VendorSubmission → Db → Type 0
IsReviewed s db = (get_by_id s.id db ≡ some s) × (is_pending s.status ≡ false)

-- A pending row is another one.
pub pending_is_other :
    (k : ℕ) (s r : VendorSubmission) (db : Db)
    → IsReviewed s db
    → get_by_id k db ≡ some r
    → is_pending r.status ≡ true
    → has_id k s ≡ false
pending_is_other k s r db h found p = elim (Bool-cases (has_id k s)) [
  | inr e ↦ e
  | inl e ↦
      let same : s.id ≡ k = ground (arith, e) in
      let equal : s ≡ r = some_injective (sym h.0 ∙ ap (λ n. get_by_id n db) same ∙ found) in
      absurd (ground (arith, ap (λ (x : VendorSubmission). is_pending x.status) equal, h.1, p))
]

-- A search that finds a reviewed row finds it after a review of another row.
pub review-find_first :
    (q : VendorSubmission → Bool) (k : ℕ) (f : VendorSubmission → VendorSubmission)
    (rows : List VendorSubmission) (s : VendorSubmission)
    → ((x : VendorSubmission) → q (f x) ≡ q x)
    → has_id k s ≡ false
    → find_first q rows ≡ some s
    → find_first q (update_where (has_id k) f rows) ≡ some s
review-find_first q k f rows s keeps other found =
    find_first-update_where q (has_id k) f rows keeps
    ∙ ap (Option.map (λ x. if has_id k x then f x else x)) found
    ∙ ap (λ b. some (if b then f s else s)) other

pub append-find_first :
    (q : VendorSubmission → Bool) (rows : List VendorSubmission) (n s : VendorSubmission)
    → find_first q rows ≡ some s
    → find_first q (rows ++ n ∷ []) ≡ some s
append-find_first q [] n s h = absurd (ground (arith, h))
append-find_first q (x ∷ xs) n s h = elim (Bool-cases (q x)) [
  | inl e ↦ rw e (rw e at h)
  | inr e ↦ rw e (append-find_first q xs n s (rw e at h))
]

-- A column that reviews keep.
abbrev pub IsKept : (VendorSubmission → Bool) → Type 0
IsKept q =
    (now : ℕ) (status : SubmissionStatus) (admin : ℕ) (note : Option String) (x : VendorSubmission)
    → q (reviewed now status admin note x) ≡ q x

pub id-IsKept : (k : ℕ) → IsKept (has_id k)
id-IsKept k now status admin none x = refl
id-IsKept k now status admin (some note) x = refl

-- The reviewed row of a found one.
pub review-found :
    (q : VendorSubmission → Bool) (k now : ℕ) (status : SubmissionStatus) (admin : ℕ)
    (note : Option String) (rows : List VendorSubmission) (x : VendorSubmission)
    → IsKept q
    → find_first q rows ≡ some x
    → has_id k x ≡ true
    → find_first q (update_where (has_id k) (reviewed now status admin note) rows)
      ≡ some (reviewed now status admin note x)
review-found q k now status admin note rows x keeps found e =
    find_first-update_where q (has_id k) (reviewed now status admin note) rows
      (keeps now status admin note)
    ∙ ap (Option.map (λ y. if has_id k y then reviewed now status admin note y else y)) found
    ∙ ap (λ b. some (if b then reviewed now status admin note x else x)) e

reviewed-status :
    (now : ℕ) (status : SubmissionStatus) (admin : ℕ) (note : Option String) (x : VendorSubmission)
    → ((reviewed now status admin note x).status ≡ status)
      × ((reviewed now status admin note x).id ≡ x.id)
reviewed-status now status admin none x = (refl, refl)
reviewed-status now status admin (some note) x = (refl, refl)

pub review-IsReviewed :
    (k now : ℕ) (status : SubmissionStatus) (admin : ℕ) (note : Option String)
    (x : VendorSubmission) (db after : Db)
    → get_by_id k db ≡ some x
    → is_pending status ≡ false
    → after.submissions ≡ update_where (has_id k) (reviewed now status admin note) db.submissions
    → (x.id ≡ k) × IsReviewed (reviewed now status admin note x) after
review-IsReviewed k now status admin note x db after found p e =
    let is_it : has_id k x ≡ true = find_first_sound (has_id k) db.submissions found in
    let same : x.id ≡ k = ground (arith, is_it) in
    let (kept_status, kept_id) = reviewed-status now status admin note x in
    (
      same,
      (
        ap (λ n. get_by_id n after) (kept_id ∙ same)
            ∙ ap (find_first (has_id k)) e
            ∙ review-found (has_id k) k now status admin note db.submissions x (id-IsKept k) found
                is_it,
        ap is_pending kept_status ∙ p,
      ),
    )

pub named-IsKept : (name : Text) → IsKept (is_named name)
named-IsKept name now status admin none x = refl
named-IsKept name now status admin (some note) x = refl
