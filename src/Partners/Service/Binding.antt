-- ===== src/Partners/Service/Binding.antt =====
-- `bind_referral`: one customer has at most one partner, and nobody refers themselves.
use native.Mathlib.Decide.{ℕ_discrete}
use mathlib.Core.Path.{subst}
use reliastra_backend.Prelude.{
  ℕ, ◌≤◌, ◌≡◌, ◌≢◌, refl, true, List, [], ◌∷◌, ◌++◌, arith, ◌==◌, Option, none, some, Option-cases,
  inl, inr, ◌⊎◌, count_where, count_where-append, find_first-none,
}
use reliastra_backend.Prelude.Tables.{find_first-append}
use reliastra_backend.Prelude.Text.{Text}
use reliastra_backend.Partners.Model.{PartnerProfile, PartnerReferral, Db, is_active}
use reliastra_backend.Partners.Repository.Profiles
use reliastra_backend.Partners.Repository.Codes
use reliastra_backend.Partners.Repository.Referrals
use reliastra_backend.Partners.Repository.Shared.{log_event}
use reliastra_backend.Partners.Service.{referring_partner, bind, bind_referral}

referring_partner_sound :
    (code : Text) (uid : ℕ) (db : Db) {p : PartnerProfile}
    → referring_partner code uid db ≡ some p
    → (is_active p.status ≡ true) × (p.user_id ≢ uid)
unfolding referring_partner
referring_partner_sound code uid db h = ground arith

-- A customer belongs to at most one partner.
abbrev pub OnePartner : List PartnerReferral → Type 0
OnePartner rs = (uid : ℕ) → count_where (λ r. r.referred_user_id == uid) rs ≤ 1

OnePartner-append :
    (r : PartnerReferral) (rs : List PartnerReferral)
    → count_where (λ x. x.referred_user_id == r.referred_user_id) rs ≡ 0
    → OnePartner rs
    → OnePartner (rs ++ r ∷ [])
OnePartner-append r rs new h uid =
    rw (count_where-append (λ x. x.referred_user_id == uid) rs (r ∷ []))
      (elim (ℕ_discrete r.referred_user_id uid) [
        | yes e ↦
            ground (arith, subst (λ u. count_where (λ x. x.referred_user_id == u) rs ≡ 0) e new)
        | no e ↦ ground (arith, h uid)
      ])

-- After a binding no customer belongs to two partners, if none did before.
pub bind_referral-OnePartner :
    (new_id : ℕ) (code : Text) (uid : ℕ) (org : Option ℕ) (db : Db)
    → OnePartner db.referrals
    → OnePartner (bind_referral new_id code uid org db).1.referrals
unfolding bind_referral bind Referrals.create log_event Referrals.get_by_referred_user
bind_referral-OnePartner new_id code uid org db h =
    elim (Option-cases (referring_partner code uid db)) [
      | inl e ↦ rw (e, bind_referral) h
      | inr (p, e) ↦ elim (Option-cases (Referrals.get_by_referred_user db uid)) [
        | inl n ↦
            rw (e, n, bind_referral)
              (OnePartner-append _ db.referrals (find_first-none _ db.referrals n) h)
        | inr (r, n) ↦ rw (e, n, bind_referral) h
      ]
    ]

-- A call either leaves the referrals alone, or adds one of a user who had none: to an active
-- partner who is not that user, and it returns the new row.
pub bind_referral_binds :
    (new_id : ℕ) (code : Text) (uid : ℕ) (org : Option ℕ) (db : Db)
    → ((bind_referral new_id code uid org db).1.referrals ≡ db.referrals)
      ⊎ ((p : PartnerProfile) × (r : PartnerReferral) × ((bind_referral new_id code uid org db).0
            ≡ some r)
          × ((bind_referral new_id code uid org db).1.referrals ≡ db.referrals ++ r ∷ [])
          × (Referrals.get_by_referred_user db uid ≡ none)
          × (r.referred_user_id ≡ uid)
          × (r.partner_id ≡ p.id)
          × (is_active p.status ≡ true)
          × (p.user_id ≢ uid))
unfolding bind_referral bind Referrals.create log_event
bind_referral_binds new_id code uid org db = elim (Option-cases (referring_partner code uid db)) [
  | inl e ↦ inl (ground arith)
  | inr (p, e) ↦ elim (Option-cases (Referrals.get_by_referred_user db uid)) [
    | inr (r, n) ↦ inl (ground arith)
    | inl n ↦
        let (act, other) = referring_partner_sound code uid db e in
        inr (p, (bind new_id uid org p db).0, ground arith, ground arith, n, refl, refl, act, other)
  ]
]

module _ (new_id : ℕ) (code : Text) (uid : ℕ) (org : Option ℕ) (p : PartnerProfile) (db : Db) where
  referring_partner-bind :
      referring_partner code uid (bind new_id uid org p db).1 ≡ referring_partner code uid db
  unfolding referring_partner bind Referrals.create log_event Profiles.get_by_user_id
      Codes.get_by_code
  referring_partner-bind = refl

  referred-bind :
      (r : PartnerReferral) × (Referrals.get_by_referred_user (bind new_id uid org p db).1 uid
        ≡ some r)
  unfolding bind Referrals.create log_event Referrals.get_by_referred_user
  referred-bind = find_first-append (λ r. r.referred_user_id == uid) db.referrals _ (ground arith)

  bind_referral-new :
      referring_partner code uid db ≡ some p
      → Referrals.get_by_referred_user db uid ≡ none
      → (bind_referral new_id code uid org db).1 ≡ (bind new_id uid org p db).1
  unfolding bind_referral
  bind_referral-new e n = ground arith

-- A second registration with the same code changes nothing.
pub bind_referral_twice :
    (new_id new_id' : ℕ) (code : Text) (uid : ℕ) (org org' : Option ℕ) (db : Db)
    → (bind_referral new_id' code uid org' (bind_referral new_id code uid org db).1).1
      ≡ (bind_referral new_id code uid org db).1
unfolding bind_referral
bind_referral_twice new_id new_id' code uid org org' db =
    elim (Option-cases (referring_partner code uid db)) [
      | inl e ↦ ground arith
      | inr (p, e) ↦ elim (Option-cases (Referrals.get_by_referred_user db uid)) [
        | inr (r, n) ↦ ground arith
        | inl n ↦
            let (r, f) = referred-bind new_id code uid org p db in
            ground (
              arith,
              bind_referral-new new_id code uid org p db e n,
              referring_partner-bind new_id code uid org p db,
            )
      ]
    ]

-- The binding is no business of the ledger.
pub commissions-bind_referral :
    (new_id : ℕ) (code : Text) (uid : ℕ) (org : Option ℕ) (db : Db)
    → (bind_referral new_id code uid org db).1.commissions ≡ db.commissions
unfolding bind_referral bind Referrals.create log_event
commissions-bind_referral new_id code uid org db = ground arith
