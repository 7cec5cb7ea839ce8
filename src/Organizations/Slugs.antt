-- ===== src/Organizations/Slugs.antt =====
-- The slugs of organizations.
use reliastra_backend.Prelude.{
  ℕ, ◌≡◌, refl, sym, Bool, true, false, Option, none, some, [], ◌∷◌, ◌==◌, All, Bool-cases, inl,
  inr, if◌then◌else◌,
}
use mathlib.Core.Path.{subst}
use reliastra_backend.Prelude.Text.{Text, text_eq, text_eq_refl, lower, text_or}
use reliastra_backend.Prelude.Tables.{find_first-append}
use reliastra_backend.Prelude.Result.{ok, err, conflict, require_inv, ok_injective}
use reliastra_backend.Organizations.Model.{Organization, Db, get_by_slug}
use reliastra_backend.Organizations.Service.{
  is_slug_char, sub_runs, drop_hyphens, backwards, slugify, choose_slug, create_org,
}

abbrev pub IsSlug : Text → Type 0
IsSlug t = All (λ c. is_slug_char c ≡ true) t

sub_runs-IsSlug : (in_run : Bool) (t : Text) → IsSlug (sub_runs in_run t)
sub_runs-IsSlug in_run [] = tt
sub_runs-IsSlug in_run (c ∷ t) = elim (Bool-cases (is_slug_char c)) [
  | inl e ↦ rw e (e, sub_runs-IsSlug false t)
  | inr e ↦ rw e (hyphen in_run (sub_runs true t) (sub_runs-IsSlug true t))
]
  where
    hyphen : (b : Bool) (rest : Text) → IsSlug rest → IsSlug (if b then rest else 45 ∷ rest)
    hyphen true rest h = h
    hyphen false rest h = (refl, h)

drop_hyphens-IsSlug : (t : Text) → IsSlug t → IsSlug (drop_hyphens t)
drop_hyphens-IsSlug [] h = tt
drop_hyphens-IsSlug (c ∷ t) h = elim (Bool-cases (c == 45)) [
  | inl e ↦ rw e (drop_hyphens-IsSlug t h.1)
  | inr e ↦ rw e h
]

backwards-IsSlug : (t acc : Text) → IsSlug t → IsSlug acc → IsSlug (backwards t acc)
backwards-IsSlug [] acc h a = a
backwards-IsSlug (c ∷ t) acc h a = backwards-IsSlug t (c ∷ acc) h.1 (h.0, a)

slugify-IsSlug : (name : Text) → IsSlug (slugify name)
slugify-IsSlug name =
    backwards-IsSlug _ []
      (drop_hyphens-IsSlug _
        (backwards-IsSlug _ [] (drop_hyphens-IsSlug _ (sub_runs-IsSlug false (lower name))) tt))
      tt

text_or-IsSlug : (t d : Text) → IsSlug t → IsSlug d → IsSlug (text_or t d)
text_or-IsSlug [] d h k = k
text_or-IsSlug (c ∷ t) d h k = h

-- The slug of a new organization has only letters from a to z, digits and hyphens, whatever its name,
-- if that holds of the random text and of the slug that the request gives, when it gives one.
pub choose_slug-IsSlug :
    (slug : Option Text) (name fallback : Text)
    → IsSlug fallback
    → ((s : Text) → slug ≡ some s → IsSlug s)
    → IsSlug (choose_slug slug name fallback)
choose_slug-IsSlug none name fallback h g =
    text_or-IsSlug (slugify name) fallback (slugify-IsSlug name) h
choose_slug-IsSlug (some s) name fallback h g =
    text_or-IsSlug s _ (g s refl) (text_or-IsSlug (slugify name) fallback (slugify-IsSlug name) h)

taken :
    (later id member user : ℕ) (random title : Text) (given : Option Text) (db : Db)
    (o : Organization)
    → get_by_slug (choose_slug given title random) db ≡ some o
    → create_org later id member random user title given db ≡ err conflict
unfolding create_org
taken later id member user random title given db o h = rw (h) refl

-- After an organization was created, a request that comes to the same slug is a conflict.
pub create_org-create_org :
    (now new_id new_member uid : ℕ) (fallback name : Text) (slug : Option Text) (db after : Db)
    (later id member user : ℕ) (random title : Text) (given : Option Text)
    → create_org now new_id new_member fallback uid name slug db ≡ ok after
    → choose_slug given title random ≡ choose_slug slug name fallback
    → create_org later id member random user title given after ≡ err conflict
unfolding create_org
create_org-create_org now new_id new_member uid fallback name slug db after later id member user
      random title given h same =
    let (free, e) = require_inv _ _ _ h in
    let s = lower (choose_slug slug name fallback) in
    let (o, found) =
      find_first-append (λ (x : Organization). text_eq x.slug s) db.organizations _
        (text_eq_refl s) in
    let there =
      subst (λ t. get_by_slug (choose_slug slug name fallback) t ≡ some o) (ok_injective e) found in
    taken later id member user random title given after o
      (subst (λ t. get_by_slug t after ≡ some o) (sym same) there)
