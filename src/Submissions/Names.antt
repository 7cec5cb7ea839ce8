-- ===== src/Submissions/Names.antt =====
-- `_sanitize_vendor_name` of app/modules/vendor_submissions/service.py.
use reliastra_backend.Prelude.{
  ℕ, Bool, true, false, ◌&&◌, ◌||◌, [], ◌∷◌, ◌++◌, leb, ◌==◌, select, All, ◌≡◌, refl, inl, inr,
  Bool-cases, arith, if◌then◌else◌,
}
use reliastra_backend.Prelude.Text.{Text, lower, lower_char, is_empty, is_space}

abbrev pub hyphen : ℕ
hyphen = 45

abbrev pub is_hyphen : ℕ → Bool
is_hyphen c = c == hyphen

-- The complement of `_SPECIAL_CHARS_RE`
abbrev pub is_plain : ℕ → Bool
is_plain c = (leb 97 c && leb c 122) || (leb 48 c && leb c 57) || is_hyphen c

-- `t.lstrip(p)`
abbrev pub strip_start : (ℕ → Bool) → Text → Text
strip_start p [] = []
strip_start p (c ∷ t) = if p c then strip_start p t else c ∷ t

abbrev pub unless_blank : Bool → ℕ → Text → Text
unless_blank blank c rest = if is_empty rest && blank then [] else c ∷ rest

-- `t.rstrip(p)`
abbrev pub strip_end : (ℕ → Bool) → Text → Text
strip_end p [] = []
strip_end p (c ∷ t) = unless_blank (p c) c (strip_end p t)

-- `t.strip(p)`
abbrev pub strip : (ℕ → Bool) → Text → Text
strip p t = strip_end p (strip_start p t)

-- Each run of characters with p becomes one hyphen; the first argument says that a run goes on.
abbrev pub hyphenate : (ℕ → Bool) → Bool → Text → Text
hyphenate p going [] = []
hyphenate p going (c ∷ t) =
    let rest = hyphenate p (p c) t in
    if p c then (if going then rest else hyphen ∷ rest) else c ∷ rest

-- The two letters outside of ASCII whose lower case in Python has ASCII letters: the Kelvin sign and
-- the I with a dot, which becomes an i and a combining dot.
abbrev lower_letter : ℕ → Text
lower_letter c = if c == 8490 then 107 ∷ [] else if c == 304 then 105 ∷ 775 ∷ [] else c ∷ []

-- `str.lower`; other letters outside of ASCII have a lower case outside of ASCII, and are dropped later.
unfoldable pub python_lower : Text → Text
python_lower [] = []
python_lower (c ∷ t) = lower (lower_letter c) ++ python_lower t

unfoldable pub sanitize_vendor_name : Text → Text
sanitize_vendor_name raw = strip is_hyphen (
    hyphenate is_hyphen false
      (select is_plain (hyphenate is_space false (python_lower (strip is_space raw)))))

-- What is left of a name.
strip_start-All : (p : ℕ → Bool) (P : ℕ → Type 0) (t : Text) → All P t → All P (strip_start p t)
strip_start-All p P [] h = tt
strip_start-All p P (c ∷ t) h = elim (Bool-cases (p c)) [
  | inl e ↦ rw e (strip_start-All p P t h.1)
  | inr e ↦ rw e h
]

unless_blank-All :
    (b : Bool) (P : ℕ → Type 0) (c : ℕ) (t : Text) → P c → All P t → All P (unless_blank b c t)
unless_blank-All true P c [] h k = tt
unless_blank-All false P c [] h k = (h, tt)
unless_blank-All true P c (d ∷ t) h k = (h, k)
unless_blank-All false P c (d ∷ t) h k = (h, k)

strip_end-All : (p : ℕ → Bool) (P : ℕ → Type 0) (t : Text) → All P t → All P (strip_end p t)
strip_end-All p P [] h = tt
strip_end-All p P (c ∷ t) h =
    unless_blank-All (p c) P c (strip_end p t) h.0 (strip_end-All p P t h.1)

hyphenate-All :
    (p : ℕ → Bool) (P : ℕ → Type 0) (b : Bool) (t : Text)
    → P hyphen
    → All P t
    → All P (hyphenate p b t)
hyphenate-All p P b [] h k = tt
hyphenate-All p P b (c ∷ t) h k = elim (Bool-cases (p c)) [
  | inr e ↦ rw e (k.0, rw e at (hyphenate-All p P (p c) t h k.1))
  | inl e ↦ rw e (run b (rw e at (hyphenate-All p P (p c) t h k.1)))
]
  where
    run :
        (going : Bool)
        → All P (hyphenate p true t)
        → All P (if going then hyphenate p true t else hyphen ∷ hyphenate p true t)
    run true r = r
    run false r = (h, r)

select_plain-All : (t : Text) → All (λ c. is_plain c ≡ true) (select is_plain t)
select_plain-All [] = tt
select_plain-All (c ∷ t) = elim (Bool-cases (is_plain c)) [
  | inl e ↦ rw e (e, select_plain-All t)
  | inr e ↦ rw e (select_plain-All t)
]

-- Only lower-case letters, digits and hyphens are left.
sanitize_vendor_name-All : (raw : Text) → All (λ c. is_plain c ≡ true) (sanitize_vendor_name raw)
unfolding sanitize_vendor_name
sanitize_vendor_name-All raw =
    let words = select is_plain (hyphenate is_space false (python_lower (strip is_space raw))) in
    let joined = hyphenate is_hyphen false words in
    strip_end-All is_hyphen (λ c. is_plain c ≡ true) (strip_start is_hyphen joined)
      (strip_start-All is_hyphen (λ c. is_plain c ≡ true) joined
        (hyphenate-All is_hyphen (λ c. is_plain c ≡ true) false words refl
          (select_plain-All (hyphenate is_space false (python_lower (strip is_space raw))))))

lower_plain : (t : Text) → All (λ c. is_plain c ≡ true) t → lower t ≡ t
unfolding lower lower_char
lower_plain [] h = refl
lower_plain (c ∷ t) h = ground (arith, h.0, lower_plain t h.1)

-- A search by the lower-case name is a search by the name.
pub lower-sanitize_vendor_name :
    (raw : Text) → lower (sanitize_vendor_name raw) ≡ sanitize_vendor_name raw
lower-sanitize_vendor_name raw =
    lower_plain (sanitize_vendor_name raw) (sanitize_vendor_name-All raw)
