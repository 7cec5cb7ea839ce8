-- ===== src/Prelude/Text.antt =====
-- Text that the program takes apart, as the list of its code points. `upper` and `lower` are
-- those of ASCII letters; other code points stay.
use Prim.Native.Char.{code}
use reliastra_backend.Prelude.{String, ◌≡◌, refl, arith}
use reliastra_backend.Prelude.{
  ℕ, ◌+◌, ◌-◌, Bool, true, false, ◌&&◌, ◌||◌, List, [], ◌∷◌, map, leb, ◌==◌, if◌then◌else◌,
}

abbrev pub Text : Type 0
Text = List ℕ

-- `t == u`
abbrev pub text_eq : Text → Text → Bool
text_eq [] [] = true
text_eq [] (d ∷ u) = false
text_eq (c ∷ t) [] = false
text_eq (c ∷ t) (d ∷ u) = (c == d) && text_eq t u

unfoldable pub upper_char : ℕ → ℕ
upper_char c = if leb 97 c && leb c 122 then c - 32 else c

unfoldable pub lower_char : ℕ → ℕ
lower_char c = if leb 65 c && leb c 90 then c + 32 else c

unfoldable pub upper : Text → Text
unfolding upper_char
upper = map upper_char

unfoldable pub lower : Text → Text
unfolding lower_char
lower = map lower_char

-- The characters of `str.isspace`, which `\s` matches
abbrev pub is_space : ℕ → Bool
is_space c =
    (c == 32)
    || (leb 9 c && leb c 13)
    || (leb 28 c && leb c 31)
    || (c == 133)
    || (c == 160)
    || (c == 5760)
    || (leb 8192 c && leb c 8202)
    || (leb 8232 c && leb c 8233)
    || (c == 8239)
    || (c == 8287)
    || (c == 12288)

-- `not t`
abbrev pub is_empty : Text → Bool
is_empty [] = true
is_empty (c ∷ t) = false

-- `t or d`
abbrev pub text_or : Text → Text → Text
text_or [] d = d
text_or (c ∷ t) d = c ∷ t

-- The code points of a literal.
abbrev pub codes : String → Text
codes String.[] = []
codes (String.◌∷◌ c s) = code c ∷ codes s

-- A case change of one letter is undone by the other.
lower_char-upper_char : (c : ℕ) → lower_char (upper_char c) ≡ lower_char c
unfolding lower_char upper_char
lower_char-upper_char c = ground arith

pub lower-upper : (t : Text) → lower (upper t) ≡ lower t
unfolding lower upper
lower-upper [] = refl
lower-upper (c ∷ t) = ground (arith, lower_char-upper_char c, lower-upper t)

pub text_eq_refl : (t : Text) → text_eq t t ≡ true
text_eq_refl [] = refl
text_eq_refl (c ∷ t) = ground (arith, text_eq_refl t)

pub eq_of_text_eq : (t u : Text) → text_eq t u ≡ true → t ≡ u
eq_of_text_eq [] [] h = refl
eq_of_text_eq [] (d ∷ u) h = absurd (ground arith)
eq_of_text_eq (c ∷ t) [] h = absurd (ground arith)
eq_of_text_eq (c ∷ t) (d ∷ u) h = ground (arith, eq_of_text_eq t u)
