-- ===== src/Text.antt =====
-- What the program uses of Go's `strings` package. A string is the list of its code points (its
-- bytes are valid UTF-8, as `encoding/json` delivers them), and `len` counts bytes.
use Prim.Native.Char.{code}
use Prim.Native.String.{String}
use my_finance.Common.{
  ℕ, ◌+◌, ◌≡◌, refl, ap, ◌∙◌, ◌≢◌, Bool, true, false, ◌&&◌, ◌||◌, List, [], ◌∷◌, ◌++◌, arith, ltb,
  leb, ◌==◌, if◌then◌else◌, is_empty, All,
}

abbrev pub Text : Type 0
Text = List ℕ

-- The code points of a literal.
abbrev pub codes : String → Text
codes String.[] = []
codes (String.◌∷◌ c s) = code c ∷ codes s

-- `unicode.IsSpace`
unfoldable pub is_space : ℕ → Bool
is_space c =
    (leb 9 c && leb c 13)
    || c == 32
    || c == 0x85
    || c == 0xa0
    || c == 0x1680
    || (leb 0x2000 c && leb c 0x200a)
    || c == 0x2028
    || c == 0x2029
    || c == 0x202f
    || c == 0x205f
    || c == 0x3000

unfoldable pub trim_left : (ℕ → Bool) → Text → Text
trim_left p [] = []
trim_left p (c ∷ s) = if p c then trim_left p s else c ∷ s

unfoldable pub trim_right : (ℕ → Bool) → Text → Text
trim_right p [] = []
trim_right p (c ∷ s) = let rest = trim_right p s in if p c && is_empty rest then [] else c ∷ rest

-- `strings.TrimSpace`
unfoldable pub trim_space : Text → Text
trim_space s = trim_right is_space (trim_left is_space s)

-- The bytes of one code point in UTF-8.
abbrev rune_len : ℕ → ℕ
rune_len c = if ltb c 0x80 then 1 else if ltb c 0x800 then 2 else if ltb c 0x10000 then 3 else 4

-- `len(s)`
unfoldable pub len : Text → ℕ
len [] = 0
len (c ∷ s) = rune_len c + len s

-- `s == t`
unfoldable pub text_eq : Text → Text → Bool
text_eq [] [] = true
text_eq [] (d ∷ t) = false
text_eq (c ∷ s) [] = false
text_eq (c ∷ s) (d ∷ t) = if c == d then text_eq s t else false

unfoldable pub contains : ℕ → Text → Bool
contains c [] = false
contains c (d ∷ s) = if c == d then true else contains c s

abbrev split_step : ℕ → ℕ → List Text → List Text
split_step sep c [] = []
split_step sep c (p ∷ ps) = if c == sep then [] ∷ p ∷ ps else (c ∷ p) ∷ ps

-- `strings.Split(s, sep)` at a separator of one code point.
unfoldable pub split : ℕ → Text → List Text
split sep [] = [] ∷ []
split sep (c ∷ s) = split_step sep c (split sep s)

pub text_eq_refl : (s : Text) → text_eq s s ≡ true
unfolding text_eq
text_eq_refl [] = refl
text_eq_refl (c ∷ s) = ground (arith, text_eq_refl s)

pub text_eq-eq : (s t : Text) → text_eq s t ≡ true → s ≡ t
unfolding text_eq
text_eq-eq [] [] h = refl
text_eq-eq [] (d ∷ t) h = cc
text_eq-eq (c ∷ s) [] h = cc
text_eq-eq (c ∷ s) (d ∷ t) h = ground (arith, text_eq-eq s t)

abbrev pub IsPlain : ℕ → Type 0
IsPlain c = is_space c ≡ false

trim_left-eq : (s : Text) → All IsPlain s → trim_left is_space s ≡ s
unfolding trim_left
trim_left-eq [] h = refl
trim_left-eq (c ∷ s) (hc, h) = ground arith

trim_right-eq : (s : Text) → All IsPlain s → trim_right is_space s ≡ s
unfolding trim_right
trim_right-eq [] h = refl
trim_right-eq (c ∷ s) (hc, h) = ground (arith, trim_right-eq s h)

-- A text without spaces is its own trim.
pub trim_space-eq : (s : Text) → All IsPlain s → trim_space s ≡ s
unfolding trim_space
trim_space-eq s h = ap (trim_right is_space) (trim_left-eq s h) ∙ trim_right-eq s h

-- No member is `sep`.
abbrev pub Lacks : ℕ → Text → Type 0
Lacks sep = All (λ c. c ≢ sep)

pub contains-eq_false : (sep : ℕ) (s : Text) → Lacks sep s → contains sep s ≡ false
unfolding contains
contains-eq_false sep [] h = refl
contains-eq_false sep (c ∷ s) (hc, h) = ground (arith, contains-eq_false sep s h)

-- A text without the separator is the only part.
pub split-eq : (sep : ℕ) (s : Text) → Lacks sep s → split sep s ≡ s ∷ []
unfolding split
split-eq sep [] h = refl
split-eq sep (c ∷ s) (hc, h) = rw (split-eq sep s h) (ground arith)

-- The first separator ends the first part.
pub split-append :
    (sep : ℕ) (s t : Text) → Lacks sep s → Lacks sep t → split sep (s ++ sep ∷ t) ≡ s ∷ t ∷ []
unfolding split
split-append sep [] t hs ht = rw (split-eq sep t ht) (ground arith)
split-append sep (c ∷ s) t (hc, hs) ht = rw (split-append sep s t hs ht) (ground arith)
