-- ===== src/Base/Texts.antt =====
-- Go strings as lists of code points (valid UTF-8), and what the code uses of package `strings`
-- and `unicode`. Tables beyond ASCII are the fields of `Unicode`.
use Prim.Native.Nat.{ℕ, ◌+◌, ◌<◌}
use Prim.Native.Char.{code}
use Prim.Native.String.{String}
use mathlib.Core.Path.{◌≡◌, refl, ap, ◌∙◌}
use mathlib.Core.Logic.{◌↔◌, inl, inr}
use mathlib.Core.Bool.{Bool, true, false, ◌&&◌, ◌||◌, not}
use mathlib.Core.List.{List, [], ◌∷◌}
use native.Mathlib.Omega.{arith}
use pmail.Base.Lists.{all}
use pmail.Base.Tests.{and_true, ltb, leb, ◌==◌, if◌then◌else◌, Bool-cases}

abbrev pub Text : Type 0
Text = List ℕ

-- The code points of a literal.
abbrev pub codes : String → Text
codes String.[] = []
codes (String.◌∷◌ c s) = code c ∷ codes s

-- `s == t`
unfoldable pub text_eq : Text → Text → Bool
text_eq [] [] = true
text_eq (x ∷ xs) (y ∷ ys) = x == y && text_eq xs ys
text_eq _ _ = false

pub text_eq_iff : (s t : Text) → (text_eq s t ≡ true) ↔ (s ≡ t)
unfolding text_eq
text_eq_iff (x ∷ xs) (y ∷ ys) = ground (arith, text_eq_iff xs ys)
text_eq_iff _ _ = ground arith

pub text_eq_refl : (s : Text) → text_eq s s ≡ true
text_eq_refl s = (text_eq_iff s s).1 refl

-- `strings.HasPrefix s t`
unfoldable pub has_prefix : Text → Text → Bool
has_prefix s [] = true
has_prefix [] (y ∷ ys) = false
has_prefix (x ∷ xs) (y ∷ ys) = x == y && has_prefix xs ys

-- `strings.Contains s t`
unfoldable pub contains : Text → Text → Bool
unfolding has_prefix
contains [] t = has_prefix [] t
contains (x ∷ xs) t = has_prefix (x ∷ xs) t || contains xs t

-- `unicode.IsSpace`: the property White_Space, whole.
unfoldable pub is_space : ℕ → Bool
is_space c =
    (leb 9 c && leb c 13)
    || c == 32
    || c == 0x85
    || c == 0xa0
    || c == 0x1680
    || (leb 0x2000 c && leb c 0x200a)
    || c == 0x2028
    || c == 0x2029
    || c == 0x202f
    || c == 0x205f
    || c == 0x3000

unfoldable pub trim_left : Text → Text
trim_left [] = []
trim_left (c ∷ cs) = let rest = trim_left cs in if is_space c then rest else c ∷ cs

unfoldable pub trim_right : Text → Text
trim_right [] = []
trim_right (c ∷ cs) = elim (trim_right cs) [
  | [] ↦ if is_space c then [] else c ∷ []
  | d ∷ ds ↦ c ∷ d ∷ ds
]

-- `strings.TrimSpace`
unfoldable pub trim_space : Text → Text
unfolding trim_left trim_right is_space
trim_space s = trim_right (trim_left s)

-- `strings.Split` at a separator of one rune.
abbrev pub push_front : ℕ → List Text → List Text
push_front c [] = (c ∷ []) ∷ []
push_front c (s ∷ ss) = (c ∷ s) ∷ ss

unfoldable pub split : ℕ → Text → List Text
split sep [] = [] ∷ []
split sep (c ∷ cs) = let rest = split sep cs in if c == sep then [] ∷ rest else push_front c rest

-- `strings.Trim` with a set of runes
unfoldable pub trim_set_left : (ℕ → Bool) → Text → Text
trim_set_left p [] = []
trim_set_left p (c ∷ cs) = let rest = trim_set_left p cs in if p c then rest else c ∷ cs

unfoldable pub trim_set_right : (ℕ → Bool) → Text → Text
trim_set_right p [] = []
trim_set_right p (c ∷ cs) = elim (trim_set_right p cs) [
  | [] ↦ if p c then [] else c ∷ []
  | d ∷ ds ↦ c ∷ d ∷ ds
]

unfoldable pub trim_set : (ℕ → Bool) → Text → Text
unfolding trim_set_left trim_set_right
trim_set p s = trim_set_right p (trim_set_left p s)

-- What package unicode's tables give: `unicode.ToLower`, and the least rune of the orbit of
-- `unicode.SimpleFold`, by which `strings.EqualFold` compares.
pub record Unicode : Type 0 where
  pub lower : ℕ → ℕ
  pub fold : ℕ → ℕ
  pub lower_idem : (c : ℕ) → lower (lower c) ≡ lower c
  pub is_space-lower : (c : ℕ) → is_space (lower c) ≡ is_space c
  pub lower_ascii : (c : ℕ) → c < 128 → lower c ≡ (if leb b'A' c && leb c b'Z' then c + 32 else c)

module _ (u : Unicode) where
  -- `strings.ToLower`
  unfoldable pub to_lower : Text → Text
  to_lower [] = []
  to_lower (c ∷ cs) = u.lower c ∷ to_lower cs

  -- `strings.EqualFold`
  unfoldable pub equal_fold : Text → Text → Bool
  equal_fold [] [] = true
  equal_fold (x ∷ xs) (y ∷ ys) = u.fold x == u.fold y && equal_fold xs ys
  equal_fold _ _ = false

  pub to_lower_idem : (s : Text) → to_lower (to_lower s) ≡ to_lower s
  unfolding to_lower
  to_lower_idem [] = refl
  to_lower_idem (c ∷ cs) = cc (u.lower_idem c, to_lower_idem cs)

  pub equal_fold_refl : (s : Text) → equal_fold s s ≡ true
  unfolding equal_fold
  equal_fold_refl [] = refl
  equal_fold_refl (c ∷ cs) = ground (arith, equal_fold_refl cs)

  trim_left-to_lower : (s : Text) → trim_left (to_lower s) ≡ to_lower (trim_left s)
  unfolding trim_left to_lower
  trim_left-to_lower [] = refl
  trim_left-to_lower (c ∷ cs) = ground (arith, u.is_space-lower c, trim_left-to_lower cs)

  trim_right-to_lower : (s : Text) → trim_right (to_lower s) ≡ to_lower (trim_right s)
  unfolding trim_right to_lower
  trim_right-to_lower [] = refl
  trim_right-to_lower (c ∷ cs) = ground (arith, u.is_space-lower c, trim_right-to_lower cs)

  pub trim_space-to_lower : (s : Text) → trim_space (to_lower s) ≡ to_lower (trim_space s)
  unfolding trim_space
  trim_space-to_lower s = ap trim_right (trim_left-to_lower s) ∙ trim_right-to_lower (trim_left s)

-- ASCII, and no capital letter.
abbrev pub is_lower_ascii : ℕ → Bool
is_lower_ascii c = ltb c 128 && not (leb b'A' c && leb c b'Z')

module _ (u : Unicode) where
  lower-is_lower_ascii : (c : ℕ) → is_lower_ascii c ≡ true → u.lower c ≡ c
  lower-is_lower_ascii c h = ground (arith, u.lower_ascii c)

  pub to_lower-is_lower_ascii : (s : Text) → all is_lower_ascii s ≡ true → to_lower u s ≡ s
  unfolding to_lower
  to_lower-is_lower_ascii [] h = refl
  to_lower-is_lower_ascii (c ∷ cs) h =
      let p = and_true (is_lower_ascii c) (all is_lower_ascii cs) h in
      cc (lower-is_lower_ascii c p.0, to_lower-is_lower_ascii cs p.1)

-- The ASCII part of the tables, every other rune being its own lower case.
abbrev pub lower_ascii_only : ℕ → ℕ
lower_ascii_only c = if leb b'A' c && leb c b'Z' then c + 32 else c

pub lower_ascii_only_idem : (c : ℕ) → lower_ascii_only (lower_ascii_only c) ≡ lower_ascii_only c
lower_ascii_only_idem c = ground arith

pub is_space-lower_ascii_only : (c : ℕ) → is_space (lower_ascii_only c) ≡ is_space c
unfolding is_space
is_space-lower_ascii_only c = ground arith

abbrev pub ascii : Unicode
ascii = record {
  lower = lower_ascii_only;
  fold = lower_ascii_only;
  lower_idem = lower_ascii_only_idem;
  is_space-lower = is_space-lower_ascii_only;
  lower_ascii = λ c h. refl;
}

trim_right_idem : (s : Text) → trim_right (trim_right s) ≡ trim_right s
unfolding trim_right
trim_right_idem [] = refl
trim_right_idem (c ∷ cs) = ground (arith, trim_right_idem cs)

-- The text is empty or starts with no space.
abbrev StartsClean : Text → Type 0
StartsClean [] = Unit
StartsClean (c ∷ cs) = is_space c ≡ false

trim_left-StartsClean : (s : Text) → StartsClean (trim_left s)
unfolding trim_left
trim_left-StartsClean [] = tt
trim_left-StartsClean (c ∷ cs) = elim (Bool-cases (is_space c)) [
  | inl e ↦ rw e (trim_left-StartsClean cs)
  | inr e ↦ rw e e
]

trim_right-StartsClean : (s : Text) → StartsClean s → StartsClean (trim_right s)
unfolding trim_right
trim_right-StartsClean [] h = tt
trim_right-StartsClean (c ∷ cs) h = go (trim_right cs)
  where
    go :
        (r : Text)
        → StartsClean (elim r [ [] ↦ if is_space c then [] else c ∷ [] | d ∷ ds ↦ c ∷ d ∷ ds ])
    go [] = rw h h
    go (d ∷ ds) = h

trim_left-eq_self : (s : Text) → StartsClean s → trim_left s ≡ s
unfolding trim_left
trim_left-eq_self [] h = refl
trim_left-eq_self (c ∷ cs) h = rw h

pub trim_space_idem : (s : Text) → trim_space (trim_space s) ≡ trim_space s
unfolding trim_space
trim_space_idem s =
    ap trim_right
      (trim_left-eq_self _ (trim_right-StartsClean (trim_left s) (trim_left-StartsClean s)))
    ∙ trim_right_idem (trim_left s)
