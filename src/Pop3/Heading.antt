-- ===== src/Pop3/Heading.antt =====
-- listen/pop3_server/action.go: what TOP prints.
use pmail.Base.{
  ℕ, zero, suc, ◌+◌, ◌≡◌, refl, sym, ap, ◌∙◌, inl, inr, Bool, true, false, List, [], ◌∷◌, arith,
  leb, ◌==◌, if◌then◌else◌, ==_iff, Bool-cases, length, is_empty, Text, push_front, split,
}
use pmail.Pop3.{join, header_end, take_lines, top}

split-nonempty : (sep : ℕ) (t : Text) → is_empty (split sep t) ≡ false
unfolding split
split-nonempty sep [] = refl
split-nonempty sep (c ∷ cs) = go (c == sep) (split sep cs)
  where
    go : (b : Bool) (ls : List Text) → is_empty (if b then [] ∷ ls else push_front c ls) ≡ false
    go true ls = refl
    go false [] = refl
    go false (x ∷ xs) = refl

join-split : (sep : ℕ) (t : Text) → join sep (split sep t) ≡ t
unfolding join split
join-split sep [] = refl
join-split sep (c ∷ cs) =
    go (c == sep) refl (split sep cs) (split-nonempty sep cs) (join-split sep cs)
  where
    go :
        (b : Bool)
        → (c == sep) ≡ b
        → (ls : List Text) → is_empty ls ≡ false
        → join sep ls ≡ cs
        → join sep (if b then [] ∷ ls else push_front c ls) ≡ c ∷ cs
    go b e [] k h = absurd cc
    go true e (x ∷ xs) k h =
        ap (λ d. d ∷ join sep (x ∷ xs)) (sym ((==_iff c sep).0 e)) ∙ ap (λ t. c ∷ t) h
    go false e (x ∷ []) k h = ap (λ t. c ∷ t) h
    go false e (x ∷ y ∷ ys) k h = ap (λ t. c ∷ t) h

take_lines-all : (n : ℕ) (xs : List Text) → leb (length xs) n ≡ true → take_lines n xs ≡ xs
unfolding take_lines
take_lines-all zero [] h = refl
take_lines-all (suc n) [] h = refl
take_lines-all zero (x ∷ xs) h = absurd (ground (arith, h))
take_lines-all (suc n) (x ∷ xs) h = ap (λ ys. x ∷ ys) (take_lines-all n xs (ground (arith, h)))

-- TOP prints the lines of the mail up to the first blank one, that one, and the given number of lines
-- behind it, or all there are: the count of lines that it takes decides alone what it prints.
top-take_lines :
    (text : Text) (n : ℕ)
    → top text n
      ≡ join b'\n' (take_lines (header_end (split b'\n' text) + n + 1) (split b'\n' text))
unfolding top
top-take_lines text n = elim (Bool-cases (leb (length lines) (header_end lines + n + 1))) [
  | inl e ↦ rw e (
      sym (
        ap (join b'\n') (take_lines-all (header_end lines + n + 1) lines e)
        ∙ join-split b'\n' text))
  | inr e ↦ rw e refl
]
  where
    lines : List Text
    lines = split b'\n' text
