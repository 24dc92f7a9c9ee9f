-- ===== src/Smtp/Delivery/Order.antt =====
-- The details do not depend on the order in which Go's map hands out its entries.
use mathlib.Core.Path.{ap₂}
use pmail.Base.{
  ◌≡◌, refl, ap, ◌∙◌, true, false, Option, none, some, List, [], ◌∷◌, ◌++◌, map, arith,
  if◌then◌else◌, Text, codes, text_eq, text_eq_iff,
}
use pmail.NetError.{NetError}
use pmail.Smtp.Delivery.{DomainErrors, text_lt, insert_text, sort_texts, lookup_error, details}

lt_asymm : (a b : Text) → text_lt a b ≡ true → text_lt b a ≡ false
unfolding text_lt
lt_asymm [] [] h = refl
lt_asymm [] (y ∷ ys) h = refl
lt_asymm (x ∷ xs) [] h = cc
lt_asymm (x ∷ xs) (y ∷ ys) h = ground (arith, lt_asymm xs ys)

lt_connected : (a b : Text) → text_lt a b ≡ false → text_lt b a ≡ false → a ≡ b
unfolding text_lt
lt_connected [] [] h k = refl
lt_connected [] (y ∷ ys) h k = cc
lt_connected (x ∷ xs) [] h k = cc
lt_connected (x ∷ xs) (y ∷ ys) h k = ground (arith, lt_connected xs ys)

lt_cotrans : (t a b : Text) → text_lt t a ≡ true → text_lt t b ≡ false → text_lt b a ≡ true
unfolding text_lt
lt_cotrans [] [] b h k = cc
lt_cotrans [] (y ∷ ys) [] h k = refl
lt_cotrans [] (y ∷ ys) (z ∷ zs) h k = cc
lt_cotrans (x ∷ xs) [] b h k = cc
lt_cotrans (x ∷ xs) (y ∷ ys) [] h k = refl
lt_cotrans (x ∷ xs) (y ∷ ys) (z ∷ zs) h k = ground (arith, lt_cotrans xs ys zs)

insert_text_comm :
    (a b : Text) (l : List Text) → insert_text a (insert_text b l) ≡ insert_text b (insert_text a l)
unfolding insert_text
insert_text_comm a b [] = ground (arith, lt_asymm a b, lt_asymm b a, lt_connected a b)
insert_text_comm a b (t ∷ ts) = ground (
  arith,
  lt_asymm a b,
  lt_asymm b a,
  lt_connected a b,
  lt_cotrans t a b,
  lt_cotrans t b a,
  insert_text_comm a b ts,
)

-- One map handed out in two orders: neighbours trade places.
pub data Reorder : DomainErrors → DomainErrors → Type 0 where
  same : {m : DomainErrors} → Reorder m m
  keep : {m n : DomainErrors} (x : Text × Option NetError) → Reorder m n → Reorder (x ∷ m) (x ∷ n)
  swap :
      {m : DomainErrors} (x y : Text × Option NetError)
      → text_eq x.0 y.0 ≡ false
      → Reorder (x ∷ y ∷ m) (y ∷ x ∷ m)
  next : {m n o : DomainErrors} → Reorder m n → Reorder n o → Reorder m o

pub sort_texts-Reorder :
    {m n : DomainErrors}
    → Reorder m n
    → sort_texts (map (λ e. e.0) m) ≡ sort_texts (map (λ e. e.0) n)
unfolding sort_texts
sort_texts-Reorder same = refl
sort_texts-Reorder (keep x r) = ap (insert_text x.0) (sort_texts-Reorder r)
sort_texts-Reorder (swap {m} x y h) = insert_text_comm x.0 y.0 (sort_texts (map (λ e. e.0) m))
sort_texts-Reorder (next r s) = sort_texts-Reorder r ∙ sort_texts-Reorder s

pub lookup_error-Reorder :
    {m n : DomainErrors} (k : Text) → Reorder m n → lookup_error k m ≡ lookup_error k n
unfolding lookup_error
lookup_error-Reorder k same = refl
lookup_error-Reorder k (keep x r) =
    ap (λ z. if text_eq k x.0 then x.1 else z) (lookup_error-Reorder k r)
lookup_error-Reorder k (swap {m} x y h) =
    ground (arith, text_eq_iff x.0 y.0, text_eq_iff k x.0, text_eq_iff k y.0)
lookup_error-Reorder k (next r s) = lookup_error-Reorder k r ∙ lookup_error-Reorder k s

pub details-Reorder :
    (error_text : NetError → Text) {m n : DomainErrors} (ds : List Text)
    → Reorder m n
    → details error_text m ds ≡ details error_text n ds
unfolding details
details-Reorder error_text [] r = refl
details-Reorder error_text {m} {n} (d ∷ ds) r =
    ap₂ (λ a b. a ++ b)
      (detail-Reorder (lookup_error d m) (lookup_error d n) (lookup_error-Reorder d r))
      (details-Reorder error_text ds r)
  where
    detail-Reorder :
        (a b : Option NetError)
        → a ≡ b
        → elim a as (λ _. List Text) [
          | none ↦ []
          | some e ↦ (d ++ (codes ": " ++ error_text e)) ∷ []
        ]
          ≡ elim b [ none ↦ [] | some e ↦ (d ++ (codes ": " ++ error_text e)) ∷ [] ]
    detail-Reorder a b e = cc
