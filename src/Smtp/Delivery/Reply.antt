-- ===== src/Smtp/Delivery/Reply.antt =====
-- The reply as a whole: its code, and that it does not depend on the order of a map's entries.
use mathlib.Core.Bool.{false≢true}
use pmail.Base.{
  ◌≡◌, refl, sym, ap, ◌∙◌, ◌≢◌, ◌↔◌, ◌⊎◌, inl, inr, true, ◌&&◌, Option, none, some, [], ◌∷◌, map,
  arith, if◌then◌else◌, Bool-cases, and_true, is_empty, all, All, Text, codes,
}
use pmail.NetError.{NetError}
use pmail.Smtp.Delivery.{
  DomainErrors, SmtpError, entry_permanent, is_permanent, is_permanent_delivery_error, compose,
  details, sort_texts, delivery_smtp_message, downstream_delivery_smtp_error,
}
use pmail.Smtp.Delivery.Order.{Reorder, same, keep, swap, next, sort_texts-Reorder, details-Reorder}

-- An entry whose domain failed for good.
abbrev pub FailedForGood : Text × Option NetError → Type 0
FailedForGood (d, o) = (e : NetError) × (o ≡ some e) × (is_permanent_delivery_error e ≡ true)

all-FailedForGood : (m : DomainErrors) → (all entry_permanent m ≡ true) ↔ All FailedForGood m
all-FailedForGood m = (fore m, back m)
  where
    entry : (x : Text × Option NetError) → entry_permanent x ≡ true → FailedForGood x
    entry (d, none) h = unfold entry_permanent in cc h
    entry (d, some e) h = (e, refl, unfold entry_permanent in h)

    fore : (m : DomainErrors) → all entry_permanent m ≡ true → All FailedForGood m
    fore [] h = tt
    fore (x ∷ m) h =
        let p = and_true (entry_permanent x) (all entry_permanent m) h in (entry x p.0, fore m p.1)

    entry_back : (x : Text × Option NetError) → FailedForGood x → entry_permanent x ≡ true
    entry_back (d, o) h = unfold entry_permanent in ground arith

    back : (m : DomainErrors) → All FailedForGood m → all entry_permanent m ≡ true
    back [] h = refl
    back (x ∷ m) h = rw (entry_back x h.0) (back m h.1)

is_permanent_iff : (m : DomainErrors) → (is_permanent m ≡ true) ↔ ((m ≢ []) × All FailedForGood m)
unfolding is_permanent
is_permanent_iff [] = ((λ h. cc), (λ h. absurd (h.0 refl)))
is_permanent_iff (x ∷ m) =
    ((λ h. ((λ e. cc), (all-FailedForGood (x ∷ m)).0 h)), (λ h. (all-FailedForGood (x ∷ m)).1 h.1))

-- A failed delivery is answered, with 550 exactly when there is a domain and every domain failed
-- for good, and otherwise with 451, so that the client keeps a message that may still pass.
pub downstream_delivery_smtp_error_code :
    (error_text : NetError → Text) (e : NetError) (m : DomainErrors)
    → (r : SmtpError) × (downstream_delivery_smtp_error error_text (some e) m ≡ some r)
      × ((r.code ≡ 550) ↔ ((m ≢ []) × All FailedForGood m))
      × ((r.code ≡ 550) ⊎ (r.code ≡ 451))
unfolding downstream_delivery_smtp_error
downstream_delivery_smtp_error_code error_text e m = elim (Bool-cases (is_permanent m)) [
  | inl p ↦ (
    record {
      code = 550;
      enhanced_code = (5, 0, 0);
      message =
          delivery_smtp_message error_text (codes "Downstream delivery permanently failed") e m;
    },
    rw (p, downstream_delivery_smtp_error),
    ((λ h. (is_permanent_iff m).0 p), (λ h. refl)),
    inl refl,
  )
  | inr p ↦ (
    record {
      code = 451;
      enhanced_code = (4, 4, 0);
      message =
          delivery_smtp_message error_text (codes "Downstream delivery temporarily failed") e m;
    },
    rw (p, downstream_delivery_smtp_error),
    ((λ h. absurd (omega arith)), (λ h. absurd (false≢true (sym p ∙ (is_permanent_iff m).1 h)))),
    inr refl,
  )
]

all-Reorder : {m n : DomainErrors} → Reorder m n → all entry_permanent m ≡ all entry_permanent n
all-Reorder same = refl
all-Reorder (keep x r) = ap (λ b. entry_permanent x && b) (all-Reorder r)
all-Reorder (swap {m} x y h) = ground arith
all-Reorder (next r s) = all-Reorder r ∙ all-Reorder s

is_permanent-Reorder : {m n : DomainErrors} → Reorder m n → is_permanent m ≡ is_permanent n
unfolding is_permanent
is_permanent-Reorder same = refl
is_permanent-Reorder (keep x r) = all-Reorder (keep x r)
is_permanent-Reorder (swap x y h) = all-Reorder (swap x y h)
is_permanent-Reorder (next r s) = is_permanent-Reorder r ∙ is_permanent-Reorder s

message-Reorder :
    (error_text : NetError → Text) (prefix : Text) (e : NetError) {m n : DomainErrors}
    → Reorder m n
    → delivery_smtp_message error_text prefix e m ≡ delivery_smtp_message error_text prefix e n
unfolding delivery_smtp_message
message-Reorder error_text prefix e {m} {n} r =
    let found =
      details-Reorder error_text (sort_texts (map (λ d. d.0) m)) r
      ∙ ap (details error_text n) (sort_texts-Reorder r) in
    ap (λ fs. compose prefix (if is_empty fs then error_text e ∷ [] else fs)) found

-- The reply is the same in whatever order Go's map hands out the entries of `domainErrors`.
pub downstream_delivery_smtp_error-Reorder :
    (error_text : NetError → Text) (o : Option NetError) {m n : DomainErrors}
    → Reorder m n
    → downstream_delivery_smtp_error error_text o m ≡ downstream_delivery_smtp_error error_text o n
unfolding downstream_delivery_smtp_error
downstream_delivery_smtp_error-Reorder error_text none r = refl
downstream_delivery_smtp_error-Reorder error_text (some e) r = rw (
  is_permanent-Reorder r,
  message-Reorder error_text (codes "Downstream delivery permanently failed") e r,
  message-Reorder error_text (codes "Downstream delivery temporarily failed") e r,
)
