-- ===== src/Smtp/Delivery/Message.antt =====
-- The text of the reply: its length, its line, and the order of the details.
use pmail.Base.{
  ℕ, zero, suc, ◌+◌, ◌-◌, ◌≤◌, ◌≡◌, refl, inl, inr, Bool, true, false, List, [], ◌∷◌, ◌++◌, map,
  arith, ltb, leb, if◌then◌else◌, Bool-cases, length, is_empty, All, All-append, Text, codes,
  is_space,
}
use pmail.NetError.{NetError}
use pmail.Smtp.Delivery.{
  DomainErrors, join, push_rune, starts_field, fields, byte_len, drop_last, max_message_bytes,
  compose, shorten, bound, compose, details, compose, delivery_smtp_message, sort_texts,
}

byte_len-append : (s t : Text) → byte_len (s ++ t) ≡ byte_len s + byte_len t
unfolding byte_len
byte_len-append [] t = omega arith
byte_len-append (c ∷ cs) t = omega (arith, byte_len-append cs t)

length-drop_last : (s : Text) → length (drop_last s) ≡ length s - 1
unfolding drop_last
length-drop_last [] = omega arith
length-drop_last (c ∷ []) = omega arith
length-drop_last (c ∷ d ∷ ds) = omega (arith, length-drop_last (d ∷ ds))

-- With as much fuel as runes the loop ends by its test.
shorten_le : (fuel limit : ℕ) (s : Text) → length s ≤ fuel → byte_len (shorten fuel limit s) ≤ limit
unfolding shorten byte_len
shorten_le zero limit [] h = omega arith
shorten_le zero limit (c ∷ cs) h = elim h [ ]
shorten_le (suc fuel) limit s h = elim (Bool-cases (ltb limit (byte_len s))) [
  | inl long ↦ rw long (shorten_le fuel limit (drop_last s) (omega (arith, length-drop_last s)))
  | inr short ↦ rw short (ground arith)
]

bound_le : (s : Text) → byte_len (bound s) ≤ max_message_bytes
unfolding bound
bound_le s = elim (Bool-cases (leb (byte_len s) max_message_bytes)) [
  | inl short ↦ rw short (ground arith)
  | inr long ↦
      rw (long, byte_len-append (shorten (length s) 125 s) (codes "..."))
        (omega (arith, shorten_le (length s) 125 s (omega arith), dots))
]
  where
    dots : byte_len (codes "...") ≡ 3
    dots = unfold byte_len in refl

-- No rune of the text is white space but the blank: the text is one line.
abbrev pub OneLine : Text → Type 0
OneLine = All (λ c. is_space c ≡ true → c ≡ b' ')

abbrev NoSpace : Text → Type 0
NoSpace = All (λ c. is_space c ≡ false)

NoSpace-OneLine : (s : Text) → NoSpace s → OneLine s
NoSpace-OneLine [] h = tt
NoSpace-OneLine (c ∷ cs) h = ((λ e. cc (h.0)), NoSpace-OneLine cs h.1)

push_rune-NoSpace :
    (c : ℕ) (b : Bool) (fs : List Text)
    → is_space c ≡ false
    → All NoSpace fs
    → All NoSpace (push_rune c b fs)
unfolding push_rune
push_rune-NoSpace c false fs h k = ((h, tt), k)
push_rune-NoSpace c true [] h k = ((h, tt), tt)
push_rune-NoSpace c true (f ∷ fs) h k = ((h, k.0), k.1)

fields-NoSpace : (s : Text) → All NoSpace (fields s)
unfolding fields
fields-NoSpace [] = tt
fields-NoSpace (c ∷ cs) = elim (Bool-cases (is_space c)) [
  | inl space ↦ rw space (fields-NoSpace cs)
  | inr rune ↦ rw rune (push_rune-NoSpace c (starts_field cs) (fields cs) rune (fields-NoSpace cs))
]

join_blank-OneLine : (fs : List Text) → All NoSpace fs → OneLine (join (codes " ") fs)
unfolding join
join_blank-OneLine [] h = tt
join_blank-OneLine (f ∷ []) h = NoSpace-OneLine f h.0
join_blank-OneLine (f ∷ g ∷ gs) h =
    All-append _ f _ (NoSpace-OneLine f h.0) ((λ e. refl), join_blank-OneLine (g ∷ gs) h.1)

drop_last-OneLine : (s : Text) → OneLine s → OneLine (drop_last s)
unfolding drop_last
drop_last-OneLine [] h = tt
drop_last-OneLine (c ∷ []) h = tt
drop_last-OneLine (c ∷ d ∷ ds) h = (h.0, drop_last-OneLine (d ∷ ds) h.1)

shorten-OneLine : (fuel limit : ℕ) (s : Text) → OneLine s → OneLine (shorten fuel limit s)
unfolding shorten
shorten-OneLine zero limit s h = h
shorten-OneLine (suc fuel) limit s h = elim (Bool-cases (ltb limit (byte_len s))) [
  | inl long ↦ rw long (shorten-OneLine fuel limit (drop_last s) (drop_last-OneLine s h))
  | inr short ↦ rw short h
]

bound-OneLine : (s : Text) → OneLine s → OneLine (bound s)
unfolding bound is_space
bound-OneLine s h = elim (Bool-cases (leb (byte_len s) max_message_bytes)) [
  | inl short ↦ rw short h
  | inr long ↦ rw long (
      All-append _ (shorten (length s) 125 s) (codes "...") (shorten-OneLine _ 125 s h)
        ((λ e. cc), ((λ e. cc), ((λ e. cc), tt))))
]

compose_bounded :
    (prefix : Text) (texts : List Text)
    → OneLine prefix
    → (byte_len (compose prefix texts) ≤ max_message_bytes) × OneLine (compose prefix texts)
unfolding compose is_space
compose_bounded prefix texts h =
    let blank = join (codes " ") (fields (join (codes "; ") texts)) in
    (
      bound_le (prefix ++ (codes ": " ++ blank)),
      bound-OneLine (prefix ++ (codes ": " ++ blank)) (
          All-append (λ c. is_space c ≡ true → c ≡ b' ') prefix (codes ": " ++ blank) h
            (
              (λ x. cc),
              ((λ x. refl), join_blank-OneLine _ (fields-NoSpace (join (codes "; ") texts))),
            )),
    )

-- If its prefix is one line, the text of a failure reply has 128 bytes at most and stays on one
-- line, whatever the remote servers answered.
pub delivery_smtp_message_bounded :
    (error_text : NetError → Text) (prefix : Text) (e : NetError) (m : DomainErrors)
    → OneLine prefix
    → (byte_len (delivery_smtp_message error_text prefix e m) ≤ max_message_bytes)
      × OneLine (delivery_smtp_message error_text prefix e m)
unfolding delivery_smtp_message
delivery_smtp_message_bounded error_text prefix e m h =
    let found = details error_text m (sort_texts (map (λ d. d.0) m)) in
    compose_bounded prefix (if is_empty found then error_text e ∷ [] else found) h
