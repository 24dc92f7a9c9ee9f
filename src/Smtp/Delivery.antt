-- ===== src/Smtp/Delivery.antt =====
-- listen/smtp_server/delivery_error.go: from the outcome of a delivery to the SMTP reply. A map is
-- a list of its entries; `error_text` is `Error()` of the library's errors.
pub mod Message
pub mod Order
pub mod Reply
use pmail.Base.{
  ℕ, zero, suc, ◌+◌, ◌-◌, Bool, true, false, not, ◌&&◌, ◌||◌, Option, none, some, List, [], ◌∷◌,
  ◌++◌, map, ltb, leb, ◌==◌, if◌then◌else◌, length, is_empty, all, Text, codes, text_eq, is_space,
}
use pmail.NetError.{NetError, as_protocol, as_smtp, as_dns, is_5xx}

-- A map from domain to error (nil is `none`).
abbrev pub DomainErrors : Type 0
DomainErrors = List (Text × Option NetError)

pub record SmtpError : Type 0 where
  pub code : ℕ
  pub enhanced_code : ℕ × ℕ × ℕ
  pub message : Text

-- `isPermanentDeliveryError`
unfoldable pub is_permanent_delivery_error : NetError → Bool
is_permanent_delivery_error e = elim (as_protocol e) [
  | some c ↦ is_5xx c
  | none ↦ elim (as_smtp e) [
    | some c ↦ is_5xx c
    | none ↦ elim (as_dns e) [ some d ↦ d.is_not_found | none ↦ false ]
  ]
]

-- A nil error, or one that may pass, makes the whole failure a temporary one.
unfoldable pub entry_permanent : Text × Option NetError → Bool
entry_permanent (domain, none) = false
entry_permanent (domain, some e) = is_permanent_delivery_error e

-- `permanent` behind the loop
unfoldable pub is_permanent : DomainErrors → Bool
unfolding entry_permanent
is_permanent [] = false
is_permanent (d ∷ ds) = all entry_permanent (d ∷ ds)

-- `a < b` on strings: by code points, which is the order of their UTF-8 bytes.
unfoldable pub text_lt : Text → Text → Bool
text_lt [] [] = false
text_lt [] (y ∷ ys) = true
text_lt (x ∷ xs) [] = false
text_lt (x ∷ xs) (y ∷ ys) = ltb x y || (x == y && text_lt xs ys)

-- `sort.Strings`
unfoldable pub insert_text : Text → List Text → List Text
insert_text s [] = s ∷ []
insert_text s (t ∷ ts) = if text_lt t s then t ∷ insert_text s ts else s ∷ t ∷ ts

unfoldable pub sort_texts : List Text → List Text
unfolding insert_text
sort_texts [] = []
sort_texts (s ∷ ss) = insert_text s (sort_texts ss)

-- `domainErrors[domain]`
unfoldable pub lookup_error : Text → DomainErrors → Option NetError
lookup_error k [] = none
lookup_error k ((d, e) ∷ m) = if text_eq k d then e else lookup_error k m

-- `strings.Join`
unfoldable pub join : Text → List Text → Text
join sep [] = []
join sep (s ∷ []) = s
join sep (s ∷ t ∷ ts) = s ++ (sep ++ join sep (t ∷ ts))

-- Puts one rune in front of the fields of the text behind it; the flag is whether that text
-- begins with a rune of a field.
unfoldable pub push_rune : ℕ → Bool → List Text → List Text
push_rune c false fs = (c ∷ []) ∷ fs
push_rune c true [] = (c ∷ []) ∷ []
push_rune c true (f ∷ fs) = (c ∷ f) ∷ fs

abbrev pub starts_field : Text → Bool
starts_field [] = false
starts_field (c ∷ cs) = not (is_space c)

-- `strings.Fields`
unfoldable pub fields : Text → List Text
unfolding push_rune
fields [] = []
fields (c ∷ cs) =
    let rest = fields cs in if is_space c then rest else push_rune c (starts_field cs) rest

-- The length of a rune in UTF-8, and `len(s)`.
unfoldable pub rune_len : ℕ → ℕ
rune_len c = if ltb c 0x80 then 1 else if ltb c 0x800 then 2 else if ltb c 0x10000 then 3 else 4

unfoldable pub byte_len : Text → ℕ
unfolding rune_len
byte_len [] = 0
byte_len (c ∷ cs) = rune_len c + byte_len cs

-- `message[:len(message)-size]` behind `utf8.DecodeLastRuneInString`
unfoldable pub drop_last : Text → Text
drop_last [] = []
drop_last (c ∷ []) = []
drop_last (c ∷ d ∷ ds) = c ∷ drop_last (d ∷ ds)

abbrev pub max_message_bytes : ℕ
max_message_bytes = 128

-- `for len(message) > limit { … }`, on fuel
unfoldable pub shorten : ℕ → ℕ → Text → Text
unfolding byte_len drop_last
shorten zero limit s = s
shorten (suc fuel) limit s =
    let rest = shorten fuel limit (drop_last s) in if ltb limit (byte_len s) then rest else s

-- The end of `deliverySMTPMessage`: the bound on the length.
unfoldable pub bound : Text → Text
unfolding shorten
bound s =
    if leb (byte_len s) max_message_bytes
    then s
    else shorten (length s) (max_message_bytes - 3) s ++ codes "..."

-- `message` from its prefix and its details.
unfoldable pub compose : Text → List Text → Text
unfolding bound join fields
compose prefix texts =
    bound (prefix ++ (codes ": " ++ join (codes " ") (fields (join (codes "; ") texts))))

module _ (error_text : NetError → Text) where
  -- One turn of the loop over the sorted domains.
  unfoldable pub detail : DomainErrors → Text → List Text
  detail m domain = elim (lookup_error domain m) [
    | none ↦ []
    | some e ↦ (domain ++ (codes ": " ++ error_text e)) ∷ []
  ]

  unfoldable pub details : DomainErrors → List Text → List Text
  unfolding detail
  details m [] = []
  details m (d ∷ ds) = detail m d ++ details m ds

  -- `deliverySMTPMessage`, with `deliveryErr` not nil.
  unfoldable pub delivery_smtp_message : Text → NetError → DomainErrors → Text
  unfolding details compose sort_texts
  delivery_smtp_message prefix delivery_err m =
      let found = details m (sort_texts (map (λ e. e.0) m)) in
      compose prefix (if is_empty found then error_text delivery_err ∷ [] else found)

  -- `downstreamDeliverySMTPError`
  unfoldable pub downstream_delivery_smtp_error : Option NetError → DomainErrors → Option SmtpError
  unfolding is_permanent delivery_smtp_message
  downstream_delivery_smtp_error none m = none
  downstream_delivery_smtp_error (some e) m =
      if is_permanent m
      then some (record {
        code = 550;
        enhanced_code = (5, 0, 0);
        message = delivery_smtp_message (codes "Downstream delivery permanently failed") e m;
      })
      else some (record {
        code = 451;
        enhanced_code = (4, 4, 0);
        message = delivery_smtp_message (codes "Downstream delivery temporarily failed") e m;
      })
