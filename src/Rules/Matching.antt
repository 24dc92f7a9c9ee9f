-- ===== src/Rules/Matching.antt =====
-- When a rule applies to a mail, and how a rule is stored.
use pmail.Base.{
  ◌≡◌, refl, ap, Bool, true, false, Option, none, some, List, [], ◌∷◌, ◌++◌, if◌then◌else◌, All,
  Text, split,
}
use pmail.Rules.{Value, Rule, decode, encode, Mail, Compile, match_value, match_values, match_rule}

-- Storing a rule and reading it back gives the rule, but without its user, given that the decoder
-- reads what the encoder wrote for its conditions.
pub decode-encode :
    (marshal : List Value → Text) (unmarshal : Text → List Value) (r : Rule)
    → unmarshal (marshal r.rules) ≡ r.rules
    → decode unmarshal (encode marshal r) ≡ record r { user_id = 0 }
unfolding decode encode
decode-encode marshal unmarshal r h = cc h

-- The conditions in front of one that is unmet.
abbrev pub Unmet : Compile → Mail → List Value → Type 0
Unmet compile m vs =
    (before : List Value) × (v : Value) × (after : List Value) × (vs ≡ before ++ v ∷ after)
    × All (λ w. match_value compile m w ≡ some true) before
    × (match_value compile m v ≡ some false)

-- The conditions in front of one that panics.
abbrev pub Panics : Compile → Mail → List Value → Type 0
Panics compile m vs =
    (before : List Value) × (v : Value) × (after : List Value) × (vs ≡ before ++ v ∷ after)
    × All (λ w. match_value compile m w ≡ some true) before
    × (match_value compile m v ≡ none)

-- What the loop answers, and why.
abbrev pub Decides : Compile → Mail → List Value → Option Bool → Type 0
Decides compile m vs (some true) = All (λ v. match_value compile m v ≡ some true) vs
Decides compile m vs (some false) = Unmet compile m vs
Decides compile m vs none = Panics compile m vs

module _ (compile : Compile) (m : Mail) where
  Decides-next :
      (v : Value) (vs : List Value) (o : Option Bool)
      → match_value compile m v ≡ some true
      → Decides compile m vs o
      → Decides compile m (v ∷ vs) o
  Decides-next v vs (some true) e h = (e, h)
  Decides-next v vs (some false) e (before, w, after, split, met, unmet) =
      (v ∷ before, w, after, ap (λ l. v ∷ l) split, (e, met), unmet)
  Decides-next v vs none e (before, w, after, split, met, bad) =
      (v ∷ before, w, after, ap (λ l. v ∷ l) split, (e, met), bad)

  match_values-Decides : (vs : List Value) → Decides compile m vs (match_values compile m vs)
  unfolding match_values
  match_values-Decides [] = tt
  match_values-Decides (v ∷ vs) =
      go (match_value compile m v) refl (match_values compile m vs) (match_values-Decides vs)
    where
      go :
          (o : Option Bool)
          → match_value compile m v ≡ o
          → (rest : Option Bool) → Decides compile m vs rest
          → Decides compile m
              (v ∷ vs)
              (elim o [ none ↦ none | some b ↦ if b then rest else some false ])
      go none e rest h = ([], v, vs, refl, tt, e)
      go (some true) e rest h = Decides-next v vs rest e h
      go (some false) e rest h = ([], v, vs, refl, tt, e)

  -- A rule applies exactly if every condition of it is met; it does not, or it panics, at the first
  -- condition that is unmet, or panics, with every condition in front of it met.
  pub match_rule-Decides : (r : Rule) → Decides compile m r.rules (match_rule compile r m)
  unfolding match_rule
  match_rule-Decides r = match_values-Decides r.rules
