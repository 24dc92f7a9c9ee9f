-- ===== src/Rules.antt =====
-- services/rule, services/rule/match and dto/rule.go: the rules that a user sets on incoming mail.
-- regexp2, the JSON coder, `cast.ToInt` and utils/send are parameters. Ids are not negative.
pub mod Matching
pub mod Forwarding
pub mod Actions
pub mod Listing
use pmail.Base.{
  ℕ, Bool, true, false, Option, none, some, List, [], ◌∷◌, ◌++◌, map, leb, ◌==◌, if◌then◌else◌,
  is_empty, select, Text, codes, text_eq, contains,
}
use pmail.Parsemail.{MailUser}

-- dto/rule.go: `Value`
pub record Value : Type 0 where
  pub field_name : Text
  pub kind : Text
  pub rule : Text

-- dto/rule.go: `Rule`
pub record Rule : Type 0 where
  pub id : ℕ
  pub user_id : ℕ
  pub name : Text
  pub rules : List Value
  pub action : ℕ
  pub params : Text
  pub sort : ℕ

-- models/rule.go: `Rule`
pub record RuleRow : Type 0 where
  pub id : ℕ
  pub user_id : ℕ
  pub name : Text
  pub value : Text
  pub action : ℕ
  pub params : Text
  pub sort : ℕ

-- dto/rule.go: the actions
abbrev pub read_action : ℕ
read_action = 1

abbrev pub forward_action : ℕ
forward_action = 2

abbrev pub delete_action : ℕ
delete_action = 3

abbrev pub move_action : ℕ
move_action = 4

-- The fields of parsemail.Email that rules read. A nil pointer is `none`.
pub record Mail : Type 0 where
  pub reply_to : List MailUser
  pub sent_from : Option MailUser
  pub to : List MailUser
  pub bcc : List MailUser
  pub cc : List MailUser
  pub subject : Text
  pub text : Text
  pub html : Text
  pub sender : Option MailUser
  pub message_id : ℕ
  pub status : ℕ

-- `Decode` and `Encode`, over the JSON coder: `Encode` leaves the user out.
unfoldable pub decode : (Text → List Value) → RuleRow → Rule
decode unmarshal d = record {
  id = d.id;
  user_id = d.user_id;
  name = d.name;
  rules = unmarshal d.value;
  action = d.action;
  params = d.params;
  sort = d.sort;
}

unfoldable pub encode : (List Value → Text) → Rule → RuleRow
encode marshal r = record {
  id = r.id;
  user_id = 0;
  name = r.name;
  value = marshal r.rules;
  action = r.action;
  params = r.params;
  sort = r.sort;
}

-- `Decr("sort")`: rows of equal `sort` stay in the order of their ids.
abbrev pub insert_row : RuleRow → List RuleRow → List RuleRow
insert_row r [] = r ∷ []
insert_row r (x ∷ xs) =
    let rest = insert_row r xs in if leb x.sort r.sort then r ∷ x ∷ xs else x ∷ rest

abbrev pub order_rows : List RuleRow → List RuleRow
order_rows [] = []
order_rows (r ∷ rs) = insert_row r (order_rows rs)

-- `GetAllRules`: a query that fails finds no rule.
unfoldable pub get_all_rules : (Text → List Value) → List RuleRow → Bool → ℕ → List Rule
get_all_rules unmarshal rows query_fails user_id =
    if user_id == 0
    then []
    else if query_fails
    then []
    else map (decode unmarshal) (order_rows (select (λ r. r.user_id == user_id) rows))

-- `buildUsers`: the addresses, with commas between them.
unfoldable pub build_users : List MailUser → Text
build_users [] = []
build_users (x ∷ xs) =
    let rest = build_users xs in
    if is_empty xs then x.email_address else x.email_address ++ codes "," ++ rest

-- `email.From.EmailAddress`: `none` is the panic on a nil pointer.
abbrev address_of : Option MailUser → Option Text
address_of none = none
address_of (some x) = some x.email_address

-- `getFieldContent`
unfoldable pub get_field_content : Text → Mail → Option Text
unfolding build_users
get_field_content f m =
    if text_eq f (codes "ReplyTo")
    then some (build_users m.reply_to)
    else if text_eq f (codes "From")
    then address_of m.sent_from
    else if text_eq f (codes "Subject")
    then some m.subject
    else if text_eq f (codes "To")
    then some (build_users m.to)
    else if text_eq f (codes "Bcc")
    then some (build_users m.bcc)
    else if text_eq f (codes "Cc")
    then some (build_users m.cc)
    else if text_eq f (codes "Text")
    then some m.text
    else if text_eq f (codes "Html")
    then some m.html
    else if text_eq f (codes "Sender")
    then address_of m.sender
    else if text_eq f (codes "Content")
    then some (m.html ++ m.text)
    else some []

-- The three kinds of match, and any other text.
pub data MatchKind : Type 0 where
  regex contains_text equals unknown : MatchKind

unfoldable pub match_kind : Text → MatchKind
match_kind t =
    if text_eq t (codes "regex")
    then regex
    else if text_eq t (codes "contains")
    then contains_text
    else if text_eq t (codes "equal")
    then equals
    else unknown

-- `regexp2.MustCompile`, with `none` for its panic, and the result of `MatchString` without its error
abbrev pub Compile : Type 0
Compile = Text → Option (Text → Bool)

module _ (compile : Compile) where
  -- The three methods `Match`, on the content of the field.
  unfoldable pub match_content : MatchKind → Text → Text → Option Bool
  match_content regex rule content = elim (compile rule) [
    | none ↦ none
    | some matches ↦ some (matches content)
  ]
  match_content contains_text rule content = some (contains content rule)
  match_content equals rule content = some (text_eq content rule)
  match_content unknown rule content = some true

  -- One turn of the loop: `none` is a panic, and a condition of unknown kind is passed over.
  unfoldable pub match_value : Mail → Value → Option Bool
  unfolding match_kind match_content get_field_content
  match_value m v = elim (match_kind v.kind) [
    | unknown ↦ some true
    | k ↦ elim (get_field_content v.field_name m) [
      | none ↦ none
      | some content ↦ match_content k v.rule content
    ]
  ]

  -- The loop of `MatchRule`.
  unfoldable pub match_values : Mail → List Value → Option Bool
  match_values m [] = some true
  match_values m (v ∷ vs) =
      let rest = match_values m vs in
      elim (match_value m v) [ none ↦ none | some b ↦ if b then rest else some false ]

  -- `MatchRule`
  unfoldable pub match_rule : Rule → Mail → Option Bool
  unfolding match_values
  match_rule r m = match_values m r.rules
