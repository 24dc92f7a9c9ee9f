-- ===== src/Web/RuleEdit.antt =====
-- controllers/rule.go: the requests by which a user writes and deletes rules.
pub mod Others
use pmail.Base.{
  ℕ, ◌+◌, Bool, false, not, ◌&&◌, ◌||◌, List, [], ◌∷◌, ◌++◌, ltb, ◌==◌, if◌then◌else◌, is_empty,
  any, all, Text, codes, text_eq, contains, split,
}
use pmail.Rules.{Value, Rule, RuleRow, forward_action, encode}
use pmail.Tables.{update_where, delete_where}
use pmail.Web.Compose.{Login}

-- The table of rules, with the last id that it has given out.
pub record RuleTable : Type 0 where
  pub rows : List RuleRow
  pub last_id : ℕ

pub data RuleAnswer : Type 0 where
  succ_answer params_error server_error : RuleAnswer

-- utils/address: `IsValidEmailAddress`
unfoldable pub is_valid_email_address : Text → Bool
is_valid_email_address s = elim (split b'@' s) [
  | [] ↦ false
  | account ∷ rest ↦ elim rest [
    | [] ↦ false
    | domain ∷ more ↦ is_empty more && contains domain (codes ".")
  ]
]

abbrev rule_fields : List Text
rule_fields =
    codes "From"
    ∷ codes "Subject"
    ∷ codes "To"
    ∷ codes "Cc"
    ∷ codes "Text"
    ∷ codes "Html"
    ∷ codes "Content"
    ∷ []

-- The tests of `UpsertRule`.
unfoldable pub is_acceptable : Rule → Bool
unfolding is_valid_email_address
is_acceptable r =
    (not (r.action == forward_action) || is_valid_email_address r.params)
    && all (λ v. any (text_eq v.field_name) rule_fields) r.rules

-- `save`: an update of a row of the user's own, or a new row.
unfoldable pub save_rule : Bool → Login → RuleRow → RuleTable → RuleAnswer × RuleTable
save_rule fails c p t =
    if fails
    then (server_error, t)
    else if ltb 0 p.id
    then (
      succ_answer,
      record t {
        rows =
            update_where (λ x. x.id == p.id && x.user_id == c.user_id)
              (λ x. record x {
                name = p.name;
                value = p.value;
                action = p.action;
                params = p.params;
                sort = p.sort;
              })
              t.rows;
      },
    )
    else (
      succ_answer,
      record {
        rows = t.rows ++ record p { id = t.last_id + 1; user_id = c.user_id } ∷ [];
        last_id = t.last_id + 1;
      },
    )

-- `UpsertRule`
unfoldable pub upsert_rule :
    (List Value → Text) → Bool → Login → Rule → RuleTable → RuleAnswer × RuleTable
unfolding is_acceptable save_rule
upsert_rule marshal fails c r t =
    if is_acceptable r then save_rule fails c (encode marshal r) t else (params_error, t)

-- `DelRule`
unfoldable pub del_rule : Bool → Login → ℕ → RuleTable → RuleAnswer × RuleTable
del_rule fails c id t =
    if id == 0 then (params_error, t) else if fails then (server_error, t) else (
      succ_answer,
      record t { rows = delete_where (λ x. x.id == id && x.user_id == c.user_id) t.rows },
    )
