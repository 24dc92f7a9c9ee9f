-- ===== src/Web/RuleEdit/Others.antt =====
-- controllers/rule.go: a user's requests on rules, and the rules of the other users.
use pmail.Base.{
  ℕ, ◌+◌, ◌≡◌, refl, ap, ◌∙◌, ◌≢◌, inl, inr, Bool, true, false, ◌&&◌, List, [], ◌∷◌, ◌++◌, map,
  append-nil, arith, ltb, ◌==◌, if◌then◌else◌, Bool-cases, select, select-append, Text,
}
use pmail.Rules.{Value, Rule, RuleRow, decode, order_rows, encode, get_all_rules}
use pmail.Tables.{update_where, delete_where}
use pmail.Web.Compose.{Login}
use pmail.Web.RuleEdit.{RuleTable, RuleAnswer, save_rule, upsert_rule, is_acceptable, del_rule}

-- The rows of a user.
abbrev pub rows_of : ℕ → List RuleRow → List RuleRow
rows_of user_id rows = select (λ r. r.user_id == user_id) rows

-- The rows of a user are the same.
Same : ℕ → RuleTable → RuleAnswer × RuleTable → Type 0
Same user_id t r = rows_of user_id r.1.rows ≡ rows_of user_id t.rows

if-Same :
    (user_id : ℕ) (t : RuleTable) (b : Bool) (x y : RuleAnswer × RuleTable)
    → Same user_id t x
    → Same user_id t y
    → Same user_id t (if b then x else y)
if-Same user_id t true x y h k = h
if-Same user_id t false x y h k = k

not_both : (a b c : ℕ) (p : Bool) → (b ≢ c) → (a == b) ≡ true → (p && a == c) ≡ false
not_both a b c p h e = ground arith

-- A change of rows that are another user's, which stay so.
select-update_where :
    (user_id : ℕ) (p : RuleRow → Bool) (f : RuleRow → RuleRow) (rows : List RuleRow)
    → ((r : RuleRow) → (f r).user_id ≡ r.user_id)
    → ((r : RuleRow) → (r.user_id == user_id) ≡ true → p r ≡ false)
    → rows_of user_id (update_where p f rows) ≡ rows_of user_id rows
select-update_where user_id p f [] a h = refl
select-update_where user_id p f (r ∷ rows) a h = elim (Bool-cases (r.user_id == user_id)) [
  | inl e ↦ rw (h r e, e) (ap (λ l. r ∷ l) (select-update_where user_id p f rows a h))
  | inr e ↦ elim (Bool-cases (p r)) [
    | inl k ↦ rw (k, a r, e) (select-update_where user_id p f rows a h)
    | inr k ↦ rw (k, e) (select-update_where user_id p f rows a h)
  ]
]

select-delete_where :
    (user_id : ℕ) (p : RuleRow → Bool) (rows : List RuleRow)
    → ((r : RuleRow) → (r.user_id == user_id) ≡ true → p r ≡ false)
    → rows_of user_id (delete_where p rows) ≡ rows_of user_id rows
select-delete_where user_id p [] h = refl
select-delete_where user_id p (r ∷ rows) h = elim (Bool-cases (r.user_id == user_id)) [
  | inl e ↦ rw (h r e, e) (ap (λ l. r ∷ l) (select-delete_where user_id p rows h))
  | inr e ↦ elim (Bool-cases (p r)) [
    | inl k ↦ rw (k, e) (select-delete_where user_id p rows h)
    | inr k ↦ rw (k, e) (select-delete_where user_id p rows h)
  ]
]

to-Same :
    (user_id : ℕ) (a : RuleAnswer) (t t' : RuleTable)
    → rows_of user_id t'.rows ≡ rows_of user_id t.rows
    → Same user_id t (a, t')
unfolding Same
to-Same user_id a t t' h = h

-- A request on rules.
pub data RuleOp : Type 0 where
  upsert : Bool → Rule → RuleOp
  delete : Bool → ℕ → RuleOp

abbrev pub serve_rule : (List Value → Text) → Login → RuleOp → RuleTable → RuleAnswer × RuleTable
serve_rule marshal c (upsert fails r) t = upsert_rule marshal fails c r t
serve_rule marshal c (delete fails id) t = del_rule fails c id t

module _ (c : Login) (user_id : ℕ) (other : user_id ≢ c.user_id) (t : RuleTable) where
  same : (a : RuleAnswer) → Same user_id t (a, t)
  same a = to-Same user_id a t t refl

  foreign :
      (p : Bool) (r : RuleRow)
      → (r.user_id == user_id) ≡ true
      → (p && r.user_id == c.user_id) ≡ false
  foreign p r e = not_both r.user_id user_id c.user_id p other e

  added :
      (r : RuleRow)
      → r.user_id ≡ c.user_id
      → rows_of user_id (t.rows ++ r ∷ []) ≡ rows_of user_id t.rows
  added r mine =
      select-append (λ r. r.user_id == user_id) t.rows (r ∷ [])
      ∙ ap (λ l. rows_of user_id t.rows ++ l) (gone (r.user_id == user_id) (apart r.user_id mine))
      ∙ append-nil (rows_of user_id t.rows)
    where
      apart : (n : ℕ) → n ≡ c.user_id → (n == user_id) ≡ false
      apart n e = ground arith

      gone : (b : Bool) → b ≡ false → (if b then r ∷ [] else []) ≡ []
      gone b e = rw e refl

  save_rule-Same : (fails : Bool) (p : RuleRow) → Same user_id t (save_rule fails c p t)
  unfolding save_rule
  save_rule-Same fails p = if-Same user_id t fails _ _ (same _) (
      if-Same user_id t (ltb 0 p.id) _ _
        (to-Same user_id _ t _ (
          select-update_where user_id (λ x. x.id == p.id && x.user_id == c.user_id)
            (λ x. record x {
              name = p.name;
              value = p.value;
              action = p.action;
              params = p.params;
              sort = p.sort;
            })
            t.rows (λ r. refl) (λ r e. foreign (r.id == p.id) r e)))
        (to-Same user_id _ t _ (added (record p { id = t.last_id + 1; user_id = c.user_id }) refl)))

  serve_rule-Same :
      (marshal : List Value → Text) (o : RuleOp) → Same user_id t (serve_rule marshal c o t)
  unfolding upsert_rule del_rule
  serve_rule-Same marshal (upsert fails r) =
      if-Same user_id t (is_acceptable r) _ _ (save_rule-Same fails (encode marshal r)) (same _)
  serve_rule-Same marshal (delete fails id) = if-Same user_id t (id == 0) _ _ (same _) (
      if-Same user_id t fails _ _ (same _) (
        to-Same user_id _ t _ (
          select-delete_where user_id (λ x. x.id == id && x.user_id == c.user_id) t.rows
            (λ r e. foreign (r.id == id) r e))))

  -- Whatever a user writes or deletes, by whatever id, the rules that run on another user's mails stay
  -- the same.
  pub serve_rule-others :
      (marshal : List Value → Text) (unmarshal : Text → List Value) (query_fails : Bool)
      (o : RuleOp)
      → get_all_rules unmarshal (serve_rule marshal c o t).1.rows query_fails user_id
        ≡ get_all_rules unmarshal t.rows query_fails user_id
  unfolding get_all_rules Same
  serve_rule-others marshal unmarshal query_fails o =
      ap
        (λ rows.
          if user_id == 0
          then []
          else if query_fails
          then []
          else map (decode unmarshal) (order_rows rows))
        (serve_rule-Same marshal o)
