-- ===== src/Listing/Statement.antt =====
-- services/list/list.go: `genSQL`, the statement of a list and of its count, with its parameters.
use pmail.Base.{ℕ, Bool, not, ◌&&◌, List, [], ◌∷◌, ◌++◌, if◌then◌else◌, is_empty, Text, codes}
use pmail.Base.Int.{ℤ, pos, negsuc, eqb_ℤ, ltb_ℤ}
use pmail.Tables.{
  type_receive, type_send, status_del, status_drafts, status_junk, inbox, sent, drafts, deleted,
  junk,
}

-- `dto.SearchTag`; -1 stands for any.
pub record SearchTag : Type 0 where
  pub kind : ℤ
  pub status : ℤ
  pub group_id : ℤ

pub data Param : Type 0 where
  number : ℤ → Param
  phrase : Text → Param

-- A statement so far, and the parameters appended for it.
pub data Statement : Type 0 where
  statement : Text → List Param → Statement

abbrev pub sql_of : Statement → Text
sql_of (statement sql given) = sql

abbrev pub params_of : Statement → List Param
params_of (statement sql given) = given

-- `sql += …` and `sqlParams = append(sqlParams, …)`
unfoldable pub also : Text → List Param → Statement → Statement
also part params (statement sql given) = statement (sql ++ part) (given ++ params)

-- The columns.
unfoldable pub columns : ℕ → Bool → Bool → Statement
columns user_id count pop3_list =
    let given = number (pos user_id) ∷ [] in
    if count
    then statement
        (codes
          "select count(1) from email e left join user_email ue on e.id=ue.email_id where ue.user_id = ? ")
        given
    else if pop3_list
    then statement
        (codes
          "select e.id,e.size from email e left join user_email ue on e.id=ue.email_id where ue.user_id = ? ")
        given
    else statement
        (codes
          "select e.*,ue.is_read from email e left join user_email ue on e.id=ue.email_id where ue.user_id = ? ")
        given

-- The condition on the status.
unfoldable pub status_part : SearchTag → Statement → Statement
status_part tag s =
    let either = λ (box : ℕ).
      also (codes " and (ue.status =? or ue.group_id=?) ")
        (number tag.status ∷ number (pos box) ∷ []) s in
    if not (eqb_ℤ tag.status (negsuc 0))
    then if eqb_ℤ tag.status (pos status_del)
      then either deleted
      else if eqb_ℤ tag.status (pos status_drafts)
      then either drafts
      else if eqb_ℤ tag.status (pos status_junk)
      then either junk
      else s
    else if not (eqb_ℤ tag.kind (pos type_send))
    then also (codes " and ue.status = 0") [] s
    else also (codes " and ue.status != 3") [] s

-- The condition on the type.
unfoldable pub kind_part : SearchTag → Statement → Statement
kind_part tag s =
    if eqb_ℤ tag.kind (pos type_receive)
    then also (codes " and type =? ") (number tag.kind ∷ []) s
    else if eqb_ℤ tag.kind (pos type_send)
    then also (codes " and (type =? or ue.group_id=?)") (number tag.kind ∷ number (pos sent) ∷ []) s
    else s

-- The condition on the group.
unfoldable pub group_part : SearchTag → Statement → Statement
group_part tag s =
    if not (eqb_ℤ tag.group_id (negsuc 0))
    then if ltb_ℤ (pos 0) tag.group_id
      then also (codes " and ue.group_id=? ") (number tag.group_id ∷ []) s
      else if eqb_ℤ tag.group_id (pos 0) && eqb_ℤ tag.status (negsuc 0)
      then also (codes " and (ue.group_id=? or ue.group_id=0)") (number (pos inbox) ∷ []) s
      else s
    else also (codes " and (ue.group_id=0 or ue.group_id =?) ") (number (pos inbox) ∷ []) s

-- The condition on the keyword.
unfoldable pub keyword_part : Text → Statement → Statement
keyword_part keyword s =
    let like = phrase (codes "%" ++ (keyword ++ codes "%")) in
    if is_empty keyword
    then s
    else also (codes " and (subject like ? or text like ? )") (like ∷ like ∷ []) s

module _ (print : ℤ → Text) where
  -- The order and the page; `print` is `%d`.
  unfoldable pub page_part : ℤ → ℤ → Statement → Statement
  page_part offset limit s =
      let size = if eqb_ℤ limit (pos 0) then pos 10 else limit in
      let ordered = also (codes " order by e.id desc") [] s in
      if ltb_ℤ size (pos 10000)
      then also
          (codes " LIMIT " ++ (print size ++ (codes " OFFSET " ++ (print offset ++ codes " ")))) []
          ordered
      else ordered

  -- `genSQL`
  unfoldable pub gen_sql : ℕ → Bool → SearchTag → Text → Bool → ℤ → ℤ → Statement
  gen_sql user_id count tag keyword pop3_list offset limit = page_part offset limit (
      keyword_part keyword
        (group_part tag (kind_part tag (status_part tag (columns user_id count pop3_list)))))
