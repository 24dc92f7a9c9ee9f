-- ===== src/Listing/Placeholders.antt =====
-- services/list/list.go: the placeholders of a list's statement.
use pmail.Base.{
  ℕ, ◌+◌, ◌≡◌, refl, ◌∙◌, Bool, true, false, not, ◌&&◌, List, [], ◌∷◌, ◌++◌, arith, ◌==◌,
  if◌then◌else◌, length, is_empty, length-append, Text, codes,
}
use pmail.Base.Int.{ℤ, pos, negsuc, eqb_ℤ, ltb_ℤ}
use pmail.Tables.{
  type_receive, type_send, status_del, status_drafts, status_junk, inbox, sent, drafts, deleted,
  junk,
}
use pmail.Listing.Statement.{
  SearchTag, Param, number, phrase, Statement, statement, sql_of, params_of, also, columns,
  status_part, kind_part, group_part, keyword_part, page_part, gen_sql,
}

-- The placeholders of a text.
unfoldable pub count_marks : Text → ℕ
count_marks [] = 0
count_marks (c ∷ cs) = let rest = count_marks cs in if c == b'?' then rest + 1 else rest

count_marks-append : (a b : Text) → count_marks (a ++ b) ≡ count_marks a + count_marks b
unfolding count_marks
count_marks-append [] b = omega arith
count_marks-append (c ∷ cs) b = ground (arith, count_marks-append cs b)

-- A placeholder for each parameter.
Balanced : Statement → Type 0
Balanced (statement sql given) = count_marks sql ≡ length given

also-Balanced :
    (part : Text) (params : List Param) (s : Statement)
    → count_marks part ≡ length params
    → Balanced s
    → Balanced (also part params s)
unfolding also Balanced
also-Balanced part params (statement sql given) e h =
    count_marks-append sql part ∙ omega (arith, e, h, length-append given params)

if-Balanced : (b : Bool) (s t : Statement) → Balanced s → Balanced t → Balanced (if b then s else t)
if-Balanced true s t h k = h
if-Balanced false s t h k = k

columns-Balanced :
    (user_id : ℕ) (count pop3_list : Bool) → Balanced (columns user_id count pop3_list)
unfolding columns count_marks Balanced
columns-Balanced user_id true pop3_list = refl
columns-Balanced user_id false true = refl
columns-Balanced user_id false false = refl

status_part-Balanced : (tag : SearchTag) (s : Statement) → Balanced s → Balanced (status_part tag s)
unfolding status_part count_marks
status_part-Balanced tag s h =
    let either = codes " and (ue.status =? or ue.group_id=?) " in
    let with_box : (box : ℕ)
        → Balanced (also either (number tag.status ∷ number (pos box) ∷ []) s) =
      λ box. also-Balanced either (number tag.status ∷ number (pos box) ∷ []) s refl h in
    if-Balanced (not (eqb_ℤ tag.status (negsuc 0))) _ _
      (if-Balanced (eqb_ℤ tag.status (pos status_del)) _ _ (with_box deleted) (
        if-Balanced (eqb_ℤ tag.status (pos status_drafts)) _ _ (with_box drafts)
          (if-Balanced (eqb_ℤ tag.status (pos status_junk)) _ _ (with_box junk) h)))
      (if-Balanced (not (eqb_ℤ tag.kind (pos type_send))) _ _
        (also-Balanced (codes " and ue.status = 0") [] s refl h)
        (also-Balanced (codes " and ue.status != 3") [] s refl h))

kind_part-Balanced : (tag : SearchTag) (s : Statement) → Balanced s → Balanced (kind_part tag s)
unfolding kind_part count_marks
kind_part-Balanced tag s h =
    if-Balanced (eqb_ℤ tag.kind (pos type_receive)) _ _
      (also-Balanced (codes " and type =? ") (number tag.kind ∷ []) s refl h)
      (if-Balanced (eqb_ℤ tag.kind (pos type_send)) _ _
        (also-Balanced (codes " and (type =? or ue.group_id=?)")
          (number tag.kind ∷ number (pos sent) ∷ []) s refl h)
        h)

group_part-Balanced : (tag : SearchTag) (s : Statement) → Balanced s → Balanced (group_part tag s)
unfolding group_part count_marks
group_part-Balanced tag s h =
    if-Balanced (not (eqb_ℤ tag.group_id (negsuc 0))) _ _
      (if-Balanced (ltb_ℤ (pos 0) tag.group_id) _ _
        (also-Balanced (codes " and ue.group_id=? ") (number tag.group_id ∷ []) s refl h)
        (if-Balanced (eqb_ℤ tag.group_id (pos 0) && eqb_ℤ tag.status (negsuc 0)) _ _
          (also-Balanced (codes " and (ue.group_id=? or ue.group_id=0)") (number (pos inbox) ∷ []) s
            refl h)
          h))
      (also-Balanced (codes " and (ue.group_id=0 or ue.group_id =?) ") (number (pos inbox) ∷ []) s
        refl h)

keyword_part-Balanced :
    (keyword : Text) (s : Statement) → Balanced s → Balanced (keyword_part keyword s)
unfolding keyword_part count_marks
keyword_part-Balanced keyword s h =
    let like = phrase (codes "%" ++ (keyword ++ codes "%")) in
    if-Balanced (is_empty keyword) _ _ h
      (also-Balanced (codes " and (subject like ? or text like ? )") (like ∷ like ∷ []) s refl h)

module _ (print : ℤ → Text) where
  page_text :
      ((n : ℤ) → count_marks (print n) ≡ 0)
      → (a b : ℤ)
      → count_marks (codes " LIMIT " ++ (print a ++ (codes " OFFSET " ++ (print b ++ codes " "))))
        ≡ 0
  unfolding count_marks
  page_text h a b = omega (
    arith,
    count_marks-append (codes " LIMIT ") (print a ++ (codes " OFFSET " ++ (print b ++ codes " "))),
    count_marks-append (print a) (codes " OFFSET " ++ (print b ++ codes " ")),
    count_marks-append (codes " OFFSET ") (print b ++ codes " "),
    count_marks-append (print b) (codes " "),
    none_in (codes " LIMIT ") refl,
    none_in (codes " OFFSET ") refl,
    none_in (codes " ") refl,
    h a,
    h b,
  )
    where
      none_in : (t : Text) → count_marks t ≡ 0 → count_marks t ≡ 0
      none_in t e = e

  page_part-Balanced :
      ((n : ℤ) → count_marks (print n) ≡ 0)
      → (offset limit : ℤ) (s : Statement) → Balanced s
      → Balanced (page_part print offset limit s)
  unfolding page_part count_marks
  page_part-Balanced p offset limit s h =
      let size = if eqb_ℤ limit (pos 0) then pos 10 else limit in
      let page =
        codes " LIMIT " ++ (print size ++ (codes " OFFSET " ++ (print offset ++ codes " "))) in
      let ordered = also-Balanced (codes " order by e.id desc") [] s refl h in
      if-Balanced (ltb_ℤ size (pos 10000)) _ _
        (also-Balanced page [] (also (codes " order by e.id desc") [] s) (page_text p size offset)
          ordered)
        ordered

Balanced-counts : (s : Statement) → Balanced s → count_marks (sql_of s) ≡ length (params_of s)
unfolding Balanced
Balanced-counts (statement sql given) h = h

-- The statement of a list, and that of its count, has a placeholder for each of its parameters,
-- whatever the tag, the keyword and the page, if printed numbers have no placeholder.
pub gen_sql-placeholders :
    (print : ℤ → Text) (user_id : ℕ) (count : Bool) (tag : SearchTag) (keyword : Text)
    (pop3_list : Bool) (offset limit : ℤ)
    → ((n : ℤ) → count_marks (print n) ≡ 0)
    → let s = gen_sql print user_id count tag keyword pop3_list offset limit in
      count_marks (sql_of s) ≡ length (params_of s)
unfolding gen_sql
gen_sql-placeholders print user_id count tag keyword pop3_list offset limit p = Balanced-counts _ (
    page_part-Balanced print p offset limit _ (
      keyword_part-Balanced keyword _ (
        group_part-Balanced tag _ (
          kind_part-Balanced tag _
            (status_part-Balanced tag _ (columns-Balanced user_id count pop3_list))))))
