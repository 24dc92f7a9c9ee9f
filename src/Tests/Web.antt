-- ===== src/Tests/Web.antt =====
-- Witnesses for the web API and for the addresses of IMAP's envelopes.
use pmail.Base.{
  ◌+◌, ◌≡◌, refl, ◌⊎◌, true, false, none, some, List, [], ◌∷◌, ◌++◌, arith, Text, codes, text_eq,
  split,
}
use pmail.Imap.Fetching.{users_to_addresses}
use pmail.Imap.Fetching.Addresses.{addressed, AllReadBack, users_to_addresses-AllReadBack}
use pmail.Parsemail.{MailUser}
use pmail.Rules.{RuleRow, get_all_rules}
use pmail.Smtp.Audit.Outgoing.{target_status}
use pmail.Smtp.Audit.Stored.{IsValid}
use pmail.Tables.{User}
use pmail.Tests.Data.{same_text, net_text, domains, bob, rule, store, gone}
use pmail.Web.Access.{
  Request, allowed, nobody, login_of, Clock, by_session, admit, context_interceptor,
}
use pmail.Web.Access.Known.{OfSession, OfToken, IsOpen, context_interceptor-known}
use pmail.Base.Int.{pos, pos_part}
use pmail.Web.Access.Token.{IsInt64}
use pmail.Web.Accounts.{Users, UserRequest, Fails}
use pmail.Web.Accounts.Kept.{Kept}
use pmail.Web.Accounts.Reached.{Op, create, edit, serve_all, serve_all-Kept}
use pmail.Web.Compose.{
  Login, SendRequest, Draft, composed, compose, compose_from, choose_from, is_allowed, decode_all,
}
use pmail.Web.Compose.Own.{IsDraft, compose-IsDraft}
use pmail.Web.RuleEdit.{RuleTable}
use pmail.Web.RuleEdit.Others.{upsert, serve_rule, serve_rule-others}
use pmail.Web.Send.{send_draft}
use pmail.Web.Send.Recorded.{no_failure, outcome_row, send_draft-records}

abbrev bob_in : Login
bob_in = login_of bob

abbrev ann : MailUser
ann = record { email_address = codes "ann@x.org"; name = codes "Ann" }

abbrev bobs : MailUser
bobs = record { email_address = codes "bob@pm.org"; name = codes "Bob" }

abbrev request : SendRequest
request = record {
  reply_to = [];
  sent_from = bobs;
  to = ann ∷ [];
  bcc = [];
  cc = [];
  subject = codes "s";
  text = codes "t";
  html = [];
  sender = record { email_address = []; name = [] };
  attachments = [];
}

abbrev draft : Draft
draft = record {
  reply_to = [];
  sent_from = bobs;
  sender = bobs;
  to = ann ∷ [];
  bcc = [];
  cc = [];
  subject = codes "s";
  text = codes "t";
  html = [];
  attachments = [];
}

well_composed : compose (λ s. some s) domains (codes "pm.org") bob_in request ≡ composed draft
unfolding compose compose_from choose_from is_allowed decode_all split text_eq
well_composed = refl

compose-IsDraft_example : IsDraft (λ s. some s) domains (codes "pm.org") bob_in request draft
compose-IsDraft_example =
    compose-IsDraft (λ s. some s) domains (codes "pm.org") bob_in request draft well_composed

store-IsValid : IsValid store
store-IsValid = record { emails_given = (ground arith, tt); relations_given = (ground arith, tt) }

send_draft-records_example :
    let r = send_draft net_text no_failure bob_in (codes "m") (λ d. gone) draft store in
    (r.refusal ≡ none)
    × (r.sends ≡ 1)
    × (r.store.emails
        ≡ store.emails
          ++ outcome_row net_text bob_in draft (codes "m") gone (store.last_email_id + 1) ∷ [])
    × (r.store.user_emails
        ≡ store.user_emails
          ++ record {
            id = store.last_user_email_id + 1;
            user_id = bob_in.user_id;
            email_id = store.last_email_id + 1;
            is_read = 1;
            group_id = 0;
            status = target_status gone;
          }
            ∷ [])
send_draft-records_example =
    send_draft-records net_text bob_in (codes "m") (λ d. gone) draft store store-IsValid

abbrev clock : Clock
clock = record {
  md5_hex = same_text;
  to_seconds = λ s. pos 9;
  decimal = λ n. pos_part n ∷ [];
  now = 10;
}

-- Bob's account, disabled after his login.
abbrev disabled_bob : User
disabled_bob = record bob { disabled = true }

abbrev in_session : Request
in_session = record { session_user = some bob; token = []; path = codes "/api/email/list" }

let_in : context_interceptor clock true (disabled_bob ∷ []) in_session ≡ allowed bob_in
unfolding context_interceptor by_session admit
let_in = refl

clock_small : (t : Text) → IsInt64 (clock.to_seconds t)
clock_small t = (omega arith, omega arith)

context_interceptor-known_example :
    OfSession clock (disabled_bob ∷ []) in_session bob_in
    ⊎ (OfToken clock (disabled_bob ∷ []) in_session bob_in
        ⊎ ((bob_in ≡ nobody) × IsOpen in_session.path))
context_interceptor-known_example =
    context_interceptor-known clock (disabled_bob ∷ []) (omega arith) clock_small in_session bob_in
      let_in

abbrev users : Users
users = record { rows = bob ∷ []; last_id = 7 }

abbrev works : Fails
works = record { insert = false; get = false; update = false; uncounted = false }

abbrev newcomer : UserRequest
newcomer = record {
  id = 0;
  account = codes "ann";
  username = codes "Ann";
  password = codes "pw";
  disabled = false;
}

abbrev boss : Login
boss = record bob_in { is_admin = true }

abbrev visits : List Op
visits = create works boss newcomer ∷ edit works boss newcomer ∷ create works bob_in newcomer ∷ []

serve_all-Kept_example : Kept users (serve_all same_text visits users)
serve_all-Kept_example = serve_all-Kept same_text visits users

abbrev eve_in : Login
eve_in = record bob_in { user_id = 8 }

abbrev bobs_rule : RuleRow
bobs_rule = record {
  id = 1;
  user_id = 7;
  name = codes "r";
  value = codes "[]";
  action = 1;
  params = [];
  sort = 0;
}

abbrev rules : RuleTable
rules = record { rows = bobs_rule ∷ []; last_id = 1 }

serve_rule-others_example :
    get_all_rules (λ s. []) (serve_rule (λ v. []) eve_in (upsert false rule) rules).1.rows false 7
    ≡ get_all_rules (λ s. []) rules.rows false 7
serve_rule-others_example =
    serve_rule-others eve_in 7 (λ e. absurd (omega arith)) rules (λ v. []) (λ s. []) false
      (upsert false rule)

users_to_addresses-AllReadBack_example :
    AllReadBack (addressed (ann ∷ bobs ∷ [])) (users_to_addresses (ann ∷ bobs ∷ []))
users_to_addresses-AllReadBack_example = users_to_addresses-AllReadBack (ann ∷ bobs ∷ [])
