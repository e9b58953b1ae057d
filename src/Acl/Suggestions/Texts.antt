-- ===== src/Acl/Suggestions/Texts.antt =====
-- internal/acl/suggestion.go: the texts that the suggestions compute or search.
use intelligent_odoo_dev_too.Prelude.{
  Option, none, some, List, [], ◌∷◌, ◌++◌, if◌then◌else◌, any, map, ◌==◌,
}
use intelligent_odoo_dev_too.Prelude.Text.{Bytes, codes, eqb}
use intelligent_odoo_dev_too.Acl.Any.{decimal}
use intelligent_odoo_dev_too.Acl.Types.{ResolvedUser, RecordRuleMatch}
use intelligent_odoo_dev_too.Acl.Users.{
  users_not_in_schema, user_not_found, user_inactive, user_resolved, user_is_superuser, UserResult,
}

-- `sanitizeModelName`.
unfoldable pub sanitize_model_name : Bytes → Bytes
sanitize_model_name s = map (λ c. if c == b'.' then b'_' else c) s

-- `dedupStrings`: what was seen, and the strings left.
unfoldable pub dedup_from : List Bytes → List Bytes → List Bytes
dedup_from seen [] = []
dedup_from seen (s ∷ ss) =
    let fresh = s ∷ dedup_from (s ∷ seen) ss in
    let rest = dedup_from seen ss in if any (eqb s) seen then rest else fresh

unfoldable pub dedup_strings : List Bytes → List Bytes
unfolding dedup_from
dedup_strings ss = dedup_from [] ss

-- The group ids of the rules that do not apply, as text.
unfoldable pub rule_group_ids : List RecordRuleMatch → List Bytes
unfolding decimal
rule_group_ids [] = []
rule_group_ids (r ∷ rs) = map decimal r.group_ids ++ rule_group_ids rs

-- The dash of the reasons, in UTF-8.
abbrev dash : Bytes
dash = 226 ∷ 128 ∷ 148 ∷ []

abbrev login_of : Option ResolvedUser → Bytes
login_of none = []
login_of (some u) = u.login

abbrev uid_of : Option ResolvedUser → Bytes
uid_of none = []
uid_of (some u) = decimal u.uid

-- The reason of the user stage as text, where it is denied.
unfoldable pub user_reason_text : UserResult → Bytes
unfolding decimal
user_reason_text r = elim r.reason [
  | user_not_found ↦ codes "user not found " ++ (dash ++ codes " no data returned from Odoo")
  | user_inactive ↦
      codes "user " ++ (uid_of r.user ++ (codes " (" ++ (login_of r.user ++ codes ") is inactive")))
  | users_not_in_schema ↦ codes "model 'res.users' not found in schema snapshot"
  | user_resolved ↦ []
  | user_is_superuser ↦ []
]
