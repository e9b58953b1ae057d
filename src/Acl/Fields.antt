-- ===== src/Acl/Fields.antt =====
-- internal/agent/collector/recordfetcher.go: the fields that the rules of a record ask for. The call
-- of Odoo is a parameter. A set of names is the list of its members, each once.
use intelligent_odoo_dev_too.Prelude.{
  Bool, true, false, Option, none, some, List, [], ◌∷◌, ◌++◌, if◌then◌else◌, any,
}
use intelligent_odoo_dev_too.Prelude.Int.{ℤ}
use intelligent_odoo_dev_too.Prelude.Text.{Bytes, codes, eqb}
use intelligent_odoo_dev_too.Domain.Ast.{
  Condition, Node, Nodes, condition, bool_op, match_all, no_nodes, node,
}
use intelligent_odoo_dev_too.Domain.Parser
use intelligent_odoo_dev_too.Domain.Parser.{parse}
use intelligent_odoo_dev_too.Acl.Host.{Host}
use intelligent_odoo_dev_too.Acl.Any.{Entries, no_entries}
use intelligent_odoo_dev_too.Acl.Types.{RecordRuleMatch}
use intelligent_odoo_dev_too.Acl.Evaluate.{RecordRuleDetail}
pub mod Alike
pub mod Relevant

-- `seen[field] = true`.
abbrev pub add_field : Bytes → List Bytes → List Bytes
add_field f seen = if any (eqb f) seen then seen else f ∷ seen

module _ {F : Type 0} where
  -- `extractFieldsFromNode`.
  unfoldable mutual
    pub extract_fields : Node F → List Bytes → List Bytes
    extract_fields (condition c) seen = add_field c.field seen
    extract_fields (bool_op op ns) seen = extract_all ns seen
    extract_fields match_all seen = seen

    pub extract_all : Nodes F → List Bytes → List Bytes
    extract_all no_nodes seen = seen
    extract_all (node n ns) seen = extract_all ns (extract_fields n seen)

  unfoldable pub extract_parsed : Parser.Result (Node F) → List Bytes → List Bytes
  unfolding extract_fields
  extract_parsed (Parser.err e) seen = seen
  extract_parsed (Parser.ok ast) seen = extract_fields ast seen

-- What a fetch gives: the record, or the error of the call or of an empty answer.
pub data Fetched (F G : Type 0) : Type 0 where
  fetched : Entries F G → Fetched F G
  fetch_failed : Fetched F G
  record_not_found : Fetched F G

-- The domains of the rules that apply, the global ones first.
unfoldable pub applied_domains : List RecordRuleMatch → List Bytes
applied_domains [] = []
applied_domains (r ∷ rules) =
    let rest = applied_domains rules in if r.applies then r.domain ∷ rest else rest

unfoldable pub domains_of : RecordRuleDetail → List Bytes
unfolding applied_domains
domains_of d = applied_domains d.global_rules ++ applied_domains d.group_rules

module _ (h : Host) where
  open h use {Float64, Float32, parse_float}

  -- `ExtractFieldsFromDomains`; domains that do not parse are skipped.
  unfoldable pub extract_from : List Bytes → List Bytes → List Bytes
  unfolding extract_parsed parse
  extract_from [] seen = seen
  extract_from (d ∷ domains) seen = extract_from domains (extract_parsed (parse parse_float d) seen)

  abbrev Records : Type 0
  Records = List (Entries Float64 Float32)

  -- `FetchRecord`, with the answer of Odoo.
  abbrev pub first_record : Option Records → Fetched Float64 Float32
  first_record none = fetch_failed
  first_record (some []) = record_not_found
  first_record (some (r ∷ rs)) = fetched r

  abbrev pub fetch_record :
      (Bytes → ℤ → List Bytes → Option Records) → Bytes → ℤ → List Bytes → Fetched Float64 Float32
  fetch_record call model id [] = fetched no_entries
  fetch_record call model id (f ∷ fields) = first_record (call model id (f ∷ fields))

  -- `FetchRecordForRules`; with no fields it is the empty record of `FetchRecord`.
  unfoldable pub fetch_record_for_rules :
      (Bytes → ℤ → List Bytes → Option Records)
      → Bytes
      → ℤ
      → RecordRuleDetail
      → Fetched Float64 Float32
  unfolding extract_from domains_of
  fetch_record_for_rules call model id d =
      fetch_record call model id (extract_from (domains_of d) [])
