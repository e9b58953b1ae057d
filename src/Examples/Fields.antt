-- ===== src/Examples/Fields.antt =====
-- The fetched record of internal/agent/collector/recordfetcher.go, with an Odoo that answers with
-- the fields asked for.
use intelligent_odoo_dev_too.Prelude.{
  true, false, Option, some, List, ◌≡◌, refl, sym, [], ◌∷◌, any, if◌then◌else◌, In, here, there,
  Bool-cases, inl, inr, arith,
}
use intelligent_odoo_dev_too.Prelude.Int.{ℤ, pos}
use intelligent_odoo_dev_too.Prelude.Text.{Bytes, codes, eqb, eqb_iff, eqb_refl}
use intelligent_odoo_dev_too.Domain.Token.{same_type}
use intelligent_odoo_dev_too.Acl.Any.{Entries, no_entries, entry, int_any, lookup_any}
use intelligent_odoo_dev_too.Acl.Types.{op_read, EvalContext}
use intelligent_odoo_dev_too.Acl.Evaluate.{RecordRuleDetail, evaluate}
use intelligent_odoo_dev_too.Acl.Fields.{fetched, fetch_record_for_rules}
use intelligent_odoo_dev_too.Acl.Fields.Relevant.{fetch_record_for_rules-evaluate}
use intelligent_odoo_dev_too.Examples.Host.{whole_host}

abbrev select : List Bytes → Entries ℤ ℤ → Entries ℤ ℤ
select fields no_entries = no_entries
select fields (entry k v m) =
    let rest = select fields m in if any (eqb k) fields then entry k v rest else rest

In-any : (k : Bytes) (fields : List Bytes) → In k fields → any (eqb k) fields ≡ true
In-any k [] m = elim m [ ]
In-any k (f ∷ fields) here = rw (eqb_refl k) refl
In-any k (f ∷ fields) (there m) = ground (arith, In-any k fields m)

lookup_any-select :
    (f : Bytes) (fields : List Bytes) (m : Entries ℤ ℤ)
    → In f fields
    → lookup_any f (select fields m) ≡ lookup_any f m
unfolding lookup_any
lookup_any-select f fields no_entries i = refl
lookup_any-select f fields (entry k v m) i = elim (Bool-cases (eqb k f)) [
  | inl e ↦
      let same : k ≡ f = (eqb_iff k f).0 e in
      let kept : any (eqb k) fields ≡ true = rw same (In-any f fields i) in rw kept (rw e refl)
  | inr e ↦ elim (Bool-cases (any (eqb k) fields)) [
    | inl kept ↦ rw kept (rw e (lookup_any-select f fields m i))
    | inr gone ↦ rw gone (rw e (lookup_any-select f fields m i))
  ]
]

abbrev order : Entries ℤ ℤ
order =
    entry (codes "amount") (int_any (pos 250)) (
      entry (codes "state") (int_any (pos 1))
        (entry (codes "user_id") (int_any (pos 5)) no_entries))

abbrev own_orders : RecordRuleDetail
own_orders = record {
  model = codes "sale.order";
  operation = op_read;
  global_rules = [];
  group_rules =
      record {
        name = codes "own";
        domain = codes "[('user_id', '=', user.id)]";
        is_global = false;
        applies = true;
        group_ids = [];
      }
      ∷ [];
  total_rules = 1;
  applied_count = 1;
}

abbrev clerk : EvalContext
clerk = record { user_id = pos 5; company_id = pos 1; company_ids = [] }

abbrev own_order : Entries ℤ ℤ
own_order = entry (codes "user_id") (int_any (pos 5)) no_entries

abbrev odoo : Bytes → ℤ → List Bytes → Option (List (Entries ℤ ℤ))
odoo model id fields = some (select fields order ∷ [])

odoo-answers :
    (model : Bytes) (id : ℤ) (fields : List Bytes) (x : Entries ℤ ℤ) (rs : List (Entries ℤ ℤ))
    → odoo model id fields ≡ some (x ∷ rs)
    → (f : Bytes) → In f fields
    → lookup_any f x ≡ lookup_any f order
odoo-answers model id fields x rs e f i =
    let same : select fields order ≡ x = cc in rw (sym same) (lookup_any-select f fields order i)

fetched_own_order :
    fetch_record_for_rules whole_host odoo (codes "sale.order") (pos 7) own_orders
    ≡ fetched own_order
unfolding fetch_record_for_rules same_type
fetched_own_order = refl

fetch_record_for_rules-evaluate_example :
    evaluate whole_host own_order clerk own_orders ≡ evaluate whole_host order clerk own_orders
fetch_record_for_rules-evaluate_example =
    fetch_record_for_rules-evaluate whole_host order odoo odoo-answers (codes "sale.order") (pos 7)
      own_orders clerk own_order fetched_own_order
