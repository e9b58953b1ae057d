-- ===== src/Domain/Parser/Accepts.antt =====
-- internal/acl/domain/parser.go: domains that the grammar spells are parsed, whatever follows them.
use intelligent_odoo_dev_too.Prelude.{
  ℕ, zero, suc, ◌*◌, ◌≤◌, ◌<◌, ◌+◌, ◌≡◌, ◌↔◌, refl, subst, ap, sym, ◌∙◌, Bool, true, false, Option,
  some, List, [], ◌∷◌, ◌++◌, append_assoc, arith, length, length-append, Bool-cases, inl, inr,
}
use intelligent_odoo_dev_too.Prelude.Text.{Bytes}
use intelligent_odoo_dev_too.Domain.Token.{
  TokenType, lbracket, rbracket, lparen, rparen, comma, string, and, or, not, eof, Token, same_type,
}
use intelligent_odoo_dev_too.Domain.Ast.{Operator, Condition, condition, Node}
use intelligent_odoo_dev_too.Domain.Tree.{Element, operand}
use intelligent_odoo_dev_too.Domain.Tree.Implicit.{build_tree_iff}
use intelligent_odoo_dev_too.Domain.Parser.{
  ok, check, expect, expect_string, consume_if, operator_of, parse_operator, value_fuel,
  parse_condition, element_at, parse_element, parse_elements, tree_of, parse_domain, parse,
}
use intelligent_odoo_dev_too.Domain.Parser.Grammar.{
  OptComma, no_comma, one_comma, SpellsCondition, spells_condition, SpellsElement, spells_and,
  spells_or, spells_not, spells_operand, SpellsElements, no_elements, element, separated_by,
}
use intelligent_odoo_dev_too.Domain.Parser.Sound.{Ensures}
use intelligent_odoo_dev_too.Domain.Parser.Conditions.{condition_tokens}
use intelligent_odoo_dev_too.Domain.Parser.Complete.{
  Starts, check-head, check_self, starts, comma-no_eof, SpellsValue-Starts, value_complete,
}
use intelligent_odoo_dev_too.Domain.Parser.Elements.{
  TreeOf, empty_domain, prefix_tree, ReadsDomain, ReadsSource, parse-Ensures,
}

expect_self : (a : TokenType) (t : Token) (ts : List Token) → t.typ ≡ a → expect a (t ∷ ts) ≡ ok ts
unfolding expect
expect_self a t ts e = rw (check_self a t ts e) refl

expect_string_self :
    (t : Token) (ts : List Token) → t.typ ≡ string → expect_string (t ∷ ts) ≡ ok (t.val, ts)
unfolding expect_string
expect_string_self t ts e = rw (check_self string t ts e) refl

string-no_comma : (t : Token) (ts : List Token) → t.typ ≡ string → check comma (t ∷ ts) ≡ false
unfolding same_type
string-no_comma t ts e = check-head string t ts e comma

comma-no_rbracket : (t : Token) (ts : List Token) → t.typ ≡ comma → check rbracket (t ∷ ts) ≡ false
unfolding same_type
comma-no_rbracket t ts e = check-head comma t ts e rbracket

rbracket-no_eof : (t : Token) (ts : List Token) → t.typ ≡ rbracket → check eof (t ∷ ts) ≡ false
unfolding same_type
rbracket-no_eof t ts e = check-head rbracket t ts e eof

consume_if-OptComma :
    {xs : List Token} (ts : List Token)
    → OptComma xs
    → check comma ts ≡ false
    → consume_if comma (xs ++ ts) ≡ ts
unfolding consume_if
consume_if-OptComma ts no_comma h = rw h refl
consume_if-OptComma ts (one_comma t e) h = rw (check_self comma t ts e) refl

parse_operator-some :
    (s : Bytes) (op : Operator) → operator_of s ≡ some op → parse_operator s ≡ ok op
unfolding parse_operator
parse_operator-some s op e = rw e refl

module _ {F : Type 0} (parse_float : Bytes → Option F) where
  condition_complete :
      {c : Condition F} {ts : List Token} (rest : List Token)
      → SpellsCondition parse_float c ts
      → parse_condition parse_float (ts ++ rest) ≡ ok (c, rest)
  unfolding parse_condition
  condition_complete rest (spells_condition o f n c op v xs ys vs lp fs cx ns is_op cy sv rp) =
      let val = vs ++ (c ∷ rest) in
      let name = n ∷ (ys ++ val) in
      let fuel : 2 * length vs ≤ value_fuel val = omega (arith, length-append vs (c ∷ rest)) in
      rw (sym (condition_tokens parse_float f n c xs ys vs rest)) (
        rw (expect_self lparen o (f ∷ (xs ++ name)) lp) (
          rw (expect_string_self f (xs ++ name) fs) (
            rw (consume_if-OptComma name cx (string-no_comma n (ys ++ val) ns)) (
              rw (expect_string_self n (ys ++ val) ns) (
                rw (parse_operator-some n.val op is_op) (
                  rw
                    (consume_if-OptComma val cy
                      (SpellsValue-Starts parse_float (c ∷ rest) sv).no_comma)
                    (rw (value_complete parse_float (value_fuel val) (c ∷ rest) sv fuel)
                      (rw (expect_self rparen c rest rp) refl))))))))

  SpellsElement-Starts :
      {el : Element F} {ts : List Token} (rest : List Token)
      → SpellsElement parse_float el ts
      → Starts (ts ++ rest)
  unfolding same_type
  SpellsElement-Starts rest (spells_and t e) = starts and t rest e refl refl refl refl
  SpellsElement-Starts rest (spells_or t e) = starts or t rest e refl refl refl refl
  SpellsElement-Starts rest (spells_not t e) = starts not t rest e refl refl refl refl
  SpellsElement-Starts rest
        (spells_operand c ts (spells_condition o f n e op v xs ys vs lp _ _ _ _ _ _ _)) =
      starts lparen o _ lp refl refl refl refl

  SpellsElement-nonempty :
      {el : Element F} {ts : List Token} → SpellsElement parse_float el ts → 0 < length ts
  SpellsElement-nonempty
        (spells_operand c ts (spells_condition o f n e op v xs ys vs _ _ _ _ _ _ _ _)) =
      omega arith
  SpellsElement-nonempty _ = omega arith

  operand_complete :
      (o : Token) (us rest : List Token) (c : Condition F)
      → o.typ ≡ lparen
      → parse_condition parse_float (o ∷ us) ≡ ok (c, rest)
      → parse_element parse_float (o ∷ us) ≡ ok (operand (condition c), rest)
  unfolding parse_element
  operand_complete o us rest c e h =
      let at_lparen : element_at parse_float lparen (o ∷ us) ≡ ok (operand (condition c), rest) =
        rw h refl in
      ap (λ a. element_at parse_float a (o ∷ us)) e ∙ at_lparen

  element_complete :
      {el : Element F} {ts : List Token} (rest : List Token)
      → SpellsElement parse_float el ts
      → parse_element parse_float (ts ++ rest) ≡ ok (el, rest)
  unfolding parse_element
  element_complete rest (spells_and t e) = rw e refl
  element_complete rest (spells_or t e) = rw e refl
  element_complete rest (spells_not t e) = rw e refl
  element_complete rest
        (spells_operand c ts (spells_condition o f n e op v xs ys vs lp a b d g h i j)) =
      operand_complete o _ rest (record { field = f.val; op = op; val = v }) lp
        (condition_complete rest (spells_condition o f n e op v xs ys vs lp a b d g h i j))

  elements-end :
      (fuel : ℕ) (first : Bool) (t : Token) (ts : List Token)
      → t.typ ≡ rbracket
      → parse_elements parse_float (suc fuel) first (t ∷ ts) ≡ ok ([], t ∷ ts)
  unfolding parse_elements
  elements-end fuel first t ts e = rw (check_self rbracket t ts e) refl

  elements-element :
      (fuel : ℕ) (first : Bool) (ts rest rest' : List Token) (el : Element F)
      (els : List (Element F))
      → Starts ts
      → parse_element parse_float ts ≡ ok (el, rest)
      → parse_elements parse_float fuel false rest ≡ ok (els, rest')
      → parse_elements parse_float (suc fuel) first ts ≡ ok (el ∷ els, rest')
  unfolding parse_elements consume_if
  elements-element fuel true ts rest rest' el els s a b =
      rw s.no_rbracket (rw s.no_eof (rw a (rw b refl)))
  elements-element fuel false ts rest rest' el els s a b =
      rw s.no_comma (rw s.no_rbracket (rw s.no_eof (rw a (rw b refl))))

  elements-comma :
      (fuel : ℕ) (t : Token) (ts : List Token)
      → t.typ ≡ comma
      → check rbracket (t ∷ ts) ≡ false
      → check eof ts ≡ false
      → parse_elements parse_float (suc fuel) false (t ∷ ts)
        ≡ parse_elements parse_float (suc fuel) true ts
  unfolding parse_elements consume_if
  elements-comma fuel t ts e r n = rw (check_self comma t ts e) (
      rw r (
        rw (comma-no_eof t ts e)
          (rw n (elim (Bool-cases (check rbracket ts)) [ inl c ↦ rw c refl | inr c ↦ rw c refl ]))))

  SpellsElements-no_eof :
      {els : List (Element F)} {ts : List Token} (closing : Token) (rest : List Token)
      → closing.typ ≡ rbracket
      → SpellsElements parse_float true els ts
      → check eof (ts ++ (closing ∷ rest)) ≡ false
  SpellsElements-no_eof closing rest e no_elements = rbracket-no_eof closing rest e
  SpellsElements-no_eof closing rest e (element {xs = xs} {ys = ys} s ss) =
      rw (append_assoc xs ys (closing ∷ rest))
        (SpellsElement-Starts (ys ++ (closing ∷ rest)) s).no_eof

  elements_complete :
      {els : List (Element F)} {ts : List Token} (fuel : ℕ) (first : Bool) (closing : Token)
      (rest : List Token)
      → closing.typ ≡ rbracket
      → SpellsElements parse_float first els ts
      → length ts < fuel
      → parse_elements parse_float fuel first (ts ++ (closing ∷ rest)) ≡ ok (els, closing ∷ rest)
  elements_complete zero first closing rest e s h = absurd (omega arith)
  elements_complete (suc fuel) first closing rest e no_elements h =
      elements-end fuel first closing rest e
  elements_complete (suc fuel) first closing rest e
        (element {el = el} {els = els} {xs = xs} {ys = ys} s ss) h =
      let after = ys ++ (closing ∷ rest) in
      rw (append_assoc xs ys (closing ∷ rest)) (
        elements-element fuel first (xs ++ after) after (closing ∷ rest) el els
          (SpellsElement-Starts after s) (element_complete after s)
          (elements_complete {els = els} {ts = ys} fuel false closing rest e ss
            (omega (arith, length-append xs ys, SpellsElement-nonempty s, h))))
  elements_complete (suc fuel) false closing rest e (separated_by {els = els} {ts = ts} t c s) h =
      elements-comma fuel t (ts ++ (closing ∷ rest)) c
        (comma-no_rbracket t (ts ++ (closing ∷ rest)) c) (SpellsElements-no_eof closing rest e s)
      ∙ elements_complete {els = els} {ts = ts} (suc fuel) true closing rest e s (omega (arith, h))

  tree_of_complete :
      (els : List (Element F)) (n : Node F)
      → TreeOf parse_float els n
      → tree_of parse_float els ≡ ok n
  tree_of_complete els n empty_domain = refl
  tree_of_complete els n (prefix_tree {el = el} {els = rest} p) =
      rw ((build_tree_iff (el ∷ rest) n).1 p) refl

  domain_complete :
      (ts : List Token) (n : Node F)
      → ReadsDomain parse_float ts n
      → parse_domain parse_float ts ≡ ok n
  unfolding parse_domain
  domain_complete ts n d =
      let after = d.body ++ (d.closing ∷ d.rest) in
      let fuel : length d.body < length after + 1 =
        omega (arith, length-append d.body (d.closing ∷ d.rest)) in
      rw d.split (
        rw (expect_self lbracket d.opening after d.opens) (
          rw (elements_complete (length after + 1) true d.closing d.rest d.closes d.spells fuel) (
            rw (expect_self rbracket d.closing d.rest d.closes)
              (tree_of_complete d.elements n d.tree))))

  source_complete :
      (src : Bytes) (n : Node F) → ReadsSource parse_float src n → parse parse_float src ≡ ok n
  unfolding parse
  source_complete src n (ts, e, d) = rw e (domain_complete ts n d)

  -- `Parse` never runs out of the model's fuel, in the lexer, the parser or `consumeNode`; and it
  -- returns a tree for exactly the sources whose tokens are `[`, elements in the grammar of domains,
  -- `]` and any tokens that may follow, with the elements, after the implicit `&` are put in front,
  -- being that tree in prefix notation.
  pub parse_iff :
      (src : Bytes)
      → Ensures (ReadsSource parse_float src) (parse parse_float src)
        × ((n : Node F) → (parse parse_float src ≡ ok n) ↔ ReadsSource parse_float src n)
  parse_iff src = (
    parse-Ensures parse_float src,
    λ n. (
      λ e. subst (Ensures (ReadsSource parse_float src)) e (parse-Ensures parse_float src),
      source_complete src n,
    ),
  )
