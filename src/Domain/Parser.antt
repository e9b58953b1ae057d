-- ===== src/Domain/Parser.antt =====
-- internal/acl/domain/parser.go: recursive descent from tokens to a tree. The parser's state holds
-- the tokens that are left, `tokens[pos:]`. Values nest, so their parser runs on fuel: twice the
-- number of tokens and one more is enough, since every second call at least consumes a token.
-- `strconv.ParseFloat` is the parameter `parse_float`.
use intelligent_odoo_dev_too.Prelude.{
  ℕ, zero, suc, ◌+◌, ◌-◌, ◌*◌, Bool, true, false, ◌&&◌, ◌||◌, Option, none, some, List, [], ◌∷◌,
  leb, ltb, ◌==◌, if◌then◌else◌, length,
}
use intelligent_odoo_dev_too.Prelude.Int.{ℤ, pos, negsuc, half64}
use intelligent_odoo_dev_too.Prelude.Text.{Bytes, codes, eqb}
use intelligent_odoo_dev_too.Domain.Token.{
  TokenType, lbracket, rbracket, lparen, rparen, comma, string, int, float, true_word, false_word,
  none_word, and, or, not, ref, eof, Token, same_type,
}
use intelligent_odoo_dev_too.Domain.Ast.{
  Operator, op_equal, op_not_equal, op_less, op_less_eq, op_greater, op_greater_eq, op_in,
  op_not_in, op_like, op_not_like, op_ilike, op_not_ilike, op_eq_like, op_eq_ilike, op_child_of,
  op_parent_of, logic_and, logic_or, logic_not, Value, string_value, int_value, float_value,
  bool_value, none_value, list_value, tuple_value, ref_value, Values, no_values, value, Condition,
  Node, condition, match_all,
}
use intelligent_odoo_dev_too.Domain.Lexer
use intelligent_odoo_dev_too.Domain.Lexer.{LexError, lex}
use intelligent_odoo_dev_too.Domain.Tree
use intelligent_odoo_dev_too.Domain.Tree.{TreeError, Element, logic, operand, build_tree}
pub mod Grammar
pub mod Sound
pub mod Conditions
pub mod Complete
pub mod Elements
pub mod Accepts

-- The errors of `parser.go` with the tokens that they show. `out_of_fuel` belongs to the model
-- only; the fuel of the lexer and of `consumeNode` has its own.
pub data ParseError : Type 0 where
  lex_error : LexError → ParseError
  tree_error : TreeError → ParseError
  expected : TokenType → Token → ParseError
  expected_a_string : Token → ParseError
  unknown_operator : Bytes → ParseError
  invalid_int : Bytes → ParseError
  invalid_float : Bytes → ParseError
  unexpected_value : Token → ParseError
  unexpected_element : Token → ParseError
  out_of_fuel : ParseError

pub data Result {ℓ} (A : Type ℓ) : Type ℓ where
  ok : A → Result A
  err : ParseError → Result A

infixl 5 ◌>>=◌
abbrev pub ◌>>=◌ {ℓ κ} : {A : Type ℓ} {B : Type κ} → Result A → (A → Result B) → Result B
ok a >>= f = f a
err e >>= f = err e

abbrev pub or_error {ℓ} : {A : Type ℓ} → Option A → ParseError → Result A
or_error none e = err e
or_error (some a) e = ok a

-- `peek`, `advance`, `check`, `expect` and `consumeIf`.
abbrev pub peek : List Token → Token
peek [] = record { typ = eof; val = []; pos = 0 }
peek (t ∷ _) = t

abbrev pub advance : List Token → List Token
advance [] = []
advance (_ ∷ ts) = ts

unfoldable pub check : TokenType → List Token → Bool
check typ ts = same_type (peek ts).typ typ

unfoldable pub expect : TokenType → List Token → Result (List Token)
expect typ ts = if check typ ts then ok (advance ts) else err (expected typ (peek ts))

unfoldable pub consume_if : TokenType → List Token → List Token
consume_if typ ts = if check typ ts then advance ts else ts

unfoldable pub expect_string : List Token → Result (Bytes × List Token)
expect_string ts =
    if check string ts then ok ((peek ts).val, advance ts) else err (expected_a_string (peek ts))

-- `strconv.ParseInt` in base 10 with 64 bits: an optional sign, at least one digit, no others.
pub digits_from : ℕ → Bytes → Option ℕ
digits_from n [] = some n
digits_from n (c ∷ s) =
    let more = digits_from (10 * n + (c - b'0')) s in
    if leb b'0' c && leb c b'9' then more else none

abbrev pub magnitude : Bytes → Option ℕ
magnitude [] = none
magnitude (c ∷ s) = digits_from 0 (c ∷ s)

abbrev pub in_range : Bool → Option ℕ → Option ℤ
in_range negative none = none
in_range false (some n) = if ltb n half64 then some (pos n) else none
in_range true (some zero) = some (pos 0)
in_range true (some (suc n)) = if ltb n half64 then some (negsuc n) else none

unfoldable pub parse_int64 : Bytes → Option ℤ
unfolding digits_from
parse_int64 [] = none
parse_int64 (c ∷ s) =
    if c == b'-'
    then in_range true (magnitude s)
    else if c == b'+'
    then in_range false (magnitude s)
    else in_range false (magnitude (c ∷ s))

-- `operatorMap` and `parseOperator`.
unfoldable pub operator_of : Bytes → Option Operator
operator_of s =
    if eqb s (codes "=")
    then some op_equal
    else if eqb s (codes "!=")
    then some op_not_equal
    else if eqb s (codes "<")
    then some op_less
    else if eqb s (codes "<=")
    then some op_less_eq
    else if eqb s (codes ">")
    then some op_greater
    else if eqb s (codes ">=")
    then some op_greater_eq
    else if eqb s (codes "in")
    then some op_in
    else if eqb s (codes "not in")
    then some op_not_in
    else if eqb s (codes "like")
    then some op_like
    else if eqb s (codes "not like")
    then some op_not_like
    else if eqb s (codes "ilike")
    then some op_ilike
    else if eqb s (codes "not ilike")
    then some op_not_ilike
    else if eqb s (codes "=like")
    then some op_eq_like
    else if eqb s (codes "=ilike")
    then some op_eq_ilike
    else if eqb s (codes "child_of")
    then some op_child_of
    else if eqb s (codes "parent_of")
    then some op_parent_of
    else none

unfoldable pub parse_operator : Bytes → Result Operator
unfolding operator_of
parse_operator s = or_error (operator_of s) (unknown_operator s)

-- Enough fuel for a value.
abbrev pub value_fuel : List Token → ℕ
value_fuel ts = 2 * length ts + 1

module _ {F : Type 0} (parse_float : Bytes → Option F) where
  -- The `switch` of `parseValue` on the type of the token `tok`, with `parseListValue` and
  -- `parseTupleValue`, where `items` is `parseItems` after the opening bracket.
  abbrev pub value_at :
      (TokenType → List Token → Result (Values F × List Token))
      → TokenType
      → Token
      → List Token
      → Result (Value F × List Token)
  value_at items string tok rest = ok (string_value tok.val, rest)
  value_at items int tok rest = do
    n ← or_error (parse_int64 tok.val) (invalid_int tok.val)
    ok (int_value n, rest)
  value_at items float tok rest = do
    f ← or_error (parse_float tok.val) (invalid_float tok.val)
    ok (float_value f, rest)
  value_at items true_word tok rest = ok (bool_value true, rest)
  value_at items false_word tok rest = ok (bool_value false, rest)
  value_at items none_word tok rest = ok (none_value, rest)
  value_at items ref tok rest = ok (ref_value tok.val, rest)
  value_at items lbracket tok rest = do (vs, rest') ← items rbracket rest; ok (list_value vs, rest')
  value_at items lparen tok rest = do (vs, rest') ← items rparen rest; ok (tuple_value vs, rest')
  value_at items _ tok rest = err (unexpected_value tok)

  unfoldable mutual
    -- `parseValue`.
    pub parse_value : ℕ → List Token → Result (Value F × List Token)
    parse_value zero ts = err out_of_fuel
    parse_value (suc fuel) ts =
        value_at (λ closer rest. parse_items fuel closer true rest) (peek ts).typ (peek ts)
          (advance ts)

    -- The loop of `parseItems` and its last `expect`; `first` says that `items` is still empty.
    pub parse_items : ℕ → TokenType → Bool → List Token → Result (Values F × List Token)
    parse_items zero closer first ts = err out_of_fuel
    parse_items (suc fuel) closer first ts =
        let ts' = if first then ts else consume_if comma ts in
        let more = do
          (v, rest) ← parse_value fuel ts'
          (vs, rest') ← parse_items fuel closer false rest
          ok (value v vs, rest')
        in if check closer ts || check eof ts
          then (do rest ← expect closer ts; ok (no_values, rest))
          else if check closer ts'
          then (do rest ← expect closer ts'; ok (no_values, rest))
          else more

  -- `parseCondition`.
  unfoldable pub parse_condition : List Token → Result (Condition F × List Token)
  unfolding expect expect_string consume_if check parse_operator parse_value
  parse_condition ts = do
    ts₁ ← expect lparen ts
    (field, ts₂) ← expect_string ts₁
    (name, ts₃) ← expect_string (consume_if comma ts₂)
    op ← parse_operator name
    let ts₄ = consume_if comma ts₃
    (val, ts₅) ← parse_value (value_fuel ts₄) ts₄
    rest ← expect rparen ts₅
    ok (record { field = field; op = op; val = val }, rest)

  -- The `switch` of `parseElement`, and `parseElement`.
  abbrev pub element_at : TokenType → List Token → Result (Element F × List Token)
  element_at and ts = ok (logic logic_and, advance ts)
  element_at or ts = ok (logic logic_or, advance ts)
  element_at not ts = ok (logic logic_not, advance ts)
  element_at lparen ts = do (c, rest) ← parse_condition ts; ok (operand (condition c), rest)
  element_at _ ts = err (unexpected_element (peek ts))

  unfoldable pub parse_element : List Token → Result (Element F × List Token)
  unfolding parse_condition
  parse_element ts = element_at (peek ts).typ ts

  -- The loop of `parseDomain`; `first` says that `elements` is still empty.
  unfoldable pub parse_elements : ℕ → Bool → List Token → Result (List (Element F) × List Token)
  unfolding parse_element
  parse_elements zero first ts = err out_of_fuel
  parse_elements (suc fuel) first ts =
      let ts' = if first then ts else consume_if comma ts in
      let more = do
        (el, rest) ← parse_element ts'
        (els, rest') ← parse_elements fuel false rest
        ok (el ∷ els, rest')
      in if check rbracket ts || check eof ts
        then ok ([], ts)
        else if check rbracket ts'
        then ok ([], ts')
        else more

  abbrev pub from_tree : Tree.Result (Node F) → Result (Node F)
  from_tree (Tree.ok n) = ok n
  from_tree (Tree.err e) = err (tree_error e)

  abbrev pub tree_of : List (Element F) → Result (Node F)
  tree_of [] = ok match_all
  tree_of (el ∷ els) = from_tree (build_tree (el ∷ els))

  -- `parseDomain`.
  unfoldable pub parse_domain : List Token → Result (Node F)
  unfolding parse_elements build_tree
  parse_domain ts = do
    ts₁ ← expect lbracket ts
    (els, ts₂) ← parse_elements (length ts₁ + 1) true ts₁
    _ ← expect rbracket ts₂
    tree_of els

  abbrev pub from_lexer : Lexer.Result (List Token) → Result (List Token)
  from_lexer (Lexer.ok ts) = ok ts
  from_lexer (Lexer.err e) = err (lex_error e)

  -- `Parse`.
  unfoldable pub parse : Bytes → Result (Node F)
  unfolding lex parse_domain parse_int64
  parse src = do ts ← from_lexer (lex src); parse_domain ts
