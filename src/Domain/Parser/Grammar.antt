-- ===== src/Domain/Parser/Grammar.antt =====
-- internal/acl/domain/parser.go: the grammar of values, independently of how they are parsed.
use intelligent_odoo_dev_too.Prelude.{◌≡◌, Bool, true, false, Option, some, List, [], ◌∷◌, ◌++◌}
use intelligent_odoo_dev_too.Prelude.Text.{Bytes}
use intelligent_odoo_dev_too.Domain.Token.{
  TokenType, lbracket, rbracket, lparen, rparen, comma, string, int, float, true_word, false_word,
  none_word, and, or, not, ref, Token,
}
use intelligent_odoo_dev_too.Domain.Ast.{
  Value, string_value, int_value, float_value, bool_value, none_value, list_value, tuple_value,
  ref_value, Values, no_values, value, Operator, Condition, condition, logic_and, logic_or,
  logic_not,
}
use intelligent_odoo_dev_too.Domain.Parser.{parse_int64, operator_of}
use intelligent_odoo_dev_too.Domain.Tree.{Element, logic, operand}

-- A comma that may be left out.
pub data OptComma : List Token → Type 0 where
  no_comma : OptComma []
  one_comma : (t : Token) → t.typ ≡ comma → OptComma (t ∷ [])

module _ {F : Type 0} (parse_float : Bytes → Option F) where
  mutual
    -- `SpellsValue v ts`: the tokens are the value `v`.
    pub data SpellsValue : Value F → List Token → Type 0 where
      spells_string : (t : Token) → t.typ ≡ string → SpellsValue (string_value t.val) (t ∷ [])
      spells_int :
          (t : Token) (n : _)
          → t.typ ≡ int
          → parse_int64 t.val ≡ some n
          → SpellsValue (int_value n) (t ∷ [])
      spells_float :
          (t : Token) (f : F)
          → t.typ ≡ float
          → parse_float t.val ≡ some f
          → SpellsValue (float_value f) (t ∷ [])
      spells_true : (t : Token) → t.typ ≡ true_word → SpellsValue (bool_value true) (t ∷ [])
      spells_false : (t : Token) → t.typ ≡ false_word → SpellsValue (bool_value false) (t ∷ [])
      spells_none : (t : Token) → t.typ ≡ none_word → SpellsValue none_value (t ∷ [])
      spells_ref : (t : Token) → t.typ ≡ ref → SpellsValue (ref_value t.val) (t ∷ [])
      spells_list :
          (o : Token) (vs : Values F) (ts : List Token)
          → o.typ ≡ lbracket
          → SpellsItems rbracket true vs ts
          → SpellsValue (list_value vs) (o ∷ ts)
      spells_tuple :
          (o : Token) (vs : Values F) (ts : List Token)
          → o.typ ≡ lparen
          → SpellsItems rparen true vs ts
          → SpellsValue (tuple_value vs) (o ∷ ts)

    -- `SpellsItems closer first vs ts`: the tokens are the values `vs` and the closing bracket. A
    -- comma may stand before each item but the first, and before the bracket after an item.
    pub data SpellsItems : TokenType → Bool → Values F → List Token → Type 0 where
      ends :
          {closer : TokenType} {first : Bool} (c : Token)
          → c.typ ≡ closer
          → SpellsItems closer first no_values (c ∷ [])
      item :
          {closer : TokenType} {first : Bool} {v : Value F} {vs : Values F} {xs ys : List Token}
          → SpellsValue v xs
          → SpellsItems closer false vs ys
          → SpellsItems closer first (value v vs) (xs ++ ys)
      separated :
          {closer : TokenType} {vs : Values F} {ts : List Token} (t : Token)
          → t.typ ≡ comma
          → SpellsItems closer true vs ts
          → SpellsItems closer false vs (t ∷ ts)

  -- `SpellsCondition c ts`: the tokens are the triple `c` in parentheses.
  pub data SpellsCondition : Condition F → List Token → Type 0 where
    spells_condition :
        (o f n c : Token) (op : Operator) (v : Value F) (xs ys vs : List Token)
        → o.typ ≡ lparen
        → f.typ ≡ string
        → OptComma xs
        → n.typ ≡ string
        → operator_of n.val ≡ some op
        → OptComma ys
        → SpellsValue v vs
        → c.typ ≡ rparen
        → SpellsCondition
            (record { field = f.val; op = op; val = v })
            (o ∷ f ∷ (xs ++ (n ∷ (ys ++ (vs ++ (c ∷ []))))))

  pub data SpellsElement : Element F → List Token → Type 0 where
    spells_and : (t : Token) → t.typ ≡ and → SpellsElement (logic logic_and) (t ∷ [])
    spells_or : (t : Token) → t.typ ≡ or → SpellsElement (logic logic_or) (t ∷ [])
    spells_not : (t : Token) → t.typ ≡ not → SpellsElement (logic logic_not) (t ∷ [])
    spells_operand :
        (c : Condition F) (ts : List Token)
        → SpellsCondition c ts
        → SpellsElement (operand (condition c)) ts

  -- `SpellsElements first els ts`: the tokens between the brackets of a domain. A comma may stand
  -- before each element but the first, and after the last.
  pub data SpellsElements : Bool → List (Element F) → List Token → Type 0 where
    no_elements : {first : Bool} → SpellsElements first [] []
    element :
        {first : Bool} {el : Element F} {els : List (Element F)} {xs ys : List Token}
        → SpellsElement el xs
        → SpellsElements false els ys
        → SpellsElements first (el ∷ els) (xs ++ ys)
    separated_by :
        {els : List (Element F)} {ts : List Token} (t : Token)
        → t.typ ≡ comma
        → SpellsElements true els ts
        → SpellsElements false els (t ∷ ts)
