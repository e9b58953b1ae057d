-- ===== src/Domain/Parser/Conditions.antt =====
-- internal/acl/domain/parser.go: the condition that is parsed is spelled by the tokens that are read.
use intelligent_odoo_dev_too.Prelude.{
  ◌≡◌, refl, ap, sym, ◌∙◌, Option, none, some, List, [], ◌∷◌, ◌++◌, append_assoc, arith, Bool-cases,
  inl, inr,
}
use intelligent_odoo_dev_too.Prelude.Text.{Bytes}
use intelligent_odoo_dev_too.Domain.Token.{lparen, rparen, comma, string, Token}
use intelligent_odoo_dev_too.Domain.Ast.{Operator, Condition}
use intelligent_odoo_dev_too.Domain.Parser.{
  unknown_operator, or_error, peek, check, expect, consume_if, expect_string, operator_of,
  parse_operator, parse_value, value_fuel, parse_condition,
}
use intelligent_odoo_dev_too.Domain.Parser.Grammar.{
  OptComma, no_comma, one_comma, SpellsCondition, spells_condition,
}
use intelligent_odoo_dev_too.Domain.Parser.Sound.{
  Ensures, Ensures-bind, Next, check→Next, expect-Ensures, ReadsValue, parse_value-Ensures,
}

-- A comma was consumed, or none.
consume_comma :
    (ts : List Token) → (read : List Token) × (ts ≡ read ++ consume_if comma ts) × OptComma read
unfolding consume_if
consume_comma ts = elim (Bool-cases (check comma ts)) [
  | inl e ↦
      let (c, split, typ) = check→Next comma ts (cc) e in (c ∷ [], rw e split, one_comma c typ)
  | inr e ↦ ([], rw e refl, no_comma)
]

abbrev StringNext : List Token → Bytes × List Token → Type 0
StringNext ts (val, rest) = (t : Token) × (ts ≡ t ∷ rest) × (t.typ ≡ string) × (val ≡ t.val)

expect_string-Ensures : (ts : List Token) → Ensures (StringNext ts) (expect_string ts)
unfolding expect_string
expect_string-Ensures ts = elim (Bool-cases (check string ts)) [
  | inl e ↦
      let (t, split, typ) = check→Next string ts (cc) e in
      rw e (t, split, typ, ap (λ us. (peek us).val) split)
  | inr e ↦ rw e tt
]

parse_operator-Ensures : (s : Bytes) → Ensures (λ op. operator_of s ≡ some op) (parse_operator s)
unfolding parse_operator
parse_operator-Ensures s = go (operator_of s) refl
  where
    go :
        (o : Option Operator)
        → operator_of s ≡ o
        → Ensures (λ op. operator_of s ≡ some op) (or_error o (unknown_operator s))
    go none e = tt
    go (some op) e = e

module _ {F : Type 0} (parse_float : Bytes → Option F) where
  abbrev pub ReadsCondition : List Token → Condition F × List Token → Type 0
  ReadsCondition ts (c, rest) =
      (read : List Token) × (ts ≡ read ++ rest) × SpellsCondition parse_float c read

  pub condition_tokens :
      (f n c : Token) (xs ys vs rest : List Token)
      → f ∷ (xs ++ (n ∷ (ys ++ (vs ++ (c ∷ rest)))))
        ≡ f ∷ (xs ++ (n ∷ (ys ++ (vs ++ (c ∷ []))))) ++ rest
  condition_tokens f n c xs ys vs rest = simp append_assoc

  pub parse_condition-Ensures :
      (ts : List Token) → Ensures (ReadsCondition ts) (parse_condition parse_float ts)
  unfolding parse_condition
  parse_condition-Ensures ts =
      Ensures-bind (Next lparen ts) (ReadsCondition ts) (expect lparen ts) _
        (expect-Ensures lparen ts (cc))
        λ ts₁ (o, split₁, o_typ).
          Ensures-bind (StringNext ts₁) (ReadsCondition ts) (expect_string ts₁) _
            (expect_string-Ensures ts₁)
            λ (field, ts₂) (f, split₂, f_typ, f_val).
              let (xs, split₃, comma₁) = consume_comma ts₂ in
              Ensures-bind (StringNext (consume_if comma ts₂)) (ReadsCondition ts)
                (expect_string (consume_if comma ts₂)) _
                (expect_string-Ensures (consume_if comma ts₂))
                λ (name, ts₃) (n, split₄, n_typ, n_val).
                  let (ys, split₅, comma₂) = consume_comma ts₃ in
                  Ensures-bind (λ op. operator_of name ≡ some op) (ReadsCondition ts)
                    (parse_operator name) _ (parse_operator-Ensures name)
                    λ op is_op.
                      Ensures-bind (ReadsValue parse_float (consume_if comma ts₃))
                        (ReadsCondition ts)
                        (parse_value parse_float (value_fuel (consume_if comma ts₃))
                          (consume_if comma ts₃))
                        _
                        (parse_value-Ensures parse_float (value_fuel (consume_if comma ts₃))
                          (consume_if comma ts₃) (omega arith))
                        λ (v, ts₅) (vs, split₆, spells_v).
                          Ensures-bind (Next rparen ts₅) (ReadsCondition ts) (expect rparen ts₅) _
                            (expect-Ensures rparen ts₅ (cc))
                            λ rest (c, split₇, c_typ). (
                              o ∷ f ∷ (xs ++ (n ∷ (ys ++ (vs ++ (c ∷ []))))),
                              split₁
                                  ∙ ap (◌∷◌ o) (
                                      split₂
                                      ∙ ap (◌∷◌ f) (
                                          split₃
                                          ∙ ap (λ u. xs ++ u)
                                              (split₄
                                                ∙ ap (◌∷◌ n) (
                                                    split₅
                                                    ∙ ap (λ u. ys ++ u)
                                                        (split₆ ∙ ap (λ u. vs ++ u) split₇)))))
                                  ∙ ap (◌∷◌ o) (condition_tokens f n c xs ys vs rest),
                              rw f_val (
                                  spells_condition o f n c op v xs ys vs o_typ f_typ comma₁ n_typ
                                    (ap operator_of (sym n_val) ∙ is_op) comma₂ spells_v c_typ),
                            )
