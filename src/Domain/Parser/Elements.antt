-- ===== src/Domain/Parser/Elements.antt =====
-- internal/acl/domain/parser.go: a domain that is parsed is spelled by its tokens, its tree is the
-- tree of its elements, and the fuel is enough for every source.
use intelligent_odoo_dev_too.Prelude.{
  ℕ, zero, suc, ◌+◌, ◌<◌, ◌≡◌, refl, ap, sym, ◌∙◌, Bool, true, false, ◌||◌, Option, List, [], ◌∷◌,
  ◌++◌, append_assoc, arith, length, length-append, Bool-cases, inl, inr,
}
use intelligent_odoo_dev_too.Prelude.Text.{Bytes}
use intelligent_odoo_dev_too.Domain.Token.{
  TokenType, lbracket, rbracket, lparen, comma, and, or, not, eof, Token,
}
use intelligent_odoo_dev_too.Domain.Ast.{Condition, Node, match_all}
use intelligent_odoo_dev_too.Domain.Lexer
use intelligent_odoo_dev_too.Domain.Lexer.{lex}
use intelligent_odoo_dev_too.Domain.Lexer.Steps.{Ends}
use intelligent_odoo_dev_too.Domain.Lexer.Total.{IsLexed, lex-Ends}
use intelligent_odoo_dev_too.Domain.Tree
use intelligent_odoo_dev_too.Domain.Tree.{Element, logic, operand, build_tree, insert_implicit_and}
use intelligent_odoo_dev_too.Domain.Tree.Prefix.{Prefix}
use intelligent_odoo_dev_too.Domain.Tree.Implicit.{Whole, build_tree-Whole}
use intelligent_odoo_dev_too.Domain.Parser.{
  Result, ◌>>=◌, advance, check, expect, consume_if, parse_condition, element_at, parse_element,
  parse_elements, tree_of, from_tree, parse_domain, from_lexer, parse,
}
use intelligent_odoo_dev_too.Domain.Parser.Grammar.{
  SpellsCondition, spells_condition, SpellsElement, spells_and, spells_or, spells_not,
  spells_operand, SpellsElements, no_elements, element, separated_by,
}
use intelligent_odoo_dev_too.Domain.Parser.Sound.{
  Ensures, Ensures-bind, Ensures-map, Ensures-if, Next, check→Next, expect-Ensures, after_comma,
  length-after_comma-le,
}
use intelligent_odoo_dev_too.Domain.Parser.Conditions.{ReadsCondition, parse_condition-Ensures}

module _ {F : Type 0} (parse_float : Bytes → Option F) where
  abbrev ReadsElement : List Token → Element F × List Token → Type 0
  ReadsElement ts (el, rest) =
      (read : List Token) × (ts ≡ read ++ rest)
      × (0 < length read)
      × SpellsElement parse_float el read

  SpellsCondition-nonempty :
      {c : Condition F} {ts : List Token} → SpellsCondition parse_float c ts → 0 < length ts
  SpellsCondition-nonempty (spells_condition o f n c op v xs ys vs _ _ _ _ _ _ _ _) = omega arith

  element_at-Ensures :
      (typ : TokenType) (t : Token) (ts : List Token)
      → t.typ ≡ typ
      → Ensures (ReadsElement (t ∷ ts)) (element_at parse_float typ (t ∷ ts))
  element_at-Ensures and t ts e = (t ∷ [], refl, omega arith, spells_and t e)
  element_at-Ensures or t ts e = (t ∷ [], refl, omega arith, spells_or t e)
  element_at-Ensures not t ts e = (t ∷ [], refl, omega arith, spells_not t e)
  element_at-Ensures lparen t ts e =
      Ensures-bind (ReadsCondition parse_float (t ∷ ts)) (ReadsElement (t ∷ ts))
        (parse_condition parse_float (t ∷ ts)) _ (parse_condition-Ensures parse_float (t ∷ ts))
        λ (c, rest) (read, split, s).
          (read, split, SpellsCondition-nonempty s, spells_operand c read s)
  element_at-Ensures _ t ts e = tt

  parse_element-Ensures :
      (ts : List Token) → Ensures (ReadsElement ts) (parse_element parse_float ts)
  unfolding parse_element
  parse_element-Ensures [] = tt
  parse_element-Ensures (t ∷ ts) = element_at-Ensures t.typ t ts refl

  abbrev ReadsElements : Bool → List Token → List (Element F) × List Token → Type 0
  ReadsElements first ts (els, rest) =
      (read : List Token) × (ts ≡ read ++ rest) × SpellsElements parse_float first els read

  after_comma-ReadsElements :
      (first : Bool) (ts : List Token) (r : Result (List (Element F) × List Token))
      → ((f : Bool) → Ensures (ReadsElements f (after_comma first ts)) r)
      → Ensures (ReadsElements first ts) r
  unfolding consume_if
  after_comma-ReadsElements true ts r h = h true
  after_comma-ReadsElements false ts r h = elim (Bool-cases (check comma ts)) [
    | inl e ↦
        let (c, split, comma_typ) = check→Next comma ts (cc) e in
        Ensures-map (ReadsElements true (advance ts)) (ReadsElements false ts) r (rw e at (h true))
          λ (els, rest) (read, split', s).
            (c ∷ read, split ∙ ap (◌∷◌ c) split', separated_by c comma_typ s)
    | inr e ↦ rw e at (h false)
  ]

  pub parse_elements-Ensures :
      (fuel : ℕ) (first : Bool) (ts : List Token)
      → length ts < fuel
      → Ensures (ReadsElements first ts) (parse_elements parse_float fuel first ts)
  unfolding parse_elements
  parse_elements-Ensures zero first ts h = absurd (omega arith)
  parse_elements-Ensures (suc fuel) first ts h =
      Ensures-if (ReadsElements first ts) (check rbracket ts || check eof ts) _ _
        ([], refl, no_elements)
        (after_comma-ReadsElements first ts _ λ f.
          Ensures-if (ReadsElements f (after_comma first ts))
            (check rbracket (after_comma first ts)) _ _ ([], refl, no_elements)
            (Ensures-bind (ReadsElement (after_comma first ts))
              (ReadsElements f (after_comma first ts))
              (parse_element parse_float (after_comma first ts)) _
              (parse_element-Ensures (after_comma first ts))
              λ (el, rest) (read, split, some_read, s).
                Ensures-bind (ReadsElements false rest) (ReadsElements f (after_comma first ts))
                  (parse_elements parse_float fuel false rest) _
                  (parse_elements-Ensures fuel false rest (
                    omega (
                      arith,
                      length-after_comma-le first ts,
                      ap length split,
                      length-append read rest,
                    )))
                  λ (els, rest') (read', split', s'). (
                    read ++ read',
                    split ∙ ap (λ u. read ++ u) split' ∙ sym (append_assoc read read' rest'),
                    element s s',
                  )))

  -- The tree of the elements of a domain: the one of the empty domain, or the one that the
  -- elements, with the implicit `&` in front, are in prefix notation.
  pub data TreeOf : List (Element F) → Node F → Type 0 where
    empty_domain : TreeOf [] match_all
    prefix_tree :
        {el : Element F} {els : List (Element F)} {n : Node F}
        → Prefix n (insert_implicit_and (el ∷ els))
        → TreeOf (el ∷ els) n

  tree_of-Ensures : (els : List (Element F)) → Ensures (TreeOf els) (tree_of parse_float els)
  tree_of-Ensures [] = empty_domain
  tree_of-Ensures (el ∷ els) = go (build_tree (el ∷ els)) (build_tree-Whole (el ∷ els))
    where
      go :
          (r : Tree.Result (Node F))
          → Whole (insert_implicit_and (el ∷ els)) r
          → Ensures (TreeOf (el ∷ els)) (from_tree parse_float r)
      go (Tree.ok n) w = prefix_tree w
      go (Tree.err Tree.out_of_fuel) w = w
      go (Tree.err _) w = tt

  -- The tokens of a domain: `[`, its elements, `]`, and whatever follows.
  pub record ReadsDomain (ts : List Token) (n : Node F) : Type 0 where
    pub opening : Token
    pub body : List Token
    pub closing : Token
    pub rest : List Token
    pub elements : List (Element F)
    pub split : ts ≡ opening ∷ (body ++ (closing ∷ rest))
    pub opens : opening.typ ≡ lbracket
    pub closes : closing.typ ≡ rbracket
    pub spells : SpellsElements parse_float true elements body
    pub tree : TreeOf elements n

  pub parse_domain-Ensures :
      (ts : List Token) → Ensures (ReadsDomain ts) (parse_domain parse_float ts)
  unfolding parse_domain
  parse_domain-Ensures ts =
      Ensures-bind (Next lbracket ts) (ReadsDomain ts) (expect lbracket ts) _
        (expect-Ensures lbracket ts (cc))
        λ ts₁ (o, split₁, o_typ).
          Ensures-bind (ReadsElements true ts₁) (ReadsDomain ts)
            (parse_elements parse_float (length ts₁ + 1) true ts₁) _
            (parse_elements-Ensures (length ts₁ + 1) true ts₁ (omega arith))
            λ (els, ts₂) (body, split₂, s).
              Ensures-bind (Next rbracket ts₂) (ReadsDomain ts) (expect rbracket ts₂) _
                (expect-Ensures rbracket ts₂ (cc))
                λ rest (c, split₃, c_typ).
                  Ensures-map (TreeOf els) (ReadsDomain ts) (tree_of parse_float els)
                    (tree_of-Ensures els)
                    λ n t. record {
                      opening = o;
                      body = body;
                      closing = c;
                      rest = rest;
                      elements = els;
                      split = split₁ ∙ ap (◌∷◌ o) (split₂ ∙ ap (λ u. body ++ u) split₃);
                      opens = o_typ;
                      closes = c_typ;
                      spells = s;
                      tree = t;
                    }

  -- What `Parse` returns for a source: one of the errors of the source, or a tree with the tokens
  -- that it was read from.
  abbrev pub ReadsSource : Bytes → Node F → Type 0
  ReadsSource src n = (ts : List Token) × (lex src ≡ Lexer.ok ts) × ReadsDomain ts n

  -- `Parse` never runs out of the model's fuel; and a tree that it returns is spelled by the first of
  -- the source's tokens.
  pub parse-Ensures : (src : Bytes) → Ensures (ReadsSource src) (parse parse_float src)
  unfolding parse
  parse-Ensures src = go (lex src) refl (lex-Ends src)
    where
      go :
          (r : Lexer.Result (List Token))
          → lex src ≡ r
          → Ends (IsLexed (length src)) r
          → Ensures (ReadsSource src) (from_lexer parse_float r >>= parse_domain parse_float)
      go (Lexer.ok ts) e h =
          Ensures-map (ReadsDomain ts) (ReadsSource src) (parse_domain parse_float ts)
            (parse_domain-Ensures ts) λ n d. (ts, e, d)
      go (Lexer.err Lexer.out_of_fuel) e h = h
      go (Lexer.err _) e h = tt
