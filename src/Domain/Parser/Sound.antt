-- ===== src/Domain/Parser/Sound.antt =====
-- internal/acl/domain/parser.go: a value that is parsed is spelled by the tokens consumed, and the
-- fuel is enough.
use intelligent_odoo_dev_too.Prelude.{
  ℕ, zero, suc, ◌*◌, ◌≤◌, ◌<◌, ◌≡◌, ◌≢◌, refl, ap, sym, ◌∙◌, Bool, true, false, ◌||◌, Option, none,
  some, List, [], ◌∷◌, ◌++◌, append_assoc, arith, length, length-append, if◌then◌else◌, Bool-cases,
  inl, inr,
}
use intelligent_odoo_dev_too.Prelude.Text.{Bytes}
use intelligent_odoo_dev_too.Domain.Token.{
  TokenType, lbracket, rbracket, lparen, rparen, comma, string, int, float, true_word, false_word,
  none_word, ref, eof, Token, eq_of_same_type,
}
use intelligent_odoo_dev_too.Domain.Ast.{Value, Values, no_values, int_value, float_value}
use intelligent_odoo_dev_too.Domain.Lexer
use intelligent_odoo_dev_too.Domain.Tree
use intelligent_odoo_dev_too.Domain.Parser.{
  ParseError, out_of_fuel, lex_error, tree_error, invalid_int, invalid_float, Result, ok, err,
  ◌>>=◌, or_error, advance, check, expect, consume_if, parse_int64, value_at, parse_value,
  parse_items,
}
use intelligent_odoo_dev_too.Domain.Parser.Grammar.{
  SpellsValue, SpellsItems, spells_string, spells_int, spells_float, spells_true, spells_false,
  spells_none, spells_ref, spells_list, spells_tuple, ends, item, separated,
}

-- An error of the source, and none of the three that say that the model's fuel ran out.
abbrev pub NotFuel : ParseError → Type 0
NotFuel out_of_fuel = ⊥
NotFuel (lex_error Lexer.out_of_fuel) = ⊥
NotFuel (tree_error Tree.out_of_fuel) = ⊥
NotFuel _ = Unit

-- A run that kept within its fuel, and whose value satisfies `P` if it has one.
abbrev pub Ensures {ℓ} : {A : Type ℓ} → (A → Type 0) → Result A → Type 0
Ensures P (ok a) = P a
Ensures P (err e) = NotFuel e

pub Ensures-bind {ℓ κ} :
    {A : Type ℓ} {B : Type κ} (P : A → Type 0) (Q : B → Type 0) (r : Result A) (f : A → Result B)
    → Ensures P r
    → ((a : A) → P a → Ensures Q (f a))
    → Ensures Q (r >>= f)
Ensures-bind P Q (ok a) f h k = k a h
Ensures-bind P Q (err e) f h k = h

pub Ensures-map {ℓ} :
    {A : Type ℓ} (P Q : A → Type 0) (r : Result A)
    → Ensures P r
    → ((a : A) → P a → Q a)
    → Ensures Q r
Ensures-map P Q (ok a) h k = k a h
Ensures-map P Q (err e) h k = h

pub Ensures-if {ℓ} :
    {A : Type ℓ} (P : A → Type 0) (b : Bool) (x y : Result A)
    → Ensures P x
    → Ensures P y
    → Ensures P (if b then x else y)
Ensures-if P true x y hx hy = hx
Ensures-if P false x y hx hy = hy

-- The next token has the type that is asked for.
abbrev pub Next : TokenType → List Token → List Token → Type 0
Next typ ts rest = (t : Token) × (ts ≡ t ∷ rest) × (t.typ ≡ typ)

pub check→Next :
    (typ : TokenType) (ts : List Token) → typ ≢ eof → check typ ts ≡ true → Next typ ts (advance ts)
unfolding check
check→Next typ [] ne h = absurd (ne (sym (eq_of_same_type eof typ h)))
check→Next typ (t ∷ ts) ne h = (t, refl, eq_of_same_type t.typ typ h)

pub expect-Ensures :
    (typ : TokenType) (ts : List Token) → typ ≢ eof → Ensures (Next typ ts) (expect typ ts)
unfolding expect
expect-Ensures typ ts ne = elim (Bool-cases (check typ ts)) [
  | inl e ↦ rw e (check→Next typ ts ne e)
  | inr e ↦ rw e tt
]

-- What the optional comma before an item leaves.
abbrev pub after_comma : Bool → List Token → List Token
after_comma first ts = if first then ts else consume_if comma ts

pub length-after_comma-le :
    (first : Bool) (ts : List Token) → length (after_comma first ts) ≤ length ts
unfolding consume_if
length-after_comma-le first [] = ground arith
length-after_comma-le first (t ∷ ts) = ground arith

module _ {F : Type 0} (parse_float : Bytes → Option F) where
  pub SpellsValue-nonempty :
      {v : Value F} {ts : List Token} → SpellsValue parse_float v ts → 0 < length ts
  SpellsValue-nonempty (spells_list o vs ts e s) = omega arith
  SpellsValue-nonempty _ = omega arith

  -- The tokens of a value, or of items, were consumed.
  abbrev pub ReadsValue : List Token → Value F × List Token → Type 0
  ReadsValue ts (v, rest) =
      (read : List Token) × (ts ≡ read ++ rest) × SpellsValue parse_float v read

  abbrev pub ReadsItems : TokenType → Bool → List Token → Values F × List Token → Type 0
  ReadsItems closer first ts (vs, rest) =
      (read : List Token) × (ts ≡ read ++ rest) × SpellsItems parse_float closer first vs read

  value_at-Ensures :
      (items : TokenType → List Token → Result (Values F × List Token)) (typ : TokenType)
      (t : Token) (ts : List Token)
      → ((closer : TokenType)
          → closer ≢ eof
          → Ensures (ReadsItems closer true ts) (items closer ts))
      → t.typ ≡ typ
      → Ensures (ReadsValue (t ∷ ts)) (value_at parse_float items typ t ts)
  value_at-Ensures items string t ts h e = (t ∷ [], refl, spells_string t e)
  value_at-Ensures items int t ts h e = with_int (parse_int64 t.val) refl
    where
      with_int :
          (o : Option _)
          → parse_int64 t.val ≡ o
          → Ensures
              (ReadsValue (t ∷ ts))
              (or_error o (invalid_int t.val) >>= λ n. ok (int_value n, ts))
      with_int none p = tt
      with_int (some n) p = (t ∷ [], refl, spells_int t n e p)
  value_at-Ensures items float t ts h e = with_float (parse_float t.val) refl
    where
      with_float :
          (o : Option F)
          → parse_float t.val ≡ o
          → Ensures
              (ReadsValue (t ∷ ts))
              (or_error o (invalid_float t.val) >>= λ f. ok (float_value f, ts))
      with_float none p = tt
      with_float (some f) p = (t ∷ [], refl, spells_float t f e p)
  value_at-Ensures items true_word t ts h e = (t ∷ [], refl, spells_true t e)
  value_at-Ensures items false_word t ts h e = (t ∷ [], refl, spells_false t e)
  value_at-Ensures items none_word t ts h e = (t ∷ [], refl, spells_none t e)
  value_at-Ensures items ref t ts h e = (t ∷ [], refl, spells_ref t e)
  value_at-Ensures items lbracket t ts h e =
      Ensures-bind (ReadsItems rbracket true ts) (ReadsValue (t ∷ ts)) (items rbracket ts) _
        (h rbracket (cc))
        λ (vs, rest) (read, split, s). (t ∷ read, ap (◌∷◌ t) split, spells_list t vs read e s)
  value_at-Ensures items lparen t ts h e =
      Ensures-bind (ReadsItems rparen true ts) (ReadsValue (t ∷ ts)) (items rparen ts) _
        (h rparen (cc))
        λ (vs, rest) (read, split, s). (t ∷ read, ap (◌∷◌ t) split, spells_tuple t vs read e s)
  value_at-Ensures items _ t ts h e = tt

  -- The end of a list of items.
  expect-closer :
      (closer : TokenType) (first : Bool) (ts : List Token)
      → closer ≢ eof
      → Ensures (ReadsItems closer first ts) (expect closer ts >>= λ rest. ok (no_values, rest))
  expect-closer closer first ts ne =
      Ensures-bind (Next closer ts) (ReadsItems closer first ts) (expect closer ts) _
        (expect-Ensures closer ts ne) λ rest (t, split, e). (t ∷ [], split, ends t e)

  -- Items that were read after it were read before it.
  after_comma-Reads :
      (closer : TokenType) (first : Bool) (ts : List Token) (r : Result (Values F × List Token))
      → ((f : Bool) → Ensures (ReadsItems closer f (after_comma first ts)) r)
      → Ensures (ReadsItems closer first ts) r
  unfolding consume_if
  after_comma-Reads closer true ts r h = h true
  after_comma-Reads closer false ts r h = elim (Bool-cases (check comma ts)) [
    | inl e ↦
        let (c, split, comma_typ) = check→Next comma ts (cc) e in
        Ensures-map (ReadsItems closer true (advance ts)) (ReadsItems closer false ts) r
          (rw e at (h true))
          λ (vs, rest) (read, split', s).
            (c ∷ read, split ∙ ap (◌∷◌ c) split', separated c comma_typ s)
    | inr e ↦ rw e at (h false)
  ]

  mutual
    unfolding parse_value

    pub parse_value-Ensures :
        (fuel : ℕ) (ts : List Token)
        → 2 * length ts < fuel
        → Ensures (ReadsValue ts) (parse_value parse_float fuel ts)
    parse_value-Ensures zero ts h = absurd (omega arith)
    parse_value-Ensures (suc fuel) [] h = tt
    parse_value-Ensures (suc fuel) (t ∷ ts) h =
        value_at-Ensures (λ closer rest. parse_items parse_float fuel closer true rest) t.typ t ts
          (λ closer ne. parse_items-Ensures fuel closer true ts ne (omega arith)) refl

    pub parse_items-Ensures :
        (fuel : ℕ) (closer : TokenType) (first : Bool) (ts : List Token)
        → closer ≢ eof
        → suc (2 * length ts) < fuel
        → Ensures (ReadsItems closer first ts) (parse_items parse_float fuel closer first ts)
    parse_items-Ensures zero closer first ts ne h = absurd (omega arith)
    parse_items-Ensures (suc fuel) closer first ts ne h =
        Ensures-if (ReadsItems closer first ts) (check closer ts || check eof ts) _ _
          (expect-closer closer first ts ne)
          (after_comma-Reads closer first ts _ λ f.
            Ensures-if (ReadsItems closer f (after_comma first ts))
              (check closer (after_comma first ts)) _ _
              (expect-closer closer f (after_comma first ts) ne)
              (Ensures-bind (ReadsValue (after_comma first ts))
                (ReadsItems closer f (after_comma first ts))
                (parse_value parse_float fuel (after_comma first ts)) _
                (parse_value-Ensures fuel (after_comma first ts)
                  (omega (arith, length-after_comma-le first ts)))
                λ (v, rest) (read, split, s).
                  Ensures-bind (ReadsItems closer false rest)
                    (ReadsItems closer f (after_comma first ts))
                    (parse_items parse_float fuel closer false rest) _
                    (parse_items-Ensures fuel closer false rest ne (
                      omega (
                        arith,
                        length-after_comma-le first ts,
                        ap length split,
                        length-append read rest,
                        SpellsValue-nonempty s,
                      )))
                    λ (vs, rest') (read', split', s'). (
                      read ++ read',
                      split ∙ ap (λ u. read ++ u) split' ∙ sym (append_assoc read read' rest'),
                      item s s',
                    )))
