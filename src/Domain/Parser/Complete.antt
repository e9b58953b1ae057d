-- ===== src/Domain/Parser/Complete.antt =====
-- internal/acl/domain/parser.go: values that the grammar spells are parsed, whatever follows them.
use intelligent_odoo_dev_too.Prelude.{
  ℕ, zero, suc, ◌*◌, ◌≤◌, ◌<◌, ◌≡◌, refl, ap, ◌∙◌, Bool, true, false, Option, List, ◌∷◌, ◌++◌,
  append_assoc, arith, length, length-append, Bool-cases, inl, inr,
}
use intelligent_odoo_dev_too.Prelude.Text.{Bytes}
use intelligent_odoo_dev_too.Domain.Token.{
  TokenType, lbracket, rbracket, lparen, rparen, comma, string, int, float, true_word, false_word,
  none_word, ref, eof, Token, same_type, same_type_refl,
}
use intelligent_odoo_dev_too.Domain.Ast.{Value, Values, no_values, value}
use intelligent_odoo_dev_too.Domain.Parser.{ok, check, expect, consume_if, parse_value, parse_items}
use intelligent_odoo_dev_too.Domain.Parser.Grammar.{
  SpellsValue, SpellsItems, spells_string, spells_int, spells_float, spells_true, spells_false,
  spells_none, spells_ref, spells_list, spells_tuple, ends, item, separated,
}
use intelligent_odoo_dev_too.Domain.Parser.Sound.{SpellsValue-nonempty}

-- The first token is no comma, no closing bracket and not the end.
pub record Starts (ts : List Token) : Type 0 where
  pub no_comma : check comma ts ≡ false
  pub no_rbracket : check rbracket ts ≡ false
  pub no_rparen : check rparen ts ≡ false
  pub no_eof : check eof ts ≡ false

pub check-head :
    (a : TokenType) (t : Token) (ts : List Token)
    → t.typ ≡ a
    → (b : TokenType) → check b (t ∷ ts) ≡ same_type a b
unfolding check
check-head a t ts e b = ap (λ c. same_type c b) e

pub check_self : (a : TokenType) (t : Token) (ts : List Token) → t.typ ≡ a → check a (t ∷ ts) ≡ true
check_self a t ts e = check-head a t ts e a ∙ same_type_refl a

pub starts :
    (a : TokenType) (t : Token) (ts : List Token)
    → t.typ ≡ a
    → same_type a comma ≡ false
    → same_type a rbracket ≡ false
    → same_type a rparen ≡ false
    → same_type a eof ≡ false
    → Starts (t ∷ ts)
starts a t ts e c b p n = record {
  no_comma = check-head a t ts e comma ∙ c;
  no_rbracket = check-head a t ts e rbracket ∙ b;
  no_rparen = check-head a t ts e rparen ∙ p;
  no_eof = check-head a t ts e eof ∙ n;
}

data Closer : TokenType → Type 0 where
  square : Closer rbracket
  round : Closer rparen

no_closer :
    (closer : TokenType) (ts : List Token) → Closer closer → Starts ts → check closer ts ≡ false
no_closer closer ts square s = s.no_rbracket
no_closer closer ts round s = s.no_rparen

comma-no_closer :
    (closer : TokenType) (t : Token) (ts : List Token)
    → Closer closer
    → t.typ ≡ comma
    → check closer (t ∷ ts) ≡ false
unfolding same_type
comma-no_closer closer t ts square e = check-head comma t ts e rbracket
comma-no_closer closer t ts round e = check-head comma t ts e rparen

pub comma-no_eof : (t : Token) (ts : List Token) → t.typ ≡ comma → check eof (t ∷ ts) ≡ false
unfolding same_type
comma-no_eof t ts e = check-head comma t ts e eof

closer-no_eof :
    (closer : TokenType) (t : Token) (ts : List Token)
    → Closer closer
    → t.typ ≡ closer
    → check eof (t ∷ ts) ≡ false
unfolding same_type
closer-no_eof closer t ts square e = check-head rbracket t ts e eof
closer-no_eof closer t ts round e = check-head rparen t ts e eof

module _ {F : Type 0} (parse_float : Bytes → Option F) where
  pub SpellsValue-Starts :
      {v : Value F} {ts : List Token} (rest : List Token)
      → SpellsValue parse_float v ts
      → Starts (ts ++ rest)
  unfolding same_type
  SpellsValue-Starts rest (spells_string t e) = starts string t rest e refl refl refl refl
  SpellsValue-Starts rest (spells_int t n e h) = starts int t rest e refl refl refl refl
  SpellsValue-Starts rest (spells_float t f e h) = starts float t rest e refl refl refl refl
  SpellsValue-Starts rest (spells_true t e) = starts true_word t rest e refl refl refl refl
  SpellsValue-Starts rest (spells_false t e) = starts false_word t rest e refl refl refl refl
  SpellsValue-Starts rest (spells_none t e) = starts none_word t rest e refl refl refl refl
  SpellsValue-Starts rest (spells_ref t e) = starts ref t rest e refl refl refl refl
  SpellsValue-Starts rest (spells_list o vs ts e s) =
      starts lbracket o (ts ++ rest) e refl refl refl refl
  SpellsValue-Starts rest (spells_tuple o vs ts e s) =
      starts lparen o (ts ++ rest) e refl refl refl refl

  SpellsItems-nonempty :
      {closer : TokenType} {first : Bool} {vs : Values F} {ts : List Token}
      → SpellsItems parse_float closer first vs ts
      → 0 < length ts
  SpellsItems-nonempty (ends c e) = omega arith
  SpellsItems-nonempty (item {xs = xs} {ys = ys} s ss) =
      omega (arith, length-append xs ys, SpellsValue-nonempty parse_float s)
  SpellsItems-nonempty (separated t e ss) = omega arith

  SpellsItems-no_eof :
      {closer : TokenType} {vs : Values F} {ts : List Token} (rest : List Token)
      → Closer closer
      → SpellsItems parse_float closer true vs ts
      → check eof (ts ++ rest) ≡ false
  SpellsItems-no_eof {closer} rest k (ends c e) = closer-no_eof closer c rest k e
  SpellsItems-no_eof rest k (item {xs = xs} {ys = ys} s ss) =
      rw (append_assoc xs ys rest) (SpellsValue-Starts (ys ++ rest) s).no_eof

  items-end :
      (fuel : ℕ) (closer : TokenType) (first : Bool) (t : Token) (ts : List Token)
      → t.typ ≡ closer
      → parse_items parse_float (suc fuel) closer first (t ∷ ts) ≡ ok (no_values, ts)
  unfolding parse_items expect
  items-end fuel closer first t ts e = rw (check_self closer t ts e) refl

  items-item :
      (fuel : ℕ) (closer : TokenType) (first : Bool) (ts rest rest' : List Token) (v : Value F)
      (vs : Values F)
      → check closer ts ≡ false
      → Starts ts
      → parse_value parse_float fuel ts ≡ ok (v, rest)
      → parse_items parse_float fuel closer false rest ≡ ok (vs, rest')
      → parse_items parse_float (suc fuel) closer first ts ≡ ok (value v vs, rest')
  unfolding parse_items consume_if
  items-item fuel closer true ts rest rest' v vs c s a b = rw c (rw s.no_eof (rw a (rw b refl)))
  items-item fuel closer false ts rest rest' v vs c s a b =
      rw s.no_comma (rw c (rw s.no_eof (rw a (rw b refl))))

  items-comma :
      (fuel : ℕ) (closer : TokenType) (t : Token) (ts : List Token)
      → Closer closer
      → t.typ ≡ comma
      → check eof ts ≡ false
      → parse_items parse_float (suc fuel) closer false (t ∷ ts)
        ≡ parse_items parse_float (suc fuel) closer true ts
  unfolding parse_items consume_if
  items-comma fuel closer t ts k e n = rw (check_self comma t ts e) (
      rw (comma-no_closer closer t ts k e) (
        rw (comma-no_eof t ts e)
          (rw n (elim (Bool-cases (check closer ts)) [ inl c ↦ rw c refl | inr c ↦ rw c refl ]))))

  mutual
    unfolding parse_value

    pub value_complete :
        {v : Value F} {ts : List Token} (fuel : ℕ) (rest : List Token)
        → SpellsValue parse_float v ts
        → 2 * length ts ≤ fuel
        → parse_value parse_float fuel (ts ++ rest) ≡ ok (v, rest)
    value_complete zero rest s h = absurd (omega (arith, SpellsValue-nonempty parse_float s))
    value_complete (suc fuel) rest (spells_string t e) h = rw e refl
    value_complete (suc fuel) rest (spells_int t n e g) h = rw e (rw g refl)
    value_complete (suc fuel) rest (spells_float t f e g) h = rw e (rw g refl)
    value_complete (suc fuel) rest (spells_true t e) h = rw e refl
    value_complete (suc fuel) rest (spells_false t e) h = rw e refl
    value_complete (suc fuel) rest (spells_none t e) h = rw e refl
    value_complete (suc fuel) rest (spells_ref t e) h = rw e refl
    value_complete (suc fuel) rest (spells_list o vs ts e s) h =
        rw e (rw (items_complete fuel rbracket true rest square s (omega arith)) refl)
    value_complete (suc fuel) rest (spells_tuple o vs ts e s) h =
        rw e (rw (items_complete fuel rparen true rest round s (omega arith)) refl)

    items_complete :
        {vs : Values F} {ts : List Token} (fuel : ℕ) (closer : TokenType) (first : Bool)
        (rest : List Token)
        → Closer closer
        → SpellsItems parse_float closer first vs ts
        → 2 * length ts ≤ fuel
        → parse_items parse_float fuel closer first (ts ++ rest) ≡ ok (vs, rest)
    items_complete zero closer first rest k s h = absurd (omega (arith, SpellsItems-nonempty s))
    items_complete (suc fuel) closer first rest k (ends c e) h =
        items-end fuel closer first c rest e
    items_complete (suc fuel) closer first rest k (item {v = v} {vs = vs} {xs = xs} {ys = ys} s ss)
          h =
        let size = length-append xs ys in
        let some_read = SpellsValue-nonempty parse_float s in
        let more = SpellsItems-nonempty ss in
        let start = SpellsValue-Starts (ys ++ rest) s in
        rw (append_assoc xs ys rest) (
          items-item fuel closer first (xs ++ (ys ++ rest)) (ys ++ rest) rest v vs
            (no_closer closer (xs ++ (ys ++ rest)) k start) start
            (value_complete fuel (ys ++ rest) s (omega (arith, size, some_read, more, h)))
            (items_complete fuel closer false rest k ss (omega (arith, size, some_read, more, h))))
    items_complete (suc fuel) closer false rest k (separated {ts = ts} t e s) h =
        items-comma fuel closer t (ts ++ rest) k e (SpellsItems-no_eof rest k s)
        ∙ items_complete (suc fuel) closer true rest k s (omega (arith, h))
