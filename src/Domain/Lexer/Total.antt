-- ===== src/Domain/Lexer/Total.antt =====
-- internal/acl/domain/lexer.go: a run of the lexer ends within its fuel, and what it leaves.
use intelligent_odoo_dev_too.Prelude.{
  ℕ, zero, suc, ◌+◌, ◌<◌, ◌≡◌, refl, ap, List, [], ◌∷◌, ◌++◌, arith, length,
}
use intelligent_odoo_dev_too.Prelude.Text.{Bytes}
use intelligent_odoo_dev_too.Domain.Token.{eof, Token}
use intelligent_odoo_dev_too.Domain.Lexer.{
  Result, ok, err, ◌>>=◌, Lexer, skip_whitespace, lex_next_token, round, after_round, run, lex,
}
use intelligent_odoo_dev_too.Domain.Lexer.Steps.{
  Ends, Placed, none_yet, Placed-le, At, skip_whitespace-At, lex_next_token-Ends,
}

-- The tokens of a whole source: some at increasing positions within it, then the end.
abbrev pub IsLexed : ℕ → List Token → Type 0
IsLexed size ts =
    (body : List Token) × (ts ≡ body ++ (record { typ = eof; val = []; pos = size } ∷ []))
    × Placed size body

Ends-bind {ℓ κ} :
    {A : Type ℓ} {B : Type κ} (P : A → Type 0) (Q : B → Type 0) (next : A → Result B)
    → ((a : A) → P a → Ends Q (next a))
    → (r : Result A) → Ends P r
    → Ends Q (r >>= next)
Ends-bind P Q next step (ok a) kept = step a kept
Ends-bind P Q next step (err e) kept = kept

round-Ends :
    (size left : ℕ) (rest : Bytes) (m : Lexer) (next : Lexer → Result Lexer)
    → At size left m
    → m.rest ≡ rest
    → ((l : Lexer)
        → At size (length l.rest) l
        → length l.rest < left
        → Ends (λ l'. IsLexed size l'.tokens) (next l))
    → Ends (λ l'. IsLexed size l'.tokens) (after_round next (round rest m))
round-Ends size left [] m next a e ih =
    let at_end : m.pos ≡ size = omega (arith, ap length e) in
    (m.tokens, rw at_end, Placed-le (omega arith) a.order)
round-Ends size left (ch ∷ rest) m next a e ih =
    Ends-bind (At size (length rest)) (λ l'. IsLexed size l'.tokens) next
      (λ l b.
        ih l (record { place = b.place; fewer = omega arith; order = b.order })
          (omega (arith, ap length e)))
      (lex_next_token ch rest m)
      (lex_next_token-Ends size ch rest m a.order (omega (arith, ap length e)))

run-Ends :
    (size fuel : ℕ) (l : Lexer)
    → At size (length l.rest) l
    → length l.rest < fuel
    → Ends (λ l'. IsLexed size l'.tokens) (run fuel l)
unfolding run
run-Ends size zero l a h = absurd (omega arith)
run-Ends size (suc fuel) l a h =
    round-Ends size (length l.rest) (skip_whitespace l).rest (skip_whitespace l) (run fuel)
      (skip_whitespace-At size (length l.rest) l a) refl
      (λ k b lt. run-Ends size fuel k b (omega arith))

-- For every source the lexer returns tokens or one of the errors of `lexer.go`: the fuel of the
-- model never runs out. What it returns is a list of tokens at strictly increasing positions
-- inside the source, none of them an end token, followed by one end token at the source's length.
pub lex-Ends : (src : Bytes) → Ends (IsLexed (length src)) (lex src)
unfolding lex
lex-Ends src =
    let start : Lexer = record { rest = src; pos = 0; tokens = [] } in
    Ends-bind (λ l. IsLexed (length src) l.tokens) (IsLexed (length src)) (λ l. ok l.tokens)
      (λ l h. h) (run (length src + 1) start)
      (run-Ends (length src) (length src + 1) start
        (record { place = omega arith; fewer = omega arith; order = none_yet }) (omega arith))
