-- ===== src/Domain/Lexer/Steps.antt =====
-- internal/acl/domain/lexer.go: what each token costs of the input, and where its token is placed.
use intelligent_odoo_dev_too.Prelude.{
  ℕ, suc, ◌+◌, ◌≤◌, ◌<◌, ◌≡◌, ◌≢◌, refl, Bool, true, false, ◌||◌, List, [], ◌∷◌, ◌++◌, arith,
  length, length-append, ◌==◌, if◌then◌else◌, Bool-cases, inl, inr,
}
use intelligent_odoo_dev_too.Prelude.Text.{Bytes}
use intelligent_odoo_dev_too.Domain.Token.{TokenType, eof, float, int, Token}
use intelligent_odoo_dev_too.Domain.Lexer.{
  LexError, out_of_fuel, Result, ok, err, Lexer, emit, move_to, is_digit, is_ident_start, is_sign,
  skip_space, skip_whitespace, simple_type, lex_simple_token, StringEnd, closed, open_at_end,
  string_body, string_type, unescape, end_string, lex_string, number_body, number_from,
  is_bad_number, lex_number, lex_signed_number, ident_body, word_type, lex_ident_or_keyword,
  lex_complex_token, lex_next_token,
}

-- The errors that `errorf` makes.
abbrev pub IsOfSource : LexError → Type 0
IsOfSource out_of_fuel = ⊥
IsOfSource _ = Unit

-- A run that kept within its fuel, and whose value satisfies `P` if it has one.
abbrev pub Ends {ℓ} : {A : Type ℓ} → (A → Type 0) → Result A → Type 0
Ends P (ok a) = P a
Ends P (err e) = IsOfSource e

-- Tokens in the order of their positions, all below `p`, and none of them the end.
pub data Placed : ℕ → List Token → Type 0 where
  none_yet : {p : ℕ} → Placed p []
  placed :
      {p : ℕ} {ts : List Token} (q : ℕ) (t : Token)
      → Placed q ts
      → q ≤ t.pos
      → t.pos < p
      → t.typ ≢ eof
      → Placed p (ts ++ (t ∷ []))

pub Placed-le : {p q : ℕ} {ts : List Token} → p ≤ q → Placed p ts → Placed q ts
Placed-le h none_yet = none_yet
Placed-le h (placed k t before lo hi ne) = placed k t before lo (omega arith) ne

-- The lexer stands at `pos` of a source of `size` bytes, of which at most `left` are to come.
pub record At (size left : ℕ) (l : Lexer) : Type 0 where
  pub place : l.pos + length l.rest ≡ size
  pub fewer : length l.rest ≤ left
  pub order : Placed l.pos l.tokens

skip_space-length :
    (s : Bytes) (n : ℕ)
    → ((skip_space s n).1 + length (skip_space s n).0 ≡ n + length s) × (n ≤ (skip_space s n).1)
unfolding skip_space
skip_space-length [] n = (refl, omega arith)
skip_space-length (c ∷ s) n = ground (arith, skip_space-length s (n + 1))

pub skip_whitespace-At :
    (size left : ℕ) (l : Lexer) → At size left l → At size left (skip_whitespace l)
unfolding skip_whitespace
skip_whitespace-At size left l a = record {
  place = omega (arith, skip_space-length l.rest 0);
  fewer = omega (arith, skip_space-length l.rest 0);
  order = Placed-le (omega arith) a.order;
}

-- A token of `n` bytes is emitted, and `rest` is left.
pub emit-At :
    (size left n : ℕ) (typ : TokenType) (val rest : Bytes) (l : Lexer)
    → Placed l.pos l.tokens
    → typ ≢ eof
    → 0 < n
    → l.pos + n + length rest ≡ size
    → length rest ≤ left
    → At size left (move_to rest n (emit typ val l.pos l))
emit-At size left n typ val rest l order ne pos place fewer = record {
  place = place;
  fewer = fewer;
  order =
      placed l.pos (record { typ = typ; val = val; pos = l.pos }) order (omega arith) (omega arith)
        ne;
}

pub string_body-length :
    (quote : ℕ) (s sb : Bytes) (n : ℕ) (val rest : Bytes) (m : ℕ)
    → string_body quote s sb n ≡ closed val rest m
    → (m + length rest ≡ n + length s) × (n < m)
unfolding string_body
string_body-length quote [] sb n val rest m e = cc
string_body-length quote (ch ∷ []) sb n val rest m e = ground arith
string_body-length quote (ch ∷ next ∷ s) sb n val rest m e = ground (
  arith,
  string_body-length quote s (sb ++ unescape next) (n + 2) val rest m,
  string_body-length quote (next ∷ s) (sb ++ (ch ∷ [])) (n + 1) val rest m,
)

-- Neither the words, the strings nor the punctuation are classified as the end.
pub string_type-ne-eof : (val : Bytes) → string_type val ≢ eof
string_type-ne-eof val = ground arith

pub word_type-ne-eof : (val : Bytes) → word_type val ≢ eof
word_type-ne-eof val = ground arith

pub simple_type-ne-eof : (ch : ℕ) → simple_type ch ≢ eof
simple_type-ne-eof ch = ground arith

pub end_string-Ends :
    (size : ℕ) (s : Bytes) (l : Lexer) (r : StringEnd)
    → Placed l.pos l.tokens
    → l.pos + suc (length s) ≡ size
    → ((val rest : Bytes) (m : ℕ)
        → r ≡ closed val rest m
        → (m + length rest ≡ 1 + length s) × (1 < m))
    → Ends (At size (length s)) (end_string l r)
end_string-Ends size s l (closed val rest m) order place h =
    let (e, lt) = h val rest m refl in
    emit-At size (length s) m (string_type val) val rest l order (string_type-ne-eof val)
      (omega arith) (omega arith) (omega arith)
end_string-Ends size s l (open_at_end m) order place h = tt

number_body-length :
    (s : Bytes) (has_dot : Bool) (val : Bytes)
    → let (v, rest, _) = number_body s has_dot val in
      (length v + length rest ≡ length val + length s) × (length val ≤ length v)
unfolding number_body
number_body-length [] has_dot val = (refl, omega arith)
number_body-length (ch ∷ s) has_dot val = ground (
  arith,
  number_body-length s true (val ++ (ch ∷ [])),
  number_body-length s has_dot (val ++ (ch ∷ [])),
  length-append val (ch ∷ []),
)

number_from-length :
    (ch : ℕ) (s : Bytes)
    → (is_sign ch || (is_digit ch || ch == b'.')) ≡ true
    → let (v, rest, _) = number_from ch s in
      (length v + length rest ≡ suc (length s)) × (0 < length v)
unfolding number_body
number_from-length ch s h =
    ground (arith, number_body-length s false (ch ∷ []), number_body-length s true (ch ∷ []))

number_type-ne-eof : (b : Bool) → (if b then float else int) ≢ eof
number_type-ne-eof b = ground arith

pub lex_number-Ends :
    (size ch : ℕ) (s : Bytes) (l : Lexer)
    → (is_sign ch || (is_digit ch || ch == b'.')) ≡ true
    → Placed l.pos l.tokens
    → l.pos + suc (length s) ≡ size
    → Ends (At size (length s)) (lex_number ch s l)
unfolding lex_number
lex_number-Ends size ch s l h order place =
    let (e, lt) = number_from-length ch s h in
    let (val, left, has_dot) = number_from ch s in
    elim (Bool-cases (is_bad_number val)) [
      | inl bad ↦ rw bad tt
      | inr good ↦ rw good (
          emit-At size (length s) (length val) (if has_dot then float else int) val left l order
            (number_type-ne-eof has_dot) lt (omega arith) (omega arith))
    ]

pub ident_body-length :
    (s val : Bytes)
    → let (v, rest) = ident_body s val in
      (length v + length rest ≡ length val + length s) × (length val ≤ length v)
unfolding ident_body
ident_body-length [] val = (refl, omega arith)
ident_body-length (ch ∷ s) val =
    ground (arith, ident_body-length s (val ++ (ch ∷ [])), length-append val (ch ∷ []))

pub lex_ident_or_keyword-At :
    (size ch : ℕ) (s : Bytes) (l : Lexer)
    → is_ident_start ch ≡ true
    → Placed l.pos l.tokens
    → l.pos + suc (length s) ≡ size
    → At size (length s) (lex_ident_or_keyword ch s l)
unfolding lex_ident_or_keyword
lex_ident_or_keyword-At size ch s l h order place =
    let (e, lt) = ident_body-length s (ch ∷ []) in
    let (val, left) = ident_body s (ch ∷ []) in
    rw h (
      emit-At size (length s) (length val) (word_type val) val left l order (word_type-ne-eof val)
        (omega arith) (omega arith) (omega arith))

-- One token consumes a byte at least, and stands where it began.
pub lex_next_token-Ends :
    (size ch : ℕ) (s : Bytes) (l : Lexer)
    → Placed l.pos l.tokens
    → l.pos + suc (length s) ≡ size
    → Ends (At size (length s)) (lex_next_token ch s l)
unfolding lex_next_token lex_simple_token lex_string lex_signed_number lex_complex_token
lex_next_token-Ends size ch s l order place = ground (
  arith,
  emit-At size (length s) 1 (simple_type ch) (ch ∷ []) s l order (simple_type-ne-eof ch),
  end_string-Ends size s l (string_body ch s [] 1) order place
      (λ val rest m. string_body-length ch s [] 1 val rest m),
  lex_number-Ends size ch s l,
  lex_ident_or_keyword-At size ch s l,
)
