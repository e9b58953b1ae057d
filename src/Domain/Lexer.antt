-- ===== src/Domain/Lexer.antt =====
-- internal/acl/domain/lexer.go: an Odoo domain string to tokens. The lexer's state holds the bytes
-- that are left, `src[pos:]`, in place of the whole source, beside the position. The main loop runs
-- on fuel; each round consumes a byte at least, so one unit for each byte and one more is enough.
use intelligent_odoo_dev_too.Prelude.{
  ℕ, zero, suc, ◌+◌, ◌≡◌, refl, Bool, true, false, ◌&&◌, ◌||◌, List, [], ◌∷◌, ◌++◌, leb, ◌==◌,
  if◌then◌else◌, length,
}
use intelligent_odoo_dev_too.Prelude.Text.{Bytes, codes, eqb}
use intelligent_odoo_dev_too.Domain.Token.{
  TokenType, lbracket, rbracket, lparen, rparen, comma, string, int, float, true_word, false_word,
  none_word, and, or, not, ref, eof, Token,
}
pub mod Steps
pub mod Total

-- The errors that `errorf` makes, with the position and the values that they show.
-- `out_of_fuel` belongs to the model only.
pub data LexError : Type 0 where
  unexpected_character : ℕ → ℕ → LexError
  unterminated_string : ℕ → ℕ → LexError
  invalid_number : ℕ → Bytes → ℕ → LexError
  out_of_fuel : LexError

pub data Result {ℓ} (A : Type ℓ) : Type ℓ where
  ok : A → Result A
  err : LexError → Result A

infixl 5 ◌>>=◌
abbrev pub ◌>>=◌ {ℓ κ} : {A : Type ℓ} {B : Type κ} → Result A → (A → Result B) → Result B
ok a >>= f = f a
err e >>= f = err e

-- `Lexer`, with `src[pos:]` for `src`.
pub record Lexer : Type 0 where
  pub rest : Bytes
  pub pos : ℕ
  pub tokens : List Token

abbrev pub backslash : ℕ
backslash = 92

abbrev pub quote1 : ℕ
quote1 = 39

abbrev pub quote2 : ℕ
quote2 = 34

abbrev pub is_digit : ℕ → Bool
is_digit c = leb b'0' c && leb c b'9'

abbrev pub is_ident_start : ℕ → Bool
is_ident_start c = (leb b'a' c && leb c b'z') || (leb b'A' c && leb c b'Z') || c == b'_'

abbrev pub is_ident_part : ℕ → Bool
is_ident_part c = is_ident_start c || is_digit c

-- `unicode.IsSpace` on a byte: tab to carriage return, space, U+0085 and U+00A0.
abbrev pub is_space : ℕ → Bool
is_space c = (leb 9 c && leb c 13) || c == 32 || c == 0x85 || c == 0xA0

-- `emit`, and the move of `pos` past `n` bytes, with what is left after them.
abbrev pub emit : TokenType → Bytes → ℕ → Lexer → Lexer
emit typ val pos l = record l {
  tokens = l.tokens ++ (record { typ = typ; val = val; pos = pos } ∷ []);
}

abbrev pub move_to : Bytes → ℕ → Lexer → Lexer
move_to rest n l = record l { rest = rest; pos = l.pos + n }

-- `skipWhitespace`.
unfoldable pub skip_space : Bytes → ℕ → Bytes × ℕ
skip_space [] n = ([], n)
skip_space (c ∷ rest) n =
    let more = skip_space rest (n + 1) in if is_space c then more else (c ∷ rest, n)

unfoldable pub skip_whitespace : Lexer → Lexer
skip_whitespace l = let (rest, n) = skip_space l.rest 0 in move_to rest n l

-- `lexSimpleToken`, at one of the five punctuation bytes.
abbrev pub simple_type : ℕ → TokenType
simple_type ch =
    if ch == b'['
    then lbracket
    else if ch == b']'
    then rbracket
    else if ch == b'('
    then lparen
    else if ch == b')'
    then rparen
    else comma

unfoldable pub lex_simple_token : ℕ → Bytes → Lexer → Lexer
lex_simple_token ch rest l = move_to rest 1 (emit (simple_type ch) (ch ∷ []) l.pos l)

-- The bytes that a backslash and `next` stand for.
abbrev pub unescape : ℕ → Bytes
unescape next =
    if next == b'n'
    then 10 ∷ []
    else if next == b't'
    then 9 ∷ []
    else if next == backslash || next == quote1 || next == quote2
    then next ∷ []
    else backslash ∷ next ∷ []

-- The loop of `lexString`: the value, the bytes after the closing quote, and how many bytes were
-- read. `sb` is the builder. At the end of the input it stops with the count alone.
pub data StringEnd : Type 0 where
  closed : Bytes → Bytes → ℕ → StringEnd
  open_at_end : ℕ → StringEnd

unfoldable pub string_body : ℕ → Bytes → Bytes → ℕ → StringEnd
string_body quote [] sb n = open_at_end n
string_body quote (ch ∷ []) sb n = if ch == quote then closed sb [] (n + 1) else open_at_end (n + 1)
string_body quote (ch ∷ next ∷ rest) sb n =
    let escaped = string_body quote rest (sb ++ unescape next) (n + 2) in
    let plain = string_body quote (next ∷ rest) (sb ++ (ch ∷ [])) (n + 1) in
    if ch == backslash
    then escaped
    else if ch == quote
    then closed sb (next ∷ rest) (n + 1)
    else plain

-- The type of a string token: an operator if the value is one.
abbrev pub string_type : Bytes → TokenType
string_type val =
    if eqb val (b'&' ∷ [])
    then and
    else if eqb val (b'|' ∷ [])
    then or
    else if eqb val (b'!' ∷ [])
    then not
    else string

-- `lexString`, after the opening quote.
abbrev end_string : Lexer → StringEnd → Result Lexer
end_string l (closed val rest n) = ok (move_to rest n (emit (string_type val) val l.pos l))
end_string l (open_at_end n) = err (unterminated_string (l.pos + n) l.pos)

unfoldable pub lex_string : ℕ → Bytes → Lexer → Result Lexer
lex_string quote rest l = end_string l (string_body quote rest [] 1)

-- The loop of `lexNumber`: the bytes read, those left, and `hasDot`.
unfoldable pub number_body : Bytes → Bool → Bytes → Bytes × Bytes × Bool
number_body [] has_dot val = (val, [], has_dot)
number_body (ch ∷ rest) has_dot val =
    let after_dot = number_body rest true (val ++ (ch ∷ [])) in
    let after_digit = number_body rest has_dot (val ++ (ch ∷ [])) in
    if ch == b'.'
    then (if has_dot then (val, ch ∷ rest, has_dot) else after_dot)
    else if is_digit ch
    then after_digit
    else (val, ch ∷ rest, has_dot)

abbrev pub is_sign : ℕ → Bool
is_sign ch = ch == b'-' || ch == b'+'

-- `val` is one of `.`, `-`, `+`, `-.` and `+.`.
abbrev pub is_bad_number : Bytes → Bool
is_bad_number val =
    eqb val (codes ".")
    || eqb val (codes "-")
    || eqb val (codes "+")
    || eqb val (codes "-.")
    || eqb val (codes "+.")

-- `lexNumber` at the byte `ch`.
abbrev number_from : ℕ → Bytes → Bytes × Bytes × Bool
number_from ch rest =
    if is_sign ch then number_body rest false (ch ∷ []) else number_body (ch ∷ rest) false []

unfoldable pub lex_number : ℕ → Bytes → Lexer → Result Lexer
lex_number ch rest l =
    let (val, left, has_dot) = number_from ch rest in
    if is_bad_number val
    then err (invalid_number (l.pos + length val) val l.pos)
    else ok (move_to left (length val) (emit (if has_dot then float else int) val l.pos l))

-- `lexSignedNumber` at a sign.
abbrev starts_number : Bytes → Bool
starts_number [] = false
starts_number (ch ∷ _) = is_digit ch || ch == b'.'

unfoldable pub lex_signed_number : ℕ → Bytes → Lexer → Result Lexer
unfolding lex_number
lex_signed_number ch rest l =
    if starts_number rest then lex_number ch rest l else err (unexpected_character l.pos ch)

-- The loop of `lexIdentOrKeyword`.
unfoldable pub ident_body : Bytes → Bytes → Bytes × Bytes
ident_body [] val = (val, [])
ident_body (ch ∷ rest) val =
    let more = ident_body rest (val ++ (ch ∷ [])) in
    if is_ident_part ch || ch == b'.' then more else (val, ch ∷ rest)

abbrev pub word_type : Bytes → TokenType
word_type val =
    if eqb val (codes "True")
    then true_word
    else if eqb val (codes "False")
    then false_word
    else if eqb val (codes "None")
    then none_word
    else ref

-- `lexIdentOrKeyword` at the byte `ch`.
unfoldable pub lex_ident_or_keyword : ℕ → Bytes → Lexer → Lexer
unfolding ident_body
lex_ident_or_keyword ch rest l =
    let (val, left) = ident_body (ch ∷ rest) [] in
    move_to left (length val) (emit (word_type val) val l.pos l)

-- `lexComplexToken`.
unfoldable pub lex_complex_token : ℕ → Bytes → Lexer → Result Lexer
lex_complex_token ch rest l =
    if is_digit ch || ch == b'.'
    then lex_number ch rest l
    else if is_ident_start ch
    then ok (lex_ident_or_keyword ch rest l)
    else err (unexpected_character l.pos ch)

-- `lexNextToken` at the byte `ch`.
unfoldable pub lex_next_token : ℕ → Bytes → Lexer → Result Lexer
lex_next_token ch rest l =
    if ch == b'[' || ch == b']' || ch == b'(' || ch == b')' || ch == b','
    then ok (lex_simple_token ch rest l)
    else if ch == quote1 || ch == quote2
    then lex_string ch rest l
    else if is_sign ch
    then lex_signed_number ch rest l
    else lex_complex_token ch rest l

-- One round of `run` after the whitespace: the end of the input, or a token.
pub data Round : Type 0 where
  finished : Lexer → Round
  going : Result Lexer → Round

abbrev pub round : Bytes → Lexer → Round
round [] l = finished (emit eof [] l.pos l)
round (ch ∷ rest) l = going (lex_next_token ch rest l)

abbrev pub after_round : (Lexer → Result Lexer) → Round → Result Lexer
after_round next (finished l) = ok l
after_round next (going r) = r >>= next

-- `run`.
unfoldable pub run : ℕ → Lexer → Result Lexer
run zero l = err out_of_fuel
run (suc fuel) l = let l' = skip_whitespace l in after_round (run fuel) (round l'.rest l')

-- `Lex`.
unfoldable pub lex : Bytes → Result (List Token)
unfolding run skip_whitespace skip_space lex_next_token lex_simple_token lex_string string_body
    lex_signed_number lex_complex_token lex_number number_body lex_ident_or_keyword
lex src = do l ← run (length src + 1) (record { rest = src; pos = 0; tokens = [] }); ok l.tokens
