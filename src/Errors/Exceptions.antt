-- ===== src/Errors/Exceptions.antt =====
-- internal/agent/errors/event.go: the type of an error, from a message or a traceback.
use intelligent_odoo_dev_too.Prelude.{
  ℕ, Bool, true, false, ◌&&◌, ◌||◌, Option, none, some, List, [], ◌∷◌, reverse, all, if◌then◌else◌,
  ◌==◌, leb,
}
use intelligent_odoo_dev_too.Prelude.Text.{Bytes, codes, has_prefix, cut, split_at}
use intelligent_odoo_dev_too.Errors.Signature.{Library, newline, is_digit, trim_space, is_empty}

-- `isIdentifier`.
abbrev pub is_word : ℕ → Bool
is_word c =
    (leb b'a' c && leb c b'z') || (leb b'A' c && leb c b'Z') || is_digit c || c == b'_' || c == b'.'

abbrev pub is_identifier : Bytes → Bool
is_identifier [] = false
is_identifier (c ∷ s) = all is_word (c ∷ s)

abbrev pub unknown_error : Bytes
unknown_error = codes "UnknownError"

-- What stands before and after the first `": "`, if what stands before it is an identifier.
unfoldable pub class_of : Bytes → Option (Bytes × Bytes)
unfolding cut
class_of line = elim (cut (codes ": ") line) [
  | none ↦ none
  | some (candidate, rest) ↦ if is_identifier candidate then some (candidate, rest) else none
]

-- `ParseErrorType`, on the trimmed lines from the last one on.
abbrev pub last_type : Bool → Bytes → Option (Bytes × Bytes) → Bytes
last_type is_last line (some (candidate, _)) = candidate
last_type is_last line none = if is_last || is_identifier line then line else unknown_error

abbrev pub error_type_from : Library → Bool → List Bytes → Bytes
error_type_from lib is_last [] = unknown_error
error_type_from lib is_last (l ∷ lines) =
    let rest = error_type_from lib false lines in
    let line = trim_space lib l in
    if is_empty line then rest else last_type is_last line (class_of line)

unfoldable pub parse_error_type : Library → Bytes → Bytes
unfolding split_at class_of
parse_error_type lib message =
    error_type_from lib true (reverse (split_at newline (trim_space lib message)))

-- `ParseExceptionLine`, on the same lines.
abbrev pub is_chain_mark : Bytes → Bool
is_chain_mark line =
    has_prefix (codes "During handling of") line || has_prefix (codes "The above exception") line

abbrev pub last_exception : Bytes → Option (Bytes × Bytes) → Bytes × Bytes
last_exception line (some found) = found
last_exception line none = if is_identifier line then (line, []) else (unknown_error, line)

abbrev pub exception_from : Library → List Bytes → Bytes × Bytes
exception_from lib [] = (unknown_error, [])
exception_from lib (l ∷ lines) =
    let rest = exception_from lib lines in
    let line = trim_space lib l in
    if is_empty line || is_chain_mark line then rest else last_exception line (class_of line)

unfoldable pub parse_exception_line : Library → Bytes → Bytes × Bytes
unfolding split_at class_of
parse_exception_line lib traceback =
    exception_from lib (reverse (split_at newline (trim_space lib traceback)))
