-- ===== src/Domain/Token.antt =====
-- internal/acl/domain/token.go: the tokens of an Odoo domain string.
use mathlib.Core.Bool.{decide}
use intelligent_odoo_dev_too.Prelude.{ℕ, ◌≡◌, ◌≢◌, Bool, true, false, arith}
use intelligent_odoo_dev_too.Prelude.Text.{Bytes}

-- `TokenType`, in the order of its constants.
pub data TokenType : Type 0 where
  lbracket rbracket lparen rparen comma string int float true_word false_word none_word : TokenType
  and or not ref eof : TokenType

pub record Token : Type 0 where
  pub typ : TokenType
  pub val : Bytes
  pub pos : ℕ

abbrev pub TokenType-discrete : Discrete TokenType
TokenType-discrete = hlevel

-- `==` on token types.
unfoldable pub same_type : TokenType → TokenType → Bool
unfolding decide
same_type a b = decide (TokenType-discrete a b)

pub same_type_refl : (a : TokenType) → same_type a a ≡ true
unfolding same_type
same_type_refl a = ground arith

pub eq_of_same_type : (a b : TokenType) → same_type a b ≡ true → a ≡ b
unfolding same_type
eq_of_same_type a b h = ground arith

pub same_type_of_ne : (a b : TokenType) → a ≢ b → same_type a b ≡ false
unfolding same_type
same_type_of_ne a b h = ground arith
