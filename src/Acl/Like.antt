-- ===== src/Acl/Like.antt =====
-- internal/acl/domain_evaluator.go, `matchLike`: SQL LIKE by dynamic programming. A row of the
-- table is computed from the row above it alone, so the model keeps one row.
use intelligent_odoo_dev_too.Prelude.{
  ℕ, Bool, true, false, ◌&&◌, ◌||◌, List, [], ◌∷◌, ◌==◌, if◌then◌else◌,
}
use intelligent_odoo_dev_too.Prelude.Text.{Bytes}
pub mod Spec
pub mod Correct

abbrev pub percent : ℕ
percent = b'%'

abbrev pub underscore : ℕ
underscore = b'_'

-- `dp[0][1..]`: what is above on the left is copied along the leading `%`, and the loop breaks at
-- the first other byte.
unfoldable pub all_false : Bytes → List Bool
all_false [] = []
all_false (_ ∷ p) = false ∷ all_false p

unfoldable pub leading : Bool → Bytes → List Bool
leading left [] = []
leading left (c ∷ p) = if c == percent then left ∷ leading left p else all_false (c ∷ p)

-- `dp[i][j]` from `dp[i-1][j-1]`, `dp[i-1][j]` and `dp[i][j-1]`.
abbrev pub cell : ℕ → ℕ → Bool → Bool → Bool → Bool
cell c p above_left above left =
    if p == percent
    then above || left
    else if p == underscore
    then above_left
    else above_left && c == p

-- `dp[i][1..]` for the byte `c` of the text, given the row above.
unfoldable pub cells : ℕ → Bool → List Bool → Bytes → List Bool
cells c left (above_left ∷ above ∷ row) (p ∷ ps) =
    let here = cell c p above_left above left in here ∷ cells c here (above ∷ row) ps
cells c left row ps = []

unfoldable pub rows : Bytes → List Bool → Bytes → List Bool
rows pattern row [] = row
rows pattern row (c ∷ s) = rows pattern (false ∷ cells c false row pattern) s

-- `dp[sLen][pLen]`.
unfoldable pub last_cell : List Bool → Bool
last_cell [] = false
last_cell (b ∷ []) = b
last_cell (b ∷ d ∷ row) = last_cell (d ∷ row)

-- `matchLike`.
unfoldable pub match_like : Bytes → Bytes → Bool
unfolding rows cells leading all_false last_cell
match_like s pattern = last_cell (rows pattern (true ∷ leading true pattern) s)
