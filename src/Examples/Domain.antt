-- ===== src/Examples/Domain.antt =====
-- internal/acl/domain on concrete domains.
use intelligent_odoo_dev_too.Prelude.{◌≡◌, ◌↔◌, refl, List, [], ◌∷◌, length}
use intelligent_odoo_dev_too.Prelude.Int.{ℤ, pos}
use intelligent_odoo_dev_too.Prelude.Text.{Bytes, codes}
use intelligent_odoo_dev_too.Domain.Token.{same_type}
use intelligent_odoo_dev_too.Domain.Ast.{
  op_equal, op_greater, logic_and, logic_or, int_value, ref_value, Node, condition, bool_op,
  no_nodes, node, match_all,
}
use intelligent_odoo_dev_too.Domain.Lexer.{lex}
use intelligent_odoo_dev_too.Domain.Lexer.Steps.{Ends}
use intelligent_odoo_dev_too.Domain.Lexer.Total.{IsLexed, lex-Ends}
use intelligent_odoo_dev_too.Domain.Tree
use intelligent_odoo_dev_too.Domain.Tree.{Element, logic, operand, build_tree, insert_implicit_and}
use intelligent_odoo_dev_too.Domain.Tree.Prefix.{Prefix, leaf, binary, or_binary}
use intelligent_odoo_dev_too.Domain.Tree.Implicit.{build_tree_iff}
use intelligent_odoo_dev_too.Domain.Tree.Juxtaposed.{
  SideBySide, none_left, beside, conjoin, build_tree-conjoin,
}
use intelligent_odoo_dev_too.Domain.Parser
use intelligent_odoo_dev_too.Domain.Parser.{parse, parse_int64}
use intelligent_odoo_dev_too.Domain.Parser.Sound.{Ensures}
use intelligent_odoo_dev_too.Domain.Parser.Elements.{ReadsSource}
use intelligent_odoo_dev_too.Domain.Parser.Accepts.{parse_iff}

abbrev owned_adults : Bytes
owned_adults = codes "[('user_id', '=', user.id), ('age', '>', 18)]"

abbrev owned : Node ℤ
owned =
    condition (record { field = codes "user_id"; op = op_equal; val = ref_value (codes "user.id") })

abbrev adult : Node ℤ
adult = condition (record { field = codes "age"; op = op_greater; val = int_value (pos 18) })

parse_test :
    parse parse_int64 owned_adults
    ≡ Parser.ok (bool_op logic_and (node owned (node adult no_nodes)))
unfolding parse same_type
parse_test = refl

-- What follows the closing bracket is ignored.
trailing_test : parse parse_int64 (codes "[] garbage") ≡ Parser.ok match_all
unfolding parse same_type
trailing_test = refl

parse_iff_example :
    Ensures (ReadsSource parse_int64 owned_adults) (parse parse_int64 owned_adults)
    × ((n : Node ℤ)
        → (parse parse_int64 owned_adults ≡ Parser.ok n) ↔ ReadsSource parse_int64 owned_adults n)
parse_iff_example = parse_iff parse_int64 owned_adults

lex-Ends_example : Ends (IsLexed (length owned_adults)) (lex owned_adults)
lex-Ends_example = lex-Ends owned_adults

-- `a | b c`: a choice, and a condition beside it.
abbrev choice_and_one : List (Element ℤ)
choice_and_one = logic logic_or ∷ operand owned ∷ operand adult ∷ operand owned ∷ []

abbrev choice : Node ℤ
choice = bool_op logic_or (node owned (node adult no_nodes))

build_tree_iff_example :
    (build_tree choice_and_one ≡ Tree.ok (conjoin choice (owned ∷ [])))
    ↔ Prefix (conjoin choice (owned ∷ [])) (insert_implicit_and choice_and_one)
build_tree_iff_example = build_tree_iff choice_and_one (conjoin choice (owned ∷ []))

choice_and_one-SideBySide : SideBySide (choice ∷ owned ∷ []) choice_and_one
choice_and_one-SideBySide =
    beside (binary or_binary (leaf owned) (leaf adult)) (beside (leaf owned) none_left)

build_tree-conjoin_example : build_tree choice_and_one ≡ Tree.ok (conjoin choice (owned ∷ []))
build_tree-conjoin_example =
    build_tree-conjoin choice (owned ∷ []) choice_and_one choice_and_one-SideBySide
