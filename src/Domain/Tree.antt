-- ===== src/Domain/Tree.antt =====
-- internal/acl/domain/parser.go, `buildTree`: the flat prefix list of operators and conditions to
-- a tree. `consumeNode` takes the elements from its index on, so the index is not kept; its
-- recursion runs on fuel, one unit for each element being enough.
use intelligent_odoo_dev_too.Prelude.{
  ℕ, zero, suc, ◌+◌, ◌-◌, ◌≡◌, refl, Bool, true, false, List, [], ◌∷◌, ◌++◌, leb, if◌then◌else◌,
  length, replicate,
}
use intelligent_odoo_dev_too.Domain.Ast.{
  LogicOp, logic_and, logic_or, logic_not, Node, bool_op, no_nodes, node,
}
pub mod Prefix
pub mod Implicit
pub mod Juxtaposed

-- The errors of `buildTree`: the elements end where an operand is expected, or go on after the
-- tree. `out_of_fuel` belongs to the model only.
pub data TreeError : Type 0 where
  missing_operand trailing_elements out_of_fuel : TreeError

pub data Result {ℓ} (A : Type ℓ) : Type ℓ where
  ok : A → Result A
  err : TreeError → Result A

infixl 5 ◌>>=◌
abbrev pub ◌>>=◌ {ℓ κ} : {A : Type ℓ} {B : Type κ} → Result A → (A → Result B) → Result B
ok a >>= f = f a
err e >>= f = err e

-- An element of the list, `any` in the source: a `LogicOp` or a `Node`.
pub data Element (F : Type 0) : Type 0 where
  logic : LogicOp → Element F
  operand : Node F → Element F

module _ {F : Type 0} where
  -- The counts of `insertImplicitAnd`.
  unfoldable pub operands : List (Element F) → ℕ
  operands [] = 0
  operands (logic _ ∷ els) = operands els
  operands (operand _ ∷ els) = suc (operands els)

  unfoldable pub binary_ops : List (Element F) → ℕ
  binary_ops [] = 0
  binary_ops (logic logic_and ∷ els) = suc (binary_ops els)
  binary_ops (logic logic_or ∷ els) = suc (binary_ops els)
  binary_ops (logic logic_not ∷ els) = binary_ops els
  binary_ops (operand _ ∷ els) = binary_ops els

  -- `insertImplicitAnd`. `needed` stops at 0, where the source returns the elements as they are.
  unfoldable pub insert_implicit_and : List (Element F) → List (Element F)
  unfolding operands binary_ops
  insert_implicit_and els =
      if leb (length els) 1
      then els
      else replicate (operands els - binary_ops els - 1) (logic logic_and) ++ els

  -- `consumeNode`: a tree, and the elements after it.
  unfoldable pub consume_node : ℕ → List (Element F) → Result (Node F × List (Element F))
  consume_node zero els = err out_of_fuel
  consume_node (suc fuel) [] = err missing_operand
  consume_node (suc fuel) (logic logic_not ∷ els) = do
    (child, rest) ← consume_node fuel els
    ok (bool_op logic_not (node child no_nodes), rest)
  consume_node (suc fuel) (logic op ∷ els) = do
    (left, rest) ← consume_node fuel els
    (right, rest') ← consume_node fuel rest
    ok (bool_op op (node left (node right no_nodes)), rest')
  consume_node (suc fuel) (operand n ∷ els) = ok (n, els)

  abbrev pub no_trailing : Node F × List (Element F) → Result (Node F)
  no_trailing (n, []) = ok n
  no_trailing (n, _ ∷ _) = err trailing_elements

  -- `buildTree`.
  unfoldable pub build_tree : List (Element F) → Result (Node F)
  unfolding insert_implicit_and consume_node
  build_tree els =
      let expanded = insert_implicit_and els in
      consume_node (length expanded + 1) expanded >>= no_trailing
