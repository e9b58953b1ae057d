-- ===== src/Domain/Tree/Juxtaposed.antt =====
-- internal/acl/domain/parser.go, `insertImplicitAnd`: trees side by side are joined by `&`.
use intelligent_odoo_dev_too.Prelude.{
  ℕ, zero, suc, ◌+◌, ◌-◌, ◌≤◌, ◌≡◌, refl, ap, sym, ◌∙◌, subst, List, [], ◌∷◌, ◌++◌, append_assoc,
  append-nil, arith, length, replicate, Bool-cases, inl, inr, leb, leb→le,
}
use intelligent_odoo_dev_too.Domain.Ast.{
  LogicOp, logic_and, logic_or, logic_not, Node, bool_op, no_nodes, node,
}
use intelligent_odoo_dev_too.Domain.Tree.{
  ok, Element, logic, operand, operands, binary_ops, insert_implicit_and, build_tree,
}
use intelligent_odoo_dev_too.Domain.Tree.Prefix.{
  IsBinary, and_binary, or_binary, Prefix, leaf, negation, binary,
}
use intelligent_odoo_dev_too.Domain.Tree.Implicit.{build_tree_iff}

module _ {F : Type 0} where
  -- The tree `((n & n₁) & n₂) & …`.
  unfoldable pub conjoin : Node F → List (Node F) → Node F
  conjoin n [] = n
  conjoin n (m ∷ ms) = conjoin (bool_op logic_and (node n (node m no_nodes))) ms

  -- `SideBySide ns els`: the elements are the trees `ns` in prefix notation, one after another.
  pub data SideBySide : List (Node F) → List (Element F) → Type 0 where
    none_left : SideBySide [] []
    beside :
        {n : Node F} {ns : List (Node F)} {xs ys : List (Element F)}
        → Prefix n xs
        → SideBySide ns ys
        → SideBySide (n ∷ ns) (xs ++ ys)

  operands-append : (xs ys : List (Element F)) → operands (xs ++ ys) ≡ operands xs + operands ys
  unfolding operands
  operands-append [] ys = omega arith
  operands-append (logic _ ∷ xs) ys = operands-append xs ys
  operands-append (operand _ ∷ xs) ys = omega (arith, operands-append xs ys)

  operands-le-length : (xs : List (Element F)) → operands xs ≤ length xs
  unfolding operands
  operands-le-length [] = omega arith
  operands-le-length (logic _ ∷ xs) = omega (arith, operands-le-length xs)
  operands-le-length (operand _ ∷ xs) = omega (arith, operands-le-length xs)

  binary_ops-append :
      (xs ys : List (Element F)) → binary_ops (xs ++ ys) ≡ binary_ops xs + binary_ops ys
  unfolding binary_ops
  binary_ops-append [] ys = omega arith
  binary_ops-append (logic logic_and ∷ xs) ys = omega (arith, binary_ops-append xs ys)
  binary_ops-append (logic logic_or ∷ xs) ys = omega (arith, binary_ops-append xs ys)
  binary_ops-append (logic logic_not ∷ xs) ys = binary_ops-append xs ys
  binary_ops-append (operand _ ∷ xs) ys = binary_ops-append xs ys

  binary_ops-binary :
      {op : LogicOp} (xs : List (Element F))
      → IsBinary op
      → binary_ops (logic op ∷ xs) ≡ suc (binary_ops xs)
  unfolding binary_ops
  binary_ops-binary xs and_binary = refl
  binary_ops-binary xs or_binary = refl

  -- A tree has one operand more than it has binary operators.
  Prefix-balance :
      {n : Node F} {xs : List (Element F)} → Prefix n xs → operands xs ≡ suc (binary_ops xs)
  unfolding operands binary_ops
  Prefix-balance (leaf n) = refl
  Prefix-balance (negation p) = Prefix-balance p
  Prefix-balance (binary {op} {xs} {ys} b p q) = omega (
    arith,
    operands-append xs ys,
    binary_ops-append xs ys,
    binary_ops-binary (xs ++ ys) b,
    Prefix-balance p,
    Prefix-balance q,
  )

  SideBySide-balance :
      {ns : List (Node F)} {xs : List (Element F)}
      → SideBySide ns xs
      → operands xs ≡ length ns + binary_ops xs
  unfolding operands binary_ops
  SideBySide-balance none_left = refl
  SideBySide-balance (beside {xs} {ys} p s) = omega (
    arith,
    operands-append xs ys,
    binary_ops-append xs ys,
    Prefix-balance p,
    SideBySide-balance s,
  )

  replicate-append_one :
      (k : ℕ) (a : Element F) (t : List (Element F))
      → replicate k a ++ (a ∷ t) ≡ a ∷ (replicate k a ++ t)
  replicate-append_one zero a t = refl
  replicate-append_one (suc k) a t = ap (◌∷◌ a) (replicate-append_one k a t)

  -- With an `&` for each further tree the list is one tree.
  conjoin-Prefix :
      (n : Node F) {xs ys : List (Element F)} (ns : List (Node F))
      → Prefix n xs
      → SideBySide ns ys
      → Prefix (conjoin n ns) (replicate (length ns) (logic logic_and) ++ (xs ++ ys))
  unfolding conjoin
  conjoin-Prefix n {xs} [] p none_left = subst (Prefix n) (sym (append-nil xs)) p
  conjoin-Prefix n {xs} (m ∷ ms) p (beside {xs = zs} {ys = us} q s) =
      subst (Prefix (conjoin (bool_op logic_and (node n (node m no_nodes))) ms))
        (replicate-append_one (length ms) (logic logic_and) ((xs ++ zs) ++ us)
          ∙ ap (λ t. logic logic_and ∷ (replicate (length ms) (logic logic_and) ++ t))
              (append_assoc xs zs us))
        (conjoin-Prefix (bool_op logic_and (node n (node m no_nodes))) ms (binary and_binary p q) s)

  insert_implicit_and-SideBySide :
      (ns : List (Node F)) (els : List (Element F))
      → SideBySide ns els
      → insert_implicit_and els ≡ replicate (length ns - 1) (logic logic_and) ++ els
  unfolding insert_implicit_and
  insert_implicit_and-SideBySide ns els s = elim (Bool-cases (leb (length els) 1)) [
    | inl short ↦
        let none_needed : length ns - 1 ≡ 0 =
          omega
            (arith, leb→le (length els) 1 short, SideBySide-balance s, operands-le-length els) in
        rw (short, none_needed)
    | inr long ↦
        let needed : operands els - binary_ops els - 1 ≡ length ns - 1 =
          omega (arith, SideBySide-balance s) in
        rw (long, needed)
  ]

  -- `buildTree` reads one tree, or several side by side, as their conjunction.
  pub build_tree-conjoin :
      (n : Node F) (ns : List (Node F)) (els : List (Element F))
      → SideBySide (n ∷ ns) els
      → build_tree els ≡ ok (conjoin n ns)
  build_tree-conjoin n ns els (beside {xs} {ys} p s) =
      let all_but_one : length (n ∷ ns) - 1 ≡ length ns = omega arith in
      (build_tree_iff (xs ++ ys) (conjoin n ns)).1 (
        subst (Prefix (conjoin n ns))
          (sym (
            insert_implicit_and-SideBySide (n ∷ ns) (xs ++ ys) (beside p s)
            ∙ ap (λ k. replicate k (logic logic_and) ++ (xs ++ ys)) all_but_one))
          (conjoin-Prefix n ns p s))
