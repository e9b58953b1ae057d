-- ===== src/Domain/Tree/Implicit.antt =====
-- internal/acl/domain/parser.go, `buildTree`: which lists of elements it accepts, the tree that it
-- makes of them, and that conditions side by side are joined by `&`.
use intelligent_odoo_dev_too.Prelude.{
  ◌+◌, ◌≡◌, ◌↔◌, ap, sym, ◌∙◌, subst, List, [], ◌∷◌, ◌++◌, append-nil, arith, length,
}
use intelligent_odoo_dev_too.Domain.Ast.{Node}
use intelligent_odoo_dev_too.Domain.Tree.{
  missing_operand, trailing_elements, out_of_fuel, Result, ok, err, ◌>>=◌, Element,
  insert_implicit_and, consume_node, no_trailing, build_tree,
}
use intelligent_odoo_dev_too.Domain.Tree.Prefix.{
  Prefix, consume_node-Prefix, Sound, consume_node-Sound,
}

module _ {F : Type 0} where
  -- A tree that takes the whole of a list, or one of the source's two errors.
  abbrev pub Whole : List (Element F) → Result (Node F) → Type 0
  Whole els (ok n) = Prefix n els
  Whole els (err out_of_fuel) = ⊥
  Whole els (err _) = Unit

  no_trailing-Whole :
      (els : List (Element F)) (r : Result (Node F × List (Element F)))
      → Sound els r
      → Whole els (r >>= no_trailing)
  no_trailing-Whole els (ok (n, [])) r =
      subst (Prefix n) (sym (r.split ∙ append-nil r.read)) r.spells
  no_trailing-Whole els (ok (n, _ ∷ _)) r = tt
  no_trailing-Whole els (err missing_operand) r = tt
  no_trailing-Whole els (err trailing_elements) r = tt
  no_trailing-Whole els (err out_of_fuel) r = r

  pub build_tree-Whole : (els : List (Element F)) → Whole (insert_implicit_and els) (build_tree els)
  unfolding build_tree
  build_tree-Whole els =
      let expanded = insert_implicit_and els in
      no_trailing-Whole expanded (consume_node (length expanded + 1) expanded)
        (consume_node-Sound (length expanded + 1) expanded (omega arith))

  Whole-ok :
      {els : List (Element F)} {n : Node F} (r : Result (Node F))
      → r ≡ ok n
      → Whole els r
      → Prefix n els
  Whole-ok {els} (ok m) e w = subst (λ k. Prefix k els) (cc) w
  Whole-ok (err x) e w = cc

  Prefix→build_tree :
      (els : List (Element F)) {n : Node F}
      → Prefix n (insert_implicit_and els)
      → build_tree els ≡ ok n
  unfolding build_tree
  Prefix→build_tree els {n} p =
      let expanded = insert_implicit_and els in
      let read : consume_node (length expanded + 1) (expanded ++ []) ≡ ok (n, []) =
        consume_node-Prefix (length expanded + 1) [] p (omega arith) in
      rw (ap (consume_node (length expanded + 1)) (sym (append-nil expanded)) ∙ read)

  -- `buildTree` accepts exactly the lists that, with the implicit `&` put in front, are one whole
  -- tree in prefix notation, and returns that tree.
  pub build_tree_iff :
      (els : List (Element F)) (n : Node F)
      → (build_tree els ≡ ok n) ↔ Prefix n (insert_implicit_and els)
  build_tree_iff els n =
      (λ e. Whole-ok (build_tree els) e (build_tree-Whole els), λ p. Prefix→build_tree els p)
