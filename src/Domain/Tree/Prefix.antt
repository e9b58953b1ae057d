-- ===== src/Domain/Tree/Prefix.antt =====
-- internal/acl/domain/parser.go, `consumeNode`: it reads exactly the trees in prefix notation.
use intelligent_odoo_dev_too.Prelude.{
  ℕ, zero, suc, ◌≤◌, ◌<◌, ◌≡◌, refl, ap, sym, ◌∙◌, List, [], ◌∷◌, ◌++◌, append_assoc, arith, length,
  length-append,
}
use intelligent_odoo_dev_too.Domain.Ast.{
  LogicOp, logic_and, logic_or, logic_not, Node, bool_op, no_nodes, node,
}
use intelligent_odoo_dev_too.Domain.Tree.{
  missing_operand, trailing_elements, out_of_fuel, Result, ok, err, ◌>>=◌, Element, logic, operand,
  consume_node,
}

-- The two operators that take two operands.
pub data IsBinary : LogicOp → Type 0 where
  and_binary : IsBinary logic_and
  or_binary : IsBinary logic_or

module _ {F : Type 0} where
  -- `Prefix n els`: the elements are the tree `n` in prefix notation.
  pub data Prefix : Node F → List (Element F) → Type 0 where
    leaf : (n : Node F) → Prefix n (operand n ∷ [])
    negation :
        {n : Node F} {xs : List (Element F)}
        → Prefix n xs
        → Prefix (bool_op logic_not (node n no_nodes)) (logic logic_not ∷ xs)
    binary :
        {op : LogicOp} {l r : Node F} {xs ys : List (Element F)}
        → IsBinary op
        → Prefix l xs
        → Prefix r ys
        → Prefix (bool_op op (node l (node r no_nodes))) (logic op ∷ xs ++ ys)

  consume_node-binary :
      {op : LogicOp} (fuel : ℕ) (els : List (Element F))
      → IsBinary op
      → consume_node (suc fuel) (logic op ∷ els) ≡ (
          consume_node fuel els >>= λ (left, rest). consume_node fuel rest >>= λ (right, rest').
          ok (bool_op op (node left (node right no_nodes)), rest'))
  unfolding consume_node
  consume_node-binary fuel els and_binary = refl
  consume_node-binary fuel els or_binary = refl

  -- Every tree in prefix notation is read back, whatever follows it.
  pub consume_node-Prefix :
      (fuel : ℕ) (rest : List (Element F)) {n : Node F} {xs : List (Element F)}
      → Prefix n xs
      → length xs ≤ fuel
      → consume_node fuel (xs ++ rest) ≡ ok (n, rest)
  unfolding consume_node
  consume_node-Prefix zero rest (leaf n) h = absurd (omega arith)
  consume_node-Prefix zero rest (negation p) h = absurd (omega arith)
  consume_node-Prefix zero rest (binary b p q) h = absurd (omega arith)
  consume_node-Prefix (suc fuel) rest (leaf n) h = refl
  consume_node-Prefix (suc fuel) rest (negation p) h =
      rw (consume_node-Prefix fuel rest p (omega arith))
  consume_node-Prefix (suc fuel) rest (binary {xs} {ys} b p q) h =
      let within = length-append xs ys in
      rw (
        append_assoc xs ys rest,
        consume_node-binary fuel (xs ++ (ys ++ rest)) b,
        consume_node-Prefix fuel (ys ++ rest) p (omega (arith, within)),
        consume_node-Prefix fuel rest q (omega (arith, within)),
      )

  -- A tree that was read, and the elements that it was read from.
  pub record Reads (els : List (Element F)) (n : Node F) (rest : List (Element F)) : Type 0 where
    pub read : List (Element F)
    pub split : els ≡ read ++ rest
    pub spells : Prefix n read

  -- A run kept within its fuel, and read a tree in prefix notation if it read one.
  abbrev pub Sound : List (Element F) → Result (Node F × List (Element F)) → Type 0
  Sound els (ok (n, rest)) = Reads els n rest
  Sound els (err out_of_fuel) = ⊥
  Sound els (err _) = Unit

  Sound-bind :
      {els : List (Element F)} (els' : List (Element F)) (r : Result (Node F × List (Element F)))
      (f : Node F × List (Element F) → Result (Node F × List (Element F)))
      → Sound els r
      → ((n : Node F) (rest : List (Element F)) → Reads els n rest → Sound els' (f (n, rest)))
      → Sound els' (r >>= f)
  Sound-bind els' (ok (n, rest)) f h k = k n rest h
  Sound-bind els' (err missing_operand) f h k = tt
  Sound-bind els' (err trailing_elements) f h k = tt
  Sound-bind els' (err out_of_fuel) f h k = h

  binary-Sound :
      (fuel : ℕ) (op : LogicOp) (els : List (Element F))
      → IsBinary op
      → ((els' : List (Element F)) → length els' ≤ length els → Sound els' (consume_node fuel els'))
      → Sound (logic op ∷ els) (consume_node (suc fuel) (logic op ∷ els))
  binary-Sound fuel op els b ih = rw (consume_node-binary fuel els b) (
      Sound-bind _ (consume_node fuel els) _ (ih els (omega arith)) λ left rest r.
        Sound-bind _ (consume_node fuel rest) _
          (ih rest (omega (arith, ap length r.split, length-append r.read rest)))
          λ right rest' s. record {
            read = logic op ∷ r.read ++ s.read;
            split =
                ap (◌∷◌ (logic op)) (
                  r.split ∙ ap (λ t. r.read ++ t) s.split ∙ sym (append_assoc r.read s.read rest'));
            spells = binary b r.spells s.spells;
          })

  -- With a unit of fuel for each element `consume_node` reads a tree in prefix notation, or fails
  -- as the source does.
  pub consume_node-Sound :
      (fuel : ℕ) (els : List (Element F)) → length els < fuel → Sound els (consume_node fuel els)
  unfolding consume_node
  consume_node-Sound zero els h = absurd (omega arith)
  consume_node-Sound (suc fuel) [] h = tt
  consume_node-Sound (suc fuel) (logic logic_and ∷ els) h =
      binary-Sound fuel logic_and els and_binary
        (λ els' k. consume_node-Sound fuel els' (omega arith))
  consume_node-Sound (suc fuel) (logic logic_or ∷ els) h =
      binary-Sound fuel logic_or els or_binary
        (λ els' k. consume_node-Sound fuel els' (omega arith))
  consume_node-Sound (suc fuel) (logic logic_not ∷ els) h =
      Sound-bind _ (consume_node fuel els) _ (consume_node-Sound fuel els (omega arith)) λ n rest r.
        record {
          read = logic logic_not ∷ r.read;
          split = ap (◌∷◌ (logic logic_not)) r.split;
          spells = negation r.spells;
        }
  consume_node-Sound (suc fuel) (operand n ∷ els) h = record {
    read = operand n ∷ [];
    split = refl;
    spells = leaf n;
  }
