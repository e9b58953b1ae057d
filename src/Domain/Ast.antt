-- ===== src/Domain/Ast.antt =====
-- internal/acl/domain/ast.go: the abstract syntax of Odoo domains. `F` is the type of `float64`.
use intelligent_odoo_dev_too.Prelude.{Bool}
use intelligent_odoo_dev_too.Prelude.Int.{ℤ}
use intelligent_odoo_dev_too.Prelude.Text.{Bytes}

-- `Operator`: a constructor for each constant.
pub data Operator : Type 0 where
  op_equal op_not_equal op_less op_less_eq op_greater op_greater_eq op_in op_not_in : Operator
  op_like op_not_like op_ilike op_not_ilike op_eq_like op_eq_ilike op_child_of op_parent_of :
      Operator

-- `LogicOp`.
pub data LogicOp : Type 0 where
  logic_and logic_or logic_not : LogicOp

-- `Value` and its implementations; `Values` is `[]Value`.
mutual
  pub data Value (F : Type 0) : Type 0 where
    string_value : Bytes → Value F
    int_value : ℤ → Value F
    float_value : F → Value F
    bool_value : Bool → Value F
    none_value : Value F
    list_value : Values F → Value F
    tuple_value : Values F → Value F
    ref_value : Bytes → Value F

  pub data Values (F : Type 0) : Type 0 where
    no_values : Values F
    value : Value F → Values F → Values F

pub record Condition (F : Type 0) : Type 0 where
  pub field : Bytes
  pub op : Operator
  pub val : Value F

-- `Node` and its implementations; `Nodes` is `[]Node`.
mutual
  pub data Node (F : Type 0) : Type 0 where
    condition : Condition F → Node F
    bool_op : LogicOp → Nodes F → Node F
    match_all : Node F

  pub data Nodes (F : Type 0) : Type 0 where
    no_nodes : Nodes F
    node : Node F → Nodes F → Nodes F
