-- ===== src/Ir.antt =====
-- crave/src/crave/ir/Node.hpp: the expression tree that every visitor walks. The classes with a
-- child each that add no field (`UnaryOperator`, `BinaryOperator`) are one constructor with the
-- operator's class as data; `Unique` and `ForEach`, which the visitors treat apart, are their own.
-- Nodes are never changed after construction, so the shared pointers are plain values.
pub mod Machine
pub mod Support
pub mod Complexity
pub mod FixWidth
pub mod Eval
pub mod Replace
use crave.Prelude.{ℕ, List, Bool, true, ◌&&◌, ◌==◌}

-- `class Constant : Terminal`
pub record Constant : Type 0 where
  pub value : ℕ
  pub bitsize : ℕ
  pub sign : Bool

-- the default constructor, `Terminal(1, true), value_(false)`
abbrev pub default_constant : Constant
default_constant = record { value = 0; bitsize = 1; sign = true }

-- `Constant(bool b)`
abbrev pub bool_constant : Bool → Constant
bool_constant b = record { value = elim b [ true ↦ 1 | _ ↦ 0 ]; bitsize = 1; sign = true }

-- the subclasses of `UnaryOperator` but `Unique`
pub data UnaryOperator : Type 0 where
  not_opr neg_opr complement_opr : UnaryOperator

-- the subclasses of `BinaryOperator` but `ForEach`
pub data BinaryOperator : Type 0 where
  and_opr or_opr logical_and_opr logical_or_opr xor_opr : BinaryOperator
  equal_opr not_equal_opr less_opr less_equal_opr greater_opr greater_equal_opr : BinaryOperator
  plus_opr minus_opr multiplies_opr devide_opr modulo_opr : BinaryOperator
  shift_left_opr shift_right_opr : BinaryOperator

pub data Node : Type 0 where
  placeholder : ℕ → Node
  variable_expr : ℕ → ℕ → Bool → Node
  constant : Constant → Node
  vector_expr : ℕ → ℕ → Bool → Node
  unary : UnaryOperator → Node → Node
  inside : Node → List Constant → Node
  extend_expression : Node → ℕ → Node
  binary : BinaryOperator → Node → Node → Node
  vector_access : Node → Node → Node
  if_then_else : Node → Node → Node → Node
  for_each : Node → Node → Node
  unique : Node → Node
  bitslice : Node → ℕ → ℕ → Node
