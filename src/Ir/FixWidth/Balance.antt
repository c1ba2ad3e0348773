-- ===== src/Ir/FixWidth/Balance.antt =====
-- The widths of the operands that crave/src/lib/FixWidthVisitor.cpp leaves, and the shape of its result.
use crave.Prelude.{ℕ, ◌+◌, ◌-◌, ◌≡◌, refl, Bool, true, if◌then◌else◌, arith}
use crave.Prelude.Result.{Returns}
use crave.Ir.{
  BinaryOperator, Node, placeholder, variable_expr, constant, vector_expr, unary, inside,
  extend_expression, binary, vector_access, if_then_else, for_each, unique, bitslice,
}
use crave.Ir.FixWidth.{
  Entry, placeholder_bitsize, match_widths, is_number_result, fix_binary, fixed, fix_width,
  fix_width-fixed,
}

-- The width of an expression as a bit vector: an extension adds its bits, and a choice has the width
-- of what it chooses.
unfoldable pub width : Node → ℕ
width (placeholder id) = placeholder_bitsize
width (variable_expr id bs sg) = bs
width (constant c) = c.bitsize
width (vector_expr id bs sg) = bs
width (unary op n) = width n
width (inside n cs) = 1
width (extend_expression n k) = width n + k
width (binary op l r) = if is_number_result op then width l else 1
width (vector_access l r) = width l
width (if_then_else a b c) = width b
width (for_each l r) = 1
width (unique n) = width n
width (bitslice n r l) = r - l + 1

-- The operands of each binary operator have one width.
abbrev pub Balanced : Node → Type 0
Balanced (unary op n) = Balanced n
Balanced (inside n cs) = Balanced n
Balanced (extend_expression n k) = Balanced n
Balanced (binary op l r) = (width l ≡ width r) × Balanced l × Balanced r
Balanced (vector_access l r) = Balanced l × Balanced r
Balanced (if_then_else a b c) = Balanced a × Balanced b × Balanced c
Balanced (for_each l r) = Balanced l × Balanced r
Balanced (unique n) = Balanced n
Balanced (bitslice n r l) = Balanced n
Balanced _ = Unit

-- What the visitor takes for granted: the source holds no extension yet, and the condition of each
-- choice is as wide as what it chooses first.
abbrev pub IsRegular : Node → Type 0
IsRegular (unary op n) = IsRegular n
IsRegular (inside n cs) = IsRegular n
IsRegular (extend_expression n k) = ⊥
IsRegular (binary op l r) = IsRegular l × IsRegular r
IsRegular (vector_access l r) = IsRegular l × IsRegular r
IsRegular (if_then_else a b c) =
    IsRegular a × IsRegular b × IsRegular c × ((fixed a).1 ≡ (fixed b).1)
IsRegular (for_each l r) = IsRegular l × IsRegular r
IsRegular (unique n) = IsRegular n
IsRegular (bitslice n r l) = IsRegular n
IsRegular _ = Unit

abbrev IsFixed : Entry → Type 0
IsFixed e = (width e.0 ≡ e.1) × Balanced e.0

fix_binary-IsFixed :
    (op : BinaryOperator) (a b : Entry) → IsFixed a → IsFixed b → IsFixed (fix_binary op a b)
unfolding fix_binary match_widths width
fix_binary-IsFixed op (a, m) (b, n) h k = ground arith

fixed-IsFixed : (n : Node) → IsRegular n → IsFixed (fixed n)
unfolding fixed width
fixed-IsFixed (placeholder id) h = (refl, tt)
fixed-IsFixed (variable_expr id bs sg) h = (refl, tt)
fixed-IsFixed (constant c) h = (refl, tt)
fixed-IsFixed (vector_expr id bs sg) h = (refl, tt)
fixed-IsFixed (unary op n) h = fixed-IsFixed n h
fixed-IsFixed (inside n cs) h = (refl, (fixed-IsFixed n h).1)
fixed-IsFixed (extend_expression n k) h = absurd h
fixed-IsFixed (binary op l r) h =
    fix_binary-IsFixed op (fixed l) (fixed r) (fixed-IsFixed l h.0) (fixed-IsFixed r h.1)
fixed-IsFixed (vector_access l r) h =
    let p = fixed-IsFixed l h.0 in (p.0, (p.1, (fixed-IsFixed r h.1).1))
fixed-IsFixed (if_then_else a b c) h =
    let p = fixed-IsFixed a h.0 in
    let q = fixed-IsFixed b h.1 in (omega arith, (p.1, q.1, (fixed-IsFixed c h.2).1))
fixed-IsFixed (for_each l r) h = (refl, ((fixed-IsFixed l h.0).1, (fixed-IsFixed r h.1).1))
fixed-IsFixed (unique n) h = fixed-IsFixed n h
fixed-IsFixed (bitslice n r l) h = (refl, (fixed-IsFixed n h).1)

-- An expression without its extensions.
unfoldable pub erase : Node → Node
erase (unary op n) = unary op (erase n)
erase (inside n cs) = inside (erase n) cs
erase (extend_expression n k) = erase n
erase (binary op l r) = binary op (erase l) (erase r)
erase (vector_access l r) = vector_access (erase l) (erase r)
erase (if_then_else a b c) = if_then_else (erase a) (erase b) (erase c)
erase (for_each l r) = for_each (erase l) (erase r)
erase (unique n) = unique (erase n)
erase (bitslice n r l) = bitslice (erase n) r l
erase n = n

erase-fix_binary :
    (op : BinaryOperator) (a b : Entry)
    → erase (fix_binary op a b).0 ≡ binary op (erase a.0) (erase b.0)
unfolding fix_binary match_widths erase
erase-fix_binary op a b = ground arith

erase-fixed : (n : Node) → erase (fixed n).0 ≡ erase n
unfolding fixed erase
erase-fixed (placeholder id) = refl
erase-fixed (variable_expr id bs sg) = refl
erase-fixed (constant c) = refl
erase-fixed (vector_expr id bs sg) = refl
erase-fixed (unary op n) = rw (erase-fixed n)
erase-fixed (inside n cs) = rw (erase-fixed n)
erase-fixed (extend_expression n k) = erase-fixed n
erase-fixed (binary op l r) =
    rw (erase-fix_binary op (fixed l) (fixed r), erase-fixed l, erase-fixed r)
erase-fixed (vector_access l r) = rw (erase-fixed l, erase-fixed r)
erase-fixed (if_then_else a b c) = rw (erase-fixed a, erase-fixed b, erase-fixed c)
erase-fixed (for_each l r) = rw (erase-fixed l, erase-fixed r)
erase-fixed (unique n) = rw (erase-fixed n)
erase-fixed (bitslice n r l) = rw (erase-fixed n)

-- `fixWidth` never fails, and adds nothing but extensions.
pub fix_width-erase : (n : Node) → Returns (fix_width n) (λ m. erase m ≡ erase n)
fix_width-erase n = ((fixed n).0, fix_width-fixed n, erase-fixed n)

-- Where the expression holds no extension yet, and each choice has a condition of the width that is
-- recorded for its first branch, the operands of every binary operator come out equally wide.
pub fix_width-Balanced : (n : Node) → IsRegular n → Returns (fix_width n) Balanced
fix_width-Balanced n h = ((fixed n).0, fix_width-fixed n, (fixed-IsFixed n h).1)

-- A comparison or operation of a choice between variables of `w + 2` bits with another such variable.
abbrev pub wide_choice : BinaryOperator → (i j k c w : ℕ) → Bool → Node
wide_choice op i j k c w s =
    binary op
      (if_then_else (variable_expr c 1 true) (variable_expr i (w + 2) s)
        (variable_expr j (w + 2) s))
      (variable_expr k (w + 2) s)

wide_choice-fixed :
    (op : BinaryOperator) (i j k c w : ℕ) (s : Bool)
    → ¬ Balanced (fixed (wide_choice op i j k c w s)).0
unfolding fixed fix_binary match_widths width
wide_choice-fixed op i j k c w s b = ground arith

-- A choice is recorded with the width of its condition. So a choice by a condition of width 1
-- between variables of `w + 2` bits, compared with another such variable, comes out with operands
-- of two widths.
pub fix_width_choice_unbalanced :
    (op : BinaryOperator) (i j k c w : ℕ) (s : Bool)
    → Returns (fix_width (wide_choice op i j k c w s)) (λ m. ¬ Balanced m)
fix_width_choice_unbalanced op i j k c w s =
    let n = wide_choice op i j k c w s in
    ((fixed n).0, fix_width-fixed n, wide_choice-fixed op i j k c w s)
