-- ===== src/Ir/Machine.antt =====
-- The explicit stack that the visitors of crave/src/lib share (`pop`, `pop2`, `pop3`, `evalBinExpr`,
-- `evalTernExpr` of FixWidthVisitor.cpp, ComplexityEstimationVisitor.cpp and of EvalVisitor.hpp).
use crave.Prelude.{List, [], ◌∷◌}
use crave.Prelude.Result.{Result, ok, err, assertion, ◌>>=◌}

-- A visit takes the stack before it to the stack after it.
abbrev pub Visit : Type 0 → Type 0
Visit E = List E → Result (List E)

module _ {E : Type 0} where
  abbrev pub pop : List E → Result (E × List E)
  pop [] = err assertion
  pop (a ∷ s) = ok (a, s)

  -- the top first
  abbrev pub pop2 : List E → Result (E × E × List E)
  pop2 (a ∷ b ∷ s) = ok (a, b, s)
  pop2 _ = err assertion

  abbrev pub pop3 : List E → Result (E × E × E × List E)
  pop3 (a ∷ b ∷ c ∷ s) = ok (a, b, c, s)
  pop3 _ = err assertion

  -- `visitUnaryExpr`, then `pop`
  abbrev pub eval_unary_expr : Visit E → List E → Result (E × List E)
  eval_unary_expr v s = do t ← v s; pop t

  -- `visitBinaryExpr`, then `pop2(snd, fst)`
  abbrev pub eval_bin_expr : Visit E → Visit E → List E → Result (E × E × List E)
  eval_bin_expr l r s = do t ← l s; u ← r t; (snd, fst, w) ← pop2 u; ok (fst, snd, w)

  -- `visitTernaryExpr`, then `pop3(trd, snd, fst)`
  abbrev pub eval_tern_expr : Visit E → Visit E → Visit E → List E → Result (E × E × E × List E)
  eval_tern_expr a b c s = do
    t ← a s
    u ← b t
    w ← c u
    (trd, snd, fst, z) ← pop3 w
    ok (fst, snd, trd, z)
