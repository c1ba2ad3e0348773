-- ===== src/Ir/Replace/Access.antt =====
-- `visitVectorAccess` of crave/src/lib/ReplaceVisitor.cpp beside the instance.
use crave.Prelude.{
  ℕ, zero, suc, ◌<◌, ◌≡◌, refl, List, [], ◌∷◌, Bool, true, false, ◌&&◌, Option, some, length,
  get_elem?, set, arith, Bool-cases, inl, inr,
}
use crave.Prelude.Result.{Result, ok, err, ◌>>=◌}
use crave.Prelude.Int.{ℤ, pos, negsuc, of_unsigned, pos_part}
use crave.Ir.{Node, vector_expr}
use crave.Ir.Replace.{
  Element, element_node, Memory, Visitor, Visit, eval_bin, is_within, access_element, access_first,
  access,
}
use crave.Ir.Replace.Reference.{both, is_some, chosen}
use crave.Ir.Replace.Follows.{ids_of, after, Gives, second-eq, IsConsistent, Follows, Always}

pub length-ids : (vs : List Element) (ids : List ℕ) → ids_of vs ≡ ids → length vs ≡ length ids
length-ids vs ids e = rw (← e) (go vs)
  where
    go : (ws : List Element) → length ws ≡ length (ids_of ws)
    go [] = refl
    go (w ∷ ws) = omega (arith, go ws)

-- The element at a subscript that is in range.
element-ids :
    (vs : List Element) (ids : List ℕ) (j : ℕ)
    → ids_of vs ≡ ids
    → j < length ids
    → (a : Element) × (get_elem? vs j ≡ some a) × (get_elem? ids j ≡ some (a.id))
element-ids vs [] j e h = ground arith
element-ids [] (k ∷ ids) j e h = cc
element-ids (v ∷ vs) (k ∷ ids) zero e h = (v, refl, cc)
element-ids (v ∷ vs) (k ∷ ids) (suc j) e h =
    let rest : ids_of vs ≡ ids = cc in element-ids vs ids j rest (omega arith)

ids-set :
    (vs : List Element) (ids : List ℕ) (j : ℕ) (a : Element) (bs : ℕ) (sg : Bool)
    → ids_of vs ≡ ids
    → get_elem? vs j ≡ some a
    → ids_of (set vs j (record a { bitsize = bs; sign = sg })) ≡ ids
ids-set [] ids j a bs sg e h = e
ids-set (v ∷ vs) ids zero a bs sg e h = cc
ids-set (v ∷ vs) [] (suc j) a bs sg e h = cc
ids-set (v ∷ vs) (k ∷ ids) (suc j) a bs sg e h =
    let rest : ids_of vs ≡ ids = cc in
    let head : v.id ≡ k = cc in rw head (rw (ids-set vs ids j a bs sg rest h))

first-element :
    (vs : List Element) (ids : List ℕ)
    → ids_of vs ≡ ids
    → (id : ℕ) × (rest : List ℕ) × (ids ≡ id ∷ rest)
    → (a : Element) × (get_elem? vs 0 ≡ some a)
first-element [] ids e (id, rest, n) = cc
first-element (v ∷ vs) ids e n = (v, refl)

within-lt : (y : ℤ) (ids : List ℕ) → is_within y (length ids) ≡ true → pos_part y < length ids
unfolding of_unsigned
within-lt (pos k) ids h = ground arith
within-lt (negsuc k) ids h = cc

module _ (σ : ℕ → Option Node) (ids : List ℕ) (i : ℕ) where
  -- The end of an access: the element in range with the size and the sign of the vector, or the first
  -- element, with which the visit is no longer okay.
  accessed-lem :
      (v bs : ℕ) (sg : Bool) (y : ℤ) (m : Node) (s : Visitor) (g : Memory)
      → (id : ℕ) × (rest : List ℕ) × (ids ≡ id ∷ rest)
      → IsConsistent σ ids i g
      → (k : Node) × (u : Memory) × (access (vector_expr v bs sg) (record s {
        memory = g;
        subscript_stack = y ∷ pos 0 ∷ s.subscript_stack;
        last = some m;
      })
          ≡ ok (after s u k (pos 0)))
        × IsConsistent σ ids i u
        × (u.okay ≡ (g.okay && is_some (chosen ids y (vector_expr v bs sg))))
        × Gives (chosen ids y (vector_expr v bs sg)) k
  unfolding access access_element access_first chosen
  accessed-lem v bs sg y m s g n (c, e) =
      let long : length g.variables ≡ length ids = length-ids g.variables ids e in
      elim (Bool-cases (is_within y (length ids))) [
        | inl b ↦
            let (a, q, z) = element-ids g.variables ids (pos_part y) e (within-lt y ids b) in
            let var : Element = record a { bitsize = bs; sign = sg } in
            rw z (
              element_node var,
              record g { variables = set g.variables (pos_part y) var },
              rw long (rw b (rw (q, access_element) refl)),
              (c, ids-set g.variables ids (pos_part y) a bs sg e q),
              rw b (ground arith),
              rw b (λ k j. cc),
            )
        | inr b ↦
            let (a, q) = first-element g.variables ids e n in
            rw b (
              element_node a,
              record g { okay = false },
              rw long (rw b (rw (q, access_first) refl)),
              (c, e),
              ground arith,
              λ k j. cc,
            )
      ]

  accessed-of :
      (lhs : Node) (v bs : ℕ) (sg : Bool) (y : ℤ) (m : Node) (s : Visitor) (g : Memory)
      → lhs ≡ vector_expr v bs sg
      → (id : ℕ) × (rest : List ℕ) × (ids ≡ id ∷ rest)
      → IsConsistent σ ids i g
      → (k : Node) × (u : Memory) × (access lhs (record s {
        memory = g;
        subscript_stack = y ∷ pos 0 ∷ s.subscript_stack;
        last = some m;
      })
          ≡ ok (after s u k (pos 0)))
        × IsConsistent σ ids i u
        × (u.okay ≡ (g.okay && is_some (chosen ids y (vector_expr v bs sg))))
        × Gives (chosen ids y (vector_expr v bs sg)) k
  accessed-of lhs v bs sg y m s g e n c = rw e (accessed-lem v bs sg y m s g n c)

  pub access-Follows :
      (v bs : ℕ) (sg : Bool) (l w : Visit) (b : Result (Option Node × ℤ)) (s : Visitor)
      → (id : ℕ) × (rest : List ℕ) × (ids ≡ id ∷ rest)
      → Follows σ ids i s (ok (some (vector_expr v bs sg), pos 0)) (l s)
      → s.vec_idx ≡ i
      → Always σ ids i b w
      → Follows σ ids i s
          (b >>= λ (q, y). ok (both (λ m e. e) q (chosen ids y (vector_expr v bs sg)), pos 0))
          (eval_bin l w s >>= λ (c, d, t). access c t)
  unfolding Follows
  access-Follows v bs sg l w (err fault) s n (m, g, h, c, o, e) j d =
      rw h (rw (d (after s g m (pos 0)) j c) refl)
  access-Follows v bs sg l w (ok (q, y)) s n (m, g, h, c, o, e) j d =
      let (m', g', h', c', o', e') = d (after s g m (pos 0)) j c in
      let (k, u, a, c2, o2, e2) =
        accessed-of m v bs sg y m' s g' (e (vector_expr v bs sg) refl) n c' in
      (
        k,
        u,
        rw h (rw h' a),
        c2,
        ground arith,
        λ p z. second-eq q (chosen ids y (vector_expr v bs sg)) k p e2 z,
      )
