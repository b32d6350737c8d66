-- ===== src/RbTree/Paint.antt =====
-- A write of a colour.
use lua_sharedtable.Base.{ℕ, ◌≢◌, refl, inr, inl, ◌∷◌, arith}
use lua_sharedtable.NodeList.Linked.{In-apart, append-In}
use lua_sharedtable.RbTree.{Tree, paint}
use lua_sharedtable.RbTree.Shape.{Shape, fork, Trail, inorder, outer, At, Distinct-around}
use lua_sharedtable.RbTree.Frame.{Same, Distinct-fork, Holds-frame, Above-frame}

paint-Same : (h : Tree) (x v k : ℕ) → k ≢ x → Same h (paint x v h) k
paint-Same h x v k other = (refl, refl, refl, ground arith)

pub paint-At :
    {h : Tree} {up : Trail} {p x c : ℕ} {l r : Shape} (v : ℕ)
    → At h up p x (fork c l x r)
    → At (paint x v h) up p x (fork v l x r)
paint-At {h} {up} {p} {x} {c} {l} {r} v w =
    let (_, real, par, col, left, right) = w.holds in
    let (d, d_outer, apart) = Distinct-around up (inorder (fork c l x r)) w.distinct in
    let (dl, dr, xl, xr, sides) = Distinct-fork c l x r d in
    let at_x = append-In x (inorder l) (x ∷ inorder r) (inr (inl refl)) in
    let end = w.black_end in
    record {
      holds = (
        refl,
        real,
        par,
        ground arith,
        Holds-frame h (paint x v h) x (h.left x) l
            (λ k i. paint-Same h x v k (In-apart k x (inorder l) xl i)) refl left,
        Holds-frame h (paint x v h) x (h.right x) r
            (λ k i. paint-Same h x v k (In-apart k x (inorder r) xr i)) refl right,
      );
      above =
          Above-frame h (paint x v h) p x up
            (λ k i. paint-Same h x v k (In-apart k x (outer up) (apart x at_x) i)) refl refl
            w.above;
      distinct = w.distinct;
      black_end = ground arith;
    }
