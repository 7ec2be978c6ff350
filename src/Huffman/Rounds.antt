-- ===== src/Huffman/Rounds.antt =====
-- What a round of src/compress_common.c's `build_tree` keeps, whatever the frequencies are.
use wimlib.Common.{
  ℕ, suc, ◌+◌, ◌*◌, ◌≤◌, ◌<◌, ◌≡◌, refl, ap, ◌∙◌, subst, List, get_or, set, length, length-set,
  false, Bool-cases, inl, inr, arith,
}
use wimlib.Huffman.{
  upper, put_upper, Forest, freq, put_parent, put_node, two_leaves, two_inner, build_step,
}
use wimlib.Huffman.Numbering.{get_or-set_self, get_or-set_ne}
use wimlib.Huffman.Counts.{upper-put_upper}

abbrev pub parent : List ℕ → ℕ → ℕ
parent nodes k = upper (get_or nodes k 0)

-- The first `b` nodes have parents before `e`, in order, none more than twice.
pub record AreLinked (b e : ℕ) (nodes : List ℕ) : Type 0 where
  pub above : (k : ℕ) → k < b → (k < parent nodes k) × (parent nodes k < e)
  pub ordered : (j k : ℕ) → j ≤ k → k < b → parent nodes j ≤ parent nodes k
  pub two : (k : ℕ) → suc (suc k) < b → parent nodes k < parent nodes (suc (suc k))

-- Another array with the same parents.
same-AreLinked :
    (b e e' : ℕ) (nodes other : List ℕ)
    → e ≤ e'
    → ((k : ℕ) → k < b → parent other k ≡ parent nodes k)
    → AreLinked b e nodes
    → AreLinked b e' other
same-AreLinked b e e' nodes other h f v = record {
  above = λ k l. ground (arith, f k, v.above k);
  ordered = λ j k l m. ground (arith, f j, f k, v.ordered j k);
  two = λ k l. ground (arith, f k, f (suc (suc k)), v.two k);
}

put_node-AreLinked :
    (b e e' n : ℕ) (nodes : List ℕ)
    → b ≤ e
    → AreLinked b e' nodes
    → AreLinked b e' (put_node n e nodes)
unfolding put_node
put_node-AreLinked b e e' n nodes h v =
    same-AreLinked b e' e' nodes (put_node n e nodes) (omega arith)
      (λ k l. ap upper (get_or-set_ne nodes e k _ (λ f. omega (arith, f, l)))) v

parent-put_parent :
    (e b k : ℕ) (nodes : List ℕ) → k < b → parent (put_parent e b nodes) k ≡ parent nodes k
unfolding put_parent
parent-put_parent e b k nodes m =
    ap upper (get_or-set_ne nodes b k (put_upper (get_or nodes b 0) e) (λ f. omega (arith, f, m)))

-- One more node gets the parent `e`.
put_parent-AreLinked :
    (b e : ℕ) (nodes : List ℕ)
    → b < e
    → b < length nodes
    → ((k : ℕ) → suc (suc k) ≡ b → parent nodes k < e)
    → AreLinked b (suc e) nodes
    → AreLinked (suc b) (suc e) (put_parent e b nodes)
unfolding put_parent
put_parent-AreLinked b e nodes h l t v = record {
  above = λ k m. ground (arith, v.above k, old k, new k);
  ordered = λ j k m n. ground (arith, v.ordered j k, v.above j, old j, old k, new j, new k);
  two = λ k m. ground (arith, v.two k, t k, old k, old (suc (suc k)), new (suc (suc k)));
}
  where
    changed : List ℕ
    changed = set nodes b (put_upper (get_or nodes b 0) e)

    new : (k : ℕ) → k ≡ b → parent changed k ≡ e
    new k f =
        ap (parent changed) f
        ∙ ap upper (get_or-set_self nodes b (put_upper (get_or nodes b 0) e) l)
        ∙ upper-put_upper (get_or nodes b 0) e

    old : (k : ℕ) → k < b → parent changed k ≡ parent nodes k
    old k m = parent-put_parent e b k nodes m

-- What holds before each round, with `n` symbols: the leaves and inner nodes that are used up are twice as
-- many as the inner nodes.
pub record IsForest (n : ℕ) (f : Forest) : Type 0 where
  pub size : n ≤ length f.nodes
  pub pairs : f.i + f.b ≡ 2 * f.e
  pub leaves : f.i ≤ n
  pub inner : f.b ≤ f.e
  pub unfinished : 1 ≤ f.e → f.b < f.e
  pub linked : AreLinked f.b f.e f.nodes

length-put_parent : (e k : ℕ) (nodes : List ℕ) → length (put_parent e k nodes) ≡ length nodes
unfolding put_parent
length-put_parent e k nodes = length-set nodes k (put_upper (get_or nodes k 0) e)

length-put_node : (n e : ℕ) (nodes : List ℕ) → length (put_node n e nodes) ≡ length nodes
unfolding put_node
length-put_node n e nodes = length-set nodes e _

pub build_step_e : (last_idx : ℕ) (f : Forest) → (build_step last_idx f).e ≡ f.e + 1
unfolding build_step
build_step_e last_idx f = elim (Bool-cases (two_leaves last_idx f)) [
  | inl a ↦ rw a refl
  | inr a ↦ elim (Bool-cases (two_inner last_idx f)) [
    | inl c ↦ rw (a, c) refl
    | inr c ↦ rw (a, c) refl
  ]
]

module _ (n : ℕ) (f : Forest) (v : IsForest n f) (more : f.e + 1 < n) where
  weaker : AreLinked f.b (suc f.e) f.nodes
  weaker = same-AreLinked f.b f.e (suc f.e) f.nodes f.nodes (omega arith) (λ k l. refl) v.linked

  one_parent : f.b < f.e → AreLinked (suc f.b) (suc f.e) (put_parent f.e f.b f.nodes)
  one_parent h =
      put_parent-AreLinked f.b f.e f.nodes h (omega (arith, v.size, v.inner, more))
        (λ k l. (v.linked.above k (omega (arith, l))).1) weaker

  two_parents :
      f.b + 2 ≤ f.e
      → AreLinked (suc (suc f.b)) (suc f.e) (put_parent f.e (suc f.b) (put_parent f.e f.b f.nodes))
  two_parents h =
      put_parent-AreLinked (suc f.b) f.e (put_parent f.e f.b f.nodes) (omega (arith, h))
        (omega (arith, v.size, v.inner, more, length-put_parent f.e f.b f.nodes, h))
        (λ k l. omega (
          arith,
          parent-put_parent f.e f.b k f.nodes (omega (arith, l)),
          (v.linked.above k (omega (arith, l))).1,
        ))
        (one_parent (omega (arith, h)))

  -- The new node is past the ones with parents.
  made :
      (i b sum : ℕ) (nodes : List ℕ)
      → n ≤ length nodes
      → i + b ≡ 2 * (f.e + 1)
      → i ≤ n
      → b ≤ f.e
      → AreLinked b (suc f.e) nodes
      → IsForest n (record { i = i; b = b; e = f.e + 1; nodes = put_node sum f.e nodes })
  made i b sum nodes size pairs leaves inner linked = record {
    size = omega (arith, size, length-put_node sum f.e nodes);
    pairs = pairs;
    leaves = leaves;
    inner = omega (arith, inner);
    unfinished = λ _. omega (arith, inner);
    linked =
        subst (λ e. AreLinked b e (put_node sum f.e nodes)) (omega arith)
          (put_node-AreLinked b f.e (suc f.e) sum nodes inner linked);
  }

  module _ (last_idx : ℕ) (last : n ≡ suc last_idx) where
    leaf_inner :
        two_leaves last_idx f ≡ false
        → two_inner last_idx f ≡ false
        → (f.i ≤ last_idx) × (f.b < f.e)
    leaf_inner a c =
        let p = v.pairs in let q = v.inner in let r = v.leaves in (ground arith, ground arith)

    kept_size : n ≤ length (put_parent f.e (suc f.b) (put_parent f.e f.b f.nodes))
    kept_size = omega (
      arith,
      v.size,
      length-put_parent f.e f.b f.nodes,
      length-put_parent f.e (suc f.b) (put_parent f.e f.b f.nodes),
    )

    pub build_step-IsForest : IsForest n (build_step last_idx f)
    unfolding build_step
    build_step-IsForest = elim (Bool-cases (two_leaves last_idx f)) [
      | inl a ↦
          let h : f.i + 2 ≤ n = ground (arith, a, last) in
          rw a (
            made (f.i + 2) f.b (freq f.nodes f.i + freq f.nodes (f.i + 1)) f.nodes v.size
              (omega (arith, v.pairs)) h v.inner weaker)
      | inr a ↦ elim (Bool-cases (two_inner last_idx f)) [
        | inl c ↦
            let h : f.b + 2 ≤ f.e = ground (arith, c) in
            rw (a, c)
              (made f.i (suc (suc f.b)) (freq f.nodes f.b + freq f.nodes (suc f.b))
                (put_parent f.e (suc f.b) (put_parent f.e f.b f.nodes)) kept_size
                (omega (arith, v.pairs)) v.leaves (omega (arith, h)) (two_parents h))
        | inr c ↦
            let (h, k) = leaf_inner a c in
            rw (a, c)
              (made (f.i + 1) (suc f.b) (freq f.nodes f.i + freq f.nodes f.b)
                (put_parent f.e f.b f.nodes)
                (omega (arith, v.size, length-put_parent f.e f.b f.nodes)) (omega (arith, v.pairs))
                (omega (arith, h, last)) (omega (arith, k)) (one_parent k))
      ]
    ]
