-- ===== src/Bus/MemoryMap/Rotate.antt =====
-- bus/memorymap.c: what the two rotations do to the tree.
use cmips_cen.Base.{
  ℕ, ◌≡◌, ◌≢◌, ◌↔◌, refl, sym, subst, ap, ap₂, ◌∙◌, arith, Bool, true, false, leb, ◌&&◌,
  if◌then◌else◌, update,
}
use cmips_cen.Bus.MemoryMap.{
  MemoryMap, MemoryMapping, Resolved, found, missing, crash, parent_of, rotate_left, rotate_right,
}
use cmips_cen.Bus.MemoryMap.Resolve.{
  Tree, leaf, node, All, All-imp, Shape, IsOrdered, in_range, or_else, scan,
}

module _ {D : Type 0} (m m' : MemoryMap D) where
  -- A node has the children that it had.
  abbrev pub SameChildren : ℕ → Type 0
  SameChildren k =
      ((m'.mappings k).left ≡ (m.mappings k).left) × ((m'.mappings k).right ≡ (m.mappings k).right)

  pub Shape-frame : (p : ℕ) (t : Tree) → All SameChildren t → Shape m p t → Shape m' p t
  Shape-frame p leaf s h = h
  Shape-frame p (node l k r) s h = (
    h.0,
    h.1,
    h.2,
    Shape-frame (m'.mappings k).left l s.0 (subst (λ q. Shape m q l) (sym s.1.0) h.3),
    Shape-frame (m'.mappings k).right r s.2 (subst (λ q. Shape m q r) (sym s.1.1) h.4),
  )

  module _ (same : (k : ℕ) → (m'.mappings k).mapping ≡ (m.mappings k).mapping) where
    pub scan_frame : (address : ℕ) (t : Tree) → scan m' address t ≡ scan m address t
    unfolding scan
    scan_frame address leaf = refl
    scan_frame address (node l k r) = ap₂ or_else (scan_frame address l) (
        ap₂
          (λ (x : MemoryMapping D) rest.
            if leb x.start address && leb address x.end then found x else rest)
          (same k) (scan_frame address r))

    pub IsOrdered-frame : (t : Tree) → IsOrdered m t → IsOrdered m' t
    IsOrdered-frame leaf o = tt
    IsOrdered-frame (node l k r) o = (
      ground (arith, same k),
      All-imp (λ j q. ground (arith, same j, same k)) l o.1,
      All-imp (λ j q. ground (arith, same j, same k)) r o.2,
      IsOrdered-frame l o.3,
      IsOrdered-frame r o.4,
    )

module _ {D : Type 0} (m : MemoryMap D) where
  or_else_assoc : (x y z : Resolved D) → or_else (or_else x y) z ≡ or_else x (or_else y z)
  or_else_assoc missing y z = refl
  or_else_assoc (found x) y z = refl
  or_else_assoc crash y z = refl

  or_else-if :
      (b : Bool) (x y z : Resolved D)
      → or_else (if b then x else y) z ≡ (if b then or_else x z else or_else y z)
  or_else-if true x y z = refl
  or_else-if false x y z = refl

  -- A rotation of the shape keeps the order of the ranges, and so what a scan finds.
  pub scan_turn :
      (address n y : ℕ) (a b c : Tree)
      → scan m address (node (node a n b) y c) ≡ scan m address (node a n (node b y c))
  unfolding scan
  scan_turn address n y a b c =
      let last = if in_range m address y then found (m.mappings y).mapping else scan m address c in
      or_else_assoc (scan m address a)
        (if in_range m address n then found (m.mappings n).mapping else scan m address b) last
      ∙ ap (or_else (scan m address a))
          (or_else-if (in_range m address n) (found (m.mappings n).mapping) (scan m address b) last)

  pub IsOrdered-turn :
      (n y : ℕ) (a b c : Tree)
      → IsOrdered m (node a n (node b y c)) ↔ IsOrdered m (node (node a n b) y c)
  IsOrdered-turn n y a b c = (
    λ o. (
      o.4.0,
      (All-imp (λ j q. ground arith) a o.1, ground arith, o.4.1),
      o.4.2,
      (o.0, o.1, o.2.0, o.3, o.4.3),
      o.4.4,
    ),
    λ o. (
      o.3.0,
      o.3.1,
      (o.3.2, ground arith, All-imp (λ j q. ground arith) c o.2),
      o.3.3,
      (o.0, o.1.2, o.2, o.3.4, o.4),
    ),
  )

  -- A node that a rotation of `n` and its child `y` leaves alone but for its parent
  abbrev pub Apart : (n y k : ℕ) → Type 0
  Apart n y k = (k ≢ n) × (k ≢ y) × (k ≢ parent_of n m)

  -- What the rotation needs to know of the nodes: `y` is a child of `n`, and the node that changes
  -- sides, the parent of `n`, `n` and `y` are different.
  pub record CanTurn (n y inner : ℕ) : Type 0 where
    pub n_y : n ≢ y
    pub n_inner : n ≢ inner
    pub parent_n : parent_of n m ≢ n
    pub parent_y : parent_of n m ≢ y

  module _ (n y : ℕ) where
    module _ (right : (m.mappings n).right ≡ y) (can : CanTurn n y (m.mappings y).left) where
      left_others : (k : ℕ) → Apart n y k → SameChildren m (rotate_left n m) k
      unfolding rotate_left update
      left_others k a = ground arith

      left_mapping : (k : ℕ) → ((rotate_left n m).mappings k).mapping ≡ (m.mappings k).mapping
      unfolding rotate_left update
      left_mapping k = ground arith

      left_n :
          (((rotate_left n m).mappings n).left ≡ (m.mappings n).left)
          × (((rotate_left n m).mappings n).right ≡ (m.mappings y).left)
      unfolding rotate_left update
      left_n = ground arith

      left_y :
          (((rotate_left n m).mappings y).left ≡ n)
          × (((rotate_left n m).mappings y).right ≡ (m.mappings y).right)
      unfolding rotate_left update
      left_y = ground arith

    module _ (left : (m.mappings n).left ≡ y) (can : CanTurn n y (m.mappings y).right) where
      right_others : (k : ℕ) → Apart n y k → SameChildren m (rotate_right n m) k
      unfolding rotate_right update
      right_others k a = ground arith

      right_mapping : (k : ℕ) → ((rotate_right n m).mappings k).mapping ≡ (m.mappings k).mapping
      unfolding rotate_right update
      right_mapping k = ground arith

      right_n :
          (((rotate_right n m).mappings n).right ≡ (m.mappings n).right)
          × (((rotate_right n m).mappings n).left ≡ (m.mappings y).right)
      unfolding rotate_right update
      right_n = ground arith

      right_y :
          (((rotate_right n m).mappings y).right ≡ n)
          × (((rotate_right n m).mappings y).left ≡ (m.mappings y).left)
      unfolding rotate_right update
      right_y = ground arith

  -- The subtrees are apart from the two nodes that turn and from the parent.
  abbrev pub ApartAll : (n y : ℕ) (a b c : Tree) → Type 0
  ApartAll n y a b c = All (Apart n y) a × All (Apart n y) b × All (Apart n y) c

  -- A left rotation of a node whose right child is `y`, in a tree of different nodes, puts `y` on
  -- top with the node on its left. The ranges stay in order, and a scan of the new tree finds for
  -- every address what a scan of the old tree found.
  pub rotate_left_lem :
      (n y : ℕ) (a b c : Tree)
      → CanTurn n y (m.mappings y).left
      → ApartAll n y a b c
      → Shape m n (node a n (node b y c))
      → IsOrdered m (node a n (node b y c))
      → Shape (rotate_left n m) y (node (node a n b) y c)
        × IsOrdered (rotate_left n m) (node (node a n b) y c)
        × ((address : ℕ)
            → scan (rotate_left n m) address (node (node a n b) y c)
              ≡ scan m address (node a n (node b y c)))
  rotate_left_lem n y a b c can apart s o =
      let m' = rotate_left n m in
      let r = s.4.0 in
      let frame = Shape-frame m m' in
      let others = left_others n y r can in
      let at_n = left_n n y r can in
      let at_y = left_y n y r can in
      (
        (
          refl,
          s.4.1,
          s.4.2,
          (
            at_y.0,
            s.1,
            s.2,
            subst (λ q. Shape m' q a) (sym at_n.0)
                (frame (m.mappings n).left a (All-imp others a apart.0) s.3),
            subst (λ q. Shape m' q b) (sym at_n.1)
                (frame (m.mappings y).left b (All-imp others b apart.1) s.4.3),
          ),
          subst (λ q. Shape m' q c) (sym at_y.1)
              (frame (m.mappings y).right c (All-imp others c apart.2) s.4.4),
        ),
        IsOrdered-frame m m' (left_mapping n y r can) (node (node a n b) y c)
            ((IsOrdered-turn n y a b c).0 o),
        λ address.
            scan_frame m m' (left_mapping n y r can) address (node (node a n b) y c)
            ∙ scan_turn address n y a b c,
      )

  -- The mirror image
  pub rotate_right_lem :
      (n y : ℕ) (a b c : Tree)
      → CanTurn n y (m.mappings y).right
      → ApartAll n y a b c
      → Shape m n (node (node a y b) n c)
      → IsOrdered m (node (node a y b) n c)
      → Shape (rotate_right n m) y (node a y (node b n c))
        × IsOrdered (rotate_right n m) (node a y (node b n c))
        × ((address : ℕ)
            → scan (rotate_right n m) address (node a y (node b n c))
              ≡ scan m address (node (node a y b) n c))
  rotate_right_lem n y a b c can apart s o =
      let m' = rotate_right n m in
      let l = s.3.0 in
      let frame = Shape-frame m m' in
      let others = right_others n y l can in
      let at_n = right_n n y l can in
      let at_y = right_y n y l can in
      (
        (
          refl,
          s.3.1,
          s.3.2,
          subst (λ q. Shape m' q a) (sym at_y.1)
              (frame (m.mappings y).left a (All-imp others a apart.0) s.3.3),
          (
            at_y.0,
            s.1,
            s.2,
            subst (λ q. Shape m' q b) (sym at_n.1)
                (frame (m.mappings y).right b (All-imp others b apart.1) s.3.4),
            subst (λ q. Shape m' q c) (sym at_n.0)
                (frame (m.mappings n).right c (All-imp others c apart.2) s.4),
          ),
        ),
        IsOrdered-frame m m' (right_mapping n y l can) (node a y (node b n c))
            ((IsOrdered-turn y n a b c).1 o),
        λ address.
            scan_frame m m' (right_mapping n y l can) address (node a y (node b n c))
            ∙ sym (scan_turn address y n a b c),
      )
