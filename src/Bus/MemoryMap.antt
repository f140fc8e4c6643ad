-- ===== src/Bus/MemoryMap.antt =====
-- bus/memorymap.c: the red-black tree of the address ranges that devices claim. A pointer is the
-- index of a node in `mappings`; `nil` is node 0, and the null pointer is no index of the array.
pub mod Resolve
pub mod Rotate
pub mod Capacity
use cmips_cen.Base.{
  ℕ, zero, suc, ◌+◌, ◌-◌, ◌%◌, ◌^◌, Bool, true, false, Option, none, some, ◌==◌, leb, ltb, ◌&&◌,
  if◌then◌else◌, update, u32,
}

-- The length of `mappings`
abbrev pub array_length : ℕ
array_length = 3

abbrev pub nil : ℕ
nil = 0

abbrev pub null : ℕ
null = array_length

-- `struct memory_mapping`; `device` stands for `instance`, `on_read` and `on_write`.
pub record MemoryMapping (D : Type 0) : Type 0 where
  pub device : Option D
  pub length : ℕ
  pub start : ℕ
  pub end : ℕ

-- `struct memory_map_node`; `red` is the color.
pub record MemoryMapNode (D : Type 0) : Type 0 where
  pub left : ℕ
  pub parent : ℕ
  pub right : ℕ
  pub mapping : MemoryMapping D
  pub red : Bool

-- `struct memory_map`
pub record MemoryMap (D : Type 0) : Type 0 where
  pub mappings : ℕ → MemoryMapNode D
  pub root : ℕ
  pub next_map_index : ℕ

module _ {D : Type 0} where
  -- What `memset` leaves in a node
  abbrev pub blank_node : MemoryMapNode D
  blank_node = record {
    left = null;
    parent = null;
    right = null;
    mapping = record { device = none; length = 0; start = 0; end = 0 };
    red = false;
  }

  -- The memory map that `memset` leaves
  abbrev pub blank_map : MemoryMap D
  blank_map = record { mappings = λ i. blank_node; root = null; next_map_index = 0 }

  -- `create_memory_map`
  unfoldable pub create_memory_map : MemoryMap D → MemoryMap D
  create_memory_map m = record m { next_map_index = 1; root = nil }

  -- The assignments through a pointer
  unfoldable pub put_left : (n v : ℕ) → MemoryMap D → MemoryMap D
  put_left n v m = record m { mappings = update m.mappings n (record (m.mappings n) { left = v }) }

  unfoldable pub put_right : (n v : ℕ) → MemoryMap D → MemoryMap D
  put_right n v m = record m {
    mappings = update m.mappings n (record (m.mappings n) { right = v });
  }

  unfoldable pub put_parent : (n v : ℕ) → MemoryMap D → MemoryMap D
  put_parent n v m = record m {
    mappings = update m.mappings n (record (m.mappings n) { parent = v });
  }

  unfoldable pub put_red : (n : ℕ) → Bool → MemoryMap D → MemoryMap D
  put_red n v m = record m { mappings = update m.mappings n (record (m.mappings n) { red = v }) }

  -- `if (n->parent == map->nil) ... else ...`: `y` takes the place of `n` under its parent.
  unfoldable pub replace_child : (n y : ℕ) → MemoryMap D → MemoryMap D
  unfolding put_left put_right
  replace_child n y m =
      let p = (m.mappings n).parent in
      if p == nil
      then record m { root = y }
      else if n == (m.mappings p).left
      then put_left p y m
      else put_right p y m

  -- `rotate_left`
  unfoldable pub rotate_left : ℕ → MemoryMap D → MemoryMap D
  unfolding put_left put_right put_parent replace_child
  rotate_left n m =
      let y = (m.mappings n).right in
      let inner = (m.mappings y).left in
      let m1 = put_right n inner m in
      let m2 = if inner == nil then m1 else put_parent inner n m1 in
      let m3 = put_parent y (m2.mappings n).parent m2 in
      put_parent n y (put_left y n (replace_child n y m3))

  -- `rotate_right`
  unfoldable pub rotate_right : ℕ → MemoryMap D → MemoryMap D
  unfolding put_left put_right put_parent replace_child
  rotate_right n m =
      let y = (m.mappings n).left in
      let inner = (m.mappings y).right in
      let m1 = put_left n inner m in
      let m2 = if inner == nil then m1 else put_parent inner n m1 in
      let m3 = put_parent y (m2.mappings n).parent m2 in
      put_parent n y (put_right y n (replace_child n y m3))

  abbrev pub parent_of : ℕ → MemoryMap D → ℕ
  parent_of n m = (m.mappings n).parent

  -- `node->parent->parent`
  abbrev pub grand_of : ℕ → MemoryMap D → ℕ
  grand_of n m = parent_of (parent_of n m) m

  -- Case 1 of `fixup`: only colors change.
  unfoldable pub recolor : (node cur : ℕ) → MemoryMap D → MemoryMap D
  unfolding put_red
  recolor node cur m =
      let m1 = put_red cur false (put_red (parent_of node m) false m) in
      put_red (grand_of node m1) true m1

  -- Cases 2 and 3 of `fixup`, with the parent a left child; the node that the loop goes on with.
  unfoldable pub rebalance_left : ℕ → MemoryMap D → ℕ × MemoryMap D
  unfolding put_red rotate_left rotate_right
  rebalance_left node m =
      let inner = node == (m.mappings (parent_of node m)).right in
      let n = if inner then parent_of node m else node in
      let m1 = if inner then rotate_left n m else m in
      let m2 = put_red (parent_of n m1) false m1 in
      let m3 = put_red (grand_of n m2) true m2 in (n, rotate_right (grand_of n m3) m3)

  -- The same with the parent a right child
  unfoldable pub rebalance_right : ℕ → MemoryMap D → ℕ × MemoryMap D
  unfolding put_red rotate_left rotate_right
  rebalance_right node m =
      let inner = node == (m.mappings (parent_of node m)).left in
      let n = if inner then parent_of node m else node in
      let m1 = if inner then rotate_right n m else m in
      let m2 = put_red (parent_of n m1) false m1 in
      let m3 = put_red (grand_of n m2) true m2 in (n, rotate_left (grand_of n m3) m3)

  -- The body of the loop of `fixup`
  unfoldable pub fixup_step : ℕ → MemoryMap D → ℕ × MemoryMap D
  unfolding recolor rebalance_left rebalance_right
  fixup_step node m =
      let g = m.mappings (grand_of node m) in
      let is_left = parent_of node m == g.left in
      let cur = if is_left then g.right else g.left in
      if (m.mappings cur).red
      then (grand_of node m, recolor node cur m)
      else if is_left
      then rebalance_left node m
      else rebalance_right node m

  -- The loop of `fixup`; each round goes up in the tree, or ends with a black parent.
  unfoldable pub fixup_loop : (fuel : ℕ) → ℕ → MemoryMap D → Option (MemoryMap D)
  unfolding fixup_step
  fixup_loop zero node m = none
  fixup_loop (suc fuel) node m =
      let next = fixup_step node m in
      let rest = fixup_loop fuel next.0 next.1 in
      if (m.mappings (parent_of node m)).red then rest else some m

  -- `fixup`, with a round for each node of the array
  unfoldable pub fixup : ℕ → MemoryMap D → Option (MemoryMap D)
  unfolding fixup_loop put_red
  fixup node m = elim (fixup_loop array_length node m) [
    | none ↦ none
    | some m1 ↦ some (put_red m1.root false m1)
  ]

  -- The walk down to the place of a new node; `cur` trails `check`.
  unfoldable pub walk : (fuel start check cur : ℕ) → MemoryMap D → Option ℕ
  walk zero start check cur m = none
  walk (suc fuel) start check cur m =
      let node = m.mappings check in
      let rest =
        walk fuel start (if ltb start node.mapping.start then node.left else node.right) check m in
      if check == nil then some cur else rest

  -- The assignments of `map_address_range` after the walk, up to the call of `fixup`
  unfoldable pub link_node : (new_node cur start length : ℕ) → D → MemoryMap D → MemoryMap D
  unfolding put_left put_right
  link_node new_node cur start length device m =
      let m1 =
        (if cur == nil
          then record m { root = new_node }
          else if ltb start (m.mappings cur).mapping.start
          then put_left cur new_node m
          else put_right cur new_node m) in
      record m1 {
        mappings = update m1.mappings new_node (record {
          left = nil;
          parent = cur;
          right = nil;
          mapping = record {
            device = some device;
            length = length;
            start = start;
            end = (start + length + 2 ^ 32 - 1) % 2 ^ 32;
          };
          red = true;
        });
      }

  -- `map_address_range` returns 1 where no node is free, and else 0.
  unfoldable pub map_address_range : (start length : ℕ) → D → MemoryMap D → Option (ℕ × MemoryMap D)
  unfolding walk link_node fixup
  map_address_range start length device m =
      if leb (array_length - 1) m.next_map_index
      then some (1, m)
      else elim (walk (suc array_length) start m.root nil m) [
        | none ↦ none
        | some cur ↦
            (let new_node = m.next_map_index in
              let m1 = record m { next_map_index = new_node + 1 } in
              elim (fixup new_node (link_node new_node cur start length device m1)) [
                | none ↦ none
                | some m2 ↦ some (0, m2)
              ])
      ]

-- What `resolve_mapped_address` ends in: a mapping, NULL, or a read through a null pointer.
pub data Resolved (D : Type 0) : Type 0 where
  found : MemoryMapping D → Resolved D
  missing : Resolved D
  crash : Resolved D

module _ {D : Type 0} where
  -- The rounds of the loop of `resolve_mapped_address`
  unfoldable pub resolve_from : (fuel address cur : ℕ) → MemoryMap D → Resolved D
  resolve_from zero address cur m = crash
  resolve_from (suc fuel) address cur m =
      let node = m.mappings cur in
      let next = if ltb address node.mapping.start then node.left else node.right in
      let rest = resolve_from fuel address next m in
      if leb array_length cur
      then crash
      else if leb node.mapping.start address && leb address node.mapping.end
      then found node.mapping
      else if next == nil
      then missing
      else rest

  -- `resolve_mapped_address`; a walk visits each node of the array at most once.
  unfoldable pub resolve_mapped_address : MemoryMap D → ℕ → Resolved D
  unfolding resolve_from
  resolve_mapped_address m address = resolve_from array_length address m.root m
