-- ===== src/Bus/MemoryMap/Resolve.antt =====
-- bus/memorymap.c: `resolve_mapped_address` on a search tree against a scan of all its ranges.
use cmips_cen.Base.{
  ℕ, zero, suc, ◌+◌, ◌≤◌, ◌<◌, ◌≡◌, ◌≢◌, refl, ap, ap₂, ◌∙◌, arith, Bool, false, leb, ◌&&◌,
  if◌then◌else◌,
}
use cmips_cen.Bus.MemoryMap.{
  MemoryMap, Resolved, found, missing, crash, array_length, nil, resolve_from,
  resolve_mapped_address,
}

-- The shape of a tree of nodes
pub data Tree : Type 0 where
  leaf : Tree
  node : Tree → ℕ → Tree → Tree

abbrev pub All {ℓ} : (ℕ → Type ℓ) → Tree → Type ℓ
All P leaf = Unit
All P (node l k r) = All P l × P k × All P r

pub All-imp {ℓ κ} :
    {P : ℕ → Type ℓ} {Q : ℕ → Type κ} → ((k : ℕ) → P k → Q k) → (t : Tree) → All P t → All Q t
All-imp f leaf a = tt
All-imp f (node l k r) a = (All-imp f l a.0, f k a.1, All-imp f r a.2)

abbrev pub size : Tree → ℕ
size leaf = 0
size (node l k r) = suc (size l + size r)

module _ {D : Type 0} where
  -- The pointer `p` is to a tree of this shape.
  abbrev pub Shape : MemoryMap D → ℕ → Tree → Type 0
  Shape m p leaf = p ≡ nil
  Shape m p (node l k r) =
      (p ≡ k)
      × (0 < k)
      × (k < array_length)
      × Shape m (m.mappings k).left l
      × Shape m (m.mappings k).right r

  abbrev pub start_of : MemoryMap D → ℕ → ℕ
  start_of m k = (m.mappings k).mapping.start

  abbrev pub end_of : MemoryMap D → ℕ → ℕ
  end_of m k = (m.mappings k).mapping.end

  -- The ranges are disjoint and rise from left to right.
  abbrev pub IsOrdered : MemoryMap D → Tree → Type 0
  IsOrdered m leaf = Unit
  IsOrdered m (node l k r) =
      (start_of m k ≤ end_of m k)
      × All (λ j. (start_of m j ≤ end_of m j) × (end_of m j < start_of m k)) l
      × All (λ j. (end_of m k < start_of m j) × (start_of m j ≤ end_of m j)) r
      × IsOrdered m l
      × IsOrdered m r

  abbrev pub in_range : MemoryMap D → ℕ → ℕ → Bool
  in_range m address k = leb (start_of m k) address && leb address (end_of m k)

  abbrev pub or_else : Resolved D → Resolved D → Resolved D
  or_else missing r = r
  or_else f r = f

  -- The first of all ranges, from left to right, that holds the address
  unfoldable pub scan : MemoryMap D → ℕ → Tree → Resolved D
  scan m address leaf = missing
  scan m address (node l k r) =
      or_else (scan m address l)
        (if in_range m address k then found (m.mappings k).mapping else scan m address r)

  or_else-missing : (r : Resolved D) → or_else r missing ≡ r
  or_else-missing missing = refl
  or_else-missing (found x) = refl
  or_else-missing crash = refl

  scan_outside :
      (m : MemoryMap D) (address : ℕ) (t : Tree)
      → All (λ k. in_range m address k ≡ false) t
      → scan m address t ≡ missing
  unfolding scan
  scan_outside m address leaf h = refl
  scan_outside m address (node l k r) h = ap₂ or_else (scan_outside m address l h.0) (
      ap₂ (λ b rest. if b then found (m.mappings k).mapping else rest) h.1
        (scan_outside m address r h.2))

  -- One round of the loop, with a root and two subtrees
  round :
      (fuel address k : ℕ) (m : MemoryMap D) (l r : Tree)
      → IsOrdered m (node l k r)
      → k < array_length
      → ((m.mappings k).left ≢ nil
          → resolve_from fuel address (m.mappings k).left m ≡ scan m address l)
      → ((m.mappings k).left ≡ nil → scan m address l ≡ missing)
      → ((m.mappings k).right ≢ nil
          → resolve_from fuel address (m.mappings k).right m ≡ scan m address r)
      → ((m.mappings k).right ≡ nil → scan m address r ≡ missing)
      → resolve_from (suc fuel) address k m ≡ scan m address (node l k r)
  unfolding resolve_from scan
  round fuel address k m l r o lt left_step left_end right_step right_end =
      let left_out : end_of m k < address → scan m address l ≡ missing =
        λ h. scan_outside m address l (All-imp (λ j q. ground arith) l o.1) in
      let right_out : address < start_of m k → scan m address r ≡ missing =
        λ h. scan_outside m address r (All-imp (λ j q. ground arith) r o.2) in
      let left_here : start_of m k ≤ address → scan m address l ≡ missing =
        λ h. scan_outside m address l (All-imp (λ j q. ground arith) l o.1) in
      ground (
        arith,
        left_out,
        right_out,
        left_here,
        left_step,
        left_end,
        right_step,
        right_end,
        or_else-missing (scan m address l),
      )

  descend :
      (fuel address p : ℕ) (m : MemoryMap D) (t : Tree)
      → Shape m p t
      → IsOrdered m t
      → size t ≤ fuel
      → (p ≢ nil → resolve_from fuel address p m ≡ scan m address t)
        × (p ≡ nil → scan m address t ≡ missing)
  unfolding scan
  descend fuel address p m leaf s o f = (λ ne. absurd (ne s), λ e. refl)
  descend zero address p m (node l k r) s o f = absurd (omega arith)
  descend (suc fuel) address p m (node l k r) s o f =
      let left = descend fuel address (m.mappings k).left m l s.3 o.3 (omega arith) in
      let right = descend fuel address (m.mappings k).right m r s.4 o.4 (omega arith) in
      (
        λ ne.
            ap (λ q. resolve_from (suc fuel) address q m) s.0
            ∙ round fuel address k m l r o s.2 left.0 left.1 right.0 right.1,
        λ e. absurd (omega (arith, s.0, s.1, e)),
      )

  -- In a search tree of disjoint ranges with no more nodes than the array and one at least, the
  -- search finds the range that a scan of all ranges finds, and NULL where none holds the address.
  pub resolve_mapped_address-scan :
      (address : ℕ) (m : MemoryMap D) (t : Tree)
      → Shape m m.root t
      → IsOrdered m t
      → size t ≤ array_length
      → m.root ≢ nil
      → resolve_mapped_address m address ≡ scan m address t
  unfolding resolve_mapped_address
  resolve_mapped_address-scan address m t s o f ne =
      (descend array_length address m.root m t s o f).0 ne
