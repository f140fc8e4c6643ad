-- ===== src/Srec/Readback.antt =====
-- The stores of the loader of src/srec.c, as the loads of src/emu.c see them.
use cmips_cen.Base.{
  ℕ, zero, suc, ◌+◌, ◌^◌, ◌<◌, ◌≤◌, ◌≡◌, refl, ap, ◌∙◌, arith, List, [], ◌∷◌, some, length,
  get_elem?, ◌%◌, inl, update, update_self, update_ne,
}
use cmips_cen.Machine.{Mips, ok}
use cmips_cen.Emu.Access.{read_virt_byte}
use cmips_cen.Emu.Access.Ram.{InRam, kseg0, byte_at, read_byte_ram}
use cmips_cen.Srec.{loaded, load_srec_from_file_mips}
use cmips_cen.Srec.Print.{
  data_at, print, AreBytes, IsRecord, AreRecords, bytes_of, put_bytes, FitsIn, size, total,
}
use cmips_cen.Srec.Print.Load.{load_srec-print}

put_bytes_below : (bs : List ℕ) (p q : ℕ) (f : ℕ → ℕ) → q < p → put_bytes p bs f q ≡ f q
unfolding put_bytes
put_bytes_below [] p q f lt = refl
put_bytes_below (b ∷ bs) p q f lt =
    put_bytes_below bs (p + 1) q (update f p b) (omega arith) ∙ update_ne f p q b (omega arith)

put_bytes-get :
    (bs : List ℕ) (p i b : ℕ) (f : ℕ → ℕ) → get_elem? bs i ≡ some b → put_bytes p bs f (p + i) ≡ b
unfolding put_bytes
put_bytes-get [] p i b f e = cc
put_bytes-get (c ∷ bs) p zero b f e =
    let same : c ≡ b = cc in
    ap (put_bytes (p + 1) bs (update f p c)) (omega arith)
    ∙ put_bytes_below bs (p + 1) p (update f p c) (omega arith)
    ∙ update_self f p c
    ∙ same
put_bytes-get (c ∷ bs) p (suc i) b f e =
    ap (put_bytes (p + 1) bs (update f p c)) (omega arith)
    ∙ put_bytes-get bs (p + 1) i b (update f p c) e

index_below : (bs : List ℕ) (i b : ℕ) → get_elem? bs i ≡ some b → i < length bs
index_below [] i b e = cc
index_below (c ∷ bs) zero b e = omega arith
index_below (c ∷ bs) (suc i) b e = let h = index_below bs i b e in omega (arith, h)

-- A file with one record of bytes for the memory, at an address of kseg0, is loaded, and each of
-- its bytes is then what the processor reads at its address.
pub load_srec-read :
    (p i b fuel : ℕ) (bs : List ℕ) (m : Mips)
    → get_elem? bs i ≡ some b
    → AreBytes bs
    → length bs + 5 < 2 ^ 8
    → p + length bs ≤ m.pmemsz
    → p + length bs ≤ 0x14000000
    → 6 ≤ fuel
    → (m' : Mips) × (load_srec_from_file_mips fuel (print (data_at (kseg0 p) bs ∷ [])) m
        ≡ loaded m')
      × (read_virt_byte (kseg0 (p + i)) m' ≡ ok b m')
unfolding AreRecords IsRecord FitsIn bytes_of total size
load_srec-read p i b fuel bs m e bytes short fit low enough =
    let below = index_below bs i b e in
    let place : kseg0 p % 2 ^ 29 ≡ p = omega (arith, below) in
    let fits : FitsIn m.pmemsz (kseg0 p) (length bs) =
      (inl (omega (arith, below)), omega (arith, place), omega (arith, place)) in
    let done =
      load_srec-print (data_at (kseg0 p) bs ∷ []) fuel m ((fits, short, bytes), tt) enough in
    let m' = done.0 in
    let ram : InRam m' (p + i) = record {
      in_memory = (let size = ap (λ s. s.pmemsz) done.4 in omega (arith, size, below));
      in_kseg0 = omega (arith, below);
      no_uart = ground (arith, below);
      no_power = ground (arith, below);
    } in
    (
      m',
      done.1,
      read_byte_ram m' (p + i) ram
          ∙ ap (λ v. ok v m')
              (done.2 (p + i)
                ∙ ap (λ k. put_bytes k bs (byte_at m) (p + i)) place
                ∙ put_bytes-get bs p i b (byte_at m) e),
    )
