-- ===== src/Srec/Total.antt =====
-- The rounds of the loops of src/srec.c, and how the loader ends.
use cmips_cen.Base.{
  ℕ, zero, suc, ◌+◌, ◌%◌, ◌^◌, ◌≤◌, ◌≡◌, refl, ◌⊎◌, inl, inr, arith, Bool, false, List, [], ◌∷◌,
  if_ind, length,
}
use cmips_cen.Machine.{Mips}
use cmips_cen.Srec.{
  Stream, fnext_char, file_loader, Loading, going, failed, overran, stuck, LoadResult, loaded,
  rejected, undefined, out_of_fuel, srec_read_type, load_record, load_srec_mips,
  load_srec_from_file_mips,
}
use cmips_cen.Srec.Rests.{after_record}
use cmips_cen.Srec.Within.{st, left, Within, load_record-Within, read_type-left}

-- The loader has returned, or has met the store at the end of the memory.
Finishes : LoadResult → Type 0
Finishes (loaded m) = Unit
Finishes (rejected m) = Unit
Finishes (undefined a m) = a % 2 ^ 29 ≡ m.pmemsz
Finishes out_of_fuel = ⊥

record-Finishes :
    (fuel k : ℕ) (l : Loading Stream)
    → Within k l
    → ((s : Stream) (m : Mips) → left s ≤ k → Finishes (load_srec_mips file_loader fuel s m))
    → Finishes (after_record fuel l)
unfolding Finishes Within
record-Finishes fuel k (going s m) w ih = ih s m w
record-Finishes fuel k (failed m) w ih = tt
record-Finishes fuel k (overran a m) w ih = w
record-Finishes fuel k stuck w ih = w

load_srec-Finishes :
    (fuel : ℕ) (cs : List ℕ) (e : Bool) (m : Mips)
    → length cs + 2 ≤ fuel
    → Finishes (load_srec_mips file_loader fuel (st cs e) m)
unfolding Finishes load_srec_mips load_record srec_read_type fnext_char
load_srec-Finishes zero cs e m h = absurd (omega arith)
load_srec-Finishes (suc zero) [] e m h = absurd (omega arith)
load_srec-Finishes (suc (suc fuel)) [] e m h = if_ind Finishes e tt tt
load_srec-Finishes (suc fuel) (c ∷ cs) e m h =
    let r = srec_read_type file_loader (st (c ∷ cs) e) in
    if_ind Finishes e tt (
      record-Finishes fuel (length cs) (load_record file_loader fuel r.0 r.1 m)
        (load_record-Within fuel (length cs) r.0 r.1 m (omega arith) (read_type-left c cs e))
        (λ s m' w. load_srec-Finishes fuel s.rest s.at_eof m' (omega (arith, w))))

returned :
    (r : LoadResult)
    → Finishes r
    → (m : Mips) × ((r ≡ loaded m)
        ⊎ (r ≡ rejected m)
        ⊎ ((a : ℕ) × (r ≡ undefined a m) × (a % 2 ^ 29 ≡ m.pmemsz)))
unfolding Finishes
returned (loaded m) h = (m, inl refl)
returned (rejected m) h = (m, inr (inl refl))
returned (undefined a m) h = (m, inr (inr (a, refl, h)))
returned out_of_fuel h = absurd h

-- On any file, well-formed or not, two rounds more than there are bytes are enough for all loops of
-- the loader, and one of three things has then happened: it has loaded the file, it has rejected the
-- file, or a record of the file has data for an address whose offset in its segment is exactly the
-- size of the memory, where the loader stores past the end of the memory, which C does not define.
pub load_srec_returns :
    (fuel : ℕ) (bytes : List ℕ) (m : Mips)
    → length bytes + 2 ≤ fuel
    → (m' : Mips) × ((load_srec_from_file_mips fuel bytes m ≡ loaded m')
        ⊎ (load_srec_from_file_mips fuel bytes m ≡ rejected m')
        ⊎ ((a : ℕ) × (load_srec_from_file_mips fuel bytes m ≡ undefined a m')
            × (a % 2 ^ 29 ≡ m'.pmemsz)))
load_srec_returns fuel bytes m h =
    returned (load_srec_from_file_mips fuel bytes m) (load_srec-Finishes fuel bytes false m h)
