-- ===== src/Vr4300/Functions/Requests.antt =====
-- vr4300/functions.c: loads, stores and cache operations. They only ask for an access, which the
-- data stage makes. The trace to `out.log` is left out.
use cmips_cen.Base.{
  ℕ, ◌+◌, ◌-◌, ◌*◌, ◌/◌, ◌%◌, ◌^◌, ◌==◌, ltb, if◌then◌else◌, u32, u64, bit, bit_and, bit_or,
}
use cmips_cen.Vr4300.Decoder.{get_rt}
use cmips_cen.Vr4300.Functions.Words.{ones64, not64, imm64, add64, load_sex_mask}
use cmips_cen.Vr4300.State.{
  Vr4300, CacheOp, Stage, next, with_exdc, with_request, request_read, request_write,
  request_cache_idx, request_cache_write, access_word, access_dword,
}

-- `(int64_t) (int32_t) (iw << 2) >> 32`: all ones for a store
unfoldable pub sel_mask : ℕ → ℕ
unfolding bit
sel_mask iw = if bit 29 iw then ones64 else 0

-- `1 - sel_mask`
abbrev pub request_type : ℕ → ℕ
request_type sel = (1 + 2 ^ 64 - sel) % 2 ^ 64

abbrev pub address : (iw rs : ℕ) → ℕ
address iw rs = add64 rs (imm64 iw)

-- `exdc_latch->dest = ~sel_mask & GET_RT(iw); exdc_latch->result = 0`
abbrev pub load_dest : (iw : ℕ) → Vr4300 → Vr4300
load_dest iw c =
    with_exdc (λ l. record l { dest = bit_and (not64 (sel_mask iw)) (get_rt iw); result = 0 }) c

-- `VR4300_LD_SD`
unfoldable pub vr4300_ld_sd : (iw rs rt : ℕ) → Vr4300 → Stage
unfolding sel_mask
vr4300_ld_sd iw rs rt c =
    let sel = sel_mask iw in
    next (
      load_dest iw (
        with_request
          (λ r. record r {
            vaddr = address iw rs;
            content = bit_or (not64 sel) (bit_and sel rt);
            wdqm = sel;
            postshift = 0;
            access_type = access_dword;
            type = request_type sel;
            size = 8;
          })
          c))

-- `VR4300_LL_SC`
unfoldable pub vr4300_ll_sc : (iw rs rt : ℕ) → Vr4300 → Stage
unfolding sel_mask
vr4300_ll_sc iw rs rt c =
    let sel = sel_mask iw in
    let shift = address iw rs % 2 ^ 2 * 8 in
    next (
      load_dest iw (
        with_request
          (λ r. record r {
            vaddr = address iw rs;
            content = bit_or sel (bit_and sel (rt / 2 ^ shift));
            wdqm = u32 sel;
            postshift = 0;
            access_type = access_word;
            type = request_type sel;
            size = 4;
          })
          c))

-- `VR4300_LOAD_STORE`
unfoldable pub vr4300_load_store : (iw rs rt : ℕ) → Vr4300 → Stage
unfolding sel_mask load_sex_mask
vr4300_load_store iw rs rt c =
    let sel = sel_mask iw in
    let size = iw / 2 ^ 26 % 2 ^ 2 in
    let dqm = bit_and (load_sex_mask (iw / 2 ^ 28 % 2) size) (not64 sel) in
    let lshift = (3 - size) * 8 in
    let rshift = address iw rs % 2 ^ 2 * 8 in
    next (
      load_dest iw (
        with_request
          (λ r. record r {
            vaddr = bit_and (address iw rs) (not64 (bit_and sel 3));
            content = bit_or dqm (bit_and sel (u64 (rt * 2 ^ lshift) / 2 ^ rshift));
            wdqm = u32 (u32 sel * 2 ^ lshift) / 2 ^ rshift;
            postshift = 0;
            access_type = access_word;
            type = request_type sel;
            size = size + 1;
          })
          c))

-- The request and the partial result of an unaligned load, whose mask is `dqm`
unfoldable pub part_load : (iw vaddr dqm size access_type rt : ℕ) → Vr4300 → Stage
part_load iw vaddr dqm size access_type rt c = next (
    with_exdc (λ l. record l { dest = get_rt iw; result = bit_and rt (not64 dqm) })
      (with_request
        (λ r. record r {
          vaddr = vaddr;
          content = dqm;
          wdqm = 0;
          postshift = 0;
          access_type = access_type;
          type = request_read;
          size = size;
        })
        c))

-- `VR4300_LDL_LDR`
unfoldable pub vr4300_ldl_ldr : (iw rs rt : ℕ) → Vr4300 → Stage
unfolding part_load bit
vr4300_ldl_ldr iw rs rt c =
    let a = address iw rs in
    let offset = a % 2 ^ 3 in
    if bit 26 iw
    then part_load iw (a - offset) (ones64 / 2 ^ ((8 - (offset + 1)) * 8)) (offset + 1) access_dword
        rt c
    else part_load iw a (u64 (ones64 * 2 ^ (offset * 8))) 8 access_dword rt c

-- `VR4300_LWL_LWR`; the whole word is sign-extended.
unfoldable pub vr4300_lwl_lwr : (iw rs rt : ℕ) → Vr4300 → Stage
unfolding part_load bit
vr4300_lwl_lwr iw rs rt c =
    let a = address iw rs in
    let offset = a % 2 ^ 2 in
    let low = (2 ^ 32 - 1) / 2 ^ ((4 - (offset + 1)) * 8) in
    if bit 28 iw
    then part_load iw (a - offset) (if offset == 3 then bit_or low ones64 else low) (offset + 1)
        access_word rt c
    else part_load iw a (u64 (ones64 * 2 ^ (offset * 8))) 4 access_word rt c

-- The request of an unaligned store; the address is that of a word.
unfoldable pub part_store : (vaddr content dqm size access_type : ℕ) → Vr4300 → Stage
part_store vaddr content dqm size access_type c = next (
    with_request
      (λ r. record r {
        vaddr = vaddr / 2 ^ 2 * 2 ^ 2;
        content = content;
        wdqm = dqm;
        access_type = access_type;
        type = request_write;
        size = size;
      })
      c)

-- `VR4300_SDL_SDR`
unfoldable pub vr4300_sdl_sdr : (iw rs rt : ℕ) → Vr4300 → Stage
unfolding part_store bit
vr4300_sdl_sdr iw rs rt c =
    let a = address iw rs in
    let offset = a % 2 ^ 3 in
    let right = (7 - offset) * 8 in
    let left = offset * 8 in
    if bit 26 iw
    then part_store a (u64 (rt * 2 ^ right)) (u64 (ones64 * 2 ^ right)) 8 access_dword c
    else part_store a (rt / 2 ^ left) (ones64 / 2 ^ left) 8 access_dword c

-- `VR4300_SWL_SWR`; the mask is a 32-bit word.
unfoldable pub vr4300_swl_swr : (iw rs rt : ℕ) → Vr4300 → Stage
unfolding part_store bit
vr4300_swl_swr iw rs rt c =
    let a = address iw rs in
    let offset = a % 2 ^ 2 in
    let right = (3 - offset) * 8 in
    let left = offset * 8 in
    if bit 28 iw
    then part_store a (u64 (rt * 2 ^ right)) (u32 ((2 ^ 32 - 1) * 2 ^ right)) 4 access_word c
    else part_store a (rt / 2 ^ left) ((2 ^ 32 - 1) / 2 ^ left) 4 access_word c

-- `cacheop_lut`
unfoldable pub cacheop_lut : ℕ → CacheOp
cacheop_lut op =
    if op == 0
    then CacheOp.ic_invalidate
    else if op == 2
    then CacheOp.ic_set_taglo
    else if op == 4
    then CacheOp.ic_invalidate_hit
    else if op == 8
    then CacheOp.dc_wb_invalidate
    else if op == 9
    then CacheOp.dc_get_taglo
    else if op == 10
    then CacheOp.dc_set_taglo
    else if op == 11
    then CacheOp.dc_create_dirty_ex
    else if op == 12
    then CacheOp.dc_hit_invalidate
    else if op == 13
    then CacheOp.dc_hit_wb_invalidate
    else if op == 14
    then CacheOp.dc_hit_wb
    else CacheOp.unimplemented

-- `VR4300_CACHE`
unfoldable pub vr4300_cache : (iw rs rt : ℕ) → Vr4300 → Stage
unfolding cacheop_lut
vr4300_cache iw rs rt c =
    let op_type = iw / 2 ^ 18 % 2 ^ 3 in
    let op = iw / 2 ^ 16 % 2 ^ 2 * 2 ^ 3 + op_type in
    next (
      with_request
        (λ r. record r {
          vaddr = address iw rs;
          cacheop = cacheop_lut op;
          type = if ltb 2 op_type then request_cache_write else request_cache_idx;
        })
        c)
