-- ===== src/Vr4300/Functions/CacheOps.antt =====
-- vr4300/functions.c: the cache operations, as the data stage calls them. A delay of 0 lets the stage
-- go on; `none` is `abort()` or undefined.
use cmips_cen.Base.{ℕ, Option, none, some, if◌then◌else◌, update, u32, bit, clear_bit}
use cmips_cen.Bus.Controller.{done, stopped}
use cmips_cen.Vr4300.Dcache
use cmips_cen.Vr4300.Dcache.{DcacheLine}
use cmips_cen.Vr4300.Icache
use cmips_cen.Vr4300.Fault.Refill.{dcache_access_delay, write_line}
use cmips_cen.Vr4300.State.{Vr4300, CacheOp, put_reg, cp0_taglo}

abbrev pub at_once : Vr4300 → Option (ℕ × Vr4300)
at_once c = some (0, c)

-- A write of a line to the bus, after which the stage waits
abbrev pub after_write : DcacheLine → (vaddr : ℕ) → (Vr4300 → Vr4300) → Vr4300 → Option (ℕ × Vr4300)
after_write line vaddr f c = elim (write_line line vaddr c.bus) [
  | done _ bus ↦ some (dcache_access_delay, f (record c { bus = bus }))
  | stopped ↦ none
]

-- `vr4300_cacheop_ic_invalidate`, `..._ic_set_taglo` and `..._ic_invalidate_hit`
unfoldable pub ic_invalidate : (vaddr paddr : ℕ) → Vr4300 → Option (ℕ × Vr4300)
unfolding Icache.invalidate
ic_invalidate vaddr paddr c = at_once (record c { icache = Icache.invalidate vaddr c.icache })

unfoldable pub ic_set_taglo : (vaddr paddr : ℕ) → Vr4300 → Option (ℕ × Vr4300)
unfolding Icache.set_taglo
ic_set_taglo vaddr paddr c =
    at_once (record c { icache = Icache.set_taglo vaddr (u32 (c.regs cp0_taglo)) c.icache })

unfoldable pub ic_invalidate_hit : (vaddr paddr : ℕ) → Vr4300 → Option (ℕ × Vr4300)
unfolding Icache.invalidate_hit
ic_invalidate_hit vaddr paddr c =
    at_once (record c { icache = Icache.invalidate_hit vaddr paddr c.icache })

-- `vr4300_cacheop_dc_get_taglo` and `vr4300_cacheop_dc_set_taglo`
unfoldable pub dc_get_taglo : (vaddr paddr : ℕ) → Vr4300 → Option (ℕ × Vr4300)
unfolding Dcache.get_taglo update
dc_get_taglo vaddr paddr c = at_once (put_reg cp0_taglo (Dcache.get_taglo c.dcache vaddr) c)

unfoldable pub dc_set_taglo : (vaddr paddr : ℕ) → Vr4300 → Option (ℕ × Vr4300)
unfolding Dcache.set_taglo
dc_set_taglo vaddr paddr c =
    at_once (record c { dcache = Dcache.set_taglo vaddr (u32 (c.regs cp0_taglo)) c.dcache })

-- `vr4300_cacheop_dc_wb_invalidate`
unfoldable pub dc_wb_invalidate : (vaddr paddr : ℕ) → Vr4300 → Option (ℕ × Vr4300)
unfolding Dcache.wb_invalidate write_line
dc_wb_invalidate vaddr paddr c =
    let r = Dcache.wb_invalidate vaddr c.dcache in
    elim r.0 [
      | none ↦ at_once c
      | some line ↦ after_write line vaddr (λ c1. c1) (record c { dcache = r.1 })
    ]

-- `vr4300_cacheop_dc_create_dirty_ex`
unfoldable pub dc_create_dirty_ex : (vaddr paddr : ℕ) → Vr4300 → Option (ℕ × Vr4300)
unfolding Dcache.should_flush_line Dcache.create_dirty_exclusive write_line
dc_create_dirty_ex vaddr paddr c =
    let create =
      λ (c1 : Vr4300). record c1 { dcache = Dcache.create_dirty_exclusive vaddr paddr c1.dcache } in
    elim (Dcache.should_flush_line c.dcache vaddr) [
      | none ↦ at_once (create c)
      | some line ↦ after_write line vaddr create c
    ]

-- `vr4300_cacheop_dc_hit_invalidate`
unfoldable pub dc_hit_invalidate : (vaddr paddr : ℕ) → Vr4300 → Option (ℕ × Vr4300)
unfolding Dcache.probe Dcache.invalidate_line Dcache.put_line
dc_hit_invalidate vaddr paddr c = elim (Dcache.probe c.dcache vaddr paddr) [
  | none ↦ at_once c
  | some line ↦
      at_once (record c { dcache = Dcache.put_line vaddr (Dcache.invalidate_line line) c.dcache })
]

-- `vr4300_cacheop_dc_hit_wb_invalidate`
unfoldable pub dc_hit_wb_invalidate : (vaddr paddr : ℕ) → Vr4300 → Option (ℕ × Vr4300)
unfolding Dcache.probe Dcache.invalidate_line Dcache.put_line Dcache.is_dirty write_line
dc_hit_wb_invalidate vaddr paddr c = elim (Dcache.probe c.dcache vaddr paddr) [
  | none ↦ at_once c
  | some line ↦
      (let drop = λ (c1 : Vr4300). record c1 {
        dcache = Dcache.put_line vaddr (Dcache.invalidate_line line) c1.dcache;
      } in
        if Dcache.is_dirty line then after_write line vaddr drop c else at_once (drop c))
]

-- `vr4300_cacheop_dc_hit_wb`
unfoldable pub dc_hit_wb : (vaddr paddr : ℕ) → Vr4300 → Option (ℕ × Vr4300)
unfolding Dcache.probe Dcache.put_line Dcache.is_dirty write_line clear_bit bit
dc_hit_wb vaddr paddr c = elim (Dcache.probe c.dcache vaddr paddr) [
  | none ↦ at_once c
  | some line ↦
      (let clean = λ (c1 : Vr4300). record c1 {
        dcache =
            Dcache.put_line vaddr (record line { metadata = clear_bit 1 line.metadata }) c1.dcache;
      } in
        if Dcache.is_dirty line then after_write line vaddr clean c else at_once c)
]

-- The call of `request->cacheop`
unfoldable pub run_cacheop : CacheOp → (vaddr paddr : ℕ) → Vr4300 → Option (ℕ × Vr4300)
run_cacheop CacheOp.unimplemented vaddr paddr c = none
run_cacheop CacheOp.ic_invalidate vaddr paddr c = ic_invalidate vaddr paddr c
run_cacheop CacheOp.ic_set_taglo vaddr paddr c = ic_set_taglo vaddr paddr c
run_cacheop CacheOp.ic_invalidate_hit vaddr paddr c = ic_invalidate_hit vaddr paddr c
run_cacheop CacheOp.dc_wb_invalidate vaddr paddr c = dc_wb_invalidate vaddr paddr c
run_cacheop CacheOp.dc_get_taglo vaddr paddr c = dc_get_taglo vaddr paddr c
run_cacheop CacheOp.dc_set_taglo vaddr paddr c = dc_set_taglo vaddr paddr c
run_cacheop CacheOp.dc_create_dirty_ex vaddr paddr c = dc_create_dirty_ex vaddr paddr c
run_cacheop CacheOp.dc_hit_invalidate vaddr paddr c = dc_hit_invalidate vaddr paddr c
run_cacheop CacheOp.dc_hit_wb_invalidate vaddr paddr c = dc_hit_wb_invalidate vaddr paddr c
run_cacheop CacheOp.dc_hit_wb vaddr paddr c = dc_hit_wb vaddr paddr c
