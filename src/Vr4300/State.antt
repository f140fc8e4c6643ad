-- ===== src/Vr4300/State.antt =====
-- vr4300/cpu.h, vr4300/pipeline.h, vr4300/cp0.h and vr4300/fault.h: the state of the processor.
use cmips_cen.Base.{ℕ, ◌^◌, Bool, Option, update}
use cmips_cen.ArchTlb.{Cen64Tlb}
use cmips_cen.Segment.{Segment}
use cmips_cen.Bus.Controller.{BusController}
use cmips_cen.Vr4300.Decoder.Opcodes.{Opcode}
use cmips_cen.Vr4300.Dcache.{Dcache}
use cmips_cen.Vr4300.Icache.{Icache}

-- Members of `enum vr4300_register`: the general registers are 0 to 31, those of the coprocessors
-- follow.
abbrev pub register_ra : ℕ
register_ra = 31

abbrev pub cp0_index : ℕ
cp0_index = 32

abbrev pub cp0_random : ℕ
cp0_random = 33

abbrev pub cp0_entrylo0 : ℕ
cp0_entrylo0 = 34

abbrev pub cp0_entrylo1 : ℕ
cp0_entrylo1 = 35

abbrev pub cp0_context : ℕ
cp0_context = 36

abbrev pub cp0_pagemask : ℕ
cp0_pagemask = 37

abbrev pub cp0_wired : ℕ
cp0_wired = 38

abbrev pub cp0_badvaddr : ℕ
cp0_badvaddr = 40

abbrev pub cp0_count : ℕ
cp0_count = 41

abbrev pub cp0_entryhi : ℕ
cp0_entryhi = 42

abbrev pub cp0_compare : ℕ
cp0_compare = 43

abbrev pub cp0_status : ℕ
cp0_status = 44

abbrev pub cp0_cause : ℕ
cp0_cause = 45

abbrev pub cp0_epc : ℕ
cp0_epc = 46

abbrev pub cp0_prid : ℕ
cp0_prid = 47

abbrev pub cp0_config : ℕ
cp0_config = 48

abbrev pub cp0_watchlo : ℕ
cp0_watchlo = 50

abbrev pub cp0_watchhi : ℕ
cp0_watchhi = 51

abbrev pub cp0_xcontext : ℕ
cp0_xcontext = 52

abbrev pub cp0_taglo : ℕ
cp0_taglo = 60

abbrev pub cp0_errorepc : ℕ
cp0_errorepc = 62

abbrev pub register_hi : ℕ
register_hi = 96

abbrev pub register_lo : ℕ
register_lo = 97

abbrev pub pipeline_cycle_type : ℕ
pipeline_cycle_type = 100

-- Members of `enum vr4300_fault_id`
abbrev pub fault_none : ℕ
fault_none = 0

abbrev pub fault_rst : ℕ
fault_rst = 2

abbrev pub fault_dtlb : ℕ
fault_dtlb = 8

abbrev pub fault_wat : ℕ
fault_wat = 9

abbrev pub fault_intr : ℕ
fault_intr = 10

abbrev pub fault_cpu : ℕ
fault_cpu = 17

abbrev pub fault_itlb : ℕ
fault_itlb = 25

-- Members of `enum vr4300_bus_request_type` and `enum vr4300_access_type`
abbrev pub request_none : ℕ
request_none = 0

abbrev pub request_read : ℕ
request_read = 1

abbrev pub request_write : ℕ
request_write = 2

abbrev pub request_cache_idx : ℕ
request_cache_idx = 4

abbrev pub request_cache_write : ℕ
request_cache_write = 5

abbrev pub access_word : ℕ
access_word = 2 ^ 5

abbrev pub access_dword : ℕ
access_dword = 0

-- The functions that a `cacheop` points to
pub data CacheOp : Type 0 where
  unimplemented ic_invalidate ic_set_taglo ic_invalidate_hit : CacheOp
  dc_wb_invalidate dc_get_taglo dc_set_taglo dc_create_dirty_ex : CacheOp
  dc_hit_invalidate dc_hit_wb_invalidate dc_hit_wb : CacheOp

-- `struct vr4300_bus_request`
pub record BusRequest : Type 0 where
  pub vaddr : ℕ
  pub content : ℕ
  pub wdqm : ℕ
  pub cacheop : CacheOp
  pub paddr : ℕ
  pub access_type : ℕ
  pub type : ℕ
  pub size : ℕ
  pub postshift : ℕ

-- `struct vr4300_latch`
pub record Latch : Type 0 where
  pub pc : ℕ
  pub fault : ℕ
  pub cause_data : ℕ
  pub killed : ℕ

-- `struct vr4300_icrf_latch`; a segment is `none` where the pointer is NULL.
pub record IcrfLatch : Type 0 where
  pub common : Latch
  pub segment : Option Segment
  pub pc : ℕ

-- `struct vr4300_rfex_latch`
pub record RfexLatch : Type 0 where
  pub common : Latch
  pub opcode : Opcode
  pub iw : ℕ
  pub iw_mask : ℕ
  pub paddr : ℕ
  pub cached : Bool

-- `struct vr4300_exdc_latch`
pub record ExdcLatch : Type 0 where
  pub common : Latch
  pub segment : Option Segment
  pub result : ℕ
  pub dest : ℕ
  pub request : BusRequest
  pub cached : Bool

-- `struct vr4300_dcwb_latch`
pub record DcwbLatch : Type 0 where
  pub common : Latch
  pub result : ℕ
  pub dest : ℕ
  pub last_op_was_cache_store : Bool

-- `struct vr4300_pipeline`
pub record Pipeline : Type 0 where
  pub last_pipe_result : Latch
  pub dcwb_latch : DcwbLatch
  pub exdc_latch : ExdcLatch
  pub rfex_latch : RfexLatch
  pub icrf_latch : IcrfLatch
  pub exception_history : ℕ
  pub cycles_to_stall : ℕ
  pub fault_present : Bool

-- `struct vr4300_cp0`
pub record Vr4300Cp0 : Type 0 where
  pub tlb : Cen64Tlb
  pub page_mask : ℕ → ℕ
  pub pfn : ℕ → Bool → ℕ
  pub state : ℕ → Bool → ℕ

-- `struct vr4300`. `regs` holds the bit patterns of 64-bit words.
pub record Vr4300 : Type 0 where
  pub bus : BusController
  pub pipeline : Pipeline
  pub regs : ℕ → ℕ
  pub mi_regs : ℕ → ℕ
  pub signals : ℕ
  pub cp0 : Vr4300Cp0
  pub dcache : Dcache
  pub icache : Icache

-- A stage returns 0 (`next`) or 1 (`blocked`), or the process ends in `abort()` or in what C leaves
-- undefined.
pub data Stage : Type 0 where
  next : Vr4300 → Stage
  blocked : Vr4300 → Stage
  stopped : Stage

-- `vr4300->regs[r] = v`
abbrev pub put_reg : (r v : ℕ) → Vr4300 → Vr4300
put_reg r v c = record c { regs = update c.regs r v }

-- Assignments of members of the pipeline
abbrev pub with_pipeline : (Pipeline → Pipeline) → Vr4300 → Vr4300
with_pipeline f c = record c { pipeline = f c.pipeline }

abbrev pub with_exdc : (ExdcLatch → ExdcLatch) → Vr4300 → Vr4300
with_exdc f = with_pipeline (λ p. record p { exdc_latch = f p.exdc_latch })

abbrev pub with_dcwb : (DcwbLatch → DcwbLatch) → Vr4300 → Vr4300
with_dcwb f = with_pipeline (λ p. record p { dcwb_latch = f p.dcwb_latch })

abbrev pub with_rfex : (RfexLatch → RfexLatch) → Vr4300 → Vr4300
with_rfex f = with_pipeline (λ p. record p { rfex_latch = f p.rfex_latch })

abbrev pub with_icrf : (IcrfLatch → IcrfLatch) → Vr4300 → Vr4300
with_icrf f = with_pipeline (λ p. record p { icrf_latch = f p.icrf_latch })

abbrev pub with_request : (BusRequest → BusRequest) → Vr4300 → Vr4300
with_request f = with_exdc (λ l. record l { request = f l.request })

-- The state that a stage leaves, or another where it leaves none
abbrev pub state_of : Vr4300 → Stage → Vr4300
state_of c (next r) = r
state_of c (blocked r) = r
state_of c stopped = c
