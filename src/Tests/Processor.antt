-- ===== src/Tests/Processor.antt =====
-- A small processor: 16 KiB of memory, a dirty line 0 of the data cache at physical address 0, and
-- an instruction `addu r3, r1, r2` in EX behind one that has 7 for register 1.
use cmips_cen.Base.{ℕ, ◌%◌, ◌^◌, false, some, ◌==◌, if◌then◌else◌}
use cmips_cen.Bus.MemoryMap.{blank_map}
use cmips_cen.Bus.Controller.{BusController}
use cmips_cen.Segment.{useg}
use cmips_cen.Vr4300.Dcache.{DcacheLine}
use cmips_cen.Vr4300.Decoder.Opcodes.{OpcodeId}
use cmips_cen.Vr4300.State.{
  Latch, BusRequest, CacheOp, Vr4300, cp0_status, cp0_entrylo0, cp0_entrylo1, cp0_pagemask,
}
use cmips_cen.Tests.{machine}

abbrev pub latch : ℕ → Latch
latch pc = record { pc = pc; fault = 0; cause_data = 0; killed = 0 }

abbrev no_request : BusRequest
no_request = record {
  vaddr = 0x1234;
  content = 0;
  wdqm = 0;
  cacheop = CacheOp.unimplemented;
  paddr = 0;
  access_type = 0;
  type = 0;
  size = 0;
  postshift = 0;
}

abbrev pub bus : BusController
bus = record { emu = machine; mem_size = 0x4000; mem = λ i. i % 2 ^ 8; map = blank_map }

abbrev line : ℕ → DcacheLine
line k = record { words = λ i. 7; metadata = if k == 0 then 3 else 0 }

abbrev pub processor : Vr4300
processor = record {
  bus = bus;
  pipeline = record {
    last_pipe_result = latch 0;
    dcwb_latch = record {
      common = latch 0x1000;
      result = 5;
      dest = 2;
      last_op_was_cache_store = false;
    };
    exdc_latch = record {
      common = latch 0x1004;
      segment = some useg;
      result = 7;
      dest = 1;
      request = no_request;
      cached = false;
    };
    rfex_latch = record {
      common = latch 0x1008;
      opcode = record { id = OpcodeId.addu; flags = 24 };
      iw = 0x00221821;
      iw_mask = 0xFFFFFFFF;
      paddr = 0;
      cached = false;
    };
    icrf_latch = record { common = latch 0x100C; segment = some useg; pc = 0x1010 };
    exception_history = 0;
    cycles_to_stall = 3;
    fault_present = false;
  };
  regs = λ i.
      if i == cp0_status
      then 0x400
      else if i == cp0_entrylo0
      then 0x47
      else if i == cp0_entrylo1
      then 0x86
      else if i == cp0_pagemask
      then 0x6000
      else 0;
  mi_regs = λ i. 0;
  signals = 0;
  cp0 = record {
    tlb = record { page_mask = λ i. 0; vpn2 = λ i. 0; global = λ i. 0; asid = λ i. 0 };
    page_mask = λ i. 0;
    pfn = λ i b. 0;
    state = λ i b. 0;
  };
  dcache = line;
  icache = λ k. record { words = λ i. 0; metadata = 0 };
}
