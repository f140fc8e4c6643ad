-- ===== src/Lib.antt =====
-- The two processors of cmips-cen64: the cmips interpreter, a 32-bit MIPS processor that boots
-- Linux, and the VR4300 of CEN64, a pipeline that runs the same program beside it.
--
-- The program. `step_mips` (src/emu.c) runs one instruction: it advances the timer, serves a
-- pending interrupt, fetches the word at the program counter through the TLB, gives it to `doop`
-- (src/gen/doop.gen.c), which calls one `op_…` function of src/emu.c, and then enters the handler
-- of an exception, leaves a delay slot or goes to the next word. Loads and stores reach the memory,
-- the power switch or the serial port (src/uart.c), which raises interrupt 0. The state of all of
-- it is the structure `Mips` of include/mips.h.
--
-- The files.
--   Base        tests on numbers, words of C as numbers, updates of functions, lists and bits
--   Machine     include/mips.h: the records Uart, TlbEntry, Tlb, Cp0 and Mips, the outcome of a
--               call, and the two inline functions on interrupt lines
--   Uart        src/uart.c: the definitions (Uart/Defs), the ring buffer against a queue
--               (Uart/Fifo), and the interrupt and status invariant (Uart/Irq, Reads, Writes)
--   Emu         src/emu.c, one module for each group of functions:
--     Exception   creation, exception codes, entry to and return from handlers, interrupts
--     Translate   the TLB and `translateAddress`
--     Access      words and bytes at virtual addresses
--     Regs        the fields of an instruction and its registers
--     Alu, Branch, Memory, Cop0   the operations
--     Doop        src/gen/doop.gen.c: the switches as tables, and a decoder by fields to compare
--     Step        `step_mips`
--   Srec        src/srec.c: the loader, files of records as it expects them and what they mean
--               (Srec/Print), its loops (Srec/Within, Srec/Total) and its stores (Srec/Readback)
--   ArchTlb     arch/tlb/tlb.c and common/one_hot.c: the TLB of the VR4300, its probe
--               (ArchTlb/Probe) and its entries (ArchTlb/Entries)
--   Segment     vr4300/segment.c: the segments of the other processor of this repository, the VR4300;
--               its table of modes (Segment/Mode) and the segment found (Segment/Found)
--   Bus         bus/memorymap.c: the tree of ranges, its search, rotations and capacity
--               (Bus/MemoryMap), and bus/controller.c: words of the memory and the serial port
--               (Bus/Controller)
--   Vr4300      the VR4300, one module for each file of vr4300:
--     State       cpu.h, pipeline.h and cp0.h: the records of the processor and the result of a stage
--     Icache, Dcache   the caches
--     Decoder     opcodes.md and opcodes_priv.h (Opcodes), decoder.c (Tables, Groups), and a decoder
--                 by the fields of the instruction to compare (Reference)
--     Fault       fault.c: exceptions and interlocks, and the traffic of the caches with the bus
--                 (Fault/Refill)
--     Cp0         cp0.c
--     Functions   functions.c, by groups of instructions
--     Pipeline    pipeline.c: the stages (Fetch, Execute, DataStage), the cycle (Cycle), its waits
--                 (Stalls) and the results on their way between instructions (Forwarding)
--   Tests       a small machine and concrete instances
--
-- The model. A word is a number below 2 ^ 32 and wrap-around is written out. A function that only
-- changes the state is a function on `Mips`; one that can end the process (`exit(1)`) or meet what C
-- leaves undefined returns an `Outcome`; the loader ends as `undefined` where `writeb` stores at the
-- address `pmemsz`, past the memory, which is a whole number of words. Names are those of the source in lower case
-- (`handleException` is `handle_exception`, `uart_ReadReg8` is `uart_read_reg8`). The memory and the
-- register file are functions of an index. The loops over the sixteen TLB entries are recursions on
-- the number of entries left, 16 at the start, so they need no other bound. The two loops of the
-- loader that read to a newline and to the end of the file have fuel. Two rounds more than the file
-- has bytes are enough, since a round reads a byte or meets the end. The loop of the probe in
-- arch/tlb/tlb.c has fuel 2, for the one round that its bound of 32 / 8 in steps of 8 allows and the
-- test that ends it.
--
-- The VR4300. `vr4300_cycle` counts, waits, or runs the stages from the last to the first: WB writes
-- a register, DC translates and accesses the data cache, EX reads the registers with the result in
-- DC forwarded and calls the function of the opcode, RF reads the instruction from its cache, and IC
-- decodes the one before. A stage that finds an exception or an interlock sets the registers and the
-- cycle type and holds the stages before it. Misses of the caches and uncached accesses go to the bus,
-- which has the memory and the serial port of the interpreter. A stage returns `next` or `blocked`
-- for 0 and 1 in C, or `stopped` where the process aborts or C leaves the result undefined. A pointer
-- to a node of the tree is its index, to a line of a cache the line itself. The loops of the
-- memory map have fuel 3, the length of the array of nodes, and the walk to the place of a new
-- node one more, since each goes up or down a tree of these nodes. The value of
-- `rand()` and the floating-point functions of vr4300/cp1.c are arguments.
--
-- Not modelled: what is printed but for the characters the serial port sends; the trace to out.log
-- and the statistics of the pipeline; failing allocations; `debug_dumpTlb`; the threads and the
-- terminal of src/main.c; and floating point (vr4300/cp1.c, arch), which the sources leave to the
-- host.
pub mod Base
pub mod Machine
pub mod Uart
pub mod Emu
pub mod ArchTlb
pub mod Segment
pub mod Bus
pub mod Vr4300
pub mod Srec
pub mod Tests
