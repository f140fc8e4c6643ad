-- ===== src/Emu/Access.antt =====
-- src/emu.c: words and bytes at virtual addresses. A bus error on a read, and a misaligned word,
-- end the process. The memory is big-endian in its words.
pub mod Bytes
pub mod Ram
use cmips_cen.Base.{
  ℕ, ◌+◌, ◌-◌, ◌*◌, ◌/◌, ◌%◌, ◌^◌, Bool, true, false, not, ◌&&◌, ◌==◌, leb, if◌then◌else◌, none,
  some, update,
}
use cmips_cen.Machine.{ok, exit, M, pure, ◌>>=◌}
use cmips_cen.Uart.{uart_read, uart_write, uart_readb, uart_writeb}
use cmips_cen.Emu.Exc
use cmips_cen.Emu.Exception.{raise}
use cmips_cen.Emu.Translate.{translate_address}

abbrev pub uartbase : ℕ
uartbase = 0x140003f8

abbrev pub uartsize : ℕ
uartsize = 20

abbrev pub powerbase : ℕ
powerbase = 0x1fbf0004

abbrev pub powersize : ℕ
powersize = 4

abbrev pub in_uart : ℕ → Bool
in_uart paddr = leb uartbase paddr && leb paddr (uartbase + uartsize)

abbrev pub in_power : ℕ → Bool
in_power paddr = leb powerbase paddr && leb paddr (powerbase + powersize)

-- `readVirtWord` once the address is translated
unfoldable pub read_phys_word : ℕ → M ℕ
read_phys_word paddr m =
    if not (paddr % 4 == 0)
    then exit
    else if in_uart paddr
    then uart_read (paddr - uartbase) m
    else if leb m.pmemsz paddr
    then exit
    else ok (m.mem (paddr / 4)) m

-- `readVirtWord`: 0 where the translation has raised an exception
unfoldable pub read_virt_word : ℕ → M ℕ
read_virt_word addr = do
  p ← translate_address addr false
  elim p [ none ↦ pure 0 | some paddr ↦ read_phys_word paddr ]

-- `writeVirtWord` once the address is translated
unfoldable pub write_phys_word : ℕ → ℕ → M (Unit {0})
write_phys_word paddr val m =
    if not (paddr % 4 == 0)
    then exit
    else if in_uart paddr
    then ok tt (uart_write (paddr - uartbase) val m)
    else if leb m.pmemsz paddr
    then ok tt (raise Exc.dbe m)
    else ok tt (record m { mem = update m.mem (paddr / 4) val })

-- `writeVirtWord`
unfoldable pub write_virt_word : ℕ → ℕ → M (Unit {0})
write_virt_word addr val = do
  p ← translate_address addr true
  elim p [ none ↦ pure tt | some paddr ↦ write_phys_word paddr val ]

-- `8 * (3 - offset)`
abbrev pub byte_shift : ℕ → ℕ
byte_shift paddr = 8 * (3 - paddr % 4)

-- `(word & (0xff << shamt)) >> shamt`
abbrev pub byte_of : ℕ → ℕ → ℕ
byte_of word shamt = word / 2 ^ shamt % 2 ^ 8

-- `(word & ~(0xff << shamt)) | (val << shamt)`, at a byte `val`
abbrev pub put_byte : ℕ → ℕ → ℕ → ℕ
put_byte word shamt val =
    word / 2 ^ shamt / 2 ^ 8 * 2 ^ 8 * 2 ^ shamt + val * 2 ^ shamt + word % 2 ^ shamt

-- `readVirtByte` once the address is translated
unfoldable pub read_phys_byte : ℕ → M ℕ
read_phys_byte paddr m =
    if in_uart paddr
    then uart_readb (paddr - uartbase) m
    else if leb m.pmemsz paddr
    then exit
    else ok (byte_of (m.mem (paddr / 4)) (byte_shift paddr)) m

-- `readVirtByte`
unfoldable pub read_virt_byte : ℕ → M ℕ
read_virt_byte addr = do
  p ← translate_address addr false
  elim p [ none ↦ pure 0 | some paddr ↦ read_phys_byte paddr ]

-- `writeVirtByte` once the address is translated
unfoldable pub write_phys_byte : ℕ → ℕ → M (Unit {0})
write_phys_byte paddr val m =
    if in_uart paddr
    then ok tt (uart_writeb (paddr - uartbase) val m)
    else if in_power paddr
    then ok tt (record m { shutdown = true })
    else if leb m.pmemsz paddr
    then exit
    else ok tt (record m {
      mem = update m.mem (paddr / 4) (put_byte (m.mem (paddr / 4)) (byte_shift paddr) val);
    })

-- `writeVirtByte`
unfoldable pub write_virt_byte : ℕ → ℕ → M (Unit {0})
write_virt_byte addr val = do
  p ← translate_address addr true
  elim p [ none ↦ pure tt | some paddr ↦ write_phys_byte paddr val ]
