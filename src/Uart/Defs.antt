-- ===== src/Uart/Defs.antt =====
-- src/uart.c: the 16550-like serial port, the ring buffer of received characters and its interrupt.
use cmips_cen.Base.{
  ℕ, ◌+◌, ◌-◌, ◌%◌, Bool, ◌∷◌, ◌&&◌, ◌==◌, ltb, if◌then◌else◌, u32, bit, set_bit, clear_bit, update,
}
use cmips_cen.Machine.{
  Uart, Mips, ok, exit, M, trigger_external_interrupt, clear_external_interrupt,
}

-- `uart_fifoHasData` and the other FIFO functions touch `emu->serial` alone.
unfoldable pub uart_fifo_has_data : Uart → Bool
uart_fifo_has_data s = ltb 0 s.fifo_count

unfoldable pub uart_fifo_push : ℕ → Uart → Uart
uart_fifo_push c s =
    let n = u32 (s.fifo_count + 1) in
    record s {
      fifo = update s.fifo s.fifo_last c;
      fifo_last = u32 (s.fifo_last + 1) % 32;
      fifo_count = if ltb 32 n then 32 else n;
    }

-- `uart_fifoGet`
unfoldable pub uart_fifo_get : Uart → ℕ × Uart
uart_fifo_get s =
    if uart_fifo_has_data s
    then (
      s.fifo s.fifo_first,
      record s {
        fifo_first = u32 (s.fifo_first + 1) % 32;
        fifo_count = if ltb 0 s.fifo_count then s.fifo_count - 1 else s.fifo_count;
      },
    )
    else (0, s)

unfoldable pub uart_fifo_clear : Uart → Uart
uart_fifo_clear s = record s { fifo_last = 0; fifo_first = 0; fifo_count = 0 }

-- UART_LSR_TRANSMITTER_EMPTY | UART_LSR_FIFO_EMPTY is 0x60, UART_IIR_NO_INT is 1.
unfoldable pub uart_reset : Mips → Mips
uart_reset m = record m {
  serial = uart_fifo_clear (record (m.serial) {
    lcr = 3;
    lsr = 0x60;
    msr = 0;
    iir = 1;
    ier = 0;
    dll = 0;
    dlh = 0;
    fcr = 0;
    mcr = 0;
    scr = 0;
  });
}

-- The choice of `uart_UpdateIrq`: a received character (4), an empty transmitter (2), nothing (1).
unfoldable pub pending_iir : Uart → ℕ
pending_iir s =
    if bit 0 s.lsr && bit 0 s.ier then 4 else if bit 5 s.lsr && bit 1 s.ier then 2 else 1

unfoldable pub uart_update_irq : Mips → Mips
uart_update_irq m =
    let iir' = pending_iir m.serial in
    let m' = record m { serial = record (m.serial) { iir = iir' } } in
    if iir' == 1 then clear_external_interrupt 0 m' else trigger_external_interrupt 0 m'

-- `uart_RecieveChar`, which the main thread calls for each character of standard input
unfoldable pub uart_recieve_char : ℕ → Mips → Mips
uart_recieve_char c m =
    let s = uart_fifo_push c m.serial in
    uart_update_irq (record m { serial = record s { lsr = set_bit 0 s.lsr } })

-- `emu->serial.LSR` with the data-ready bit as the buffer has it
unfoldable pub refresh_ready : Uart → Uart
refresh_ready s = record s {
  lsr = if uart_fifo_has_data s then set_bit 0 s.lsr else clear_bit 0 s.lsr;
}

-- `LSR &= ~UART_LSR_DATA_READY`, and set again if the buffer still has data
unfoldable pub lower_ready : Uart → Uart
lower_ready s =
    let s' = record s { lsr = clear_bit 0 s.lsr } in
    if uart_fifo_has_data s' then record s' { lsr = set_bit 0 s'.lsr } else s'

-- `case 0` of `uart_ReadReg8`: take a character and lower the data-ready bit if it was the last.
unfoldable pub read_receiver : M ℕ
read_receiver m =
    if uart_fifo_has_data m.serial
    then (let (c, s) = uart_fifo_get m.serial in
        ok c (uart_update_irq (record m { serial = lower_ready s })))
    else ok 0 (uart_update_irq m)

-- The second switch of `uart_ReadReg8`, at an offset below 8.
unfoldable pub read_reg8_plain : ℕ → M ℕ
read_reg8_plain offset m =
    if offset == 0
    then read_receiver m
    else if offset == 1
    then ok (m.serial.ier % 16) m
    else if offset == 6
    then ok m.serial.msr m
    else if offset == 4
    then ok m.serial.mcr m
    else if offset == 2
    then ok m.serial.iir m
    else if offset == 3
    then ok m.serial.lcr m
    else if offset == 5
    then (let s = refresh_ready m.serial in ok s.lsr (record m { serial = s }))
    else if offset == 7
    then ok m.serial.scr m
    else exit

-- `uart_ReadReg8`: with the divisor latch bit set, offsets 0 and 1 are the divisor.
unfoldable pub uart_read_reg8 : ℕ → M ℕ
uart_read_reg8 offset m =
    let o = offset % 8 in
    if bit 7 m.serial.lcr && o == 0
    then ok m.serial.dll m
    else if bit 7 m.serial.lcr && o == 1
    then ok m.serial.dlh m
    else read_reg8_plain o m

-- `case 0` of `uart_WriteReg8`: send a character, to the receiver itself in loopback mode.
unfoldable pub write_transmitter : ℕ → Mips → Mips
write_transmitter x m =
    let m1 = record m { serial = record (m.serial) { lsr = clear_bit 5 m.serial.lsr } } in
    let m2 =
      if bit 4 m1.serial.mcr
      then uart_recieve_char x m1
      else record m1 { console = x ∷ m1.console } in
    uart_update_irq (record m2 { serial = record (m2.serial) { lsr = set_bit 5 m2.serial.lsr } })

-- The second switch of `uart_WriteReg8`; offsets 5 and 6 print an error and change nothing.
unfoldable pub write_reg8_plain : ℕ → ℕ → Mips → Mips
write_reg8_plain offset x m =
    if offset == 0
    then write_transmitter x m
    else if offset == 1
    then uart_update_irq (record m { serial = record (m.serial) { ier = x % 16 } })
    else if offset == 2
    then (let s = record (m.serial) { fcr = x } in
        record m { serial = if bit 1 x then uart_fifo_clear s else s })
    else if offset == 3
    then record m { serial = record (m.serial) { lcr = x } }
    else if offset == 4
    then record m { serial = record (m.serial) { mcr = x } }
    else if offset == 7
    then record m { serial = record (m.serial) { scr = x } }
    else m

-- `uart_WriteReg8`
unfoldable pub uart_write_reg8 : ℕ → ℕ → Mips → Mips
uart_write_reg8 offset x m =
    let o = offset % 8 in
    if bit 7 m.serial.lcr && o == 0
    then record m { serial = record (m.serial) { dll = x } }
    else if bit 7 m.serial.lcr && o == 1
    then record m { serial = record (m.serial) { dlh = x } }
    else write_reg8_plain o x m

-- The four entry points. Word accesses of the port are not supported: a read gives 0.
unfoldable pub uart_read : ℕ → M ℕ
uart_read offset m = ok 0 m

unfoldable pub uart_write : ℕ → ℕ → Mips → Mips
uart_write offset v m = m

unfoldable pub uart_readb : ℕ → M ℕ
uart_readb offset = uart_read_reg8 offset

unfoldable pub uart_writeb : ℕ → ℕ → Mips → Mips
uart_writeb offset v m = uart_write_reg8 offset v m
