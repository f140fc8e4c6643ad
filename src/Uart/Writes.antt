-- ===== src/Uart/Writes.antt =====
-- The settled state of the port under `uart_WriteReg8` of src/uart.c.
use cmips_cen.Base.{
  ℕ, ◌%◌, ◌<◌, ◌≡◌, refl, arith, true, false, ◌==◌, if_ind, ◌∷◌, ◌∙◌, zero, suc, Bool-cases, inl,
  inr, bit, ltb, ◌&&◌, set_bit, clear_bit,
}
use cmips_cen.Machine.{Uart, Mips}
use cmips_cen.Uart.Defs.{
  uart_fifo_has_data, uart_fifo_clear, pending_iir, uart_update_irq, uart_recieve_char,
  write_transmitter, write_reg8_plain, uart_read_reg8, uart_write_reg8,
}
use cmips_cen.Uart.Reads.{ReadsSettled, uart_read_reg8-IsSettled}
use cmips_cen.Uart.Irq.{InBuffer, IsSettled, uart_update_irq-IsSettled, uart_recieve_char-IsSettled}

bit0-set_bit5 : (x : ℕ) → bit 0 (set_bit 5 x) ≡ bit 0 x
unfolding bit set_bit
bit0-set_bit5 x = ground arith

bit0-clear_bit5 : (x : ℕ) → bit 0 (clear_bit 5 x) ≡ bit 0 x
unfolding bit clear_bit
bit0-clear_bit5 x = ground arith

-- The last statements of the transmitter: set the FIFO-empty bit and settle.
sent-IsSettled :
    (m : Mips)
    → InBuffer m.serial
    → bit 0 m.serial.lsr ≡ ltb 0 m.serial.fifo_count
    → IsSettled
        (uart_update_irq (record m { serial = record (m.serial) { lsr = set_bit 5 m.serial.lsr } }))
sent-IsSettled m inside ready =
    uart_update_irq-IsSettled _
      (record { first_in = inside.first_in; last_in = inside.last_in; count_in = inside.count_in })
      (bit0-set_bit5 m.serial.lsr ∙ ready)

write_transmitter-IsSettled : (x : ℕ) (m : Mips) → IsSettled m → IsSettled (write_transmitter x m)
unfolding write_transmitter
write_transmitter-IsSettled x m h =
    let s1 = record (m.serial) { lsr = clear_bit 5 m.serial.lsr } in
    let m1 = record m { serial = s1 } in
    let inside : InBuffer s1 = record {
      first_in = h.inside.first_in;
      last_in = h.inside.last_in;
      count_in = h.inside.count_in;
    } in
    elim (Bool-cases (bit 4 m.serial.mcr)) [
      | inl e ↦ rw e (
          let r = uart_recieve_char-IsSettled x m1 inside in
          sent-IsSettled (uart_recieve_char x m1) r.inside r.ready)
      | inr e ↦ rw e (
          sent-IsSettled (record m1 { console = x ∷ m1.console }) inside
            (bit0-clear_bit5 m.serial.lsr ∙ h.ready))
    ]

-- A write that changes none of what the invariant speaks of
same-IsSettled :
    (m : Mips) (s : Uart)
    → IsSettled m
    → s.lsr ≡ m.serial.lsr
    → s.iir ≡ m.serial.iir
    → s.ier ≡ m.serial.ier
    → s.fifo_first ≡ m.serial.fifo_first
    → s.fifo_last ≡ m.serial.fifo_last
    → s.fifo_count ≡ m.serial.fifo_count
    → IsSettled (record m { serial = s })
unfolding pending_iir
same-IsSettled m s h a b c d e f = record {
  inside = omega (arith, h.inside);
  ready = rw (a, f) h.ready;
  iir_pending = rw (a, b, c) h.iir_pending;
  line = rw b h.line;
}

-- The registers behind offsets 1 to 7, but for a clear of the FIFO.
write_reg8_plain-IsSettled :
    (o x : ℕ) (m : Mips)
    → o < 8
    → (o == 2 && bit 1 x) ≡ false
    → IsSettled m
    → IsSettled (write_reg8_plain o x m)
unfolding write_reg8_plain
write_reg8_plain-IsSettled zero x m lt k h = write_transmitter-IsSettled x m h
write_reg8_plain-IsSettled (suc zero) x m lt k h =
    uart_update_irq-IsSettled _
      (record {
        first_in = h.inside.first_in;
        last_in = h.inside.last_in;
        count_in = h.inside.count_in;
      })
      h.ready
write_reg8_plain-IsSettled (suc (suc zero)) x m lt k h =
    rw k (same-IsSettled m (record (m.serial) { fcr = x }) h refl refl refl refl refl refl)
write_reg8_plain-IsSettled (suc (suc (suc zero))) x m lt k h =
    same-IsSettled m (record (m.serial) { lcr = x }) h refl refl refl refl refl refl
write_reg8_plain-IsSettled (suc (suc (suc (suc zero)))) x m lt k h =
    same-IsSettled m (record (m.serial) { mcr = x }) h refl refl refl refl refl refl
write_reg8_plain-IsSettled (suc (suc (suc (suc (suc zero))))) x m lt k h = h
write_reg8_plain-IsSettled (suc (suc (suc (suc (suc (suc zero)))))) x m lt k h = h
write_reg8_plain-IsSettled (suc (suc (suc (suc (suc (suc (suc zero))))))) x m lt k h =
    same-IsSettled m (record (m.serial) { scr = x }) h refl refl refl refl refl refl
write_reg8_plain-IsSettled (suc (suc (suc (suc (suc (suc (suc (suc o)))))))) x m lt k h =
    absurd (omega arith)

-- Every write of the port, at every offset, leaves it settled, but for one that clears the FIFO
-- (offset 2 with bit 1 of the value set), which forgets the characters and not their interrupt.
pub uart_write_reg8-IsSettled :
    (offset x : ℕ) (m : Mips)
    → (offset % 8 == 2 && bit 1 x) ≡ false
    → IsSettled m
    → IsSettled (uart_write_reg8 offset x m)
unfolding uart_write_reg8
uart_write_reg8-IsSettled offset x m k h =
    if_ind IsSettled (bit 7 m.serial.lcr && offset % 8 == 0)
      (same-IsSettled m (record (m.serial) { dll = x }) h refl refl refl refl refl refl)
      (if_ind IsSettled (bit 7 m.serial.lcr && offset % 8 == 1)
        (same-IsSettled m (record (m.serial) { dlh = x }) h refl refl refl refl refl refl)
        (write_reg8_plain-IsSettled (offset % 8) x m (omega arith) k h))

-- A clear of the FIFO with a character waiting and its interrupt enabled leaves that interrupt
-- pending and announced, with nothing left to read.
pub uart_write_reg8-clear :
    (x : ℕ) (m : Mips)
    → IsSettled m
    → bit 1 x ≡ true
    → 0 < m.serial.fifo_count
    → bit 0 m.serial.ier ≡ true
    → (uart_fifo_has_data (uart_write_reg8 2 x m).serial ≡ false)
      × (bit 10 (uart_write_reg8 2 x m).cp0.cause ≡ true)
      × ((uart_write_reg8 2 x m).serial.iir ≡ 4)
unfolding uart_write_reg8 write_reg8_plain uart_fifo_clear uart_fifo_has_data pending_iir
uart_write_reg8-clear x m h clear waiting enabled = ground (arith, h.ready, h.iir_pending, h.line)

-- Every operation of the port keeps it settled: a read and a write at every offset, but for a write
-- that clears the FIFO (offset 2 with bit 1 of the value set), and a character that arrives. The
-- read returns.
pub uart-IsSettled :
    (offset x c : ℕ) (m : Mips)
    → (offset % 8 == 2 && bit 1 x) ≡ false
    → IsSettled m
    → IsSettled (uart_write_reg8 offset x m)
      × ReadsSettled (uart_read_reg8 offset m)
      × IsSettled (uart_recieve_char c m)
uart-IsSettled offset x c m k h = (
  uart_write_reg8-IsSettled offset x m k h,
  uart_read_reg8-IsSettled offset m h,
  uart_recieve_char-IsSettled c m h.inside,
)
