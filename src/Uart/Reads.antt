-- ===== src/Uart/Reads.antt =====
-- The settled state of the port under `uart_ReadReg8` of src/uart.c.
use cmips_cen.Base.{
  ℕ, ◌%◌, ◌<◌, arith, ◌==◌, if_ind, zero, suc, Bool-cases, inl, inr, bit, ◌&&◌, set_bit, clear_bit,
}
use cmips_cen.Machine.{Mips, Outcome, ok, exit, fault}
use cmips_cen.Uart.Defs.{
  uart_fifo_has_data, uart_fifo_get, pending_iir, refresh_ready, read_receiver, read_reg8_plain,
  uart_read_reg8, lower_ready,
}
use cmips_cen.Uart.Irq.{
  IsSettled, uart_update_irq-IsSettled, lower_ready-ready, lower_ready-InBuffer, get-InBuffer,
}

-- What a read of the port promises of its outcome: it returns, and leaves the port settled.
abbrev pub ReadsSettled : Outcome ℕ → Type 0
ReadsSettled (ok c m) = IsSettled m
ReadsSettled exit = ⊥
ReadsSettled fault = ⊥

read_receiver-IsSettled : (m : Mips) → IsSettled m → ReadsSettled (read_receiver m)
unfolding read_receiver
read_receiver-IsSettled m h = elim (Bool-cases (uart_fifo_has_data m.serial)) [
  | inl e ↦ rw e (
      let s = (uart_fifo_get m.serial).1 in
      uart_update_irq-IsSettled (record m { serial = lower_ready s })
        (lower_ready-InBuffer s (get-InBuffer m.serial h.inside)) (lower_ready-ready s))
  | inr e ↦ rw e (uart_update_irq-IsSettled m h.inside h.ready)
]

refresh-IsSettled :
    (m : Mips) → IsSettled m → IsSettled (record m { serial = refresh_ready m.serial })
unfolding refresh_ready uart_fifo_has_data pending_iir set_bit clear_bit bit
refresh-IsSettled m h = record {
  inside = ground (arith, h.inside);
  ready = ground (arith, h.ready);
  iir_pending = ground (arith, h.ready, h.iir_pending);
  line = h.line;
}

read_reg8_plain-IsSettled :
    (o : ℕ) (m : Mips) → o < 8 → IsSettled m → ReadsSettled (read_reg8_plain o m)
unfolding read_reg8_plain
read_reg8_plain-IsSettled zero m lt h = read_receiver-IsSettled m h
read_reg8_plain-IsSettled (suc zero) m lt h = h
read_reg8_plain-IsSettled (suc (suc zero)) m lt h = h
read_reg8_plain-IsSettled (suc (suc (suc zero))) m lt h = h
read_reg8_plain-IsSettled (suc (suc (suc (suc zero)))) m lt h = h
read_reg8_plain-IsSettled (suc (suc (suc (suc (suc zero))))) m lt h = refresh-IsSettled m h
read_reg8_plain-IsSettled (suc (suc (suc (suc (suc (suc zero)))))) m lt h = h
read_reg8_plain-IsSettled (suc (suc (suc (suc (suc (suc (suc zero))))))) m lt h = h
read_reg8_plain-IsSettled (suc (suc (suc (suc (suc (suc (suc (suc o)))))))) m lt h =
    absurd (omega arith)

-- Every read of the port, at every offset, returns (the switch has no unsupported offset) and
-- leaves the port settled.
pub uart_read_reg8-IsSettled :
    (offset : ℕ) (m : Mips) → IsSettled m → ReadsSettled (uart_read_reg8 offset m)
unfolding uart_read_reg8
uart_read_reg8-IsSettled offset m h =
    if_ind ReadsSettled (bit 7 m.serial.lcr && offset % 8 == 0) h (
      if_ind ReadsSettled (bit 7 m.serial.lcr && offset % 8 == 1) h
        (read_reg8_plain-IsSettled (offset % 8) m (omega arith) h))
