-- ===== src/Uart/Irq.antt =====
-- The interrupt line and the status bits of the port of src/uart.c.
use cmips_cen.Base.{
  ℕ, ◌≤◌, ◌<◌, ◌≡◌, arith, true, false, not, ◌==◌, ◌∙◌, sym, bit, ltb, set_bit, clear_bit,
}
use cmips_cen.Machine.{Uart, Mips, trigger_external_interrupt, clear_external_interrupt}
use cmips_cen.Uart.Defs.{
  uart_fifo_has_data, uart_fifo_push, uart_fifo_get, pending_iir, uart_update_irq,
  uart_recieve_char, lower_ready,
}

-- The indices stay inside of `fifo[32]`.
pub record InBuffer (s : Uart) : Type 0 where
  pub first_in : s.fifo_first < 32
  pub last_in : s.fifo_last < 32
  pub count_in : s.fifo_count ≤ 32

-- The status register tells of a waiting character, the interrupt identification is what the
-- status and the enabled interrupts call for, and interrupt 0 is pending exactly if there is one.
pub record IsSettled (m : Mips) : Type 0 where
  pub inside : InBuffer m.serial
  pub ready : bit 0 m.serial.lsr ≡ ltb 0 m.serial.fifo_count
  pub iir_pending : m.serial.iir ≡ pending_iir m.serial
  pub line : bit 10 m.cp0.cause ≡ not (m.serial.iir == 1)

pub uart_update_irq-IsSettled :
    (m : Mips)
    → InBuffer m.serial
    → bit 0 m.serial.lsr ≡ ltb 0 m.serial.fifo_count
    → IsSettled (uart_update_irq m)
unfolding uart_update_irq trigger_external_interrupt clear_external_interrupt pending_iir bit
    set_bit clear_bit
uart_update_irq-IsSettled m inside ready = record {
  inside = ground arith;
  ready = ground arith;
  iir_pending = ground arith;
  line = ground arith;
}

push-InBuffer : (c : ℕ) (s : Uart) → InBuffer s → InBuffer (uart_fifo_push c s)
unfolding uart_fifo_push
push-InBuffer c s h = ground arith

push-has-data : (c : ℕ) (s : Uart) → InBuffer s → ltb 0 (uart_fifo_push c s).fifo_count ≡ true
unfolding uart_fifo_push
push-has-data c s h = ground arith

pub get-InBuffer : (s : Uart) → InBuffer s → InBuffer (uart_fifo_get s).1
unfolding uart_fifo_get uart_fifo_has_data
get-InBuffer s h = ground arith

bit-set_bit0 : (x : ℕ) → bit 0 (set_bit 0 x) ≡ true
unfolding bit set_bit
bit-set_bit0 x = ground arith

bit-clear_bit0 : (x : ℕ) → bit 0 (clear_bit 0 x) ≡ false
unfolding bit clear_bit
bit-clear_bit0 x = ground arith

pub lower_ready-ready : (s : Uart) → bit 0 (lower_ready s).lsr ≡ ltb 0 (lower_ready s).fifo_count
unfolding lower_ready uart_fifo_has_data
lower_ready-ready s = ground (arith, bit-set_bit0 (clear_bit 0 s.lsr), bit-clear_bit0 s.lsr)

pub lower_ready-InBuffer : (s : Uart) → InBuffer s → InBuffer (lower_ready s)
unfolding lower_ready uart_fifo_has_data
lower_ready-InBuffer s h = ground arith

-- A character that arrives settles the port whatever it was before.
pub uart_recieve_char-IsSettled :
    (c : ℕ) (m : Mips) → InBuffer m.serial → IsSettled (uart_recieve_char c m)
unfolding uart_recieve_char
uart_recieve_char-IsSettled c m h =
    let p = push-InBuffer c m.serial h in
    uart_update_irq-IsSettled _
      (record { first_in = p.first_in; last_in = p.last_in; count_in = p.count_in })
      (bit-set_bit0 _ ∙ sym (push-has-data c m.serial h))
