-- ===== src/Tests/Serial.antt =====
-- The serial port of the small machine
use cmips_cen.Base.{ℕ, ◌≡◌, refl, arith, true, false, bit, update, List, [], ◌∷◌}
use cmips_cen.Machine.{Mips, Uart}
use cmips_cen.Emu.Exception.{blank_uart}
use cmips_cen.Uart.{
  uart_fifo_push, uart_fifo_get, uart_fifo_clear, uart_fifo_has_data, uart_recieve_char,
  uart_read_reg8, uart_write_reg8, pending_iir,
}
use cmips_cen.Uart.Fifo.{
  contents, queued, IsRing, Event, put, get, uart_run, queue_run, uart_run-clear,
}
use cmips_cen.Uart.Irq.{InBuffer, IsSettled}
use cmips_cen.Uart.Reads.{ReadsSettled}
use cmips_cen.Uart.Writes.{uart-IsSettled, uart_write_reg8-clear}
use cmips_cen.Tests.{machine}

abbrev script : List Event
script = put 72 ∷ put 105 ∷ get ∷ get ∷ get ∷ []

uart_run-clear_example : uart_run (uart_fifo_clear blank_uart) script ≡ queue_run [] script
uart_run-clear_example = uart_run-clear blank_uart script (omega arith, (omega arith, tt))

script-reads : uart_run (uart_fifo_clear blank_uart) script ≡ 72 ∷ 105 ∷ 0 ∷ []
unfolding uart_run uart_fifo_clear uart_fifo_push uart_fifo_get uart_fifo_has_data update
script-reads = refl

-- A full buffer that starts at place 3 and holds its own places
abbrev full : Uart
full = record blank_uart { fifo = λ i. i; fifo_first = 3; fifo_last = 3; fifo_count = 32 }

full-IsRing : IsRing full
full-IsRing = record { first_in = omega arith; count_in = omega arith; closed = refl }

abbrev tail : List ℕ
tail = contents 31 4 (λ i. i)

queued-full : queued full ≡ 3 ∷ tail
unfolding contents
queued-full = refl

machine-InBuffer : InBuffer machine.serial
machine-InBuffer = record { first_in = omega arith; last_in = omega arith; count_in = omega arith }

-- A port with one character waiting and its interrupt enabled
abbrev waiting : Mips
waiting = record machine {
  cp0 = record (machine.cp0) { cause = 0x400 };
  serial = record blank_uart {
    lsr = 0x61;
    ier = 1;
    iir = 4;
    fifo = λ _. 65;
    fifo_last = 1;
    fifo_count = 1;
  };
}

waiting-IsSettled : IsSettled waiting
unfolding bit pending_iir
waiting-IsSettled = record {
  inside = record { first_in = omega arith; last_in = omega arith; count_in = omega arith };
  ready = refl;
  iir_pending = refl;
  line = refl;
}

fifo_clear_bit : bit 1 2 ≡ true
unfolding bit
fifo_clear_bit = refl

enabled : bit 0 1 ≡ true
unfolding bit
enabled = refl

uart-IsSettled_example :
    IsSettled (uart_write_reg8 0 66 waiting)
    × ReadsSettled (uart_read_reg8 0 waiting)
    × IsSettled (uart_recieve_char 67 waiting)
uart-IsSettled_example = uart-IsSettled 0 66 67 waiting refl waiting-IsSettled

uart_write_reg8-clear_example :
    (uart_fifo_has_data (uart_write_reg8 2 2 waiting).serial ≡ false)
    × (bit 10 (uart_write_reg8 2 2 waiting).cp0.cause ≡ true)
    × ((uart_write_reg8 2 2 waiting).serial.iir ≡ 4)
uart_write_reg8-clear_example =
    uart_write_reg8-clear 2 waiting waiting-IsSettled fifo_clear_bit (omega arith) enabled
