-- ===== src/Uart.antt =====
-- src/uart.c.
mod Defs
pub mod Fifo
pub mod Irq
pub mod Reads
pub mod Writes
unfoldable pub use Defs.{
  uart_fifo_has_data, uart_fifo_push, uart_fifo_get, uart_fifo_clear, uart_reset, pending_iir,
  uart_update_irq, uart_recieve_char, refresh_ready, lower_ready, read_receiver, read_reg8_plain,
  uart_read_reg8, write_transmitter, write_reg8_plain, uart_write_reg8, uart_read, uart_write,
  uart_readb, uart_writeb,
}
