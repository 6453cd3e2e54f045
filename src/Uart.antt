-- ===== src/Uart.antt =====
-- uart.c: the mini UART, by its registers in gpio.h and aux.h.
pub mod Pins
pub mod Send
mod Tests
use pithread.Common.{
  ℕ, zero, suc, ◌+◌, ◌*◌, ◌^◌, Bool, true, false, Option, none, some, List, [], ◌∷◌, ◌==◌,
  if◌then◌else◌,
}
use pithread.Words.{word_or, word_and, word_not}
use pithread.Mmio.{Device, Bus, mmio_write, mmio_read, delay}

abbrev gpio_base : ℕ
gpio_base = 0x3F000000 + 0x200000

abbrev pub gpfsel1 : ℕ
gpfsel1 = gpio_base + 0x04

abbrev pub gppud : ℕ
gppud = gpio_base + 0x94

abbrev pub gppudclk0 : ℕ
gppudclk0 = gpio_base + 0x98

abbrev aux_base : ℕ
aux_base = 0x3F000000 + 0x215000

abbrev pub aux_enables : ℕ
aux_enables = aux_base + 0x04

abbrev pub aux_mu_io_reg : ℕ
aux_mu_io_reg = aux_base + 0x40

abbrev pub aux_mu_ier_reg : ℕ
aux_mu_ier_reg = aux_base + 0x44

abbrev pub aux_mu_iir_reg : ℕ
aux_mu_iir_reg = aux_base + 0x48

abbrev pub aux_mu_lcr_reg : ℕ
aux_mu_lcr_reg = aux_base + 0x4C

abbrev pub aux_mu_mcr_reg : ℕ
aux_mu_mcr_reg = aux_base + 0x50

abbrev pub aux_mu_lsr_reg : ℕ
aux_mu_lsr_reg = aux_base + 0x54

abbrev pub aux_mu_cntl_reg : ℕ
aux_mu_cntl_reg = aux_base + 0x60

abbrev pub aux_mu_baud_reg : ℕ
aux_mu_baud_reg = aux_base + 0x68

-- `reg &= ~(7 << n); reg |= 2 << n;`
abbrev pub set_alt5 : ℕ → ℕ → ℕ
set_alt5 n reg = word_or (word_and reg (word_not (7 * 2 ^ n))) (2 * 2 ^ n)

-- The pins, their pull-up and pull-down, and the mini UART.
unfoldable pub map_pins : Device → Bus → Bus
map_pins d b =
    let (reg, b1) = mmio_read d gpfsel1 b in mmio_write gpfsel1 (set_alt5 15 (set_alt5 12 reg)) b1

unfoldable pub disable_pulls : Bus → Bus
disable_pulls b = mmio_write gppudclk0 0 (
    delay 150 (mmio_write gppudclk0 (word_or (2 ^ 14) (2 ^ 15)) (delay 150 (mmio_write gppud 0 b))))

unfoldable pub enable_uart : Device → Bus → Bus
enable_uart d b =
    let (reg, b1) = mmio_read d aux_enables b in
    mmio_write aux_mu_cntl_reg 2 (
      mmio_write aux_mu_baud_reg 270 (
        mmio_write aux_mu_iir_reg 6 (
          mmio_write aux_mu_ier_reg 0 (
            mmio_write aux_mu_mcr_reg 0 (
              mmio_write aux_mu_lcr_reg 3
                (mmio_write aux_mu_cntl_reg 0 (mmio_write aux_enables (word_or reg 1) b1)))))))

unfoldable pub uart_init : Device → Bus → Bus
uart_init d b = enable_uart d (disable_pulls (map_pins d b))

-- `while (!(mmio_read(AUX_MU_LSR_REG) & 0x20));`, by the reads that it may make.
unfoldable pub wait_ready : ℕ → Device → Bus → Option Bus
wait_ready zero d b = none
wait_ready (suc fuel) d b =
    let r = mmio_read d aux_mu_lsr_reg b in
    elim (word_and r.0 0x20 == 0) [ true ↦ wait_ready fuel d r.1 | false ↦ some r.1 ]

unfoldable pub uart_putc : ℕ → Device → ℕ → Bus → Option Bus
uart_putc fuel d c b = elim (wait_ready fuel d b) [
  | none ↦ none
  | some b' ↦ some (mmio_write aux_mu_io_reg c b')
]

-- `while (*s)`
unfoldable pub uart_puts : ℕ → Device → List ℕ → Bus → Option Bus
uart_puts fuel d [] b = some b
uart_puts fuel d (c ∷ s) b = elim (if c == b'\n' then uart_putc fuel d b'\r' b else some b) [
  | none ↦ none
  | some b1 ↦ elim (uart_putc fuel d c b1) [ none ↦ none | some b2 ↦ uart_puts fuel d s b2 ]
]
