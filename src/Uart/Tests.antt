-- ===== src/Uart/Tests.antt =====
-- A device, and what it is sent.
use pithread.Common.{
  ◌+◌, ◌%◌, ◌≡◌, some, [], ◌∷◌, ◌++◌, ◌==◌, if◌then◌else◌, false, Bool-cases, inl, inr, arith,
}
use pithread.Mmio.{Device, Bus}
use pithread.Stdio.Literal.{crlf}
use pithread.Uart.{uart_init, uart_puts}
use pithread.Uart.Pins.{InitDone, uart_init_lem}
use pithread.Uart.Send.{IsReadyWithin, sent, uart_puts_lem}

-- The transmitter is ready at every other read.
abbrev every_other : Device
every_other n reg = if n % 2 == 0 then 0 else 0x20

abbrev idle : Bus
idle = record { reads = 0; events = [] }

every_other-IsReadyWithin : IsReadyWithin 2 every_other
every_other-IsReadyWithin r = elim (Bool-cases ((r + 0) % 2 == 0)) [
  | inr odd ↦ (0, omega arith, rw odd)
  | inl even ↦ (1, omega arith, let odd : ((r + 1) % 2 == 0) ≡ false = ground arith in rw odd)
]

uart_puts_example :
    (b' : Bus) × (uart_puts 2 every_other (b'a' ∷ b'\n' ∷ []) idle ≡ some b')
    × (b'.events ≡ [] ++ sent (crlf (b'a' ∷ b'\n' ∷ [])))
uart_puts_example = uart_puts_lem 2 every_other (b'a' ∷ b'\n' ∷ []) idle every_other-IsReadyWithin

uart_init_example : InitDone every_other idle (uart_init every_other idle)
uart_init_example = uart_init_lem every_other idle
