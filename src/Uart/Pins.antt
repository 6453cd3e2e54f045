-- ===== src/Uart/Pins.antt =====
-- uart.c: the registers that `uart_init` leaves.
use pithread.Common.{
  ℕ, zero, suc, ◌+◌, ◌*◌, ◌/◌, ◌%◌, ◌^◌, ◌<◌, ◌≡◌, refl, ap, ◌∙◌, Bool, true, false, not, ◌&&◌,
  ◌||◌, List, [], ◌∷◌, ◌++◌, append_assoc, ◌==◌, if◌then◌else◌, arith,
}
use pithread.Words.{bit, word_and, word_not, bit-bitwise, bit-pow, bit_zero}
use pithread.Mmio.{Device, Event, written, delayed, Bus}
use pithread.Uart.{
  gpfsel1, aux_enables, aux_mu_cntl_reg, set_alt5, map_pins, disable_pulls, enable_uart, uart_init,
}

-- The three bits of a pin.
abbrev pub in_field : ℕ → ℕ → Bool
in_field n i = i == n || i == n + 1 || i == n + 2

-- A pin's field in `reg` as the function 5, which is 2, and the other bits of `reg`.
abbrev pub alt5_bit : ℕ → ℕ → Bool → Bool
alt5_bit n i old = if in_field n i then i == n + 1 else old

field_mask : (n i : ℕ) → bit i (7 * 2 ^ n) ≡ in_field n i
field_mask zero zero = refl
field_mask zero (suc zero) = refl
field_mask zero (suc (suc zero)) = refl
field_mask zero (suc (suc (suc i))) = bit_zero i ∙ ground arith
field_mask (suc n) zero =
    (let even : (7 * 2 ^ suc n) % 2 ≡ 0 = omega arith in ap (λ (x : ℕ). x == 1) even) ∙ ground arith
field_mask (suc n) (suc i) =
    ap (bit i) (let half : 7 * 2 ^ suc n / 2 ≡ 7 * 2 ^ n = omega arith in half)
    ∙ field_mask n i
    ∙ ground arith

alt5_mask : (n i : ℕ) → bit i (2 * 2 ^ n) ≡ (i == n + 1)
alt5_mask n i =
    ap (bit i) (let z : 2 * 2 ^ n ≡ 2 ^ suc n = omega arith in z)
    ∙ bit-pow i (suc n)
    ∙ ap (λ (k : ℕ). i == k) (let z : suc n ≡ n + 1 = omega arith in z)

field_bools :
    (a b c old : Bool) → ((old && not (a || b || c)) || b) ≡ (if a || b || c then b else old)
field_bools true true c true = refl
field_bools true true c false = refl
field_bools true false c true = refl
field_bools true false c false = refl
field_bools false true c true = refl
field_bools false true c false = refl
field_bools false false true true = refl
field_bools false false true false = refl
field_bools false false false true = refl
field_bools false false false false = refl

set_alt5_lem : (n i reg : ℕ) → i < 32 → bit i (set_alt5 n reg) ≡ alt5_bit n i (bit i reg)
set_alt5_lem n i reg lt =
    bit-bitwise (λ x y. x || y) 32 i (word_and reg (word_not (7 * 2 ^ n))) (2 * 2 ^ n) lt
    ∙ ap (λ (x : Bool). x || bit i (2 * 2 ^ n))
        (bit-bitwise (λ x y. x && y) 32 i reg (word_not (7 * 2 ^ n)) lt
          ∙ ap (λ (x : Bool). bit i reg && x)
              (bit-bitwise (λ x y. not x) 32 i (7 * 2 ^ n) 0 lt ∙ ap not (field_mask n i)))
    ∙ ap (λ (x : Bool). (bit i reg && not (in_field n i)) || x) (alt5_mask n i)
    ∙ field_bools (i == n) (i == n + 1) (i == n + 2) (bit i reg)

-- What a register holds after some events, when it holds what is written to it.
abbrev pub register : ℕ → List Event → ℕ → ℕ
register reg [] old = old
register reg (written r v ∷ es) old = register reg es (if r == reg then v else old)
register reg (delayed n ∷ es) old = register reg es old

-- What `uart_init` does to the registers: the fields of the pins 14 and 15 select the function 5 and
-- the other pins keep theirs; the mini UART is enabled and the other devices stay as they are; at the end
-- the transmitter is on and the receiver off.
pub record InitDone (d : Device) (b b' : Bus) : Type 0 where
  pub events : List Event
  pub added : b'.events ≡ b.events ++ events
  pub pins :
      (i old : ℕ)
      → i < 32
      → bit i (register gpfsel1 events old)
        ≡ alt5_bit 15 i (alt5_bit 12 i (bit i (d b.reads gpfsel1)))
  pub enabled :
      (i old : ℕ)
      → i < 32
      → bit i (register aux_enables events old) ≡ (bit i (d (b.reads + 1) aux_enables) || i == 0)
  pub control : (old : ℕ) → register aux_mu_cntl_reg events old ≡ 2

-- `uart_init`, whatever the device gives: the fields of the pins 14 and 15 select the function 5 and
-- the other pins keep theirs; the mini UART is enabled and the other devices stay as they are; at the end
-- the transmitter is on and the receiver off.
pub uart_init_lem : (d : Device) (b : Bus) → InitDone d b (uart_init d b)
unfolding uart_init map_pins disable_pulls enable_uart
uart_init_lem d b = record {
  events = (uart_init d (record b { events = [] })).events;
  added = simp append_assoc refl;
  pins = λ i old lt.
      set_alt5_lem 15 i (set_alt5 12 (d b.reads gpfsel1)) lt
      ∙ ap (alt5_bit 15 i) (set_alt5_lem 12 i (d b.reads gpfsel1) lt);
  enabled = λ i old lt.
      bit-bitwise (λ x y. x || y) 32 i (d (b.reads + 1) aux_enables) 1 lt
      ∙ ap (λ (x : Bool). bit i (d (b.reads + 1) aux_enables) || x) (bit-pow i 0);
  control = λ old. refl;
}
