-- ===== src/Uart/Send.antt =====
-- uart.c: what `uart_putc` and `uart_puts` send.
use pithread.Common.{
  ℕ, zero, suc, ◌+◌, ◌<◌, ◌≡◌, refl, sym, ap, ◌∙◌, true, false, not, some, List, [], ◌∷◌, ◌++◌,
  append_assoc, ◌==◌, if◌then◌else◌, arith, Bool-cases, inl, inr, append-nil,
}
use pithread.Words.{bit, word_and, and_pow}
use pithread.Mmio.{Device, Event, written, Bus, mmio_write}
use pithread.Stdio.Literal.{crlf}
use pithread.Uart.{aux_mu_lsr_reg, aux_mu_io_reg, wait_ready, uart_putc, uart_puts}

-- Among `n` reads of the status in a row, the transmitter is ready in one at least.
abbrev pub IsReadyWithin : ℕ → Device → Type 0
IsReadyWithin n d = (r : ℕ) → (k : ℕ) × (k < n) × (bit 5 (d (r + k) aux_mu_lsr_reg) ≡ true)

abbrev pub sent : List ℕ → List Event
sent [] = []
sent (c ∷ s) = written aux_mu_io_reg c ∷ sent s

ready_bit : (status : ℕ) → bit 5 status ≡ true → (word_and status 0x20 == 0) ≡ false
ready_bit status e = and_pow 32 5 status (omega arith) ∙ ap not e

wait_ready_lem :
    (fuel : ℕ) (d : Device) (b : Bus) (k : ℕ)
    → k < fuel
    → bit 5 (d (b.reads + k) aux_mu_lsr_reg) ≡ true
    → (b' : Bus) × (wait_ready fuel d b ≡ some b') × (b'.events ≡ b.events)
unfolding wait_ready
wait_ready_lem zero d b k lt e = absurd (omega arith)
wait_ready_lem (suc fuel) d b zero lt e =
    let now = ready_bit (d b.reads aux_mu_lsr_reg) (
      ap (λ (r : ℕ). bit 5 (d r aux_mu_lsr_reg)) (let z : b.reads ≡ b.reads + 0 = omega arith in z)
      ∙ e) in
    (record b { reads = b.reads + 1 }, rw (now, wait_ready), refl)
wait_ready_lem (suc fuel) d b (suc k) lt e =
    elim (Bool-cases (word_and (d b.reads aux_mu_lsr_reg) 0x20 == 0)) [
      | inr now ↦ (record b { reads = b.reads + 1 }, rw (now, wait_ready), refl)
      | inl busy ↦
          let (b', f, same) =
            wait_ready_lem fuel d (record b { reads = b.reads + 1 }) k (omega arith)
              (ap (λ (r : ℕ). bit 5 (d r aux_mu_lsr_reg))
                  (let z : b.reads + 1 + k ≡ b.reads + suc k = omega arith in z)
                ∙ e) in
          (b', rw (busy, wait_ready) f, same)
    ]

uart_putc_lem :
    (fuel : ℕ) (d : Device) (c : ℕ) (b : Bus)
    → IsReadyWithin fuel d
    → (b' : Bus) × (uart_putc fuel d c b ≡ some b') × (b'.events ≡ b.events ++ sent (c ∷ []))
unfolding uart_putc
uart_putc_lem fuel d c b ready =
    let (k, lt, now) = ready b.reads in
    let (b', e, same) = wait_ready_lem fuel d b k lt now in
    (
      mmio_write aux_mu_io_reg c b',
      rw (e, uart_putc),
      ap (λ (s : List Event). s ++ sent (c ∷ [])) same,
    )

sent-append : (s t : List ℕ) → sent (s ++ t) ≡ sent s ++ sent t
sent-append [] t = refl
sent-append (c ∷ s) t = ap (λ (u : List Event). written aux_mu_io_reg c ∷ u) (sent-append s t)

-- The carriage return before a newline.
return_lem :
    (fuel : ℕ) (d : Device) (c : ℕ) (b : Bus)
    → IsReadyWithin fuel d
    → (b' : Bus) × ((if c == b'\n' then uart_putc fuel d b'\r' b else some b) ≡ some b')
      × (b'.events ≡ b.events ++ sent (if c == b'\n' then b'\r' ∷ [] else []))
return_lem fuel d c b ready = elim (Bool-cases (c == b'\n')) [
  | inl e ↦ let (b', f, same) = uart_putc_lem fuel d b'\r' b ready in (b', rw e f, rw e same)
  | inr e ↦ (b, rw e, rw e (sym (append-nil b.events)))
]

crlf_cons :
    (c : ℕ) (s : List ℕ) → crlf (c ∷ s) ≡ (if c == b'\n' then b'\r' ∷ [] else []) ++ (c ∷ crlf s)
unfolding crlf
crlf_cons c s = elim (Bool-cases (c == b'\n')) [
  | inl e ↦ let n : b'\n' ≡ c = ground arith in rw e (ap (λ (x : ℕ). b'\r' ∷ x ∷ crlf s) n)
  | inr e ↦ rw e
]

sent_parts :
    (x : List Event) (p q : List ℕ) (c : ℕ)
    → ((x ++ sent p) ++ sent (c ∷ [])) ++ sent q ≡ x ++ sent (p ++ (c ∷ q))
sent_parts x p q c =
    simp append_assoc (ap (λ (u : List Event). x ++ u) (sym (sent-append p (c ∷ q))))

-- When the transmitter is ready at least once in any `fuel` reads of its status, `uart_puts` ends, and it
-- sends the bytes of the string with a carriage return before each newline, and nothing else.
pub uart_puts_lem :
    (fuel : ℕ) (d : Device) (s : List ℕ) (b : Bus)
    → IsReadyWithin fuel d
    → (b' : Bus) × (uart_puts fuel d s b ≡ some b') × (b'.events ≡ b.events ++ sent (crlf s))
unfolding uart_puts crlf
uart_puts_lem fuel d [] b ready = (b, refl, sym (append-nil b.events))
uart_puts_lem fuel d (c ∷ s) b ready =
    let (b1, e1, same1) = return_lem fuel d c b ready in
    let (b2, e2, same2) = uart_putc_lem fuel d c b1 ready in
    let (b3, e3, same3) = uart_puts_lem fuel d s b2 ready in
    (
      b3,
      rw (e1, uart_puts) (rw (e2, uart_puts) e3),
      same3
          ∙ ap (λ (x : List Event). x ++ sent (crlf s))
              (same2 ∙ ap (λ (x : List Event). x ++ sent (c ∷ [])) same1)
          ∙ sent_parts b.events (if c == b'\n' then b'\r' ∷ [] else []) (crlf s) c
          ∙ ap (λ (u : List ℕ). b.events ++ sent u) (sym (crlf_cons c s)),
    )
