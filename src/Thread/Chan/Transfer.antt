-- ===== src/Thread/Chan/Transfer.antt =====
-- What passes through a channel: `chan_recv` with a message at hand, and `chan_send`.
use pithread.Common.{
  ℕ, zero, suc, ◌+◌, ◌-◌, ◌%◌, ◌^◌, ◌<◌, ◌≡◌, refl, ◌≢◌, ◌∙◌, ==_ne, ltb, if◌then◌else◌, arith, ap,
  ℕ_discrete, true,
}
use pithread.Memory.{copy_up}
use pithread.Memory.Blocks.{memcpy-ok}
use pithread.Thread.ListLib.{ListLib}
use pithread.Thread.State.{Channel, send, recv, sync, State, ok, when, pure, ◌>>◌, update_self, M}
use pithread.Thread.Inv.{Inv}
use pithread.Thread.Sync.{sem_up, set_value}
use pithread.Thread.Sync.Semaphore.{
  sem_down_now, sem_up-Woken, Woken-Inv, Woken-SameRest, Woken-values, up_state,
}
use pithread.Thread.Chan.{chan_send, chan_recv, set_size, set_chan, copy}

positive : (n : ℕ) → ltb 0 (suc n) ≡ true
positive n = ground arith

-- The smaller of the message's size and the receiver's.
abbrev pub shorter : ℕ → ℕ → ℕ
shorter size sent = if ltb size sent then size else sent

module _ ⦃l : ListLib⦄ where
  -- The state when the message has been copied: one message less, `n` bytes at `ptr`, and `n` as
  -- the size that the sender sees.
  abbrev pub delivered : ℕ → ℕ → ℕ → State l → State l
  delivered chan ptr n s =
      let sender = (s.chans chan).size in
      let t = set_size sender n (set_value (recv chan) (s.values (recv chan) - 1) s) in
      record t { mem = copy_up n s.mem ptr (s.chans chan).ptr }

  copied :
      (chan ptr n : ℕ) (s : State l) (m : M ℕ)
      → ptr ≢ 0
      → (s.chans chan).ptr ≢ 0
      → ((when (ltb 0 n) (copy ptr (s.chans chan).ptr n) >> m)
          (set_size (s.chans chan).size n (set_value (recv chan) (s.values (recv chan) - 1) s)))
        ≡ m (delivered chan ptr n s)
  unfolding copy_up
  copied chan ptr zero s m np ns = refl
  copied chan ptr (suc n) s m np ns =
      rw (positive n, copy, memcpy-ok s.mem ptr (s.chans chan).ptr (suc n) np ns)

  delivered-Inv : (chan ptr n : ℕ) (s : State l) → Inv s → Inv (delivered chan ptr n s)
  delivered-Inv chan ptr n s v = record {
    lists = v.lists;
    running = v.running;
    locks = λ k. ground (arith, v.locks k);
  }

  -- The values when the message is through.
  passed_values :
      (chan : ℕ) (s d t s' : State l)
      → d.values ≡ (set_value (recv chan) (s.values (recv chan) - 1) s).values
      → t.values ≡ (up_state (sync chan) d).values
      → s'.values ≡ (up_state (send chan) t).values
      → (s'.values (recv chan) ≡ s.values (recv chan) - 1)
        × (s'.values (sync chan) ≡ (s.values (sync chan) + 1) % 2 ^ 32)
        × (s'.values (send chan) ≡ (s.values (send chan) + 1) % 2 ^ 32)
  passed_values chan s d t s' e0 e1 e2 = rw (e2, e1, e0) (ground arith)

  -- With a message at hand `chan_recv` does not sleep. It returns the smaller of the message's
  -- size and the receiver's, has copied that many bytes from the sender's buffer to the
  -- receiver's, shows the sender that size, consumes the message, and raises `sync` and `send`
  -- once each. The invariant and the locks are kept.
  pub chan_recv_lem :
      (fuel chan ptr size : ℕ) (s : State l)
      → chan ≢ 0
      → ptr ≢ 0
      → (s.chans chan).ptr ≢ 0
      → 0 < s.values (recv chan)
      → Inv s
      → let n = shorter size (s.sizes (s.chans chan).size) in
        (s' : State l) × (chan_recv fuel chan ptr size s ≡ ok n s')
        × Inv s'
        × (s'.mem ≡ copy_up n s.mem ptr (s.chans chan).ptr)
        × (s'.sizes (s.chans chan).size ≡ n)
        × (s'.values (recv chan) ≡ s.values (recv chan) - 1)
        × (s'.values (sync chan) ≡ (s.values (sync chan) + 1) % 2 ^ 32)
        × (s'.values (send chan) ≡ (s.values (send chan) + 1) % 2 ^ 32)
        × (s'.holder ≡ s.holder)
  unfolding chan_recv
  chan_recv_lem fuel chan ptr size s nc np ns pos v =
      let n = shorter size (s.sizes (s.chans chan).size) in
      let d = delivered chan ptr n s in
      let (t, e1, v1, w1) = sem_up-Woken (sync chan) d v.lists in
      let (s', e2, v2, w2) = sem_up-Woken (send chan) t v1 in
      let rest1 = Woken-SameRest (sync chan) d t w1 in
      let rest2 = Woken-SameRest (send chan) t s' w2 in
      let values =
        passed_values chan s d t s' refl (Woken-values (sync chan) d t w1)
          (Woken-values (send chan) t s' w2) in
      (
        s',
        rw (==_ne chan 0 nc, ==_ne ptr 0 np, sem_down_now fuel (recv chan) s v.running.2 pos)
            (copied chan ptr n s (sem_up (sync chan) >> (sem_up (send chan) >> pure n)) np ns
              ∙ rw (e1, e2)),
        Woken-Inv (send chan) t s' (λ k e. cc)
            (Woken-Inv (sync chan) d t (λ k e. cc) (delivered-Inv chan ptr n s v) v1 w1) v2 w2,
        rest2.mem ∙ rest1.mem,
        ap (λ (f : ℕ → ℕ). f (s.chans chan).size) (rest2.sizes ∙ rest1.sizes)
            ∙ update_self ℕ_discrete s.sizes (s.chans chan).size n,
        values.0,
        values.1,
        values.2,
        rest2.holder ∙ rest1.holder,
      )

  -- A call of `chan_send` that finds both `send` and `sync` raised returns without a switch, so
  -- before any receiver has run: its message still waits in the channel, which points at the
  -- caller's buffer and at the caller's own `size`.
  pub chan_send_early :
      (fuel chan ptr size : ℕ) (s : State l)
      → chan ≢ 0
      → ptr ≢ 0
      → 0 < s.values (send chan)
      → 0 < s.values (sync chan)
      → Inv s
      → (s' : State l) × (chan_send fuel chan ptr size s ≡ ok size s')
        × ((s'.chans chan).ptr ≡ ptr)
        × ((s'.chans chan).size ≡ s.current)
        × (s'.mem ≡ s.mem)
        × (s'.values (recv chan) ≡ (s.values (recv chan) + 1) % 2 ^ 32)
        × (s'.values (sync chan) ≡ s.values (sync chan) - 1)
  unfolding chan_send
  chan_send_early fuel chan ptr size s nc np free synced v =
      let s1 : State l =
        set_chan chan (record { ptr = ptr; size = s.current })
          (set_value (send chan) (s.values (send chan) - 1) (set_size s.current size s)) in
      let (t, e, vt, w) = sem_up-Woken (recv chan) s1 v.lists in
      let rest = Woken-SameRest (recv chan) s1 t w in
      let values = Woken-values (recv chan) s1 t w in
      let still : t.values (sync chan) ≡ s.values (sync chan) = rw values (ground arith) in
      (
        set_value (sync chan) (t.values (sync chan) - 1) t,
        rw
            (
              ==_ne chan 0 nc,
              ==_ne ptr 0 np,
              sem_down_now fuel (send chan) (set_size s.current size s) v.running.2 free,
              e,
              sem_down_now fuel (sync chan) t (rw rest.current v.running.2) (rw still synced),
            )
            (ap (λ n. ok n (set_value (sync chan) (t.values (sync chan) - 1) t))
              (ap (λ (f : ℕ → ℕ). f s.current) rest.sizes
                ∙ update_self ℕ_discrete s.sizes s.current size)),
        ap (λ (c : ℕ → Channel). (c chan).ptr) rest.chans
            ∙ ap (λ (c : Channel). c.ptr) (update_self ℕ_discrete s.chans chan _),
        ap (λ (c : ℕ → Channel). (c chan).size) rest.chans
            ∙ ap (λ (c : Channel). c.size) (update_self ℕ_discrete s.chans chan _),
        rest.mem,
        rw values (ground arith),
        rw values (ground arith),
      )
