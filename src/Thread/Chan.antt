-- ===== src/Thread/Chan.antt =====
-- thread.c, lines 481 to 534: channels.
pub mod Transfer
use pithread.Common.{ℕ, ltb, if◌then◌else◌, none, some, ℕ_discrete}
use pithread.Memory.{memcpy}
use pithread.Thread.ListLib.{ListLib}
use pithread.Thread.State.{
  send, recv, sync, update, Channel, State, failed, M, ◌>>=◌, ◌>>◌, pure, ask, modify, when, ok,
}
use pithread.Thread.Sync.{not_null, sem_init, sem_down, sem_up}

module _ ⦃l : ListLib⦄ where
  abbrev pub set_chan : ℕ → Channel → State l → State l
  set_chan chan c s = record s { chans = update ℕ_discrete s.chans chan c }

  abbrev pub set_size : ℕ → ℕ → State l → State l
  set_size t n s = record s { sizes = update ℕ_discrete s.sizes t n }

  unfoldable pub chan_init : ℕ → M (Unit {0})
  chan_init chan = do
    not_null chan
    modify (set_chan chan (record { ptr = 0; size = 0 }))
    sem_init (send chan) 1
    sem_init (recv chan) 0
    sem_init (sync chan) 0

  unfoldable pub chan_send : ℕ → ℕ → ℕ → ℕ → M ℕ
  chan_send fuel chan ptr size = do
    not_null chan
    not_null ptr
    me ← ask (λ s. s.current)
    modify (set_size me size)
    sem_down fuel (send chan)
    modify (set_chan chan (record { ptr = ptr; size = me }))
    sem_up (recv chan)
    sem_down fuel (sync chan)
    ask (λ s. s.sizes me)

  -- `memcpy` in the memory of the state.
  abbrev pub copy : ℕ → ℕ → ℕ → M (Unit {0})
  copy dst src n s = elim (memcpy s.mem dst src n) [
    | none ↦ failed
    | some (_, m) ↦ ok tt (record s { mem = m })
  ]

  unfoldable pub chan_recv : ℕ → ℕ → ℕ → ℕ → M ℕ
  chan_recv fuel chan ptr size = do
    not_null chan
    not_null ptr
    sem_down fuel (recv chan)
    sender ← ask (λ s. (s.chans chan).size)
    src ← ask (λ s. (s.chans chan).ptr)
    sent ← ask (λ s. s.sizes sender)
    let n = if ltb size sent then size else sent
    modify (set_size sender n)
    when (ltb 0 n) (copy ptr src n)
    sem_up (sync chan)
    sem_up (send chan)
    pure n
