-- ===== src/Mmio.antt =====
-- mmio.h: the registers of devices. A device is a parameter: what each read of a register gives, by how
-- many reads came before. What a program does to it is a list of writes and delays.
use pithread.Common.{ℕ, ◌+◌, List, [], ◌∷◌, ◌++◌}

abbrev pub Device : Type 0
Device = ℕ → ℕ → ℕ

pub data Event : Type 0 where
  written : ℕ → ℕ → Event
  delayed : ℕ → Event

pub record Bus : Type 0 where
  pub reads : ℕ
  pub events : List Event

abbrev pub mmio_write : ℕ → ℕ → Bus → Bus
mmio_write reg data_written b = record b { events = b.events ++ written reg data_written ∷ [] }

abbrev pub mmio_read : Device → ℕ → Bus → ℕ × Bus
mmio_read d reg b = (d b.reads reg, record b { reads = b.reads + 1 })

abbrev pub delay : ℕ → Bus → Bus
delay count b = record b { events = b.events ++ delayed count ∷ [] }
