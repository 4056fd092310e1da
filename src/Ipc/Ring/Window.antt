-- ===== src/Ipc/Ring/Window.antt =====
-- The messages that a ring buffer holds, oldest first.
use open_asd.Prelude.{[]}
use open_asd.Prelude.Window.{window}
use open_asd.Ipc.Queue.{Queue}
use open_asd.Ipc.Ring.{Ring, sub64}

-- What the buffer holds.
abbrev pub contents : Ring → Queue
contents rb = window rb.slots [] rb.slot_count rb.read_idx (sub64 rb.write_idx rb.read_idx)
