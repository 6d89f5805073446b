-- ===== src/Port.antt =====
-- Port I/O, src/kernel/io.h: what `outb` sends is a pair of port and byte. A routine that only
-- writes ports is the list of its writes, in order.
use seli_os.Prelude.{ℕ, ◌%◌, ◌^◌}

abbrev pub Sent : Type 0
Sent = ℕ × ℕ

abbrev pub outb : ℕ → ℕ → Sent
outb port byte = (port % 2 ^ 16, byte % 2 ^ 8)
