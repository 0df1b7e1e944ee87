-- ===== src/Ring/Tests.antt =====
-- The theorem on the ring log at a message.
use wireroute_windows.Base.{◌≡◌, refl, [], false, replicate, none, some, arith, length-replicate}
use wireroute_windows.Base.Text.{codes}
use wireroute_windows.Ring.{LogLine, LogMem, Ringlogger, write_with_timestamp}
use wireroute_windows.Ring.Written.{NoZero, IsWritten, write_with_timestamp-IsWritten}

abbrev no_line : LogLine
no_line = record { time_ns = 0; line = [] }

abbrev empty_log : LogMem
empty_log = record { next_index = 2047; lines = replicate 2048 no_line }

abbrev logger : Ringlogger
logger = record { tag = codes "TUN"; log = some empty_log; read_only = false }

NoZero-tag : NoZero (codes "TUN")
NoZero-tag = ((λ e. omega (arith, e)), ((λ e. omega (arith, e)), ((λ e. omega (arith, e)), tt)))

NoZero-text : NoZero (codes "up")
NoZero-text = ((λ e. omega (arith, e)), ((λ e. omega (arith, e)), tt))

write_with_timestamp-IsWritten_example :
    (after : LogMem) × (write_with_timestamp (λ p. p) logger (codes "up") 9
      ≡ ((2, none), record logger { log = some after }))
    × IsWritten empty_log after (codes "TUN") (codes "up") 9
write_with_timestamp-IsWritten_example =
    write_with_timestamp-IsWritten (λ p. p) logger empty_log (codes "up") 9 refl refl (omega arith)
      (length-replicate 2048 no_line) (omega arith) NoZero-tag NoZero-text (λ e. omega (arith, e))
