-- ===== src/Tunnel/RuntimeLog.antt =====
-- tunnel/runtime_log.go: the log of a tunnel's run, which is emptied when a line does not fit.
pub mod Bound
use wireroute_windows.Base.{
  ℕ, ◌+◌, ◌-◌, ◌*◌, List, [], ◌∷◌, ◌++◌, ltb, length, drop, if◌then◌else◌, Option, none, some,
}
use wireroute_windows.Base.Action.{Action}
use wireroute_windows.Base.Result.{Result, ok, err}
use wireroute_windows.Base.Text.{Text}

-- The calls of an `os.File` whose state is F; a write tells how many bytes it took.
pub record Files (F : Type 0) : Type 0 where
  pub open_file : (path : Text) → Result ℕ F
  pub stat_size : F → Result ℕ ℕ
  pub truncate : ℕ → Action F ℕ (Unit {0})
  pub seek : ℕ → Action F ℕ (Unit {0})
  pub write : Text → F → (ℕ × Option ℕ) × F
  pub sync : F → F
  pub close : Action F ℕ (Unit {0})

abbrev pub maximum_runtime_log_bytes : ℕ
maximum_runtime_log_bytes = 2 * 1024 * 1024

pub record RuntimeLogWriter (F : Type 0) : Type 0 where
  pub file : F
  pub size : ℕ

-- The writer, or the error; a file that is closed again is kept, as it was left.
pub data Opened (F : Type 0) : Type 0 where
  not_opened : (code : ℕ) → Opened F
  closed : (code : ℕ) → F → Opened F
  opened : RuntimeLogWriter F → Opened F

module _ {F : Type 0} (files : Files F) where
  unfoldable pub sought_end : (size : ℕ) → Result ℕ (Unit {0}) × F → Opened F
  sought_end size (err e, f) = closed e ((files.close f).1)
  sought_end size (ok _, f) = opened (record { file = f; size = size })

  unfoldable pub seek_to_end : (size : ℕ) → Result ℕ (Unit {0}) × F → Opened F
  seek_to_end size (err e, f) = closed e ((files.close f).1)
  seek_to_end size (ok _, f) = sought_end size (files.seek size f)

  unfoldable pub open_sized : Result ℕ ℕ → F → Opened F
  open_sized (err e) f = closed e ((files.close f).1)
  open_sized (ok size) f =
      if ltb maximum_runtime_log_bytes size
      then seek_to_end 0 (files.truncate 0 f)
      else seek_to_end size (ok tt, f)

  unfoldable pub open_found : Result ℕ F → Opened F
  open_found (err e) = not_opened e
  open_found (ok f) = open_sized (files.stat_size f) f

  unfoldable pub open_runtime_log : (path : Text) → Opened F
  open_runtime_log path = open_found (files.open_file path)

  -- What is written of a timestamp and a payload: the last bytes if they are too many.
  unfoldable pub log_line : (timestamp payload : Text) → Text
  log_line timestamp payload =
      let line = timestamp ++ payload in
      if ltb maximum_runtime_log_bytes (length line)
      then drop (length line - maximum_runtime_log_bytes) line
      else line

  unfoldable pub sought_start :
      RuntimeLogWriter F → Result ℕ (Unit {0}) × F → Result ℕ (Unit {0}) × RuntimeLogWriter F
  sought_start w (err e, f) = (err e, record w { file = f })
  sought_start w (ok _, f) = (ok tt, record { file = f; size = 0 })

  unfoldable pub truncated :
      RuntimeLogWriter F → Result ℕ (Unit {0}) × F → Result ℕ (Unit {0}) × RuntimeLogWriter F
  truncated w (err e, f) = (err e, record w { file = f })
  truncated w (ok _, f) = sought_start w (files.seek 0 f)

  unfoldable pub make_room : (line : Text) → Action (RuntimeLogWriter F) ℕ (Unit {0})
  make_room line w =
      if ltb maximum_runtime_log_bytes (w.size + length line)
      then truncated w (files.truncate 0 w.file)
      else (ok tt, w)

  -- What was written is counted, and the length of the payload returned unless the write failed.
  unfoldable pub count_written :
      (payload_length size : ℕ) → (ℕ × Option ℕ) × F → Result ℕ ℕ × RuntimeLogWriter F
  count_written n size ((count, none), f) = (ok n, record { file = f; size = size + count })
  count_written n size ((count, some e), f) = (err e, record { file = f; size = size + count })

  unfoldable pub write_log_line :
      (payload_length : ℕ) (line : Text)
      → Result ℕ (Unit {0}) × RuntimeLogWriter F
      → Result ℕ ℕ × RuntimeLogWriter F
  write_log_line n line (err e, w) = (err e, w)
  write_log_line n line (ok _, w) = count_written n w.size (files.write line w.file)

  -- `Write` at the time that the timestamp tells.
  unfoldable pub write_runtime_log : (timestamp payload : Text) → Action (RuntimeLogWriter F) ℕ ℕ
  write_runtime_log timestamp payload w =
      let line = log_line timestamp payload in
      write_log_line (length payload) line (make_room line w)

  unfoldable pub close_runtime_log : Action (RuntimeLogWriter F) ℕ (Unit {0})
  close_runtime_log w = let r = files.close (files.sync w.file) in (r.0, record w { file = r.1 })

  -- Writes one after another, whatever each returns.
  unfoldable pub write_each : List (Text × Text) → RuntimeLogWriter F → RuntimeLogWriter F
  write_each [] w = w
  write_each ((timestamp, payload) ∷ writes) w =
      write_each writes ((write_runtime_log timestamp payload w).1)
