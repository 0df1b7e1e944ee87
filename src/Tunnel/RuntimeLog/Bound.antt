-- ===== src/Tunnel/RuntimeLog/Bound.antt =====
-- tunnel/runtime_log.go: the size of the file.
use wireroute_windows.Base.{
  ℕ, ◌+◌, ◌-◌, ◌≤◌, List, [], ◌∷◌, ◌++◌, ltb, length, length-drop, drop, if_intro, Option, none,
  some, arith, ◌≡◌,
}
use wireroute_windows.Base.Result.{Result, ok, err, Holds}
use wireroute_windows.Base.Text.{Text}
use wireroute_windows.Tunnel.RuntimeLog.{
  Files, RuntimeLogWriter, maximum_runtime_log_bytes, Opened, opened, closed, not_opened,
  sought_end, seek_to_end, open_sized, open_found, open_runtime_log, log_line, sought_start,
  truncated, make_room, count_written, write_log_line, write_runtime_log, write_each,
}

module _ {F : Type 0} (size_of position : F → ℕ) where
  abbrev pub IsTruncated : F → Result ℕ (Unit {0}) × F → Type 0
  IsTruncated f (err e, g) = (size_of g ≤ size_of f) × (position g ≡ position f)
  IsTruncated f (ok _, g) = (size_of g ≡ 0) × (position g ≡ position f)

  abbrev pub IsSought : ℕ → F → Result ℕ (Unit {0}) × F → Type 0
  IsSought n f (err e, g) = (size_of g ≡ size_of f) × (position g ≡ position f)
  IsSought n f (ok _, g) = (size_of g ≡ size_of f) × (position g ≡ n)

  -- Of a write of so many bytes: the file grows no further than the position behind it.
  abbrev pub IsWritten : ℕ → F → (ℕ × Option ℕ) × F → Type 0
  IsWritten n f (r, g) =
      (r.0 ≤ n)
      × (position g ≡ position f + r.0)
      × ((m : ℕ) → size_of f ≤ m → position f + r.0 ≤ m → size_of g ≤ m)

-- A file has a size and a position, and the calls change them in this way.
pub record IsFile {F : Type 0} (files : Files F) : Type 0 where
  pub size_of : F → ℕ
  pub position : F → ℕ
  pub stat_lem : (f : F) → Holds (λ n. n ≡ size_of f) (files.stat_size f)
  pub truncate_lem : (f : F) → IsTruncated size_of position f (files.truncate 0 f)
  pub seek_lem : (n : ℕ) (f : F) → IsSought size_of position n f (files.seek n f)
  pub write_lem : (s : Text) (f : F) → IsWritten size_of position (length s) f (files.write s f)

module _ {F : Type 0} (files : Files F) (law : IsFile files) where
  -- The writer knows where it writes, and neither this nor the file is beyond the bound.
  abbrev pub IsBounded : RuntimeLogWriter F → Type 0
  IsBounded w =
      (law.position w.file ≡ w.size)
      × (law.size_of w.file ≤ maximum_runtime_log_bytes)
      × (w.size ≤ maximum_runtime_log_bytes)

  length-log_line :
      (timestamp payload : Text)
      → length (log_line files timestamp payload) ≤ maximum_runtime_log_bytes
  unfolding log_line
  length-log_line timestamp payload =
      let line = timestamp ++ payload in
      if_intro (λ s. length s ≤ maximum_runtime_log_bytes)
        (ltb maximum_runtime_log_bytes (length line))
        (drop (length line - maximum_runtime_log_bytes) line) line
        (λ e. omega (arith, length-drop (length line - maximum_runtime_log_bytes) line))
        (λ e. ground arith)

  -- There is room behind a success; behind a failure the writer is still bounded.
  abbrev HasRoom : ℕ → Result ℕ (Unit {0}) × RuntimeLogWriter F → Type 0
  HasRoom n (err e, w) = IsBounded w
  HasRoom n (ok _, w) = IsBounded w × (w.size + n ≤ maximum_runtime_log_bytes)

  sought_start-HasRoom :
      (n : ℕ) (w : RuntimeLogWriter F) (f : F) (r : Result ℕ (Unit {0}) × F)
      → n ≤ maximum_runtime_log_bytes
      → IsBounded (record w { file = f })
      → IsSought law.size_of law.position 0 f r
      → HasRoom n (sought_start files w r)
  unfolding sought_start
  sought_start-HasRoom n w f (err e, g) short h s = (omega arith, omega arith, h.2)
  sought_start-HasRoom n w f (ok _, g) short h s = ((s.1, omega arith, omega arith), omega arith)

  truncated-HasRoom :
      (n : ℕ) (w : RuntimeLogWriter F) (r : Result ℕ (Unit {0}) × F)
      → n ≤ maximum_runtime_log_bytes
      → IsBounded w
      → IsTruncated law.size_of law.position w.file r
      → HasRoom n (truncated files w r)
  unfolding truncated
  truncated-HasRoom n w (err e, g) short h t = (omega arith, omega arith, h.2)
  truncated-HasRoom n w (ok _, g) short h t =
      sought_start-HasRoom n w g (files.seek 0 g) short (omega arith, omega arith, h.2)
        (law.seek_lem 0 g)

  make_room-HasRoom :
      (line : Text) (w : RuntimeLogWriter F)
      → length line ≤ maximum_runtime_log_bytes
      → IsBounded w
      → HasRoom (length line) (make_room files line w)
  unfolding make_room
  make_room-HasRoom line w short h =
      if_intro (HasRoom (length line)) (ltb maximum_runtime_log_bytes (w.size + length line))
        (truncated files w (files.truncate 0 w.file)) (ok tt, w)
        (λ e.
          truncated-HasRoom (length line) w (files.truncate 0 w.file) short h
            (law.truncate_lem w.file))
        (λ e. (h, ground arith))

  count_written-IsBounded :
      (payload_length n : ℕ) (w : RuntimeLogWriter F) (r : (ℕ × Option ℕ) × F)
      → HasRoom n (ok tt, w)
      → IsWritten law.size_of law.position n w.file r
      → IsBounded (count_written files payload_length w.size r).1
  unfolding count_written
  count_written-IsBounded k n w ((count, none), g) h s =
      (omega arith, s.2 maximum_runtime_log_bytes h.0.1 (omega arith), omega arith)
  count_written-IsBounded k n w ((count, some e), g) h s =
      (omega arith, s.2 maximum_runtime_log_bytes h.0.1 (omega arith), omega arith)

  write_log_line-IsBounded :
      (payload_length : ℕ) (line : Text) (r : Result ℕ (Unit {0}) × RuntimeLogWriter F)
      → HasRoom (length line) r
      → IsBounded (write_log_line files payload_length line r).1
  unfolding write_log_line
  write_log_line-IsBounded k line (err e, w) h = h
  write_log_line-IsBounded k line (ok _, w) h =
      count_written-IsBounded k (length line) w (files.write line w.file) h
        (law.write_lem line w.file)

  write_runtime_log-IsBounded :
      (timestamp payload : Text) (w : RuntimeLogWriter F)
      → IsBounded w
      → IsBounded (write_runtime_log files timestamp payload w).1
  unfolding write_runtime_log
  write_runtime_log-IsBounded timestamp payload w h =
      let line = log_line files timestamp payload in
      write_log_line-IsBounded (length payload) line (make_room files line w)
        (make_room-HasRoom line w (length-log_line timestamp payload) h)

  -- After any writes, failed ones included, the file has at most 2 MiB if the writer began bounded.
  pub write_each-IsBounded :
      (writes : List (Text × Text)) (w : RuntimeLogWriter F)
      → IsBounded w
      → IsBounded (write_each files writes w)
  unfolding write_each
  write_each-IsBounded [] w h = h
  write_each-IsBounded ((timestamp, payload) ∷ writes) w h =
      write_each-IsBounded writes ((write_runtime_log files timestamp payload w).1)
        (write_runtime_log-IsBounded timestamp payload w h)

  -- What holds of the writer that is opened, if one is.
  abbrev pub OpenedBounded : Opened F → Type 0
  OpenedBounded (not_opened e) = Unit
  OpenedBounded (closed e f) = Unit
  OpenedBounded (opened w) = IsBounded w

  sought_end-OpenedBounded :
      (n : ℕ) (f : F) (r : Result ℕ (Unit {0}) × F)
      → n ≤ maximum_runtime_log_bytes
      → law.size_of f ≤ maximum_runtime_log_bytes
      → IsSought law.size_of law.position n f r
      → OpenedBounded (sought_end files n r)
  unfolding sought_end
  sought_end-OpenedBounded n f (err e, g) short h s = tt
  sought_end-OpenedBounded n f (ok _, g) short h s = (s.1, omega arith, short)

  seek_to_end-OpenedBounded :
      (f : F) (r : Result ℕ (Unit {0}) × F)
      → IsTruncated law.size_of law.position f r
      → OpenedBounded (seek_to_end files 0 r)
  unfolding seek_to_end
  seek_to_end-OpenedBounded f (err e, g) t = tt
  seek_to_end-OpenedBounded f (ok _, g) t =
      sought_end-OpenedBounded 0 g (files.seek 0 g) (omega arith) (omega arith) (law.seek_lem 0 g)

  open_sized-OpenedBounded :
      (f : F) (r : Result ℕ ℕ)
      → Holds (λ n. n ≡ law.size_of f) r
      → OpenedBounded (open_sized files r f)
  unfolding open_sized seek_to_end
  open_sized-OpenedBounded f (err e) h = tt
  open_sized-OpenedBounded f (ok size) h =
      if_intro OpenedBounded (ltb maximum_runtime_log_bytes size)
        (seek_to_end files 0 (files.truncate 0 f)) (seek_to_end files size (ok tt, f))
        (λ e. seek_to_end-OpenedBounded f (files.truncate 0 f) (law.truncate_lem f))
        (λ e.
          sought_end-OpenedBounded size f (files.seek size f) (ground arith) (ground arith)
            (law.seek_lem size f))

  open_found-OpenedBounded : (r : Result ℕ F) → OpenedBounded (open_found files r)
  unfolding open_found
  open_found-OpenedBounded (err e) = tt
  open_found-OpenedBounded (ok f) = open_sized-OpenedBounded f (files.stat_size f) (law.stat_lem f)

  -- A writer that `openRuntimeLog` returns is bounded, whatever the size of the file was.
  open_runtime_log-OpenedBounded : (path : Text) → OpenedBounded (open_runtime_log files path)
  unfolding open_runtime_log
  open_runtime_log-OpenedBounded path = open_found-OpenedBounded (files.open_file path)

  -- What is written to a log that was opened.
  abbrev pub written_log : List (Text × Text) → Opened F → Opened F
  written_log writes (not_opened e) = not_opened e
  written_log writes (closed e f) = closed e f
  written_log writes (opened w) = opened (write_each files writes w)

  written_log-OpenedBounded :
      (writes : List (Text × Text)) (o : Opened F)
      → OpenedBounded o
      → OpenedBounded (written_log writes o)
  written_log-OpenedBounded writes (not_opened e) h = tt
  written_log-OpenedBounded writes (closed e f) h = tt
  written_log-OpenedBounded writes (opened w) h = write_each-IsBounded writes w h

  -- If the calls act on a file as `IsFile` says: whatever a log held before, when it is opened and
  -- any texts are written to it, with failures or without, its file has at most 2 MiB, the writer
  -- knows where it writes, and that is at most 2 MiB too.
  pub runtime_log_bounded :
      (path : Text) (writes : List (Text × Text))
      → OpenedBounded (written_log writes (open_runtime_log files path))
  runtime_log_bounded path writes =
      written_log-OpenedBounded writes (open_runtime_log files path)
        (open_runtime_log-OpenedBounded path)
