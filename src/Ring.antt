-- ===== src/Ring.antt =====
-- ringlogger/ringlogger.go: writing to the log, whose memory several processes share. Its atomic
-- operations are taken as one step each here, and a write as a whole. Strings are lists of bytes, and
-- times are nanoseconds since 1970.
pub mod Lines
pub mod Written
pub mod Tests
use wireroute_windows.Base.{
  ℕ, zero, suc, ◌+◌, ◌-◌, ◌%◌, ◌^◌, List, [], ◌∷◌, Bool, true, false, ltb, ◌==◌, length, set,
  get_or, take, replicate, if◌then◌else◌, Option, none, some,
}

abbrev pub max_log_line_length : ℕ
max_log_line_length = 512

abbrev pub max_tag_length : ℕ
max_tag_length = 5

abbrev pub max_lines : ℕ
max_lines = 2048

pub record LogLine : Type 0 where
  pub time_ns : ℕ
  pub line : List ℕ

pub record LogMem : Type 0 where
  pub next_index : ℕ
  pub lines : List LogLine

pub record Ringlogger : Type 0 where
  pub tag : List ℕ
  pub log : Option LogMem
  pub read_only : Bool

pub data WriteError : Type 0 where
  short_write eof : WriteError

-- `copy(dst[k:], src)`.
unfoldable pub copy_at : ℕ → List ℕ → List ℕ → List ℕ
copy_at zero (x ∷ src) (y ∷ dst) = x ∷ copy_at zero src dst
copy_at zero src dst = dst
copy_at (suc k) src (y ∷ dst) = y ∷ copy_at k src dst
copy_at (suc k) src [] = []

abbrev pub is_long : (tag p : List ℕ) → Bool
is_long tag p = ltb (max_log_line_length - 1) (3 + length p + length tag)

-- The part of the message that the line has room for.
unfoldable pub cut_text : (tag p : List ℕ) → List ℕ
cut_text tag p = if is_long tag p then take (max_log_line_length - 1 - 3 - length tag) p else p

unfoldable pub text_len : (tag p : List ℕ) → ℕ
text_len tag p = if is_long tag p then max_log_line_length - 1 else 3 + length p + length tag

-- The bytes of a line, cleared first.
unfoldable pub format_line : (tag p : List ℕ) → List ℕ
format_line tag p =
    let cleared = replicate max_log_line_length 0 in
    let ended = set (set cleared (text_len tag p) 0) 0 0 in
    let tagged = copy_at 1 tag ended in
    let closed = set (set tagged (1 + length tag) b']') (2 + length tag) b' ' in
    set (copy_at (3 + length tag) (cut_text tag p) closed) 0 b'['

unfoldable pub write_line : LogMem → (tag p : List ℕ) → (ts : ℕ) → LogMem
write_line log tag p ts = record {
  next_index = (log.next_index + 1) % 2 ^ 32;
  lines =
      set log.lines (log.next_index % max_lines)
        (record { time_ns = ts; line = format_line tag p });
}

-- `bytes.TrimSpace` is `trim`: it reads the bytes as UTF-8.
module _ (trim : List ℕ → List ℕ) where
  -- What is returned, and the logger afterwards.
  unfoldable pub write_with_timestamp :
      Ringlogger → (p : List ℕ) → (ts : ℕ) → (ℕ × Option WriteError) × Ringlogger
  write_with_timestamp rl p ts =
      if rl.read_only
      then ((0, some short_write), rl)
      else (if length (trim p) == 0 then ((length p, none), rl) else written rl.log)
    where
      written : Option LogMem → (ℕ × Option WriteError) × Ringlogger
      written none = ((0, some eof), rl)
      written (some log) =
          ((length p, none), record rl { log = some (write_line log rl.tag (trim p) ts) })

-- `line[:bytes.IndexByte(line, 0)]`; none if no byte is 0.
unfoldable pub until_zero : List ℕ → Option (List ℕ)
until_zero [] = none
until_zero (zero ∷ bytes) = some []
until_zero (suc c ∷ bytes) = longer (until_zero bytes)
  where
    longer : Option (List ℕ) → Option (List ℕ)
    longer none = none
    longer (some s) = some (suc c ∷ s)

-- What a reader shows of a line: nothing if it has no time or no text.
unfoldable pub shown : LogLine → Option (ℕ × List ℕ)
shown l = at_time l.time_ns (until_zero l.line)
  where
    at_time : ℕ → Option (List ℕ) → Option (ℕ × List ℕ)
    at_time (suc t) (some (c ∷ s)) = some (suc t, c ∷ s)
    at_time _ _ = none
