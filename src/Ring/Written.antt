-- ===== src/Ring/Written.antt =====
-- What readers see of a line that has been written.
use wireroute_windows.Base.{
  ℕ, zero, suc, ◌+◌, ◌-◌, ◌%◌, ◌^◌, ◌<◌, ◌≤◌, ◌≡◌, ◌≢◌, refl, ap, ◌∙◌, List, [], ◌∷◌, ◌++◌, Bool,
  true, false, ◌==◌, length, get_or, take, replicate, All, arith, All-append, length-set,
  get_or-set_self, get_or-set_ne, if◌then◌else◌, none, some,
}
use wireroute_windows.Ring.{
  max_lines, max_tag_length, LogLine, LogMem, Ringlogger, cut_text, is_long, format_line,
  write_line, write_with_timestamp, until_zero, shown,
}
use wireroute_windows.Ring.Lines.{
  cut_line, cut_line-line_text, line_text, zeros, spare, format_line-cut_line, until_zero-append,
  length-cut_text,
}

-- Bytes without a zero, which would end the text.
abbrev pub NoZero : List ℕ → Type 0
NoZero s = All (λ c. c ≢ 0) s

NoZero-take : (n : ℕ) (s : List ℕ) → NoZero s → NoZero (take n s)
NoZero-take zero s h = tt
NoZero-take (suc n) [] h = tt
NoZero-take (suc n) (c ∷ s) h = (h.0, NoZero-take n s h.1)

NoZero-cut_text : (tag p : List ℕ) → NoZero p → NoZero (cut_text tag p)
unfolding cut_text
NoZero-cut_text tag p h = choose (is_long tag p)
  where
    choose : (b : Bool) → NoZero (if b then take (512 - 1 - 3 - length tag) p else p)
    choose true = NoZero-take (512 - 1 - 3 - length tag) p h
    choose false = h

cut_line-NoZero : (tag p : List ℕ) → NoZero tag → NoZero p → NoZero (cut_line tag p)
cut_line-NoZero tag p h k = (
  (λ e. omega (arith, e)),
  All-append (λ c. c ≢ 0) tag (b']' ∷ b' ' ∷ cut_text tag p) h
      ((λ e. omega (arith, e)), ((λ e. omega (arith, e)), NoZero-cut_text tag p k)),
)

zeros_suc : (n : ℕ) → 0 < n → zeros n ≡ 0 ∷ zeros (n - 1)
unfolding zeros
zeros_suc zero h = ground arith
zeros_suc (suc n) h = ap (λ k. 0 ∷ replicate {A = ℕ} k 0) (omega arith)

until_zero-format_line :
    (tag p : List ℕ)
    → length tag ≤ 5
    → NoZero tag
    → NoZero p
    → until_zero (format_line tag p) ≡ some (line_text tag p)
until_zero-format_line tag p h k l =
    ap until_zero (
      format_line-cut_line tag p h
      ∙ ap (λ r. cut_line tag p ++ r)
          (zeros_suc (spare tag p) (omega (arith, length-cut_text tag p h))))
    ∙ until_zero-append (cut_line tag p) (zeros (spare tag p - 1)) (cut_line-NoZero tag p k l)
    ∙ ap some (cut_line-line_text tag p h)

-- What a write leaves in the log: the line at its place is the one that is shown for the text, all
-- other lines are as they were, there are as many, and the next index is one more, of 32 bits.
unfoldable pub IsWritten : (before after : LogMem) (tag p : List ℕ) (ts : ℕ) → Type 0
IsWritten before after tag p ts =
    (d : LogLine)
    → (shown (get_or after.lines (before.next_index % max_lines) d) ≡ some (ts, line_text tag p))
      × ((j : ℕ)
          → before.next_index % max_lines ≢ j
          → get_or after.lines j d ≡ get_or before.lines j d)
      × (length after.lines ≡ max_lines)
      × (after.next_index ≡ (before.next_index + 1) % 2 ^ 32)

write_line-IsWritten :
    (log : LogMem) (tag p : List ℕ) (ts : ℕ)
    → length log.lines ≡ max_lines
    → length tag ≤ 5
    → NoZero tag
    → NoZero p
    → ts ≢ 0
    → IsWritten log (write_line log tag p ts) tag p ts
unfolding IsWritten write_line shown
write_line-IsWritten log tag p ts n h k l t d = (
  ap shown (get_or-set_self log.lines (log.next_index % max_lines) _ d (omega arith))
      ∙ shown_line ts t,
  (λ j e. get_or-set_ne log.lines _ d e),
  length-set log.lines (log.next_index % max_lines) _ ∙ n,
  refl,
)
  where
    shown_line :
        (u : ℕ)
        → u ≢ 0
        → shown (record { time_ns = u; line = format_line tag p }) ≡ some (u, line_text tag p)
    shown_line zero e = absurd (e refl)
    shown_line (suc u) e = rw (until_zero-format_line tag p h k l) refl

write_with_timestamp_open :
    (trim : List ℕ → List ℕ) (rl : Ringlogger) (log : LogMem) (p : List ℕ) (ts : ℕ)
    → rl.read_only ≡ false
    → rl.log ≡ some log
    → (length (trim p) == 0) ≡ false
    → write_with_timestamp trim rl p ts
      ≡ ((length p, none), record rl { log = some (write_line log rl.tag (trim p) ts) })
unfolding write_with_timestamp
write_with_timestamp_open trim rl log p ts writable is_log not_blank =
    rw (writable, not_blank, is_log) refl

-- A logger that is open for writing takes a message that is more than white space: it returns the
-- number of its bytes, and in the log afterwards the line in turn is shown with the time and the
-- first 511 bytes of the tag in brackets, a space and the text, all other lines stay, and the next
-- line is in turn. That is so for tags of up
-- to 5 bytes, a log of 2048 lines, a time that is not 0, and texts and tags without a zero byte.
pub write_with_timestamp-IsWritten :
    (trim : List ℕ → List ℕ) (rl : Ringlogger) (log : LogMem) (p : List ℕ) (ts : ℕ)
    → rl.read_only ≡ false
    → rl.log ≡ some log
    → 0 < length (trim p)
    → length log.lines ≡ max_lines
    → length rl.tag ≤ max_tag_length
    → NoZero rl.tag
    → NoZero (trim p)
    → ts ≢ 0
    → (after : LogMem) × (write_with_timestamp trim rl p ts
        ≡ ((length p, none), record rl { log = some after }))
      × IsWritten log after rl.tag (trim p) ts
write_with_timestamp-IsWritten trim rl log p ts writable is_log some_text n h k l t =
    let not_blank : (length (trim p) == 0) ≡ false = ground arith in
    (
      write_line log rl.tag (trim p) ts,
      write_with_timestamp_open trim rl log p ts writable is_log not_blank,
      write_line-IsWritten log rl.tag (trim p) ts n h k l t,
    )
