-- ===== src/Highlighter/Laws/InRange.antt =====
-- The spans of a whole configuration.
use wireroute_windows.Base.{
  ℕ, zero, suc, ◌+◌, ◌≤◌, ◌≡◌, refl, ap, ◌∙◌, List, Bool, true, false, not, ◌&&◌, ◌||◌, ◌==◌, leb,
  if_intro, arith, Option, some, Bool-cases, inl, inr,
}
use wireroute_windows.Highlighter.{
  comment, delimiter, error, HighlightSpan, Memory, StringSpan, span,
}
use wireroute_windows.Highlighter.Fields.{Field}
use wireroute_windows.Highlighter.Laws.{InOrder, Reaches, Reaches-le, append-Reaches, append_one}
use wireroute_windows.Highlighter.Laws.Value.{highlight_value-Reaches}
use wireroute_windows.Highlighter.Scan.{
  State, on_none, on_key, on_value, on_comment, on_section, is_on_comment, is_on_key, Scanning,
  at_first, end_value, end_item, next_item, end_key, begun, within_item, scan_byte, scanned,
  scan_from, highlight_memory,
}
use wireroute_windows.Highlighter.Values.{append}

-- Where the spans end in a state.
unfoldable Starts : State → Scanning → Type 0
Starts on_value st =
    Reaches 0 st.ret st.equals_location × (suc st.equals_location ≤ st.current_span.s)
Starts _ st = Reaches 0 st.ret st.current_span.s

-- The length less the spaces at the end. Behind an equals sign it is that of the key, as long as the
-- value is empty.
unfoldable Trimmed : State → Scanning → Type 0
Trimmed on_value st =
    (st.current_span.len == 0 || leb st.len_at_last_space st.current_span.len) ≡ true
Trimmed _ st = st.len_at_last_space ≤ st.current_span.len

-- The loop's variables before byte i.
record IsBefore (i : ℕ) (st : Scanning) : Type 0 where
  starts : Starts st.state st
  ends : st.current_span.s + st.current_span.len ≡ i
  trimmed : Trimmed st.state st

Starts-Reaches :
    (state : State) (st : Scanning) → Starts state st → Reaches 0 st.ret st.current_span.s
unfolding Starts
Starts-Reaches on_value st h = Reaches-le st.current_span.s h.0 (omega (arith, h.1))
Starts-Reaches on_none st h = h
Starts-Reaches on_key st h = h
Starts-Reaches on_comment st h = h
Starts-Reaches on_section st h = h

-- The state that is kept in the variables does not matter.
Starts-state :
    (state kept : State) (st : Scanning)
    → Starts state st
    → Starts state (record st { state = kept })
unfolding Starts
Starts-state on_value kept st h = h
Starts-state on_none kept st h = h
Starts-state on_key kept st h = h
Starts-state on_comment kept st h = h
Starts-state on_section kept st h = h

-- The current span may begin later.
Starts-later :
    (state : State) (st : Scanning) (current : StringSpan) (last : ℕ)
    → st.current_span.s ≤ current.s
    → Starts state st
    → Starts state (record st { current_span = current; len_at_last_space = last })
unfolding Starts
Starts-later on_value st current last h k = (k.0, omega (arith, k.1))
Starts-later on_none st current last h k = Reaches-le current.s k h
Starts-later on_key st current last h k = Reaches-le current.s k h
Starts-later on_comment st current last h k = Reaches-le current.s k h
Starts-later on_section st current last h k = Reaches-le current.s k h

Starts-begun :
    (m : Memory) (state : State) (is_bracket : Bool) (st : Scanning)
    → Starts state st
    → Starts (begun m state is_bracket) st
unfolding Starts begun
Starts-begun m on_none true st h = h
Starts-begun m on_none false st h = h
Starts-begun m on_key is_bracket st h = h
Starts-begun m on_value is_bracket st h = h
Starts-begun m on_comment is_bracket st h = h
Starts-begun m on_section is_bracket st h = h

Trimmed-is_on_key :
    (state : State) (st : Scanning)
    → is_on_key state ≡ true
    → Trimmed state st
    → st.len_at_last_space ≤ st.current_span.len
unfolding Trimmed is_on_key
Trimmed-is_on_key on_key st e h = h
Trimmed-is_on_key on_none st e h = h
Trimmed-is_on_key on_comment st e h = h
Trimmed-is_on_key on_section st e h = h
Trimmed-is_on_key on_value st e h = absurd (ground arith)

-- A span that is no empty value may get longer, and an empty one may begin later.
Trimmed-longer :
    (state : State) (st : Scanning)
    → (is_on_comment state || not (st.current_span.len == 0)) ≡ true
    → Trimmed state st
    → Trimmed state (record st { current_span = span st.current_span.s (suc st.current_span.len) })
unfolding Trimmed is_on_comment
Trimmed-longer on_value st e h = ground arith
Trimmed-longer on_none st e h = omega arith
Trimmed-longer on_key st e h = omega arith
Trimmed-longer on_comment st e h = omega arith
Trimmed-longer on_section st e h = omega arith

Trimmed-empty :
    (state : State) (st : Scanning)
    → st.current_span.len ≡ 0
    → Trimmed state st
    → Trimmed state (record st { current_span = span (suc st.current_span.s) 0 })
unfolding Trimmed
Trimmed-empty on_value st e h = refl
Trimmed-empty on_none st e h = omega arith
Trimmed-empty on_key st e h = omega arith
Trimmed-empty on_comment st e h = omega arith
Trimmed-empty on_section st e h = omega arith

Trimmed-full :
    (state : State) (st : Scanning) → st.current_span.len ≡ st.len_at_last_space → Trimmed state st
unfolding Trimmed
Trimmed-full on_value st e = ground arith
Trimmed-full on_none st e = omega arith
Trimmed-full on_key st e = omega arith
Trimmed-full on_comment st e = omega arith
Trimmed-full on_section st e = omega arith

Reaches-any :
    {n : ℕ} {hsa : List HighlightSpan} {high : ℕ} → Reaches n hsa high → Reaches 0 hsa high
Reaches-any h = record { in_order = h.in_order; enough = omega arith }

module _ (m : Memory) where
  abbrev Ended : (i : ℕ) → Option (List HighlightSpan × Field) → Type 0
  Ended i o = (r : List HighlightSpan × Field) × (o ≡ some r) × Reaches 0 r.0 i

  module _ (i : ℕ) (st : Scanning) (ends : st.current_span.s + st.current_span.len ≡ i) where
    end_value-Reaches :
        Starts on_value st
        → Trimmed on_value st
        → (r : List HighlightSpan) × (end_value m st ≡ some r) × Reaches 0 r i
    unfolding end_value Starts Trimmed
    end_value-Reaches h trimmed = elim (Bool-cases (st.current_span.len == 0)) [
      | inl e ↦ (
        append st.ret (span st.equals_location 1) error,
        rw e refl,
        Reaches-le i (Reaches-any (append_one st.equals_location error h.0))
            (omega (arith, h.1, ends)),
      )
      | inr e ↦
          let equals = append_one st.equals_location delimiter h.0 in
          let value =
            highlight_value-Reaches m 0 (append st.ret (span st.equals_location 1) delimiter)
              (span st.current_span.s st.len_at_last_space)
              (Reaches-le st.current_span.s equals h.1) st.current_field in
          (
            value.0,
            rw e (value.1),
            Reaches-le i (Reaches-any (value.2)) (ground (arith, ends, trimmed)),
          )
    ]

    end_item-Ended :
        (state : State) → Starts state st → Trimmed state st → Ended i (end_item m state st)
    unfolding end_item Starts Trimmed
    end_item-Ended on_none h trimmed =
        ((st.ret, st.current_section), refl, Reaches-le i h (omega (arith, ends)))
    end_item-Ended on_key h trimmed = (
      _,
      refl,
      Reaches-le i (append-Reaches (span st.current_span.s st.len_at_last_space) error h)
          (omega (arith, ends, trimmed)),
    )
    end_item-Ended on_section h trimmed = (
      _,
      refl,
      Reaches-le i (append-Reaches (span st.current_span.s st.len_at_last_space) _ h)
          (omega (arith, ends, trimmed)),
    )
    end_item-Ended on_comment h trimmed =
        (_, refl, Reaches-le i (append-Reaches st.current_span comment h) (omega (arith, ends)))
    end_item-Ended on_value h trimmed =
        let value = end_value-Reaches h trimmed in
        ((value.0, st.current_section), rw (value.1) refl, value.2)

  end_key-IsBefore :
      (i : ℕ) (st : Scanning)
      → IsBefore i st
      → is_on_key st.state ≡ true
      → IsBefore (suc i) (end_key m i st)
  unfolding end_key Starts Trimmed
  end_key-IsBefore i st h e =
      let trimmed = Trimmed-is_on_key st.state st e h.trimmed in
      record {
        starts = (
          Reaches-le i
              (append-Reaches (span st.current_span.s st.len_at_last_space) _
                (Starts-Reaches st.state st h.starts))
              (omega (arith, trimmed, h.ends)),
          omega arith,
        );
        ends = omega arith;
        trimmed = refl;
      }

  longer-IsBefore :
      (i : ℕ) (st : Scanning)
      → IsBefore i st
      → (is_on_comment st.state || not (st.current_span.len == 0)) ≡ true
      → IsBefore
          (suc i)
          (record st { current_span = span st.current_span.s (suc st.current_span.len) })
  longer-IsBefore i st h e = record {
    starts = Starts-later st.state st _ st.len_at_last_space (omega arith) h.starts;
    ends = omega (arith, h.ends);
    trimmed = Trimmed-longer st.state st e h.trimmed;
  }

  within_item-IsBefore :
      (i : ℕ) (st : Scanning) → IsBefore i st → IsBefore (suc i) (within_item m i st)
  unfolding within_item
  within_item-IsBefore i st h =
      let P = IsBefore (suc i) in
      if_intro P (is_on_comment st.state) _ _ (λ e. longer-IsBefore i st h (ground (arith, e)))
        (λ _.
          if_intro P (m i == b' ' || m i == b'\t') _ _
            (λ _.
              if_intro P (i == st.current_span.s && st.current_span.len == 0) _ _
                (λ e. record {
                  starts =
                      Starts-later st.state st (span (suc st.current_span.s) 0) st.len_at_last_space
                        (omega arith) h.starts;
                  ends = ground (arith, e);
                  trimmed = Trimmed-empty st.state st (ground (arith, e)) h.trimmed;
                })
                (λ e. longer-IsBefore i st h (ground (arith, e, h.ends))))
            (λ _.
              if_intro P (m i == b'=' && is_on_key st.state) _ _
                (λ e. end_key-IsBefore i st h (ground (arith, e)))
                (λ _. record {
                  starts =
                      Starts-state (begun m st.state (m i == b'[')) (begun m st.state (m i == b'['))
                        _
                        (Starts-begun m st.state (m i == b'[') _ (
                          Starts-later st.state st
                            (span st.current_span.s (suc st.current_span.len))
                            (suc st.current_span.len) (omega arith) h.starts));
                  ends = omega (arith, h.ends);
                  trimmed = Trimmed-full _ _ refl;
                })))

  next_item-IsBefore :
      (i : ℕ) (ret : List HighlightSpan) (found : Field) (st : Scanning)
      → Reaches 0 ret i
      → (next : Scanning) × (next_item m i (some (ret, found)) st ≡ some next)
        × IsBefore (suc i) next
  unfolding next_item Starts Trimmed
  next_item-IsBefore i ret found st h = elim (Bool-cases (m i == b'#')) [
    | inl e ↦ (_, refl, rw e (record { starts = h; ends = omega arith; trimmed = omega arith }))
    | inr e ↦ (
      _,
      refl,
      rw e (record {
        starts = Reaches-le (suc i) h (omega arith);
        ends = omega arith;
        trimmed = omega arith;
      }),
    )
  ]

  scan_byte-IsBefore :
      (i : ℕ) (st : Scanning)
      → IsBefore i st
      → (next : Scanning) × (scan_byte m i st ≡ some next) × IsBefore (suc i) next
  unfolding scan_byte
  scan_byte-IsBefore i st h =
      elim (Bool-cases (m i == b'\n' || not (is_on_comment st.state) && m i == b'#')) [
        | inl e ↦
            let ended = end_item-Ended i st h.ends st.state h.starts h.trimmed in
            let next = next_item-IsBefore i (ended.0.0) (ended.0.1) st (ended.2) in
            (next.0, rw (e, ended.1) (next.1), next.2)
        | inr e ↦ (within_item m i st, rw e refl, within_item-IsBefore i st h)
      ]

  scan_from-Reaches :
      (rounds i : ℕ) (st : Scanning)
      → IsBefore i st
      → (r : List HighlightSpan) × (scan_from m rounds i (some st) ≡ some r)
        × Reaches 0 r (i + rounds)
  unfolding scan_from scanned
  scan_from-Reaches zero i st h =
      let ended = end_item-Ended i st h.ends st.state h.starts h.trimmed in
      (ended.0.0, rw (ended.1) refl, Reaches-le (i + zero) (ended.2) (omega arith))
  scan_from-Reaches (suc rounds) i st h =
      let next = scan_byte-IsBefore i st h in
      let rest = scan_from-Reaches rounds (suc i) (next.0) (next.2) in
      (
        rest.0,
        ap (scan_from m rounds (suc i)) (next.1) ∙ rest.1,
        Reaches-le (i + suc rounds) (rest.2) (omega arith),
      )

  -- Whatever memory the configuration begins, no index is out of range, and the spans stand within the
  -- configuration, in order, without overlap, and none of them empty.
  pub highlight_memory-InOrder :
      (len : ℕ) → (r : List HighlightSpan) × (highlight_memory m len ≡ some r) × InOrder 0 r len
  unfolding highlight_memory Starts Trimmed InOrder
  highlight_memory-InOrder len =
      let first : IsBefore 0 at_first = record {
        starts = record { in_order = omega arith; enough = omega arith };
        ends = omega arith;
        trimmed = omega arith;
      } in
      let all = scan_from-Reaches len 0 at_first first in
      (all.0, all.1, (Reaches-le len (all.2) (omega arith)).in_order)
