-- ===== src/Highlighter/Laws/Multivalue.antt =====
-- The spans of a value that is a list.
use wireroute_windows.Base.{
  ℕ, zero, suc, ◌+◌, ◌-◌, ◌≤◌, ◌≡◌, refl, List, not, ◌&&◌, ◌||◌, ◌==◌, if_intro, arith, some,
  Bool-cases, inl, inr,
}
use wireroute_windows.Highlighter.{
  ip, cidr, delimiter, error, HighlightSpan, Memory, StringSpan, span,
}
use wireroute_windows.Highlighter.Fields.{Field}
use wireroute_windows.Highlighter.Laws.{Reaches, Reaches-le, append-Reaches, mark_last-Reaches}
use wireroute_windows.Highlighter.Validators.{is_valid_network, slash_from}
use wireroute_windows.Highlighter.Values.{
  append, highlight_network, highlight_multivalue_value, Multivalue, multivalue_step,
  multivalue_loop, last_value, highlight_multivalue,
}

module _ (m : Memory) where
  slash_from_le : (rounds : ℕ) (sp : StringSpan) (i : ℕ) → slash_from m rounds sp i ≤ i + rounds
  unfolding slash_from
  slash_from_le zero sp i = omega arith
  slash_from_le (suc rounds) sp i = ground (arith, slash_from_le rounds sp (suc i))

  module _ {n : ℕ} {hsa : List HighlightSpan} (s : StringSpan) (h : Reaches n hsa s.s) where
    highlight_network-Reaches : Reaches n (highlight_network m hsa s) (s.s + s.len)
    unfolding highlight_network
    highlight_network-Reaches =
        let slash = slash_from m s.len s 0 in
        if_intro (λ r. Reaches n r (s.s + s.len)) (slash == s.len) (append hsa s ip) _
          (λ _. append-Reaches s ip h)
          (λ e.
            let before = slash_from_le s.len s 0 in
            let first = append-Reaches (span s.s slash) ip h in
            let second = append-Reaches (span (s.s + slash) 1) delimiter first in
            Reaches-le (s.s + s.len)
              (append-Reaches (span (s.s + (slash + 1)) (s.len - slash - 1)) cidr
                (Reaches-le (s.s + (slash + 1)) second (omega arith)))
              (ground arith))

    pub highlight_multivalue_value-Reaches :
        (section : Field) → Reaches n (highlight_multivalue_value m hsa s section) (s.s + s.len)
    unfolding highlight_multivalue_value
    highlight_multivalue_value-Reaches Field.dns = append-Reaches s _ h
    highlight_multivalue_value-Reaches Field.address =
        if_intro (λ r. Reaches n r (s.s + s.len)) (not (is_valid_network m s)) _ _
          (λ _. append-Reaches s error h) (λ _. highlight_network-Reaches)
    highlight_multivalue_value-Reaches Field.allowed_ips =
        if_intro (λ r. Reaches n r (s.s + s.len)) (not (is_valid_network m s)) _ _
          (λ _. append-Reaches s error h) (λ _. highlight_network-Reaches)
    highlight_multivalue_value-Reaches _ = append-Reaches s error h

  -- The loop's variables before an address.
  record IsBefore (n address : ℕ) (v : Multivalue) : Type 0 where
    reaches : Reaches n v.spans v.current_span.s
    ends : v.current_span.s + v.current_span.len ≤ address
    trimmed : v.len_at_last_space ≤ v.current_span.len

  multivalue_step-IsBefore :
      (n : ℕ) (section : Field) (address : ℕ) (v : Multivalue)
      → IsBefore n address v
      → IsBefore n (suc address) (multivalue_step m section address v)
  unfolding multivalue_step
  multivalue_step-IsBefore n section address v h =
      if_intro (IsBefore n (suc address)) (m address == b',') _ _
        (λ _. record {
          reaches =
              Reaches-le (suc address)
                (append-Reaches (span address 1) delimiter (
                  Reaches-le address
                    (highlight_multivalue_value-Reaches (span v.current_span.s v.len_at_last_space)
                      h.reaches section)
                    (omega (arith, h.ends, h.trimmed))))
                (omega arith);
          ends = omega arith;
          trimmed = omega arith;
        })
        (λ _.
          if_intro (IsBefore n (suc address)) (m address == b' ' || m address == b'\t') _ _
            (λ _.
              if_intro (IsBefore n (suc address))
                (address == v.current_span.s && v.current_span.len == 0) _ _
                (λ e. record {
                  reaches = Reaches-le (suc v.current_span.s) h.reaches (omega arith);
                  ends = ground (arith, e);
                  trimmed = ground (arith, e, h.trimmed);
                })
                (λ _. record {
                  reaches = h.reaches;
                  ends = omega (arith, h.ends);
                  trimmed = omega (arith, h.trimmed);
                }))
            (λ _. record {
              reaches = h.reaches;
              ends = omega (arith, h.ends);
              trimmed = omega arith;
            }))

  multivalue_loop-IsBefore :
      (n : ℕ) (section : Field) (rounds address : ℕ) (v : Multivalue)
      → IsBefore n address v
      → IsBefore n (address + rounds) (multivalue_loop m section rounds address v)
  unfolding multivalue_loop
  multivalue_loop-IsBefore n section zero address v h = record {
    reaches = h.reaches;
    ends = omega (arith, h.ends);
    trimmed = h.trimmed;
  }
  multivalue_loop-IsBefore n section (suc rounds) address v h =
      let behind =
        multivalue_loop-IsBefore n section rounds (suc address)
          (multivalue_step m section address v) (multivalue_step-IsBefore n section address v h) in
      record {
        reaches = behind.reaches;
        ends = omega (arith, behind.ends);
        trimmed = behind.trimmed;
      }

  last_value-Reaches :
      (n : ℕ) (section : Field) (address : ℕ) (v : Multivalue)
      → IsBefore (suc n) address v
      → (r : List HighlightSpan) × (last_value m section v ≡ some r) × Reaches (suc n) r address
  unfolding last_value
  last_value-Reaches n section address v h = elim (Bool-cases (v.len_at_last_space == 0)) [
    | inl e ↦
        let marked = mark_last-Reaches n v.spans v.current_span.s h.reaches in
        (marked.0, rw e (marked.1), Reaches-le address (marked.2) (omega (arith, h.ends)))
    | inr e ↦
        let s = span v.current_span.s v.len_at_last_space in
        (
          highlight_multivalue_value m v.spans s section,
          rw e refl,
          Reaches-le address (highlight_multivalue_value-Reaches s h.reaches section)
              (omega (arith, h.ends, h.trimmed)),
        )
  ]

  -- Behind a span there is always one to mark, and the spans of a list are within it.
  pub highlight_multivalue-Reaches :
      (n : ℕ) (hsa : List HighlightSpan) (s : StringSpan) (section : Field)
      → Reaches (suc n) hsa s.s
      → (r : List HighlightSpan) × (highlight_multivalue m hsa s section ≡ some r)
        × Reaches (suc n) r (s.s + s.len)
  unfolding highlight_multivalue
  highlight_multivalue-Reaches n hsa s section h =
      let v : Multivalue = record {
        spans = hsa;
        current_span = span s.s 0;
        len_at_last_space = 0;
      } in
      last_value-Reaches n section (s.s + s.len) (multivalue_loop m section s.len s.s v) (
        multivalue_loop-IsBefore (suc n) section s.len s.s v
          (record { reaches = h; ends = omega arith; trimmed = omega arith }))
