-- ===== src/Highlighter/Laws/Value.antt =====
-- The spans of a value.
use wireroute_windows.Base.{
  ℕ, zero, suc, ◌+◌, ◌-◌, ◌<◌, ◌≡◌, refl, List, true, not, if_intro, arith, Option, some,
}
use wireroute_windows.Highlighter.{
  Highlight, host, port, delimiter, error, HighlightSpan, Memory, StringSpan, span,
}
use wireroute_windows.Highlighter.Fields.{Field}
use wireroute_windows.Highlighter.Laws.{Reaches, Reaches-le, append-Reaches}
use wireroute_windows.Highlighter.Laws.Multivalue.{highlight_multivalue-Reaches}
use wireroute_windows.Highlighter.Validators.{is_valid_endpoint}
use wireroute_windows.Highlighter.Values.{
  append, colon_before, highlight_endpoint, highlight_command, highlight_value,
}

module _ (m : Memory) where
  colon_before_lt : (s : StringSpan) (n : ℕ) → colon_before m s (suc n) < suc n
  unfolding colon_before
  colon_before_lt s zero = ground arith
  colon_before_lt s (suc n) = ground (arith, colon_before_lt s n)

  is_valid_endpoint_nonempty : (s : StringSpan) → is_valid_endpoint m s ≡ true → s.len ≡ 0 → ⊥
  unfolding is_valid_endpoint
  is_valid_endpoint_nonempty s h e = ground arith

  colon_before-is_valid_endpoint :
      (s : StringSpan) → is_valid_endpoint m s ≡ true → colon_before m s s.len < s.len
  colon_before-is_valid_endpoint s h = inside s.len refl
    where
      inside : (n : ℕ) → s.len ≡ n → colon_before m s n < n
      inside zero e = absurd (is_valid_endpoint_nonempty s h e)
      inside (suc n) e = colon_before_lt s n

  module _ (n : ℕ) (hsa : List HighlightSpan) (s : StringSpan) (h : Reaches (suc n) hsa s.s) where
    highlight_endpoint-Reaches : Reaches (suc n) (highlight_endpoint m hsa s) (s.s + s.len)
    unfolding highlight_endpoint
    highlight_endpoint-Reaches =
        let colon = colon_before m s s.len in
        if_intro (λ r. Reaches (suc n) r (s.s + s.len)) (not (is_valid_endpoint m s))
          (append hsa s error) _ (λ _. append-Reaches s error h)
          (λ e.
            let before = colon_before-is_valid_endpoint s (ground arith) in
            let first = append-Reaches (span s.s colon) host h in
            let second = append-Reaches (span (s.s + colon) 1) delimiter first in
            Reaches-le (s.s + s.len)
              (append-Reaches (span (s.s + (colon + 1)) (s.len - colon - 1)) port
                (Reaches-le (s.s + (colon + 1)) second (omega arith)))
              (omega (arith, before)))

    abbrev Fits : Option (List HighlightSpan) → Type 0
    Fits o = (r : List HighlightSpan) × (o ≡ some r) × Reaches (suc n) r (s.s + s.len)

    one : (t : Highlight) → Fits (some (append hsa s t))
    one t = (append hsa s t, refl, append-Reaches s t h)

    -- Where there is a span before a value, the value has its spans, and they are within it.
    pub highlight_value-Reaches : (field : Field) → Fits (highlight_value m hsa s field)
    unfolding highlight_value highlight_command
    highlight_value-Reaches Field.endpoint =
        (highlight_endpoint m hsa s, refl, highlight_endpoint-Reaches)
    highlight_value-Reaches Field.address = highlight_multivalue-Reaches m n hsa s Field.address h
    highlight_value-Reaches Field.dns = highlight_multivalue-Reaches m n hsa s Field.dns h
    highlight_value-Reaches Field.allowed_ips =
        highlight_multivalue-Reaches m n hsa s Field.allowed_ips h
    highlight_value-Reaches Field.private_key = one _
    highlight_value-Reaches Field.public_key = one _
    highlight_value-Reaches Field.preshared_key = one _
    highlight_value-Reaches Field.mtu = one _
    highlight_value-Reaches Field.table = one _
    highlight_value-Reaches Field.pre_up = one _
    highlight_value-Reaches Field.post_up = one _
    highlight_value-Reaches Field.pre_down = one _
    highlight_value-Reaches Field.post_down = one _
    highlight_value-Reaches Field.listen_port = one _
    highlight_value-Reaches Field.persistent_keepalive = one _
    highlight_value-Reaches _ = one error
