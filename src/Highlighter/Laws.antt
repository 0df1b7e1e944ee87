-- ===== src/Highlighter/Laws.antt =====
-- Spans in order: each begins where the one before it ends, or later, and none is empty.
pub mod Multivalue
pub mod Value
pub mod InRange
pub mod Accepted
use wireroute_windows.Base.{
  ℕ, zero, suc, ◌+◌, ◌-◌, ◌≤◌, ◌≡◌, refl, ap, subst, List, [], ◌∷◌, ◌++◌, Bool, true, false, not,
  ◌&&◌, ◌||◌, ◌==◌, if◌then◌else◌, if_intro, length, length-append, arith, Option, some, Bool-cases,
  inl, inr,
}
use wireroute_windows.Highlighter.{Highlight, error, HighlightSpan, StringSpan, span}
use wireroute_windows.Highlighter.Values.{append, is_delimiter, mark_last}

-- From one address up to another.
unfoldable pub InOrder : ℕ → List HighlightSpan → ℕ → Type 0
InOrder low [] high = low ≤ high
InOrder low (h ∷ hsa) high = (low ≤ h.s) × (1 ≤ h.len) × InOrder (h.s + h.len) hsa high

-- At least n spans, in order up to an address.
pub record Reaches (n : ℕ) (hsa : List HighlightSpan) (high : ℕ) : Type 0 where
  pub in_order : InOrder 0 hsa high
  pub enough : n ≤ length hsa

InOrder-le :
    (low : ℕ) (hsa : List HighlightSpan) (high higher : ℕ)
    → InOrder low hsa high
    → high ≤ higher
    → InOrder low hsa higher
unfolding InOrder
InOrder-le low [] high higher h k = omega arith
InOrder-le low (x ∷ hsa) high higher h k =
    (h.0, h.1, InOrder-le (x.s + x.len) hsa high higher (h.2) k)

pub Reaches-le :
    {n : ℕ} {hsa : List HighlightSpan} {high : ℕ} (higher : ℕ)
    → Reaches n hsa high
    → high ≤ higher
    → Reaches n hsa higher
Reaches-le {hsa = hsa} {high = high} higher h k = record {
  in_order = InOrder-le 0 hsa high higher h.in_order k;
  enough = h.enough;
}

InOrder-snoc :
    (low : ℕ) (hsa : List HighlightSpan) (x : HighlightSpan)
    → InOrder low hsa x.s
    → 1 ≤ x.len
    → InOrder low (hsa ++ (x ∷ [])) (x.s + x.len)
unfolding InOrder
InOrder-snoc low [] x h k = (h, k, omega arith)
InOrder-snoc low (y ∷ hsa) x h k = (h.0, h.1, InOrder-snoc (y.s + y.len) hsa x (h.2) k)

length-snoc :
    (hsa : List HighlightSpan) (x : HighlightSpan) → length (hsa ++ (x ∷ [])) ≡ suc (length hsa)
length-snoc hsa x = omega (arith, length-append hsa (x ∷ []))

-- A span behind those that there are.
pub append-Reaches :
    {n : ℕ} {hsa : List HighlightSpan} (s : StringSpan) (t : Highlight)
    → Reaches n hsa s.s
    → Reaches n (append hsa s t) (s.s + s.len)
unfolding append
append-Reaches {n = n} {hsa = hsa} s t h =
    if_intro (λ r. Reaches n r (s.s + s.len)) (s.len == 0) hsa
      (hsa ++ (record { t = t; s = s.s; len = s.len } ∷ []))
      (λ e. Reaches-le (s.s + s.len) h (omega arith))
      (λ e. record {
        in_order =
            InOrder-snoc 0 hsa (record { t = t; s = s.s; len = s.len }) h.in_order (ground arith);
        enough = omega (arith, h.enough, length-snoc hsa (record { t = t; s = s.s; len = s.len }));
      })

-- A span of one byte is one more.
pub append_one :
    {n : ℕ} {hsa : List HighlightSpan} (a : ℕ) (t : Highlight)
    → Reaches n hsa a
    → Reaches (suc n) (append hsa (span a 1) t) (suc a)
unfolding append
append_one {n = n} {hsa = hsa} a t h = record {
  in_order =
      subst (InOrder 0 (hsa ++ (record { t = t; s = a; len = 1 } ∷ []))) {x = a + 1} {y = suc a}
        (omega arith)
        (InOrder-snoc 0 hsa (record { t = t; s = a; len = 1 }) h.in_order (omega arith));
  enough = omega (arith, h.enough, length-snoc hsa (record { t = t; s = a; len = 1 }));
}

mark_last-InOrder :
    (low : ℕ) (x : HighlightSpan) (hsa : List HighlightSpan) (high : ℕ)
    → InOrder low (x ∷ hsa) high
    → (r : List HighlightSpan) × (mark_last (x ∷ hsa) ≡ some r)
      × InOrder low r high
      × (length r ≡ suc (length hsa))
unfolding mark_last InOrder
mark_last-InOrder low x [] high h = elim (Bool-cases (is_delimiter x.t)) [
  | inl e ↦ (record x { t = error } ∷ [], rw e refl, h, refl)
  | inr e ↦ (x ∷ [], rw e refl, h, refl)
]
mark_last-InOrder low x (y ∷ hsa) high h =
    let rest = mark_last-InOrder (x.s + x.len) y hsa high h.2 in
    (x ∷ rest.0, rw (rest.1) refl, (h.0, h.1, rest.2), ap suc (rest.3))

-- A last delimiter can be marked where there is a span.
pub mark_last-Reaches :
    (n : ℕ) (hsa : List HighlightSpan) (high : ℕ)
    → Reaches (suc n) hsa high
    → (r : List HighlightSpan) × (mark_last hsa ≡ some r) × Reaches (suc n) r high
mark_last-Reaches n [] high h = absurd (omega (arith, h.enough))
mark_last-Reaches n (x ∷ hsa) high h =
    let marked = mark_last-InOrder 0 x hsa high h.in_order in
    (marked.0, marked.1, record { in_order = marked.2; enough = omega (arith, h.enough, marked.3) })
