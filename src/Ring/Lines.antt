-- ===== src/Ring/Lines.antt =====
-- What stands in a line that has been written.
use wireroute_windows.Base.{
  ℕ, zero, suc, ◌+◌, ◌-◌, ◌≤◌, ◌≡◌, ◌≢◌, refl, sym, ap, ◌∙◌, List, [], ◌∷◌, ◌++◌, append_assoc,
  length, set, replicate, take, Bool-cases, inl, inr, All, arith, length-take, length-append,
  length-replicate, some,
}
use wireroute_windows.Ring.{copy_at, is_long, cut_text, text_len, format_line, until_zero}

unfoldable pub zeros : ℕ → List ℕ
zeros n = replicate n 0

zeros_split : (m n : ℕ) → zeros (m + n) ≡ zeros m ++ zeros n
unfolding zeros
zeros_split zero n = ap (λ k. replicate k 0) (omega arith)
zeros_split (suc m) n =
    ap (λ k. replicate {A = ℕ} k 0) {x = suc m + n} {y = suc (m + n)} (omega arith)
    ∙ ap (λ r. 0 ∷ r) (zeros_split m n)

set-zeros : (n i : ℕ) → set (zeros n) i 0 ≡ zeros n
unfolding zeros
set-zeros zero i = refl
set-zeros (suc n) zero = refl
set-zeros (suc n) (suc i) = ap (λ r. 0 ∷ r) (set-zeros n i)

-- A copy over bytes of the same number.
copy_at_front :
    (src old rest : List ℕ) → length old ≡ length src → copy_at 0 src (old ++ rest) ≡ src ++ rest
unfolding copy_at
copy_at_front [] [] rest h = copy_nothing rest
  where
    copy_nothing : (r : List ℕ) → copy_at 0 [] r ≡ r
    copy_nothing [] = refl
    copy_nothing (c ∷ r) = refl
copy_at_front [] (y ∷ old) rest h = ground arith
copy_at_front (x ∷ src) [] rest h = ground arith
copy_at_front (x ∷ src) (y ∷ old) rest h =
    ap (λ r. x ∷ r) (copy_at_front src old rest (omega arith))

copy_at-append :
    (k : ℕ) (front src old rest : List ℕ)
    → k ≡ length front
    → length old ≡ length src
    → copy_at k src (front ++ (old ++ rest)) ≡ front ++ (src ++ rest)
unfolding copy_at
copy_at-append zero [] src old rest e h = copy_at_front src old rest h
copy_at-append zero (c ∷ front) src old rest e h = ground arith
copy_at-append (suc k) [] src old rest e h = ground arith
copy_at-append (suc k) (c ∷ front) src old rest e h =
    ap (λ r. c ∷ r) (copy_at-append k front src old rest (omega arith) h)

set-append :
    (k : ℕ) (front : List ℕ) (v w : ℕ) (rest : List ℕ)
    → k ≡ length front
    → set (front ++ (w ∷ rest)) k v ≡ front ++ (v ∷ rest)
set-append zero [] v w rest e = refl
set-append zero (c ∷ front) v w rest e = ground arith
set-append (suc k) [] v w rest e = ground arith
set-append (suc k) (c ∷ front) v w rest e =
    ap (λ r. c ∷ r) (set-append k front v w rest (omega arith))

pub until_zero-append :
    (s rest : List ℕ) → All (λ c. c ≢ 0) s → until_zero (s ++ (0 ∷ rest)) ≡ some s
unfolding until_zero
until_zero-append [] rest h = refl
until_zero-append (zero ∷ s) rest h = absurd (h.0 refl)
until_zero-append (suc c ∷ s) rest h = rw (until_zero-append s rest h.1) refl

-- The text of a line as it is filled: the tag in brackets, a space, and the message that is cut.
abbrev pub cut_line : (tag p : List ℕ) → List ℕ
cut_line tag p = b'[' ∷ (tag ++ (b']' ∷ b' ' ∷ cut_text tag p))

-- What a line has room for of its text: the tag in brackets, a space, and the message.
abbrev pub line_text : (tag p : List ℕ) → List ℕ
line_text tag p = take 511 (b'[' ∷ (tag ++ (b']' ∷ b' ' ∷ p)))

take-append_more :
    (s t : List ℕ) (n : ℕ) → length s ≤ n → take n (s ++ t) ≡ s ++ take (n - length s) t
take-append_more [] t n h = ap (λ m. take m t) (omega arith)
take-append_more (c ∷ s) t zero h = ground arith
take-append_more (c ∷ s) t (suc n) h =
    ap (λ r. c ∷ r)
      (take-append_more s t n (omega arith)
        ∙ ap (λ m. s ++ take m t) {x = n - length s} {y = suc n - length (c ∷ s)} (omega arith))

take_all : (s : List ℕ) (n : ℕ) → length s ≤ n → take n s ≡ s
take_all [] zero h = refl
take_all [] (suc n) h = refl
take_all (c ∷ s) zero h = ground arith
take_all (c ∷ s) (suc n) h = ap (λ r. c ∷ r) (take_all s n (omega arith))

cut_text_lem : (tag p : List ℕ) → cut_text tag p ≡ take (508 - length tag) p
unfolding cut_text
cut_text_lem tag p = elim (Bool-cases (is_long tag p)) [
  | inl long ↦ rw long refl
  | inr short ↦ rw short (sym (take_all p (508 - length tag) (ground arith)))
]

pub cut_line-line_text : (tag p : List ℕ) → length tag ≤ 5 → cut_line tag p ≡ line_text tag p
cut_line-line_text tag p h =
    ap (λ r. b'[' ∷ r)
      (ap (λ r. tag ++ (b']' ∷ b' ' ∷ r)) (cut_text_lem tag p)
        ∙ ap (λ n. tag ++ take n (b']' ∷ b' ' ∷ p)) {x = suc (suc (508 - length tag))}
            {y = 510 - length tag} (omega arith)
        ∙ sym (take-append_more tag (b']' ∷ b' ' ∷ p) 510 (omega arith)))

pub length-cut_text :
    (tag p : List ℕ) → length tag ≤ 5 → 3 + length tag + length (cut_text tag p) ≤ 511
unfolding cut_text
length-cut_text tag p h = ground (arith, length-take (508 - length tag) p)

zeros_front : (xs ys : List ℕ) → zeros 1 ++ (xs ++ (zeros 2 ++ ys)) ≡ 0 ∷ (xs ++ (0 ∷ 0 ∷ ys))
unfolding zeros
zeros_front xs ys = refl

length-zeros : (n : ℕ) → length (zeros n) ≡ n
unfolding zeros
length-zeros n = length-replicate n 0

-- How many bytes are left behind the text.
abbrev pub spare : (tag p : List ℕ) → ℕ
spare tag p = 509 - length tag - length (cut_text tag p)

module _ (tag p : List ℕ) where
  -- The tag with the byte in front of it, and the two bytes behind it.
  abbrev opened : List ℕ
  opened = 0 ∷ tag

  abbrev closed : List ℕ
  closed = opened ++ (b']' ∷ [])

  abbrev spaced : List ℕ
  spaced = closed ++ (b' ' ∷ [])

  abbrev behind : List ℕ
  behind = zeros (length (cut_text tag p)) ++ zeros (spare tag p)

  cleared_split : length tag ≤ 5 → zeros 512 ≡ 0 ∷ (zeros (length tag) ++ (0 ∷ 0 ∷ behind))
  cleared_split h =
      ap zeros {x = 512} {y = 1 + (length tag + (2 + (length (cut_text tag p) + spare tag p)))}
        (omega (arith, length-cut_text tag p h))
      ∙ zeros_split 1 (length tag + (2 + (length (cut_text tag p) + spare tag p)))
      ∙ ap (λ r. zeros 1 ++ r)
          (zeros_split (length tag) (2 + (length (cut_text tag p) + spare tag p))
            ∙ ap (λ r. zeros (length tag) ++ r)
                (zeros_split 2 (length (cut_text tag p) + spare tag p)
                  ∙ ap (λ r. zeros 2 ++ r) (zeros_split (length (cut_text tag p)) (spare tag p))))
      ∙ zeros_front (zeros (length tag)) behind

  -- The line as it is filled, step by step.
  tagged : copy_at 1 tag (0 ∷ (zeros (length tag) ++ (0 ∷ 0 ∷ behind))) ≡ opened ++ (0 ∷ 0 ∷ behind)
  tagged =
      copy_at-append 1 (0 ∷ []) tag (zeros (length tag)) (0 ∷ 0 ∷ behind) refl
        (length-zeros (length tag))

  bracketed : set (opened ++ (0 ∷ 0 ∷ behind)) (1 + length tag) b']' ≡ closed ++ (0 ∷ behind)
  bracketed =
      set-append (1 + length tag) opened b']' 0 (0 ∷ behind) (omega arith)
      ∙ sym (append_assoc opened (b']' ∷ []) (0 ∷ behind))

  length-closed : 2 + length tag ≡ length closed
  length-closed = omega (arith, length-append opened (b']' ∷ []))

  spaced_out : set (closed ++ (0 ∷ behind)) (2 + length tag) b' ' ≡ spaced ++ behind
  spaced_out =
      set-append (2 + length tag) closed b' ' 0 behind length-closed
      ∙ sym (append_assoc closed (b' ' ∷ []) behind)

  filled :
      copy_at (3 + length tag) (cut_text tag p) (spaced ++ behind)
      ≡ spaced ++ (cut_text tag p ++ zeros (spare tag p))
  filled =
      copy_at-append (3 + length tag) spaced (cut_text tag p) (zeros (length (cut_text tag p)))
        (zeros (spare tag p)) (omega (arith, length-closed, length-append closed (b' ' ∷ [])))
        (length-zeros (length (cut_text tag p)))

  regrouped :
      set (spaced ++ (cut_text tag p ++ zeros (spare tag p))) 0 b'['
      ≡ cut_line tag p ++ zeros (spare tag p)
  regrouped =
      ap (λ r. b'[' ∷ r)
        (append_assoc (tag ++ (b']' ∷ [])) (b' ' ∷ []) (cut_text tag p ++ zeros (spare tag p))
          ∙ append_assoc tag (b']' ∷ []) (b' ' ∷ (cut_text tag p ++ zeros (spare tag p)))
          ∙ sym (append_assoc tag (b']' ∷ b' ' ∷ cut_text tag p) (zeros (spare tag p))))

  -- The steps of a write behind the clearing.
  abbrev fill : List ℕ → List ℕ
  fill z =
      set
        (copy_at (3 + length tag) (cut_text tag p)
          (set (set (copy_at 1 tag z) (1 + length tag) b']') (2 + length tag) b' '))
        0 b'['

  fill_cleared :
      fill (0 ∷ (zeros (length tag) ++ (0 ∷ 0 ∷ behind))) ≡ cut_line tag p ++ zeros (spare tag p)
  fill_cleared = rw (tagged, bracketed, spaced_out, filled) regrouped

  pub format_line-cut_line :
      length tag ≤ 5 → format_line tag p ≡ cut_line tag p ++ zeros (spare tag p)
  unfolding format_line zeros
  format_line-cut_line h = ap fill (cleared_set ∙ cleared_split h) ∙ fill_cleared
    where
      cleared_set : set (set (replicate 512 0) (text_len tag p) 0) 0 0 ≡ zeros 512
      cleared_set = ap (λ z. set z 0 0) (set-zeros 512 (text_len tag p)) ∙ set-zeros 512 0
