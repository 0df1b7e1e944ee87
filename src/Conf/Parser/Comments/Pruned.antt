-- ===== src/Conf/Parser/Comments/Pruned.antt =====
-- What `pruneComments` keeps.
use wireroute_windows.Base.{
  ℕ, zero, suc, ◌-◌, ◌≡◌, refl, sym, ap, ◌∙◌, List, [], ◌∷◌, ◌++◌, append_assoc, append-nil, Bool,
  true, false, not, ◌&&◌, if◌then◌else◌, take, length, arith, Bool-cases, inl, inr,
}
use wireroute_windows.Base.Text.{Text, is_empty}
use wireroute_windows.Conf.Parser.Comments.{
  ends_blank, starts_blank, squeeze, trim_leading, trim_trailing, unless_blank, prune_comments,
}

-- The lines that are not blank.
unfoldable pub comments : List Text → List Text
comments [] = []
comments (line ∷ run) = let rest = comments run in if is_empty line then rest else line ∷ rest

-- No two blank lines stand in a row.
unfoldable pub spaced : List Text → Bool
unfolding starts_blank
spaced [] = true
spaced (line ∷ run) = not (is_empty line && starts_blank run) && spaced run

comments-append : (xs ys : List Text) → comments (xs ++ ys) ≡ comments xs ++ comments ys
unfolding comments
comments-append [] ys = refl
comments-append ([] ∷ xs) ys = comments-append xs ys
comments-append ((c ∷ s) ∷ xs) ys = ap (λ r. (c ∷ s) ∷ r) (comments-append xs ys)

spaced-append :
    (out : List Text) (line : Text)
    → spaced out ≡ true
    → (is_empty line && ends_blank out) ≡ false
    → spaced (out ++ (line ∷ [])) ≡ true
unfolding spaced ends_blank starts_blank
spaced-append [] line h e = ground arith
spaced-append (x ∷ []) line h e = ground arith
spaced-append (x ∷ (y ∷ out)) line h e = ground (arith, spaced-append (y ∷ out) line)

squeeze-spaced : (out run : List Text) → spaced out ≡ true → spaced (squeeze out run) ≡ true
unfolding squeeze
squeeze-spaced out [] h = h
squeeze-spaced out (line ∷ run) h = elim (Bool-cases (is_empty line && ends_blank out)) [
  | inl e ↦ rw e (squeeze-spaced out run h)
  | inr e ↦ rw e (squeeze-spaced (out ++ (line ∷ [])) run (spaced-append out line h e))
]

comments_nil : comments [] ≡ []
unfolding comments
comments_nil = refl

comments_blank :
    (line : Text) (run : List Text) → is_empty line ≡ true → comments (line ∷ run) ≡ comments run
unfolding comments
comments_blank line run h = rw h refl

comments-squeeze : (out run : List Text) → comments (squeeze out run) ≡ comments out ++ comments run
unfolding squeeze
comments-squeeze out [] = sym (ap (λ r. comments out ++ r) comments_nil ∙ append-nil (comments out))
comments-squeeze out (line ∷ run) = elim (Bool-cases (is_empty line && ends_blank out)) [
  | inl e ↦ rw e (
      comments-squeeze out run
      ∙ ap (λ r. comments out ++ r) (sym (comments_blank line run (ground arith))))
  | inr e ↦ rw e (
      comments-squeeze (out ++ (line ∷ [])) run
      ∙ ap (λ r. r ++ comments run) (comments-append out (line ∷ []))
      ∙ append_assoc (comments out) (comments (line ∷ [])) (comments run)
      ∙ ap (λ r. comments out ++ r) (sym (comments-append (line ∷ []) run)))
]

trim_leading-spaced :
    (b : Bool) (out : List Text) → spaced out ≡ true → spaced (trim_leading b out) ≡ true
unfolding trim_leading spaced starts_blank
trim_leading-spaced b [] h = ground arith
trim_leading-spaced b (line ∷ out) h = ground arith

comments-trim_leading : (b : Bool) (out : List Text) → comments (trim_leading b out) ≡ comments out
unfolding trim_leading comments starts_blank
comments-trim_leading b [] = ground arith
comments-trim_leading b (line ∷ out) = ground arith

spaced-take : (n : ℕ) (out : List Text) → spaced out ≡ true → spaced (take n out) ≡ true
unfolding spaced starts_blank
spaced-take zero out h = refl
spaced-take (suc n) [] h = refl
spaced-take (suc zero) (line ∷ out) h = ground arith
spaced-take (suc (suc n)) (line ∷ []) h = h
spaced-take (suc (suc n)) (line ∷ (next ∷ out)) h = ground (arith, spaced-take (suc n) (next ∷ out))

comments-take :
    (out : List Text) → ends_blank out ≡ true → comments (take (length out - 1) out) ≡ comments out
unfolding comments ends_blank
comments-take [] h = refl
comments-take (line ∷ []) h = rw h refl
comments-take (line ∷ (next ∷ out)) h = ground (arith, comments-take (next ∷ out) h)

trim_trailing-spaced :
    (b : Bool) (out : List Text) → spaced out ≡ true → spaced (trim_trailing b out) ≡ true
unfolding trim_trailing
trim_trailing-spaced b out h = ground (arith, spaced-take (length out - 1) out)

comments-trim_trailing :
    (b : Bool) (out : List Text) → comments (trim_trailing b out) ≡ comments out
unfolding trim_trailing
comments-trim_trailing b out = ground (arith, comments-take out)

unless_blank-spaced : (out : List Text) → spaced out ≡ true → spaced (unless_blank out) ≡ true
unfolding unless_blank spaced starts_blank
unless_blank-spaced out h = ground arith

comments-unless_blank : (out : List Text) → comments (unless_blank out) ≡ comments out
unfolding unless_blank comments starts_blank
comments-unless_blank [] = refl
comments-unless_blank (line ∷ []) = ground arith
comments-unless_blank (line ∷ (next ∷ out)) = ground arith

-- A run of comments is pruned to one without two blank lines in a row and with all its comments, in
-- their order.
pub prune_comments-comments :
    (run : List Text) (drop_leading drop_trailing : Bool)
    → (spaced (prune_comments run drop_leading drop_trailing) ≡ true)
      × (comments (prune_comments run drop_leading drop_trailing) ≡ comments run)
unfolding prune_comments spaced comments
prune_comments-comments run drop_leading drop_trailing =
    let out = squeeze [] run in
    let led = trim_leading drop_leading out in
    let both = trim_trailing drop_trailing led in
    (
      unless_blank-spaced both (
          trim_trailing-spaced drop_trailing led
            (trim_leading-spaced drop_leading out (squeeze-spaced [] run refl))),
      comments-unless_blank both
          ∙ comments-trim_trailing drop_trailing led
          ∙ comments-trim_leading drop_leading out
          ∙ comments-squeeze [] run,
    )
