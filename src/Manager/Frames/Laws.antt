-- ===== src/Manager/Frames/Laws.antt =====
-- Frames that are written, and frames that are read.
use wireroute_windows.Base.{
  take-append, drop-append, length-drop, ℕ, zero, suc, ◌+◌, ◌≤◌, ◌<◌, ◌≡◌, refl, sym, ap, ◌∙◌, ◌⊎◌,
  inl, inr, [], ◌∷◌, ◌++◌, append_assoc, append-nil, Bool, ◌==◌, length, length-append, take, drop,
  some, arith, Bool-cases,
}
use wireroute_windows.Base.Bytes.{
  little_endian, length-little_endian, from_little_endian-little_endian,
}
use wireroute_windows.Base.Result.{Result, ok, err}
use wireroute_windows.Base.Text.{Text}
use wireroute_windows.Manager.Frames.{
  maximum_frame_length, FrameError, write_failed, short_write, read_full, read_payload, write_bytes,
  write_all, write_frame,
}

read_full-append : (n : ℕ) (xs ys : Text) → n ≡ length xs → read_full n (xs ++ ys) ≡ ok (xs, ys)
unfolding read_full
read_full-append n xs ys e =
    rw e (ground (arith, take-append xs ys, drop-append xs ys, length-append xs ys))

-- The bytes of a frame with this payload.
abbrev pub frame : Text → Text
frame payload = little_endian 4 (length payload) ++ payload

read_payload-frame :
    (payload rest : Text)
    → 0 < length payload
    → length payload ≤ maximum_frame_length
    → read_payload (frame payload ++ rest) ≡ ok (payload, rest)
unfolding read_payload
read_payload-frame payload rest h k =
    let header = little_endian 4 (length payload) in
    let head : read_full 4 (frame payload ++ rest) ≡ ok (header, payload ++ rest) =
      rw (append_assoc header payload rest) (
        read_full-append 4 header (payload ++ rest)
          (sym (length-little_endian 4 (length payload)))) in
    rw head (
      ground (
        arith,
        from_little_endian-little_endian (length payload),
        read_full-append (length payload) payload rest,
      ))

take-split : (n : ℕ) (xs : Text) → take n xs ++ drop n xs ≡ xs
take-split zero xs = refl
take-split (suc n) [] = refl
take-split (suc n) (x ∷ xs) = ap (λ r. x ∷ r) (take-split n xs)

take-nil : (n : ℕ) → take {A = ℕ} n [] ≡ []
take-nil zero = refl
take-nil (suc n) = refl

take-add : (n m : ℕ) (xs : Text) → take n xs ++ take m (drop n xs) ≡ take (n + m) xs
take-add zero m xs = ap (λ k. take k xs) (omega arith)
take-add (suc n) m [] = take-nil m ∙ sym (take-nil (suc n + m))
take-add (suc n) m (x ∷ xs) =
    ap (λ r. x ∷ r) (take-add n m xs)
    ∙ ap (λ k. take k (x ∷ xs)) {x = suc (n + m)} {y = suc n + m} (omega arith)

-- The contract of `io.Writer`: of what it is given it takes bytes from the front, as many as it says.
-- `sent` is what has gone through it.
abbrev pub IsWriter : {W : Type 0} → (W → Text → (ℕ × Bool) × W) → (W → Text) → Type 0
IsWriter {W} write sent =
    (w : W) (bytes : Text)
    → ((write w bytes).0.0 ≤ length bytes)
      × (sent (write w bytes).1 ≡ sent w ++ take (write w bytes).0.0 bytes)

module _ {W : Type 0} (write : W → Text → (ℕ × Bool) × W) (sent : W → Text) where
  -- All of the bytes were sent, or the writer failed when the first n were.
  unfoldable pub Sends : Text → W → Result FrameError (Unit {0}) × W → Type 0
  Sends bytes w s =
      ((s.0 ≡ ok tt) × (sent s.1 ≡ sent w ++ bytes))
      ⊎ (((s.0 ≡ err write_failed) ⊎ (s.0 ≡ err short_write))
          × ((n : ℕ) × (sent s.1 ≡ sent w ++ take n bytes)))

  -- A write of the first n bytes, and what sends the others.
  Sends-drop :
      (n : ℕ) (bytes : Text) (w v : W) (s : Result FrameError (Unit {0}) × W)
      → sent v ≡ sent w ++ take n bytes
      → Sends (drop n bytes) v s
      → Sends bytes w s
  unfolding Sends
  Sends-drop n bytes w v s h (inl (r, e)) = inl (
    r,
    e
        ∙ ap (λ t. t ++ drop n bytes) h
        ∙ append_assoc (sent w) (take n bytes) (drop n bytes)
        ∙ ap (λ t. sent w ++ t) (take-split n bytes),
  )
  Sends-drop n bytes w v s h (inr (r, (m, e))) = inr (
    r,
    (
      n + m,
      e
          ∙ ap (λ t. t ++ take m (drop n bytes)) h
          ∙ append_assoc (sent w) (take n bytes) (take m (drop n bytes))
          ∙ ap (λ t. sent w ++ t) (take-add n m bytes),
    ),
  )

  write_bytes-Sends :
      IsWriter write sent
      → (rounds : ℕ) (bytes : Text) (w : W) → length bytes ≤ rounds
      → Sends bytes w (write_bytes write rounds bytes w)
  unfolding write_bytes Sends
  write_bytes-Sends c zero [] w h = inl (refl, sym (append-nil (sent w)))
  write_bytes-Sends c (suc rounds) [] w h = inl (refl, sym (append-nil (sent w)))
  write_bytes-Sends c zero (b ∷ bytes) w h = absurd (omega arith)
  write_bytes-Sends c (suc rounds) (b ∷ bytes) w h =
      let r = write w (b ∷ bytes) in
      elim (Bool-cases r.0.1) [
        | inl failed ↦ rw failed (inr (inl refl, (r.0.0, (c w (b ∷ bytes)).1)))
        | inr fine ↦ rw fine (elim (Bool-cases (r.0.0 == 0)) [
          | inl none_taken ↦ rw none_taken (inr (inr refl, (r.0.0, (c w (b ∷ bytes)).1)))
          | inr some_taken ↦ rw some_taken (
              Sends-drop r.0.0 (b ∷ bytes) w r.1 _ (c w (b ∷ bytes)).1 (
                write_bytes-Sends c rounds (drop r.0.0 (b ∷ bytes)) r.1
                  (ground (arith, length-drop r.0.0 (b ∷ bytes)))))
        ])
      ]

  -- The loop of `writeManagerV1Bytes` ends, whatever pieces the writer takes: all of the bytes are
  -- sent, or the error is the writer's and what is sent are the first of them.
  pub write_all-Sends :
      IsWriter write sent → (bytes : Text) (w : W) → Sends bytes w (write_all write bytes w)
  unfolding write_all
  write_all-Sends c bytes w = write_bytes-Sends c (length bytes) bytes w (omega arith)

  written :
      IsWriter write sent
      → (bytes : Text) (w : W) → (write_all write bytes w).0 ≡ ok tt
      → sent (write_all write bytes w).1 ≡ sent w ++ bytes
  unfolding Sends
  written c bytes w h = elim (write_all-Sends c bytes w) [
    | inl (r, e) ↦ e
    | inr (inl r, e) ↦ absurd (ground arith)
    | inr (inr r, e) ↦ absurd (ground arith)
  ]

  -- What a writeManagerV1Frame that succeeds has gone through.
  write_frame_stages :
      (payload : Text) (w : W)
      → (write_frame write (some payload) w).0 ≡ ok tt
      → let header = write_all write (little_endian 4 (length payload)) w in
        (0 < length payload)
        × (length payload ≤ maximum_frame_length)
        × (header.0 ≡ ok tt)
        × ((write_all write payload header.1).0 ≡ ok tt)
        × ((write_frame write (some payload) w).1 ≡ (write_all write payload header.1).1)
  unfolding write_frame
  write_frame_stages payload w h =
      (ground arith, ground arith, ground arith, ground arith, ground arith)

  -- Behind a writeManagerV1Frame that succeeds the frame has been sent, and readManagerV1Frame reads
  -- the payload back and leaves what follows the frame.
  pub write_frame-read_payload :
      IsWriter write sent
      → (payload : Text) (w : W) → (write_frame write (some payload) w).0 ≡ ok tt
      → (bytes : Text) × (sent (write_frame write (some payload) w).1 ≡ sent w ++ bytes)
        × ((rest : Text) → read_payload (bytes ++ rest) ≡ ok (payload, rest))
  write_frame-read_payload c payload w h =
      let header = little_endian 4 (length payload) in
      let (some_bytes, fits, headed, filled, after) = write_frame_stages payload w h in
      (
        frame payload,
        ap sent after
            ∙ written c payload (write_all write header w).1 filled
            ∙ ap (λ t. t ++ payload) (written c header w headed)
            ∙ append_assoc (sent w) header payload,
        (λ rest. read_payload-frame payload rest some_bytes fits),
      )
