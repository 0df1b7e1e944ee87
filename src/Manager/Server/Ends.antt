-- ===== src/Manager/Server/Ends.antt =====
-- The end of a session.
use wireroute_windows.Base.{
  ℕ, zero, suc, ◌+◌, ◌<◌, ◌≤◌, ◌≡◌, refl, ap, ◌∙◌, Bool, ◌||◌, ◌==◌, length, length-drop,
  length-take, drop, take, ltb, arith, some, inl, inr,
}
use wireroute_windows.Base.Bytes.{from_little_endian}
use wireroute_windows.Base.Result.{
  Result, ok, err, require, Holds, Holds->>=, Holds-if, Holds-reject_if, Holds-any, Holds-map,
  Holds_ok, Result-cases,
}
use wireroute_windows.Base.Text.{Text}
use wireroute_windows.Manager.Frames.{
  FrameError, invalid_length, invalid_json, extra_data, eof, maximum_frame_length, Decoder,
  read_full, read_payload, read_frame, write_frame,
}
use wireroute_windows.Manager.Host.{Error, Host}
use wireroute_windows.Manager.Profiles.{Packages}
use wireroute_windows.Manager.Protocol.{Request, Reply, Response, Wire, dispatch}
use wireroute_windows.Manager.Protocol.Access.{dispatch_same}
use wireroute_windows.Manager.Server.{responded, answer, behind_write, behind_read, serve}
use wireroute_windows.Manager.Service.{Manager, ManagerService}

-- The bytes that are read, and what is left behind them.
abbrev IsRead : (n : ℕ) (input : Text) → Text × Text → Type 0
IsRead n input r = (length r.0 ≡ n) × (n + length r.1 ≡ length input)

read_full-IsRead : (n : ℕ) (input : Text) → Holds (IsRead n input) (read_full n input)
unfolding read_full
read_full-IsRead n input =
    Holds-if (IsRead n input) (ltb (length input) n) (err eof) (ok (take n input, drop n input))
      (λ _. tt) (λ e. (ground (arith, length-take n input), ground (arith, length-drop n input)))

-- A payload, and what is left behind it.
abbrev pub IsPayload : (input : Text) → Text × Text → Type 0
IsPayload input r =
    (1 ≤ length r.0)
    × (length r.0 ≤ maximum_frame_length)
    × (4 + length r.0 + length r.1 ≡ length input)

read_payload-Holds : (input : Text) → Holds (IsPayload input) (read_payload input)
unfolding read_payload
read_payload-Holds input =
    Holds->>= (IsRead 4 input) (IsPayload input) (read_full 4 input) _ (read_full-IsRead 4 input)
      (λ h read.
        let n = from_little_endian h.0 in
        Holds-reject_if (IsPayload input) (n == 0 || ltb maximum_frame_length n) invalid_length
          (read_full n h.1)
          (λ e.
            Holds-map (IsRead n h.1) (IsPayload input) (read_full n h.1)
              (λ r q. (ground arith, ground arith, ground arith)) (read_full-IsRead n h.1)))

-- A frame that is read has a payload of 1 to 1048576 bytes, and what is left is the input behind its
-- 4 bytes of length and its payload.
pub read_payload-IsPayload :
    (input : Text) (r : Text × Text) → read_payload input ≡ ok r → IsPayload input r
read_payload-IsPayload input r e = Holds_ok (IsPayload input) e (read_payload-Holds input)

-- What a frame leaves of the input is shorter.
read_frame-Holds :
    {A : Type 0} (d : Decoder A) (input : Text)
    → Holds (λ (r : A × Text). length r.1 < length input) (read_frame d input)
unfolding read_frame
read_frame-Holds {A = A} d input =
    let P = λ (r : A × Text). length r.1 < length input in
    Holds->>= (IsPayload input) P (read_payload input) _ (read_payload-Holds input) (λ p h.
      Holds->>= (λ _. Unit {0}) P (require (d.decode p.0) invalid_json) _
        (Holds-any (require (d.decode p.0) invalid_json))
        (λ value _.
          Holds-reject_if P (d.has_more p.0) extra_data (ok (value, p.1)) (λ _. omega arith)))

read_frame_shorter :
    {A : Type 0} (d : Decoder A) (input : Text) (a : A) (rest : Text)
    → read_frame d input ≡ ok (a, rest)
    → length rest < length input
read_frame_shorter {A = A} d input a rest e =
    Holds_ok (λ (r : A × Text). length r.1 < length input) e (read_frame-Holds d input)

module _ {S W : Type 0} (wire : Wire) (packages : Packages) (host : Host S) (s : ManagerService)
    (write : W → Text → (ℕ × Bool) × W) where
  module _ (rounds : ℕ) (completed : Bool) (input : Text) (m : Manager S) (w : W) where
    -- The three ways of a round.
    serve_unread :
        (x : FrameError)
        → read_frame wire.request input ≡ err x
        → serve wire packages host s write (suc rounds) completed input m w ≡ some (m, w)
    unfolding serve behind_read
    serve_unread x e = rw e refl

    module _ (request : Request) (rest : Text)
        (e : read_frame wire.request input ≡ ok (request, rest)) where
      abbrev answered : Response × Bool × Manager S
      answered = answer wire packages host s completed request m

      abbrev written : Result FrameError (Unit {0}) × W
      written = write_frame write (wire.marshal answered.0) w

      serve_unwritten :
          (x : FrameError)
          → written.0 ≡ err x
          → serve wire packages host s write (suc rounds) completed input m w
            ≡ some (answered.2, written.1)
      unfolding serve behind_read behind_write
      serve_unwritten x f = rw (e, f) refl

      serve_next :
          written.0 ≡ ok tt
          → serve wire packages host s write (suc rounds) completed input m w
            ≡ serve wire packages host s write rounds answered.1 rest answered.2 written.1
      unfolding serve behind_read behind_write
      serve_next f = rw (e, f) refl

  -- A session ends, whatever the client sends and whatever becomes of what is written: rounds for more
  -- frames than the input has bytes are enough. And what every answer keeps true of the process is true
  -- at the end.
  pub serve_invariant :
      (P : Manager S → Type 0) (rounds : ℕ) (completed : Bool) (input : Text) (m : Manager S)
      (w : W)
      → ((completed : Bool) (request : Request) (n : Manager S)
          → P n
          → P (answer wire packages host s completed request n).2)
      → P m
      → length input < rounds
      → (n : Manager S) × (v : W) × P n
        × (serve wire packages host s write rounds completed input m w ≡ some (n, v))
  serve_invariant P zero completed input m w keep start h = absurd (omega arith)
  serve_invariant P (suc rounds) completed input m w keep start h =
      elim (Result-cases (read_frame wire.request input)) [
        | inr (x, e) ↦ (m, w, start, serve_unread rounds completed input m w x e)
        | inl ((request, rest), e) ↦
            let shorter = read_frame_shorter wire.request input request rest e in
            let a = answered rounds completed input m w request rest e in
            let v = written rounds completed input m w request rest e in
            let kept = keep completed request m start in
            elim (Result-cases (v.0)) [
              | inr (x, f) ↦
                  (a.2, v.1, kept, serve_unwritten rounds completed input m w request rest e x f)
              | inl (_, f) ↦
                  let later = serve_invariant P rounds a.1 rest a.2 v.1 keep kept (omega arith) in
                  (
                    later.0,
                    later.1,
                    later.2,
                    serve_next rounds completed input m w request rest e f ∙ later.3,
                  )
            ]
      ]

  module _ (h : s.elevated_token ≡ 0) where
    responded_same :
        (completed : Bool) (request : Request) (r : Result Error Reply × Manager S)
        → (responded wire packages host s completed request r).2 ≡ r.1
    unfolding responded
    responded_same completed request (ok reply, m) = refl
    responded_same completed request (err e, m) = refl

    pub answer_same :
        (completed : Bool) (request : Request) (m : Manager S)
        → (answer wire packages host s completed request m).2 ≡ m
    unfolding answer
    answer_same completed request m = ground (
      arith,
      dispatch_same wire packages host s h request.method request.parameters m,
      responded_same completed request
          (dispatch wire packages host s request.method request.parameters m),
    )

    -- For a user who is no administrator, a session ends with nothing changed, whatever the client
    -- sends in it.
    pub serve_same :
        (rounds : ℕ) (completed : Bool) (input : Text) (m : Manager S) (w : W)
        → length input < rounds
        → (v : W) × (serve wire packages host s write rounds completed input m w ≡ some (m, v))
    serve_same rounds completed input m w enough =
        let end =
          serve_invariant (λ n. n ≡ m) rounds completed input m w
            (λ c request n e. answer_same c request n ∙ e) refl enough in
        (end.1, end.3 ∙ ap (λ n. some (n, end.1)) (end.2))
