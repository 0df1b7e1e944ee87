-- ===== src/Manager/Frames.antt =====
-- manager/protocol_v1.go: frames, which are JSON texts behind their length in four bytes.
pub mod Laws
use wireroute_windows.Base.{
  ℕ, zero, suc, ◌*◌, List, [], ◌∷◌, ◌++◌, Bool, true, false, ◌||◌, ◌==◌, ltb, length, take, drop,
  if◌then◌else◌, Option, none, some,
}
use wireroute_windows.Base.Bytes.{little_endian, from_little_endian}
use wireroute_windows.Base.Result.{Result, ok, err, ◌>>=◌, ◌>>◌, reject_if, require}
use wireroute_windows.Base.Text.{Text}

abbrev pub maximum_frame_length : ℕ
maximum_frame_length = 1024 * 1024

-- `stuck` stands for a loop that its rounds do not end.
pub data FrameError : Type 0 where
  eof invalid_length invalid_json extra_data write_failed short_write stuck : FrameError

-- `io.ReadFull` of n bytes from what is still to come.
unfoldable pub read_full : ℕ → Text → Result FrameError (Text × Text)
read_full n input = if ltb (length input) n then err eof else ok (take n input, drop n input)

-- The payload of a frame, and what follows the frame.
unfoldable pub read_payload : Text → Result FrameError (Text × Text)
read_payload input = do
  h ← read_full 4 input
  let n = from_little_endian h.0
  reject_if (n == 0 || ltb maximum_frame_length n) invalid_length
  read_full n h.1

-- A JSON decoder for values of A that accepts no unknown field: the first value of a text, and
-- whether anything follows it.
pub record Decoder (A : Type 0) : Type 0 where
  pub decode : Text → Option A
  pub has_more : Text → Bool

unfoldable pub read_frame : {A : Type 0} → Decoder A → Text → Result FrameError (A × Text)
read_frame d input = do
  p ← read_payload input
  value ← require (d.decode p.0) invalid_json
  reject_if (d.has_more p.0) extra_data
  ok (value, p.1)

-- An `io.Writer`: how many bytes it took, and whether it failed.
module _ {W : Type 0} (write : W → Text → (ℕ × Bool) × W) where
  -- The loop of `writeManagerV1Bytes`, of at most as many rounds as there are bytes.
  unfoldable pub write_bytes : (rounds : ℕ) → Text → W → Result FrameError (Unit {0}) × W
  write_bytes rounds [] w = (ok tt, w)
  write_bytes zero (b ∷ bytes) w = (err stuck, w)
  write_bytes (suc rounds) (b ∷ bytes) w =
      let r = write w (b ∷ bytes) in
      let later = write_bytes rounds (drop r.0.0 (b ∷ bytes)) r.1 in
      if r.0.1
      then (err write_failed, r.1)
      else (if r.0.0 == 0 then (err short_write, r.1) else later)

  unfoldable pub write_all : Text → W → Result FrameError (Unit {0}) × W
  write_all bytes w = write_bytes (length bytes) bytes w

  -- What stands behind the header is written if the header was.
  unfoldable pub behind_header :
      Text → Result FrameError (Unit {0}) × W → Result FrameError (Unit {0}) × W
  behind_header payload (err e, v) = (err e, v)
  behind_header payload (ok _, v) = write_all payload v

  -- The payload of `json.Marshal`; none if it fails.
  unfoldable pub write_frame : Option Text → W → Result FrameError (Unit {0}) × W
  unfolding behind_header
  write_frame none w = (err invalid_json, w)
  write_frame (some payload) w =
      if length payload == 0 || ltb maximum_frame_length (length payload)
      then (err invalid_length, w)
      else behind_header payload (write_all (little_endian 4 (length payload)) w)
