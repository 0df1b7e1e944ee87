-- ===== src/Manager/Server.antt =====
-- manager/protocol_v1.go: `serve`, the session of one client.
pub mod Transcript
pub mod Ends
use wireroute_windows.Base.{
  ℕ, zero, suc, List, [], ◌∷◌, Bool, true, false, not, ◌||◌, ◌&&◌, if◌then◌else◌, Option, none,
  some,
}
use wireroute_windows.Base.Numbers.{ℤ, pos, lt_int, same_int}
use wireroute_windows.Base.Result.{Result, ok, err}
use wireroute_windows.Base.Text.{Text, codes, same}
use wireroute_windows.Manager.Frames.{FrameError, read_frame, write_frame}
use wireroute_windows.Manager.Host.{Error, Host}
use wireroute_windows.Manager.Profiles.{Packages}
use wireroute_windows.Manager.Protocol.{
  protocol_version, Request, Reply, ProtocolError, unsupported_version, not_positive,
  hello_completed, hello_required, Response, Wire, protocol_error, dispatch,
}
use wireroute_windows.Manager.Service.{Manager, ManagerService}

module _ {S : Type 0} (wire : Wire) (packages : Packages) (host : Host S) (s : ManagerService) where
  unfoldable pub response : Request → Result ProtocolError Reply → Response
  response request r = record {
    version = protocol_version;
    request_id = request.request_id;
    result = r;
  }

  -- A dispatch's result, and whether the hello is completed behind it.
  unfoldable pub responded :
      Bool → Request → Result Error Reply × Manager S → Response × Bool × Manager S
  responded completed request (err e, m) = (response request (err (protocol_error e)), completed, m)
  responded completed request (ok reply, m) =
      (response request (ok reply), completed || same request.method (codes "hello"), m)

  -- The response to a request, whether the hello is completed behind it, and the process then.
  unfoldable pub answer : Bool → Request → Manager S → Response × Bool × Manager S
  answer completed request m =
      if not (same_int request.version protocol_version)
      then (response request (err unsupported_version), completed, m)
      else (if not (lt_int (pos 0) request.request_id)
          then (response request (err not_positive), completed, m)
          else (if completed && same request.method (codes "hello")
              then (response request (err hello_completed), completed, m)
              else (if not completed && not (same request.method (codes "hello"))
                  then (response request (err hello_required), completed, m)
                  else responded completed request
                      (dispatch wire packages host s request.method request.parameters m))))

  -- The requests of a session and the responses to them, and the process behind them.
  unfoldable pub transcript :
      Bool → List Request → Manager S → List (Request × Response) × Manager S
  transcript completed [] m = ([], m)
  transcript completed (request ∷ requests) m =
      let a = answer completed request m in
      let rest = transcript a.1 requests a.2 in ((request, a.0) ∷ rest.0, rest.1)

  module _ {W : Type 0} (write : W → Text → (ℕ × Bool) × W) where
    -- What a round does behind the write of a response: `again` are the rounds that are left.
    unfoldable pub behind_write :
        (again : Manager S → W → Option (Manager S × W))
        → Manager S
        → Result FrameError (Unit {0}) × W
        → Option (Manager S × W)
    behind_write again m (err e, w) = some (m, w)
    behind_write again m (ok _, w) = again m w

    unfoldable pub behind_read :
        (again : Bool → Text → Manager S → W → Option (Manager S × W))
        → Bool
        → Manager S
        → W
        → Result FrameError (Request × Text)
        → Option (Manager S × W)
    behind_read again completed m w (err e) = some (m, w)
    behind_read again completed m w (ok (request, rest)) =
        let a = answer completed request m in
        behind_write (again a.1 rest) a.2 (write_frame write (wire.marshal a.0) w)

    -- The loop of `serve` on all that the client sends; none if the rounds do not end it.
    unfoldable pub serve :
        (rounds : ℕ) → Bool → (input : Text) → Manager S → W → Option (Manager S × W)
    serve zero completed input m w = none
    serve (suc rounds) completed input m w =
        behind_read (serve rounds) completed m w (read_frame wire.request input)
