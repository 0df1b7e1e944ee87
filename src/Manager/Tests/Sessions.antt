-- ===== src/Manager/Tests/Sessions.antt =====
-- Sessions at concrete inputs.
use wireroute_windows.Base.{◌≡◌, refl, List, [], ◌∷◌, true, false, some, arith}
use wireroute_windows.Base.Bytes.{from_little_endian}
use wireroute_windows.Base.Numbers.{pos}
use wireroute_windows.Base.Result.{ok}
use wireroute_windows.Base.Text.{Text, codes}
use wireroute_windows.Conf.Config.{Config}
use wireroute_windows.Manager.Frames.{read_full, read_payload}
use wireroute_windows.Manager.Protocol.{Request}
use wireroute_windows.Manager.Server.{transcript, serve}
use wireroute_windows.Manager.Server.Ends.{serve_invariant, serve_same}
use wireroute_windows.Manager.Server.Transcript.{is_in_order, transcript_in_order}
use wireroute_windows.Manager.Service.{Manager}
use wireroute_windows.Manager.Tests.Samples.{
  memory_host, sample_manager, administrator, user, sample_packages, sample_wire, pipe,
  frame_of_two,
}

two_read : read_payload frame_of_two ≡ ok (codes "wg", [])
unfolding read_payload read_full from_little_endian
two_read = refl

serve_invariant_example :
    (n : Manager (List Config)) × (v : Text) × Unit {0}
    × (serve sample_wire sample_packages memory_host administrator pipe 7 true frame_of_two
          sample_manager []
        ≡ some (n, v))
serve_invariant_example =
    serve_invariant sample_wire sample_packages memory_host administrator pipe (λ n. Unit) 7 true
      frame_of_two sample_manager [] (λ c r n h. tt) tt (omega arith)

serve_same_example :
    (v : Text) × (serve sample_wire sample_packages memory_host user pipe 7 true frame_of_two
        sample_manager []
      ≡ some (sample_manager, v))
serve_same_example =
    serve_same sample_wire sample_packages memory_host user pipe refl 7 true frame_of_two
      sample_manager [] (omega arith)

abbrev two_requests : List Request
two_requests =
    record { version = pos 1; request_id = pos 1; method = codes "tunnel.stop"; parameters = [] }
    ∷ record {
      version = pos 1;
      request_id = pos 2;
      method = codes "hello";
      parameters = codes "{}";
    }
    ∷ []

transcript_in_order_example :
    is_in_order false
      (transcript sample_wire sample_packages memory_host user false two_requests sample_manager).0
    ≡ true
transcript_in_order_example =
    transcript_in_order sample_wire sample_packages memory_host user false two_requests
      sample_manager
