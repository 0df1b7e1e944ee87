-- ===== src/Manager/Server/Transcript.antt =====
-- The order in which a client has to send its requests.
use wireroute_windows.Base.{
  ◌≡◌, refl, List, [], ◌∷◌, Bool, true, not, ◌&&◌, if◌then◌else◌, if_intro, arith,
}
use wireroute_windows.Base.Numbers.{pos, lt_int, same_int, ℤ}
use wireroute_windows.Base.Result.{Result, ok, err, Holds}
use wireroute_windows.Base.Text.{codes, same}
use wireroute_windows.Manager.Host.{Error, Host}
use wireroute_windows.Manager.Profiles.{Packages}
use wireroute_windows.Manager.Protocol.{
  protocol_version, ProtocolError, Request, Reply, Response, Wire, dispatch,
}
use wireroute_windows.Manager.Protocol.Replies.{is_hello_reply, dispatch-Holds}
use wireroute_windows.Manager.Server.{response, responded, answer, transcript}
use wireroute_windows.Manager.Service.{Manager, ManagerService}

-- Is the hello completed behind a response, if this response may stand where it is?
abbrev pub next : Bool → Result ProtocolError Reply → Bool × Bool
next completed (err e) = (completed, true)
next completed (ok reply) = (true, if is_hello_reply reply then not completed else completed)

-- Does each response carry the number of its request, and do the results begin with that of a hello,
-- of which there is but one?
abbrev pub is_in_order : Bool → List (Request × Response) → Bool
is_in_order completed [] = true
is_in_order completed (t ∷ ts) =
    same_int t.1.request_id t.0.request_id
    && (next completed t.1.result).1
    && is_in_order (next completed t.1.result).0 ts

same_int_refl : (n : ℤ) → same_int n n ≡ true
unfolding same_int
same_int_refl (pos n) = ground arith
same_int_refl (ℤ.negsuc n) = ground arith

-- One answer in order.
IsInOrder : {S : Type 0} → Bool → Request → Response × Bool × Manager S → Type 0
IsInOrder completed request a =
    (a.0.request_id ≡ request.request_id)
    × ((next completed a.0.result).1 ≡ true)
    × (a.1 ≡ (next completed a.0.result).0)

module _ {S : Type 0} (wire : Wire) (packages : Packages) (host : Host S) (s : ManagerService) where
  responded-IsInOrder :
      (completed : Bool) (request : Request) (r : Result Error Reply × Manager S)
      → same request.method (codes "hello") ≡ not completed
      → Holds (λ reply. is_hello_reply reply ≡ same request.method (codes "hello")) r.0
      → IsInOrder completed request (responded wire packages host s completed request r)
  unfolding responded IsInOrder response
  responded-IsInOrder completed request (err e, m) h k = (refl, refl, refl)
  responded-IsInOrder completed request (ok reply, m) h k = (refl, ground arith, ground arith)

  answer-IsInOrder :
      (completed : Bool) (request : Request) (m : Manager S)
      → IsInOrder completed request (answer wire packages host s completed request m)
  unfolding answer IsInOrder response
  answer-IsInOrder completed request m =
      let P = IsInOrder completed request in
      let is_hello = same request.method (codes "hello") in
      if_intro P (not (same_int request.version protocol_version)) _ _ (λ _. (refl, refl, refl))
        (λ _.
          if_intro P (not (lt_int (pos 0) request.request_id)) _ _ (λ _. (refl, refl, refl))
            (λ _.
              if_intro P (completed && is_hello) _ _ (λ _. (refl, refl, refl))
                (λ a.
                  if_intro P (not completed && not is_hello) _ _ (λ _. (refl, refl, refl))
                    (λ b.
                      responded-IsInOrder completed request
                        (dispatch wire packages host s request.method request.parameters m)
                        (ground arith)
                        (dispatch-Holds wire packages host s request.method request.parameters
                          m)))))

  -- In a session no request but a hello has a result before a hello had one, and no hello has one
  -- behind it; each response carries the number of its request.
  pub transcript_in_order :
      (completed : Bool) (requests : List Request) (m : Manager S)
      → is_in_order completed (transcript wire packages host s completed requests m).0 ≡ true
  unfolding transcript IsInOrder
  transcript_in_order completed [] m = refl
  transcript_in_order completed (request ∷ requests) m =
      let a = answer wire packages host s completed request m in
      let step = answer-IsInOrder completed request m in
      rw (step.0, same_int_refl request.request_id, step.1, ← step.2)
        (transcript_in_order a.1 requests a.2)
