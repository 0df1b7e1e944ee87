-- ===== src/Conf/Config/Operations/Secrets.antt =====
-- What `Redact` leaves, and the keys of `NewPrivateKey`.
use mathlib.Core.List.{head-eq_of_cons-eq, tail-eq_of_cons-eq}
use wireroute_windows.Base.{
  ℕ, suc, ◌+◌, ◌*◌, ◌/◌, ◌%◌, ◌≤◌, ◌<◌, ◌≡◌, refl, sym, ap, ap₂, ◌∙◌, List, [], ◌∷◌, map, length,
  set, get_or, length-set, get_or-set_self, get_or-set_ne, arith, ◌≢◌,
}
use wireroute_windows.Conf.Config.{Key, key_length, Peer, Interface, Config}
use wireroute_windows.Conf.Config.Operations.{
  zero_key, no_comments, place_key, redact_peers, redact, clamp,
}

-- The public part of a peer is what is neither key nor comment.
abbrev public_peer : Peer → Peer
public_peer p = record p { public_key = []; preshared_key = []; comments = no_comments }

-- The public part of an interface is what is neither key, script nor comment.
abbrev public_interface : Interface → Interface
public_interface i = record i {
  private_key = [];
  pre_up = [];
  post_up = [];
  pre_down = [];
  post_down = [];
  comments = no_comments;
}

redact_peers-public :
    (n : ℕ) (ps qs : List Peer)
    → map public_peer ps ≡ map public_peer qs
    → redact_peers n ps ≡ redact_peers n qs
unfolding redact_peers
redact_peers-public n [] [] h = refl
redact_peers-public n [] (q ∷ qs) h = ground arith
redact_peers-public n (p ∷ ps) [] h = ground arith
redact_peers-public n (p ∷ ps) (q ∷ qs) h =
    ap₂ {A = Peer} {B = List Peer}
      (λ r rs.
        record r { public_key = place_key n; preshared_key = zero_key; comments = no_comments }
        ∷ rs)
      (head-eq_of_cons-eq h) (redact_peers-public (suc n) ps qs (tail-eq_of_cons-eq h))

-- Two configurations of the same name, whose interfaces and peers have the same public parts, have
-- the same redaction: nothing that `Redact` leaves depends on keys, scripts or comments.
pub redact-public :
    (conf other : Config)
    → conf.name ≡ other.name
    → public_interface conf.interface ≡ public_interface other.interface
    → map public_peer conf.peers ≡ map public_peer other.peers
    → redact conf ≡ redact other
unfolding redact
redact-public conf other n i p =
    ap₂
      (λ m r. record {
        name = m;
        interface = record r { private_key = zero_key };
        peers = redact_peers 0 conf.peers;
        trailing_comments = [];
      })
      n i
    ∙ ap (λ ps. record (redact other) { peers = ps })
        (redact_peers-public 0 conf.peers other.peers p)

-- Of a random key of 32 bytes, the clamped key has the three low bits of the first byte clear, the
-- two high bits of the last byte 0 and 1, and all other bytes as they are.
pub clamp_bits :
    (k : Key)
    → length k ≡ key_length
    → (length (clamp k) ≡ key_length)
      × (get_or (clamp k) 0 0 % 8 ≡ 0)
      × (64 ≤ get_or (clamp k) 31 0)
      × (get_or (clamp k) 31 0 < 128)
      × ((i : ℕ) → i ≢ 0 → i ≢ 31 → get_or (clamp k) i 0 ≡ get_or k i 0)
unfolding clamp
clamp_bits k h =
    let low = get_or k 0 0 / 8 * 8 in
    let high = get_or k 31 0 % 64 + 64 in
    let first : get_or (set (set k 0 low) 31 high) 0 0 ≡ low =
      get_or-set_ne (set k 0 low) {i = 31} {j = 0} high 0 (λ e. omega (arith, e))
      ∙ get_or-set_self k 0 low 0 (omega arith) in
    let last : get_or (set (set k 0 low) 31 high) 31 0 ≡ high =
      get_or-set_self (set k 0 low) 31 high 0 (omega (arith, length-set k 0 low)) in
    (
      length-set (set k 0 low) 31 high ∙ length-set k 0 low ∙ h,
      omega (arith, first),
      omega (arith, last),
      omega (arith, last),
      (λ i p q.
          get_or-set_ne (set k 0 low) high 0 (λ e. q (sym e))
          ∙ get_or-set_ne k low 0 (λ e. p (sym e))),
    )
