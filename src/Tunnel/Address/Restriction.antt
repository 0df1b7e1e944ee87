-- ===== src/Tunnel/Address/Restriction.antt =====
-- When the firewall is to restrict.
use wireroute_windows.Base.{
  ℕ, suc, zero, ◌<◌, ◌^◌, ◌≡◌, refl, ap₂, List, [], ◌∷◌, Bool, false, not, ◌&&◌, ◌||◌, ◌==◌, any,
  All, arith,
}
use wireroute_windows.Base.Text.{Text, same, is_empty}
use wireroute_windows.Conf.Config.{Peer, Config}
use wireroute_windows.Conf.Netip.{
  Addr, zero_addr, v4, v6, Prefix, same_addr, same_prefix, clear_host, masked,
}
use wireroute_windows.Tunnel.Address.{takes_all, do_not_restrict}

-- An address of its width.
abbrev pub InWidth : Prefix → Type 0
InWidth p = within p.ip
  where
    within : Addr → Type 0
    within zero_addr = Unit
    within (v4 n) = n < 2 ^ 32
    within (v6 n zone) = n < 2 ^ 128

-- 0.0.0.0 or ::, without a zone.
abbrev pub is_unspecified : Addr → Bool
is_unspecified zero_addr = false
is_unspecified (v4 n) = n == 0
is_unspecified (v6 n zone) = n == 0 && is_empty zone

-- The prefixes 0.0.0.0/0 and ::/0.
abbrev pub is_default : Prefix → Bool
is_default p = p.bits_plus_one == 1 && is_unspecified p.ip

-- The only peer has a default route, and a table of routes is set.
abbrev pub is_full_tunnel : Config → Bool
is_full_tunnel conf = only conf.peers
  where
    only : List Peer → Bool
    only (p ∷ []) = not conf.interface.table_off && any is_default p.allowed_ips
    only _ = false

cleared_v4 : (n : ℕ) → n < 2 ^ 32 → clear_host 32 0 n ≡ 0
unfolding clear_host
cleared_v4 n h = omega arith

cleared_v6 : (n : ℕ) → n < 2 ^ 128 → clear_host 128 0 n ≡ 0
unfolding clear_host
cleared_v6 n h = omega arith

same-empty : (s : Text) → same s [] ≡ is_empty s
unfolding same
same-empty [] = refl
same-empty (c ∷ s) = refl

takes_all-v4 :
    (n b : ℕ)
    → n < 2 ^ 32
    → takes_all (record { ip = v4 n; bits_plus_one = b }) ≡ (b == 1 && n == 0)
unfolding takes_all same_prefix same_addr masked
takes_all-v4 n zero h = refl
takes_all-v4 n (suc zero) h = rw (cleared_v4 n h) (ground arith)
takes_all-v4 n (suc (suc b)) h = ground arith

takes_all-v6 :
    (n : ℕ) (zone : Text) (b : ℕ)
    → n < 2 ^ 128
    → takes_all (record { ip = v6 n zone; bits_plus_one = b })
      ≡ (b == 1 && (n == 0 && is_empty zone))
unfolding takes_all same_prefix same_addr masked
takes_all-v6 n zone zero h = refl
takes_all-v6 n zone (suc zero) h = rw (cleared_v6 n h, same-empty zone) (ground arith)
takes_all-v6 n zone (suc (suc b)) h = ground arith

takes_all-is_default :
    (a : Addr) (b : ℕ)
    → InWidth (record { ip = a; bits_plus_one = b })
    → takes_all (record { ip = a; bits_plus_one = b })
      ≡ is_default (record { ip = a; bits_plus_one = b })
unfolding takes_all same_prefix same_addr masked
takes_all-is_default zero_addr b h = ground arith
takes_all-is_default (v4 n) b h = takes_all-v4 n b h
takes_all-is_default (v6 n zone) b h = takes_all-v6 n zone b h

any-takes_all : (ps : List Prefix) → All InWidth ps → any takes_all ps ≡ any is_default ps
any-takes_all [] h = refl
any-takes_all (p ∷ ps) h =
    ap₂ (λ a b. a || b) (takes_all-is_default p.ip p.bits_plus_one h.0) (any-takes_all ps h.1)

-- For addresses of 32 and 128 bits: the firewall is to restrict exactly if there is one peer, it has the
-- prefix 0.0.0.0/0 or ::/0 among its allowed IPs, and routes are set.
pub do_not_restrict-is_full_tunnel :
    (conf : Config)
    → All (λ peer. All InWidth peer.allowed_ips) conf.peers
    → do_not_restrict conf ≡ not (is_full_tunnel conf)
unfolding do_not_restrict
do_not_restrict-is_full_tunnel conf h = by_peers conf conf.peers refl h
  where
    by_peers :
        (conf : Config) (peers : List Peer)
        → conf.peers ≡ peers
        → All (λ peer. All InWidth peer.allowed_ips) peers
        → do_not_restrict conf ≡ not (is_full_tunnel conf)
    by_peers conf [] e h = rw e refl
    by_peers conf (p ∷ []) e h = rw e (rw (any-takes_all p.allowed_ips h.0) (ground arith))
    by_peers conf (p ∷ (q ∷ peers)) e h = rw e refl
