-- ===== src/Conf/Config/Operations/Repeats.antt =====
-- The strings in the lists that `DeduplicateNetworkEntries` leaves.
use wireroute_windows.Base.{◌≡◌, refl, ap, List, [], ◌∷◌, map, Bool, true, ◌&&◌, not, any, arith}
use wireroute_windows.Base.Text.{Text, same, same_iff}
use wireroute_windows.Conf.Netip.{Addr, Prefix}
use wireroute_windows.Conf.Config.{Config, Peer}
use wireroute_windows.Conf.Config.Operations.{
  compact, deduplicate_peer, deduplicate_network_entries,
}
use wireroute_windows.Conf.Config.Operations.Compaction.{first_entries, compact-first_entries}

unfoldable pub no_repeats : List Text → Bool
no_repeats [] = true
no_repeats (s ∷ ss) = not (any (same s) ss) && no_repeats ss

same-any : (s t : Text) (seen : List Text) → same s t ≡ true → any (same s) seen ≡ any (same t) seen
same-any s t seen h = ap (λ r. any (same r) seen) ((same_iff s t).0 h)

module _ {ℓ} {A : Type ℓ} (to_string : A → Text) where
  any-first_entries :
      (s : Text) (seen : List Text) (xs : List A)
      → any (same s) (map to_string (first_entries to_string seen xs))
        ≡ (any (same s) (map to_string xs) && not (any (same s) seen))
  unfolding first_entries
  any-first_entries s seen [] = refl
  any-first_entries s seen (x ∷ xs) = ground (
    arith,
    any-first_entries s seen xs,
    any-first_entries s (to_string x ∷ seen) xs,
    same-any s (to_string x) seen,
  )

  first_entries-no_repeats :
      (seen : List Text) (xs : List A)
      → no_repeats (map to_string (first_entries to_string seen xs)) ≡ true
  unfolding first_entries no_repeats
  first_entries-no_repeats seen [] = refl
  first_entries-no_repeats seen (x ∷ xs) = ground (
    arith,
    first_entries-no_repeats seen xs,
    first_entries-no_repeats (to_string x ∷ seen) xs,
    any-first_entries (to_string x) (to_string x ∷ seen) xs,
    (same_iff (to_string x) (to_string x)).1 refl,
  )

  -- The strings of ys are those of xs, each once.
  unfoldable pub IsDeduplicated : List A → List A → Type 0
  unfolding no_repeats
  IsDeduplicated xs ys =
      (no_repeats (map to_string ys) ≡ true)
      × ((s : Text) → any (same s) (map to_string ys) ≡ any (same s) (map to_string xs))

  pub compact-IsDeduplicated : (xs : List A) → IsDeduplicated xs (compact to_string xs)
  unfolding IsDeduplicated
  compact-IsDeduplicated xs =
      rw (compact-first_entries to_string xs)
        (first_entries-no_repeats [] xs, (λ s. ground (arith, any-first_entries s [] xs)))

module _ (prefix_string : Prefix → Text) (addr_string : Addr → Text) where
  -- Peer by peer, in their order.
  unfoldable pub PeersDeduplicated : List Peer → List Peer → Type 0
  unfolding IsDeduplicated
  PeersDeduplicated [] [] = Unit
  PeersDeduplicated (p ∷ ps) (q ∷ qs) =
      IsDeduplicated prefix_string p.allowed_ips q.allowed_ips
      × (q ≡ record p { allowed_ips = q.allowed_ips })
      × PeersDeduplicated ps qs
  PeersDeduplicated _ _ = ⊥

  peers-PeersDeduplicated :
      (ps : List Peer) → PeersDeduplicated ps (map (deduplicate_peer prefix_string addr_string) ps)
  unfolding PeersDeduplicated deduplicate_peer
  peers-PeersDeduplicated [] = tt
  peers-PeersDeduplicated (p ∷ ps) =
      (compact-IsDeduplicated prefix_string p.allowed_ips, refl, peers-PeersDeduplicated ps)

  -- Each list of addresses, DNS servers and allowed IPs keeps each of its strings exactly once, and
  -- nothing else of the configuration changes.
  pub deduplicate_network_entries-IsDeduplicated :
      (conf : Config)
      → let result = deduplicate_network_entries prefix_string addr_string conf in
        IsDeduplicated prefix_string conf.interface.addresses result.interface.addresses
        × IsDeduplicated addr_string conf.interface.dns result.interface.dns
        × PeersDeduplicated conf.peers result.peers
        × (result ≡ record conf {
          interface = record (conf.interface) {
            addresses = result.interface.addresses;
            dns = result.interface.dns;
          };
          peers = result.peers;
        })
  unfolding deduplicate_network_entries
  deduplicate_network_entries-IsDeduplicated conf = (
    compact-IsDeduplicated prefix_string conf.interface.addresses,
    compact-IsDeduplicated addr_string conf.interface.dns,
    peers-PeersDeduplicated conf.peers,
    refl,
  )
