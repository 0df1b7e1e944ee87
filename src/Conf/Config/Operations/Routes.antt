-- ===== src/Conf/Config/Operations/Routes.antt =====
-- What `IntersectsWith` answers, told by the lists of the two configurations' routes.
use wireroute_windows.Base.{
  ◌≡◌, refl, sym, ◌∙◌, List, [], ◌∷◌, ◌++◌, Bool, false, ◌||◌, any, any-append, arith,
}
use wireroute_windows.Conf.Netip.{Prefix, same_prefix, same_prefix_iff, masked}
use wireroute_windows.Conf.Config.{Peer, Config}
use wireroute_windows.Conf.Config.Operations.{
  host_route, add_addresses, add_allowed_ips, add_peers, all_routes, intersects_with,
}

unfoldable address_routes : List Prefix → List Prefix
address_routes [] = []
address_routes (a ∷ xs) = host_route a ∷ masked a ∷ address_routes xs

unfoldable allowed_routes : List Prefix → List Prefix
allowed_routes [] = []
allowed_routes (a ∷ xs) = masked a ∷ allowed_routes xs

unfoldable peer_routes : List Peer → List Prefix
unfolding allowed_routes
peer_routes [] = []
peer_routes (p ∷ ps) = allowed_routes p.allowed_ips ++ peer_routes ps

-- The routes of a configuration: its addresses, alone and with their networks, and the networks of
-- its peers.
unfoldable pub routes : Config → List Prefix
unfolding address_routes peer_routes
routes conf = address_routes conf.interface.addresses ++ peer_routes conf.peers

module _ (p : Prefix → Bool) where
  any-add_addresses :
      (xs rs : List Prefix) → any p (add_addresses xs rs) ≡ (any p (address_routes xs) || any p rs)
  unfolding add_addresses address_routes
  any-add_addresses [] rs = refl
  any-add_addresses (a ∷ xs) rs =
      ground (arith, any-add_addresses xs (masked a ∷ host_route a ∷ rs))

  any-add_allowed_ips :
      (xs rs : List Prefix)
      → any p (add_allowed_ips xs rs) ≡ (any p (allowed_routes xs) || any p rs)
  unfolding add_allowed_ips allowed_routes
  any-add_allowed_ips [] rs = refl
  any-add_allowed_ips (a ∷ xs) rs = ground (arith, any-add_allowed_ips xs (masked a ∷ rs))

  any-add_peers :
      (ps : List Peer) (rs : List Prefix)
      → any p (add_peers ps rs) ≡ (any p (peer_routes ps) || any p rs)
  unfolding add_peers peer_routes
  any-add_peers [] rs = refl
  any-add_peers (q ∷ ps) rs = ground (
    arith,
    any-add_peers ps (add_allowed_ips q.allowed_ips rs),
    any-add_allowed_ips q.allowed_ips rs,
    any-append p (allowed_routes q.allowed_ips) (peer_routes ps),
  )

  any-all_routes : (conf : Config) → any p (all_routes conf) ≡ any p (routes conf)
  unfolding all_routes routes
  any-all_routes conf = ground (
    arith,
    any-add_peers conf.peers (add_addresses conf.interface.addresses []),
    any-add_addresses conf.interface.addresses [],
    any-append p (address_routes conf.interface.addresses) (peer_routes conf.peers),
  )

  any-address_routes :
      (xs : List Prefix)
      → any (λ a. p (host_route a) || p (masked a)) xs ≡ any p (address_routes xs)
  unfolding address_routes
  any-address_routes [] = refl
  any-address_routes (a ∷ xs) = ground (arith, any-address_routes xs)

  any-allowed_routes : (xs : List Prefix) → any (λ a. p (masked a)) xs ≡ any p (allowed_routes xs)
  unfolding allowed_routes
  any-allowed_routes [] = refl
  any-allowed_routes (a ∷ xs) = ground (arith, any-allowed_routes xs)

  any-peer_routes :
      (ps : List Peer)
      → any (λ q. any (λ a. p (masked a)) q.allowed_ips) ps ≡ any p (peer_routes ps)
  unfolding peer_routes
  any-peer_routes [] = refl
  any-peer_routes (q ∷ ps) = ground (
    arith,
    any-peer_routes ps,
    any-allowed_routes q.allowed_ips,
    any-append p (allowed_routes q.allowed_ips) (peer_routes ps),
  )

  any-routes :
      (conf : Config)
      → (any (λ a. p (host_route a) || p (masked a)) conf.interface.addresses
          || any (λ q. any (λ a. p (masked a)) q.allowed_ips) conf.peers)
        ≡ any p (routes conf)
  unfolding routes
  any-routes conf = ground (
    arith,
    any-address_routes conf.interface.addresses,
    any-peer_routes conf.peers,
    any-append p (address_routes conf.interface.addresses) (peer_routes conf.peers),
  )

-- Do two lists share a prefix?
unfoldable pub shares : List Prefix → List Prefix → Bool
shares rs [] = false
shares rs (r ∷ ss) = any (same_prefix r) rs || shares rs ss

any-shares : (rs ss : List Prefix) → any (λ r. any (same_prefix r) rs) ss ≡ shares rs ss
unfolding shares
any-shares rs [] = refl
any-shares rs (r ∷ ss) = ground (arith, any-shares rs ss)

any_ext :
    (p q : Prefix → Bool) (xs : List Prefix) → ((r : Prefix) → p r ≡ q r) → any p xs ≡ any q xs
any_ext p q [] h = refl
any_ext p q (x ∷ xs) h = ground (arith, h x, any_ext p q xs h)

-- A configuration intersects another exactly if their lists of routes share a prefix.
pub intersects_with-shares :
    (conf other : Config) → intersects_with conf other ≡ shares (routes conf) (routes other)
unfolding intersects_with
intersects_with-shares conf other =
    any-routes (λ r. any (same_prefix r) (all_routes conf)) other
    ∙ any_ext _ (λ r. any (same_prefix r) (routes conf)) (routes other)
        (λ r. any-all_routes (same_prefix r) conf)
    ∙ any-shares (routes conf) (routes other)

same_prefix_comm : (p q : Prefix) → same_prefix p q ≡ same_prefix q p
same_prefix_comm p q = ground (arith, same_prefix_iff p q, same_prefix_iff q p)

shares_nil : (ss : List Prefix) → shares [] ss ≡ false
unfolding shares
shares_nil [] = refl
shares_nil (s ∷ ss) = shares_nil ss

shares_cons :
    (r : Prefix) (rs ss : List Prefix)
    → shares (r ∷ rs) ss ≡ (any (same_prefix r) ss || shares rs ss)
unfolding shares
shares_cons r rs [] = refl
shares_cons r rs (s ∷ ss) = ground (arith, shares_cons r rs ss, same_prefix_comm r s)

shares_comm : (rs ss : List Prefix) → shares rs ss ≡ shares ss rs
unfolding shares
shares_comm [] ss = shares_nil ss
shares_comm (r ∷ rs) ss = ground (arith, shares_cons r rs ss, shares_comm rs ss)

-- Intersecting is symmetric.
pub intersects_with_comm :
    (conf other : Config) → intersects_with conf other ≡ intersects_with other conf
intersects_with_comm conf other =
    intersects_with-shares conf other
    ∙ shares_comm (routes conf) (routes other)
    ∙ sym (intersects_with-shares other conf)
