-- ===== src/Firewall/Policy/Decides.antt =====
-- The installed filters against the policy.
use wireroute_windows.Base.{
  ℕ, ◌≡◌, refl, ◌∙◌, List, [], ◌∷◌, ◌++◌, Bool, true, false, ◌&&◌, ◌||◌, any, any-append, All,
  All-append, arith, if◌then◌else◌, some,
}
use wireroute_windows.Firewall.Types.{
  Layer, connect_v4, recv_accept_v4, connect_v6, recv_accept_v6, outbound_mac_frame_native,
  inbound_mac_frame_native, uint8, Condition, Verdict, permit, block, Filter, BaseObjects,
}
use wireroute_windows.Firewall.Rules.{new_filter}
use wireroute_windows.Firewall.Rules.Conditions.{
  dhcp_v4_request, dhcp_v4_response, dhcp_v6_request, dhcp_v6_response, ndp, dns, is_loopback,
  on_interface, Addr, servers_v4, servers_v6,
}
use wireroute_windows.Firewall.Rules.Lists.{
  everywhere, allow_at, service_filter, service_filters, loopback_filters, tun_filters,
  dhcp_filters, ndp_filters, block_filters,
}
use wireroute_windows.Firewall.Blocker.Install.{rules}
use wireroute_windows.Firewall.Classifier.{Classifier, ClassifierLaws, fulfilled, stands_at}
use wireroute_windows.Firewall.Policy.{
  policy, is_service, is_dns, is_to_server, is_dhcp, is_ndp, is_needed,
}
use wireroute_windows.Firewall.Policy.Groups.{Group, decide}
use wireroute_windows.Firewall.Policy.Servers.{
  OnAddress, servers_v4-OnAddress, servers_v6-OnAddress, fulfilled-dns,
}

-- The four layers of connections, as opposed to those of link-layer frames.
unfoldable pub is_connection : Layer → Bool
is_connection outbound_mac_frame_native = false
is_connection inbound_mac_frame_native = false
is_connection _ = true

module _ (c : Classifier) (laws : ClassifierLaws c) (t : c.Traffic) where
  -- By the layer, so that the tests on it compute.
  hits_everywhere :
      (l : Layer) (f : Filter)
      → is_connection l ≡ true
      → any (λ g. stands_at g.layer_key l && fulfilled (c.holds t) g.conditions) (everywhere f)
        ≡ fulfilled (c.holds t) f.conditions
  unfolding is_connection
  hits_everywhere connect_v4 f h = ground arith
  hits_everywhere recv_accept_v4 f h = ground arith
  hits_everywhere connect_v6 f h = ground arith
  hits_everywhere recv_accept_v6 f h = ground arith
  hits_everywhere outbound_mac_frame_native f h = cc
  hits_everywhere inbound_mac_frame_native f h = cc

  any-matches :
      (fs : List Filter)
      → any (λ f. c.matches f t) fs
        ≡ any (λ f. stands_at f.layer_key (c.layer t) && fulfilled (c.holds t) f.conditions) fs
  any-matches [] = refl
  any-matches (f ∷ fs) = rw (laws.matches_lem f t, any-matches fs)

  everywhere-Group :
      (f : Filter) (w : ℕ) (v : Verdict) (b : Bool)
      → is_connection (c.layer t) ≡ true
      → f.weight ≡ uint8 w
      → f.action ≡ v
      → fulfilled (c.holds t) f.conditions ≡ b
      → Group c t w v b (everywhere f)
  everywhere-Group f w v b h p q r = record {
    uniform = ((p, q), ((p, q), ((p, q), ((p, q), tt))));
    hits = any-matches (everywhere f) ∙ hits_everywhere (c.layer t) f h ∙ r;
  }

  nothing-Group : (w : ℕ) (v : Verdict) → Group c t w v false []
  nothing-Group w v = record { uniform = tt; hits = refl }

  hits_dhcp :
      (l : Layer) (bo : BaseObjects)
      → any
          (λ g. stands_at g.layer_key l && fulfilled (c.holds t) g.conditions)
          (dhcp_filters bo 12)
        ≡ is_dhcp (c.holds t) l
  unfolding dhcp_v4_request dhcp_v4_response dhcp_v6_request dhcp_v6_response
  hits_dhcp connect_v4 bo = ground arith
  hits_dhcp recv_accept_v4 bo = ground arith
  hits_dhcp connect_v6 bo = ground arith
  hits_dhcp recv_accept_v6 bo = ground arith
  hits_dhcp outbound_mac_frame_native bo = refl
  hits_dhcp inbound_mac_frame_native bo = refl

  hits_ndp :
      (l : Layer) (bo : BaseObjects)
      → any (λ g. stands_at g.layer_key l && fulfilled (c.holds t) g.conditions) (ndp_filters bo 12)
        ≡ is_ndp (c.holds t) l
  unfolding ndp
  hits_ndp connect_v4 bo = refl
  hits_ndp recv_accept_v4 bo = refl
  hits_ndp connect_v6 bo = ground arith
  hits_ndp recv_accept_v6 bo = ground arith
  hits_ndp outbound_mac_frame_native bo = refl
  hits_ndp inbound_mac_frame_native bo = refl

  -- The weights and actions of the filters that permit one layer each.
  dhcp-Group :
      (bo : BaseObjects)
      → Group c t 12 permit (is_dhcp (c.holds t) (c.layer t)) (dhcp_filters bo 12)
  dhcp-Group bo = record {
    uniform = ((refl, refl), ((refl, refl), ((refl, refl), ((refl, refl), tt))));
    hits = any-matches (dhcp_filters bo 12) ∙ hits_dhcp (c.layer t) bo;
  }

  ndp-Group :
      (bo : BaseObjects) → Group c t 12 permit (is_ndp (c.holds t) (c.layer t)) (ndp_filters bo 12)
  ndp-Group bo = record {
    uniform = (
      (refl, refl),
      (
        (refl, refl),
        ((refl, refl), ((refl, refl), ((refl, refl), ((refl, refl), ((refl, refl), tt))))),
      ),
    );
    hits = any-matches (ndp_filters bo 12) ∙ hits_ndp (c.layer t) bo;
  }

  hits_allow :
      (l l1 l2 : Layer) (f : Filter) (cs : List Condition)
      → OnAddress cs
      → any
          (λ g. stands_at g.layer_key l && fulfilled (c.holds t) g.conditions)
          (allow_at f l1 l2 cs)
        ≡ ((stands_at (some l1) l || stands_at (some l2) l)
            && (is_dns (c.holds t) && any (c.holds t) cs))
  hits_allow l l1 l2 f [] h = ground arith
  hits_allow l l1 l2 f (r ∷ rs) h = ground (arith, fulfilled-dns (c.holds t) r rs h)

  abbrev test : Layer → Filter → Bool
  test l g = stands_at g.layer_key l && fulfilled (c.holds t) g.conditions

  abbrev first : BaseObjects → List Addr → List Filter
  first bo servers =
      allow_at (new_filter bo 15 [] permit) connect_v4 recv_accept_v4 (servers_v4 servers)

  abbrev second : BaseObjects → List Addr → List Filter
  second bo servers =
      allow_at (new_filter bo 15 [] permit) connect_v6 recv_accept_v6 (servers_v6 servers)

  hits_families :
      (l : Layer) (bo : BaseObjects) (servers : List Addr)
      → any (test l) (first bo servers ++ second bo servers) ≡ (
          (stands_at (some connect_v4) l || stands_at (some recv_accept_v4) l)
            && (is_dns (c.holds t) && any (c.holds t) (servers_v4 servers))
          || (stands_at (some connect_v6) l || stands_at (some recv_accept_v6) l)
            && (is_dns (c.holds t) && any (c.holds t) (servers_v6 servers)))
  hits_families l bo servers =
      let f = new_filter bo 15 [] permit in
      rw (
        any-append (test l) (first bo servers) (second bo servers),
        hits_allow l connect_v4 recv_accept_v4 f (servers_v4 servers)
            (servers_v4-OnAddress servers),
        hits_allow l connect_v6 recv_accept_v6 f (servers_v6 servers)
            (servers_v6-OnAddress servers),
      )

  -- Of the filters that allow DNS, those of the layer's family hold the servers of that family.
  hits_servers :
      (l : Layer) (bo : BaseObjects) (servers : List Addr)
      → is_connection l ≡ true
      → any (test l) (first bo servers ++ second bo servers)
        ≡ (is_dns (c.holds t) && is_to_server (c.holds t) l servers)
  unfolding is_connection
  hits_servers outbound_mac_frame_native bo servers h = cc
  hits_servers inbound_mac_frame_native bo servers h = cc
  hits_servers l bo servers h = hits_families l bo servers ∙ ground arith

  allow_at-uniform :
      (f : Filter) (l1 l2 : Layer) (cs : List Condition)
      → All (λ g. (g.weight ≡ f.weight) × (g.action ≡ f.action)) (allow_at f l1 l2 cs)
  allow_at-uniform f l1 l2 [] = tt
  allow_at-uniform f l1 l2 (r ∷ rs) = ((refl, refl), ((refl, refl), tt))

  servers-Group :
      (bo : BaseObjects) (servers : List Addr)
      → is_connection (c.layer t) ≡ true
      → Group c t 15 permit
          (is_dns (c.holds t) && is_to_server (c.holds t) (c.layer t) servers)
          (first bo servers ++ second bo servers)
  servers-Group bo servers h = record {
    uniform =
        All-append (λ f. (f.weight ≡ uint8 15) × (f.action ≡ permit)) (first bo servers)
          (second bo servers)
          (allow_at-uniform (new_filter bo 15 [] permit) connect_v4 recv_accept_v4
            (servers_v4 servers))
          (allow_at-uniform (new_filter bo 15 [] permit) connect_v6 recv_accept_v6
            (servers_v6 servers));
    hits =
        any-matches (first bo servers ++ second bo servers) ∙ hits_servers (c.layer t) bo servers h;
  }

  -- The groups that do not depend on the DNS servers.
  decide_rules :
      (bo : BaseObjects) (app sd : List ℕ) (luid : ℕ) (deny allow : List Filter) (bd bx : Bool)
      → is_connection (c.layer t) ≡ true
      → Group c t 14 block bd deny
      → Group c t 15 permit (bd && bx) allow
      → c.verdict
          (service_filters bo 15 app sd
            ++ ((deny ++ allow)
                ++ (loopback_filters bo 13
                    ++ (tun_filters bo 12 luid
                        ++ (dhcp_filters bo 12 ++ (ndp_filters bo 12 ++ block_filters bo 0))))))
          t
        ≡ (if is_service (c.holds t) app sd
            then permit
            else if bd
            then if bx then permit else block
            else if is_needed (c.holds t) (c.layer t) luid
            then permit
            else block)
  decide_rules bo app sd luid deny allow bd bx h gd ga =
      decide c laws t (service_filters bo 15 app sd) deny allow (loopback_filters bo 13)
        (tun_filters bo 12 luid) (dhcp_filters bo 12) (ndp_filters bo 12) (block_filters bo 0)
        (is_service (c.holds t) app sd) bd bx (c.holds t is_loopback)
        (c.holds t (on_interface luid)) (is_dhcp (c.holds t) (c.layer t))
        (is_ndp (c.holds t) (c.layer t))
        (everywhere-Group (service_filter bo 15 app sd) 15 permit _ h refl refl (ground arith)) gd
        ga
        (everywhere-Group (new_filter bo 13 (is_loopback ∷ []) permit) 13 permit _ h refl refl
          (ground arith))
        (everywhere-Group (new_filter bo 12 (on_interface luid ∷ []) permit) 12 permit _ h refl refl
          (ground arith))
        (dhcp-Group bo) (ndp-Group bo)
        (everywhere-Group (new_filter bo 0 [] block) 0 block _ h refl refl refl)

  -- With the rules of the restricted mode in force, each connection fares as the policy says.
  pub verdict-policy :
      (bo : BaseObjects) (app sd : List ℕ) (luid : ℕ) (servers : List Addr)
      → is_connection (c.layer t) ≡ true
      → c.verdict (rules bo app sd luid false servers) t
        ≡ policy (c.holds t) (c.layer t) app sd luid servers
  unfolding rules policy
  verdict-policy bo app sd luid [] h =
      decide_rules bo app sd luid [] [] false false h (nothing-Group 14 block)
        (nothing-Group 15 permit)
  verdict-policy bo app sd luid (x ∷ xs) h =
      decide_rules bo app sd luid (everywhere (new_filter bo 14 dns block))
        (first bo (x ∷ xs) ++ second bo (x ∷ xs)) (is_dns (c.holds t))
        (is_to_server (c.holds t) (c.layer t) (x ∷ xs)) h
        (everywhere-Group (new_filter bo 14 dns block) 14 block _ h refl refl
          (unfold dns in ground arith))
        (servers-Group bo (x ∷ xs) h)
