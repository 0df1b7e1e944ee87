-- ===== src/Firewall/Rules/Adds.antt =====
-- What each function of tunnel/firewall/rules.go adds to the open transaction, and to what is in
-- force.
use Prim.Native.String.{String}
use wireroute_windows.Base.{
  ℕ, ◌≡◌, refl, sym, ap, ◌∙◌, List, [], ◌∷◌, ◌++◌, map, append-nil, append_assoc, leb, lt→ltb,
  length, arith, Bool-cases, inl, inr,
}
use mathlib.Core.List.{map-append}
use wireroute_windows.Base.Result.{Result, ok, err, value_or}
use wireroute_windows.Base.Action.{Action, ret, fail, lift, for_each, continue, ◌>>=◌}
use wireroute_windows.Firewall.Types.{
  connect_v4, recv_accept_v4, connect_v6, recv_accept_v6, Layer, permit, Condition, Filter,
  BaseObjects, Error,
}
use wireroute_windows.Firewall.Engine.{Engine, IsOpen, Keeps, EngineLaws}
use wireroute_windows.Firewall.Rules.{
  new_filter, placed, create_display_data, add_filter, add_everywhere, permit_tun_interface,
  permit_wireguard_service, permit_loopback, permit_dhcp_ipv4, permit_dhcp_ipv6, permit_ndp,
  add_definition, FilterDefinition, block_all, allow_dns, block_dns,
}
use wireroute_windows.Firewall.Rules.Conditions.{
  dhcp_v4_request, dhcp_v4_response, dhcp_v6_request, dhcp_v6_response, dns, Addr, servers_v4,
  servers_v6,
}
use wireroute_windows.Firewall.Rules.Lists.{
  bare, at_layer, everywhere, allow_at, service_filters, dns_filters, loopback_filters, tun_filters,
  ndp_filters, block_filters, permit_at,
}

-- Up to their texts, the filters `fs` are what the action adds to an open transaction if it succeeds.
pub record Adds (e : Engine) (h : ℕ) {A : Type 0} (fs : List Filter) (m : Action e.State Error A)
    : Type 0 where
  pub adds :
      (s : e.State) (a : A)
      → IsOpen e h s
      → (m s).0 ≡ ok a
      → map bare (e.pending h (m s).1) ≡ map bare (e.pending h s) ++ fs
  pub stays : (s : e.State) (a : A) → IsOpen e h s → (m s).0 ≡ ok a → IsOpen e h (m s).1
  pub inert : (s : e.State) → IsOpen e h s → e.active h (m s).1 ≡ e.active h s

module _ (e : Engine) (h : ℕ) where
  pub Adds-lift : {A : Type 0} (r : Result Error A) → Adds e h [] (lift r)
  unfolding lift
  Adds-lift r = record {
    adds = λ s a o p. sym (append-nil _);
    stays = λ s a o p. o;
    inert = λ s o. refl;
  }

  pub Keeps-Adds :
      {A : Type 0} (fs : List Filter) (m : Action e.State Error A)
      → Keeps e h fs m
      → Adds e h (map bare fs) m
  Keeps-Adds fs m k = record {
    adds = λ s a o p. ap (map bare) (k.adds s o p) ∙ map-append bare (e.pending h s) fs;
    stays = λ s a o p. k.stays s o p;
    inert = k.inert;
  }

  module _ {A B : Type 0} (gs : A → List Filter) (k : A → Action e.State Error B)
      (adds : (a : A) → Adds e h (gs a) (k a)) where
    continue-Adds :
        (s : e.State) (r : Result Error A) (b : B)
        → ((a : A) → r ≡ ok a → IsOpen e h s)
        → (continue r s k).0 ≡ ok b
        → (a : A) × (r ≡ ok a)
          × (map bare (e.pending h (continue r s k).1) ≡ map bare (e.pending h s) ++ gs a)
    continue-Adds s (ok a) b o x = (a, refl, (adds a).adds s b (o a refl) x)
    continue-Adds s (err y) b o x = cc

    continue-stays :
        (s : e.State) (r : Result Error A) (b : B)
        → ((a : A) → r ≡ ok a → IsOpen e h s)
        → (continue r s k).0 ≡ ok b
        → IsOpen e h (continue r s k).1
    continue-stays s (ok a) b o x = (adds a).stays s b (o a refl) x
    continue-stays s (err y) b o x = cc

    continue-inert :
        (s : e.State) (r : Result Error A)
        → ((a : A) → r ≡ ok a → IsOpen e h s)
        → e.active h (continue r s k).1 ≡ e.active h s
    continue-inert s (ok a) o = (adds a).inert s (o a refl)
    continue-inert s (err y) o = refl

    -- What follows may add other filters for each value.
    pub >>=-inert :
        {fs : List Filter} (m : Action e.State Error A)
        → Adds e h fs m
        → (s : e.State) → IsOpen e h s
        → e.active h ((m >>= k) s).1 ≡ e.active h s
    unfolding ◌>>=◌
    >>=-inert m p s o = continue-inert (m s).1 (m s).0 (λ a. p.stays s a o) ∙ p.inert s o

    >>=-stays :
        {fs : List Filter} (m : Action e.State Error A)
        → Adds e h fs m
        → (s : e.State) (b : B) → IsOpen e h s
        → ((m >>= k) s).0 ≡ ok b
        → IsOpen e h ((m >>= k) s).1
    unfolding ◌>>=◌
    >>=-stays m p s b o x = continue-stays (m s).1 (m s).0 b (λ a. p.stays s a o) x

    pub >>=-Adds :
        {fs : List Filter} (m : Action e.State Error A)
        → Adds e h fs m
        → (s : e.State) (b : B) → IsOpen e h s
        → ((m >>= k) s).0 ≡ ok b
        → (a : A) × (map bare (e.pending h ((m >>= k) s).1)
            ≡ map bare (e.pending h s) ++ (fs ++ gs a))
    unfolding ◌>>=◌
    >>=-Adds {fs} m p s b o x =
        let (a, q, r) = continue-Adds (m s).1 (m s).0 b (λ a. p.stays s a o) x in
        (a, r ∙ ap (λ l. l ++ gs a) (p.adds s a o q) ∙ append_assoc _ fs (gs a))

  pub Adds->>= :
      {A B : Type 0} {fs gs : List Filter} {m : Action e.State Error A}
      {k : A → Action e.State Error B}
      → Adds e h fs m
      → ((a : A) → Adds e h gs (k a))
      → Adds e h (fs ++ gs) (m >>= k)
  Adds->>= {gs = gs} {m = m} {k = k} p q = record {
    adds = λ s b o x. (>>=-Adds (λ _. gs) k q m p s b o x).1;
    stays = >>=-stays (λ _. gs) k q m p;
    inert = >>=-inert (λ _. gs) k q m p;
  }

  pub Adds-ret : {A : Type 0} (a : A) → Adds e h [] (ret a)
  unfolding ret
  Adds-ret a = record {
    adds = λ s a o p. sym (append-nil _);
    stays = λ s a o p. o;
    inert = λ s o. refl;
  }

  -- A pure step that may fail: only its value matters to what follows.
  Adds-lift->>= :
      {A B : Type 0} {fs : List Filter} (d : A) (r : Result Error A)
      (k : A → Action e.State Error B)
      → Adds e h fs (k (value_or d r))
      → Adds e h fs (lift r >>= k)
  unfolding lift ◌>>=◌
  Adds-lift->>= d (ok a) k q = q
  Adds-lift->>= d (err x) k q = record {
    adds = λ s a o p. cc;
    stays = λ s a o p. cc;
    inert = λ s o. refl;
  }

  pub Adds-fail : (fs : List Filter) (x : Error) → Adds e h {A = Unit {0}} fs (fail x)
  unfolding fail
  Adds-fail fs x = record { adds = λ s a o p. cc; stays = λ s a o p. cc; inert = λ s o. refl }

  pub create_display_data-Adds : (n d : String) → Adds e h [] (create_display_data e n d)
  unfolding create_display_data
  create_display_data-Adds n d =
      Adds->>= (Adds-lift _) (λ a. Adds->>= (Adds-lift _) (λ b. Adds-ret _))

module _ (e : Engine) (laws : EngineLaws e) (h : ℕ) where
  filter_add-Adds : (f : Filter) → Adds e h (bare f ∷ []) (e.filter_add h f)
  filter_add-Adds f = Keeps-Adds e h (f ∷ []) (e.filter_add h f) (laws.filter_keeps h f)

  add_filter-Adds :
      (f : Filter) (n : String) (l : Layer)
      → Adds e h (bare (at_layer f l) ∷ []) (add_filter e h f n l)
  unfolding add_filter
  add_filter-Adds f n l =
      Adds->>= e h (create_display_data-Adds e h n "") (λ d. filter_add-Adds (placed f d l))

  add_everywhere-Adds :
      (f : Filter) (n1 n2 n3 n4 : String)
      → Adds e h (map bare (everywhere f)) (add_everywhere e h f n1 n2 n3 n4)
  unfolding add_everywhere
  add_everywhere-Adds f n1 n2 n3 n4 = Adds->>= e h (add_filter-Adds f n1 _) λ _.
      Adds->>= e h (add_filter-Adds f n2 _)
        λ _. Adds->>= e h (add_filter-Adds f n3 _) λ _. add_filter-Adds f n4 _

  module _ (bo : BaseObjects) (w : ℕ) where
    pub permit_tun_interface-Adds :
        (luid : ℕ) → Adds e h (tun_filters bo w luid) (permit_tun_interface e h bo w luid)
    unfolding permit_tun_interface
    permit_tun_interface-Adds luid = add_everywhere-Adds _ _ _ _ _

    pub permit_loopback-Adds : Adds e h (loopback_filters bo w) (permit_loopback e h bo w)
    unfolding permit_loopback
    permit_loopback-Adds = add_everywhere-Adds _ _ _ _ _

    pub block_all-Adds : Adds e h (block_filters bo w) (block_all e h bo w)
    unfolding block_all
    block_all-Adds = add_everywhere-Adds _ _ _ _ _

    pub permit_wireguard_service-Adds :
        Adds e h
          (service_filters bo w
            (value_or [] e.current_process_app_id)
            (value_or [] e.current_process_security_descriptor))
          (permit_wireguard_service e h bo w)
    unfolding permit_wireguard_service
    permit_wireguard_service-Adds =
        Adds-lift->>= e h [] _ _ (Adds-lift->>= e h [] _ _ (add_everywhere-Adds _ _ _ _ _))

    pub permit_dhcp_ipv4-Adds :
        Adds e h
          (permit_at bo w dhcp_v4_request connect_v4
            ∷ permit_at bo w dhcp_v4_response recv_accept_v4
            ∷ [])
          (permit_dhcp_ipv4 e h bo w)
    unfolding permit_dhcp_ipv4
    permit_dhcp_ipv4-Adds = Adds->>= e h (add_filter-Adds _ _ _) λ _. add_filter-Adds _ _ _

    pub permit_dhcp_ipv6-Adds :
        Adds e h
          (permit_at bo w dhcp_v6_request connect_v6
            ∷ permit_at bo w dhcp_v6_response recv_accept_v6
            ∷ [])
          (permit_dhcp_ipv6 e h bo w)
    unfolding permit_dhcp_ipv6
    permit_dhcp_ipv6-Adds = Adds->>= e h (add_filter-Adds _ _ _) λ _. add_filter-Adds _ _ _

    -- What one round of the loop of `permitNdp` adds.
    abbrev defined : FilterDefinition → Filter
    defined d = permit_at bo w d.conditions d.layer

    add_definition-Adds :
        (d : FilterDefinition) → Adds e h (defined d ∷ []) (add_definition e h bo w d)
    unfolding add_definition
    add_definition-Adds d = filter_add-Adds _

    add_definitions-Adds :
        (ds : List FilterDefinition)
        → Adds e h (map defined ds) (for_each ds (add_definition e h bo w))
    unfolding for_each
    add_definitions-Adds [] = Adds-ret e h tt
    add_definitions-Adds (d ∷ ds) =
        Adds->>= e h (add_definition-Adds d) λ _. add_definitions-Adds ds

    pub permit_ndp-Adds : Adds e h (ndp_filters bo w) (permit_ndp e h bo w)
    unfolding permit_ndp
    permit_ndp-Adds = Adds->>= e h (create_display_data-Adds e h _ _) λ a.
        Adds->>= e h (create_display_data-Adds e h _ _) λ b.
          Adds->>= e h (create_display_data-Adds e h _ _) λ c.
            Adds->>= e h (create_display_data-Adds e h _ _)
              λ d. Adds->>= e h (create_display_data-Adds e h _ _) λ f. add_definitions-Adds _

  allow_dns-Adds :
      (bo : BaseObjects) (w : ℕ) (cs : List Condition) (n1 : String) (l1 : Layer) (n2 : String)
      (l2 : Layer)
      → let f = new_filter bo w [] permit in
        Adds e h (allow_at f l1 l2 cs) (allow_dns e h f (dns ++ cs) n1 l1 n2 l2)
  unfolding allow_dns dns
  allow_dns-Adds bo w [] n1 l1 n2 l2 = Adds->>= e h (Adds-ret e h tt) λ _. Adds-ret e h tt
  allow_dns-Adds bo w (c ∷ cs) n1 l1 n2 l2 =
      rw (lt→ltb 3 (length (dns ++ (c ∷ cs))) (omega arith))
        (Adds->>= e h (add_filter-Adds _ _ _) λ _. add_filter-Adds _ _ _)

  pub block_dns-Adds :
      (except : List Addr) (bo : BaseObjects) (allow deny : ℕ)
      → Adds e h (dns_filters bo allow deny except) (block_dns e h except bo allow deny)
  unfolding block_dns
  block_dns-Adds except bo allow deny = elim (Bool-cases (leb allow deny)) [
    | inl bad ↦ rw bad (Adds-fail e h _ _)
    | inr good ↦ rw good (
        Adds->>= e h (add_everywhere-Adds _ _ _ _ _) λ _.
          Adds->>= e h (allow_dns-Adds bo allow (servers_v4 except) _ _ _ _)
            λ _. allow_dns-Adds bo allow (servers_v6 except) _ _ _ _)
  ]
