-- ===== src/Firewall/Policy/Servers.antt =====
-- The conditions of the filters that allow DNS: the servers are alternatives on one field.
use wireroute_windows.Base.{
  ℕ, ◌≡◌, refl, List, [], ◌∷◌, ◌++◌, Bool, true, ◌&&◌, ◌==◌, any, all, All, arith,
}
use wireroute_windows.Firewall.Types.{Condition}
use wireroute_windows.Firewall.Rules.Conditions.{
  dns, Addr, zero_addr, v4, v6, servers_v4, servers_v6,
}
use wireroute_windows.Firewall.Classifier.{fulfilled, met, key_number}
use wireroute_windows.Firewall.Policy.{is_dns}

-- Conditions on the remote address only.
abbrev pub OnAddress : List Condition → Type 0
OnAddress cs = All (λ c. key_number c.field_key ≡ 8) cs

pub servers_v4-OnAddress : (servers : List Addr) → OnAddress (servers_v4 servers)
unfolding servers_v4
servers_v4-OnAddress [] = tt
servers_v4-OnAddress (zero_addr ∷ r) = servers_v4-OnAddress r
servers_v4-OnAddress (v4 a b c d ∷ r) = (refl, servers_v4-OnAddress r)
servers_v4-OnAddress (v6 b z ∷ r) = servers_v4-OnAddress r

pub servers_v6-OnAddress : (servers : List Addr) → OnAddress (servers_v6 servers)
unfolding servers_v6
servers_v6-OnAddress [] = tt
servers_v6-OnAddress (zero_addr ∷ r) = servers_v6-OnAddress r
servers_v6-OnAddress (v4 a b c d ∷ r) = servers_v6-OnAddress r
servers_v6-OnAddress (v6 b z ∷ r) = (refl, servers_v6-OnAddress r)

module _ (holds : Condition → Bool) where
  met_key :
      (cs : List Condition) (k : ℕ)
      → OnAddress cs
      → any (λ d. (key_number d.field_key == k) && holds d) cs ≡ ((k == 8) && any holds cs)
  met_key [] k h = ground arith
  met_key (c ∷ cs) k h = ground (arith, met_key cs k h.1, h.0)

  -- Each condition on the address asks the same.
  all-met :
      (alternatives cs : List Condition) (b : Bool)
      → OnAddress cs
      → any (λ d. (key_number d.field_key == 8) && holds d) alternatives ≡ b
      → (cs ≡ [] → b ≡ true)
      → all (met holds alternatives) cs ≡ b
  all-met alternatives [] b h p q = ground (arith, q refl)
  all-met alternatives (c ∷ []) b h p q = rw (h.0, p) (ground arith)
  all-met alternatives (c ∷ d ∷ cs) b h p q =
      rw (h.0, p) (ground (arith, all-met alternatives (d ∷ cs) b h.1 p (λ e. cc)))

  pub fulfilled-dns :
      (c : Condition) (cs : List Condition)
      → OnAddress (c ∷ cs)
      → fulfilled holds (dns ++ (c ∷ cs)) ≡ (is_dns holds && any holds (c ∷ cs))
  unfolding dns
  fulfilled-dns c cs h =
      let to_servers : all (met holds (dns ++ (c ∷ cs))) (c ∷ cs) ≡ any holds (c ∷ cs) =
        all-met (dns ++ (c ∷ cs)) (c ∷ cs) (any holds (c ∷ cs)) h (met_key (c ∷ cs) 8 h)
          (λ e. cc) in
      ground (arith, met_key (c ∷ cs) 6 h, met_key (c ∷ cs) 4 h, to_servers)
