-- ===== src/Firewall/Classifier.antt =====
-- How Windows applies the filters of one sublayer, as an interface with the rules that the WFP
-- documentation states: a filter matches if it stands at the traffic's layer and, for each field
-- among its conditions, one of the conditions on that field holds; of the filters that match, those
-- of the greatest weight decide.
use wireroute_windows.Base.{
  ℕ, ◌≤◌, ◌≡◌, List, Bool, true, false, ◌&&◌, ◌==◌, Option, none, some, any, all, All, map,
}
use wireroute_windows.Firewall.Types.{
  Layer, connect_v4, recv_accept_v4, connect_v6, recv_accept_v6, outbound_mac_frame_native,
  inbound_mac_frame_native, FieldKey, ip_local_interface, ale_app_id, ale_user_id, condition_flags,
  ip_protocol, ip_local_port, ip_remote_port, ip_local_address, ip_remote_address, l2_flags, Value,
  uint8, Condition, Verdict, Filter,
}
use wireroute_windows.Firewall.Rules.Lists.{bare}

abbrev pub key_number : FieldKey → ℕ
key_number ip_local_interface = 0
key_number ale_app_id = 1
key_number ale_user_id = 2
key_number condition_flags = 3
key_number ip_protocol = 4
key_number ip_local_port = 5
key_number ip_remote_port = 6
key_number ip_local_address = 7
key_number ip_remote_address = 8
key_number l2_flags = 9

abbrev pub layer_number : Layer → ℕ
layer_number connect_v4 = 0
layer_number recv_accept_v4 = 1
layer_number connect_v6 = 2
layer_number recv_accept_v6 = 3
layer_number outbound_mac_frame_native = 4
layer_number inbound_mac_frame_native = 5

abbrev pub stands_at : Option Layer → Layer → Bool
stands_at none l = false
stands_at (some k) l = layer_number k == layer_number l

abbrev pub weight_number : Value → ℕ
weight_number (uint8 w) = w
weight_number _ = 0

-- Conditions on one field are alternatives; all fields must be met.
module _ (holds : Condition → Bool) where
  abbrev pub met : List Condition → Condition → Bool
  met cs c = any (λ d. (key_number d.field_key == key_number c.field_key) && holds d) cs

  abbrev pub fulfilled : List Condition → Bool
  fulfilled cs = all (met cs) cs

pub record Classifier : Type 1 where
  pub Traffic : Type 0
  pub layer : Traffic → Layer
  pub holds : Traffic → Condition → Bool
  pub matches : Filter → Traffic → Bool
  pub verdict : List Filter → Traffic → Verdict

module _ (c : Classifier) where
  abbrev pub Agrees : c.Traffic → ℕ → Verdict → Filter → Type 0
  Agrees t w v f = c.matches f t ≡ true → w ≤ weight_number f.weight → f.action ≡ v

  -- Some filter of weight `w` matches, and all matching ones of that weight or more say `v`.
  pub record Decided (t : c.Traffic) (w : ℕ) (v : Verdict) (fs : List Filter) : Type 0 where
    pub some_matches : any (λ f. (weight_number f.weight == w) && c.matches f t) fs ≡ true
    pub others_agree : All (Agrees t w v) fs

  pub record ClassifierLaws : Type 0 where
    pub matches_lem :
        (f : Filter) (t : c.Traffic)
        → c.matches f t ≡ (stands_at f.layer_key (c.layer t) && fulfilled (c.holds t) f.conditions)
    pub verdict_lem :
        (fs : List Filter) (t : c.Traffic) (w : ℕ) (v : Verdict)
        → Decided t w v fs
        → c.verdict fs t ≡ v
    -- The texts of the filters do not matter.
    pub verdict-bare :
        (fs : List Filter) (t : c.Traffic) → c.verdict (map bare fs) t ≡ c.verdict fs t
