-- ===== src/Firewall/Enforced.antt =====
-- From `EnableFirewall` to the traffic: the two halves put together.
use wireroute_windows.Base.{ℕ, ◌≡◌, sym, ap, ◌∙◌, List, true, false}
use wireroute_windows.Base.Result.{ok}
use wireroute_windows.Firewall.Engine.{Engine, EngineLaws}
use wireroute_windows.Firewall.Rules.Conditions.{Addr}
use wireroute_windows.Firewall.Blocker.{World, enable_firewall}
use wireroute_windows.Firewall.Blocker.Install.{own_app_id, own_descriptor}
use wireroute_windows.Firewall.Blocker.Enable.{enable_firewall-Enforces}
use wireroute_windows.Firewall.Classifier.{Classifier, ClassifierLaws}
use wireroute_windows.Firewall.Policy.{policy}
use wireroute_windows.Firewall.Policy.Decides.{is_connection, verdict-policy}

-- After a restricting `EnableFirewall` that succeeded, every connection fares as the policy for this
-- interface and these DNS servers says, for any system that keeps the documented laws of sessions
-- and of filter arbitration.
pub enable_firewall-policy :
    (e : Engine) (laws : EngineLaws e) (c : Classifier) (claws : ClassifierLaws c) (luid : ℕ)
    (servers : List Addr) (w : World e) (t : c.Traffic)
    → (enable_firewall e luid false servers w).0 ≡ ok tt
    → is_connection (c.layer t) ≡ true
    → let w' = (enable_firewall e luid false servers w).1 in
      c.verdict (e.active w'.wfp_session w'.engine) t
      ≡ policy (c.holds t) (c.layer t) (own_app_id e) (own_descriptor e) luid servers
enable_firewall-policy e laws c claws luid servers w t p h =
    let w' = (enable_firewall e luid false servers w).1 in
    let (bo, in_force) = (enable_firewall-Enforces e laws luid false servers w p).1.1 in
    sym (claws.verdict-bare (e.active w'.wfp_session w'.engine) t)
    ∙ ap (λ fs. c.verdict fs t) in_force
    ∙ verdict-policy c claws t bo (own_app_id e) (own_descriptor e) luid servers h
