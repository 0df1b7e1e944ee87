-- ===== src/Conf/RoundTrip/Fields.antt =====
-- conf/parser.go behind conf/writer.go: the fields of the two sections.
use wireroute_windows.Base.{
  ℕ, zero, suc, ◌<◌, ◌≡◌, refl, sym, ap, subst, inl, inr, ◌∙◌, [], ◌∷◌, ◌++◌, append-nil, map, Bool,
  true, false, not, ◌&&◌, ltb, all, some, arith,
}
use wireroute_windows.Base.Decimal.{itoa-IsToken}
use wireroute_windows.Base.Numbers.{itoa}
use wireroute_windows.Base.Pieces.{IsTrimmed}
use wireroute_windows.Base.Result.{ok}
use wireroute_windows.Base.Text.{
  Text, codes, same, same_iff, contains, is_empty, is_space, trim_left, trim_right, trim_space,
}
use wireroute_windows.Conf.Config.{Interface, Peer}
use wireroute_windows.Conf.Config.Operations.{no_comments}
use wireroute_windows.Conf.Name.{ascii_lower}
use wireroute_windows.Conf.Parser.{Library}
use wireroute_windows.Conf.Parser.Comments.{add_line_comments, comments_of}
use wireroute_windows.Conf.Parser.Quick.{
  Parsing, at_start, in_interface_section, in_peer_section, is_script_key, set_key, set_interface,
  set_peer, is_not_in_a_section, parse_line,
}
use wireroute_windows.Conf.Parser.Quick.Keys.{
  InterfaceKey, PeerKey, find_key, interface_keys, peer_keys, set_known_interface_key,
  set_interface_key, set_known_peer_key, set_peer_key,
}
use wireroute_windows.Conf.RoundTrip.{IsLawful, IsScript}
use wireroute_windows.Conf.RoundTrip.Lines.{
  Moves, Moves-line, IsKeyName, line_of, line_of_lem, line_no_newline, parse_line-value,
  parse_line-script,
}
use wireroute_windows.Conf.RoundTrip.Values.{IsValue, IsToken-IsValue}
use wireroute_windows.Conf.Writer.{
  Printer, write_field, write_line, write_number, write_script, lines_of,
}

-- The keys as the writer spells them.
abbrev pub interface_name : InterfaceKey → Text
interface_name InterfaceKey.private_key = codes "PrivateKey"
interface_name InterfaceKey.listen_port = codes "ListenPort"
interface_name InterfaceKey.mtu = codes "MTU"
interface_name InterfaceKey.address = codes "Address"
interface_name InterfaceKey.dns = codes "DNS"
interface_name InterfaceKey.pre_up = codes "PreUp"
interface_name InterfaceKey.post_up = codes "PostUp"
interface_name InterfaceKey.pre_down = codes "PreDown"
interface_name InterfaceKey.post_down = codes "PostDown"
interface_name InterfaceKey.table = codes "Table"

abbrev pub peer_name : PeerKey → Text
peer_name PeerKey.public_key = codes "PublicKey"
peer_name PeerKey.preshared_key = codes "PresharedKey"
peer_name PeerKey.allowed_ips = codes "AllowedIPs"
peer_name PeerKey.persistent_keepalive = codes "PersistentKeepalive"
peer_name PeerKey.endpoint = codes "Endpoint"

abbrev pub is_script : InterfaceKey → Bool
is_script InterfaceKey.pre_up = true
is_script InterfaceKey.post_up = true
is_script InterfaceKey.pre_down = true
is_script InterfaceKey.post_down = true
is_script _ = false

-- The tests of `IsKeyName`, which these pass by computing.
unfoldable spells : (name : Text) → Bool
spells name =
    not (is_empty name)
    && same (trim_left is_space name) name
    && same (trim_space (name ++ codes " ")) name
    && not (contains b'=' name)
    && not (contains b'#' name)
    && not (contains b'\n' name)
    && all (λ c. ltb c 128) name

abbrev lowered : Text → Text
lowered name = map ascii_lower name

interface_name_lem :
    (k : InterfaceKey)
    → (spells (interface_name k) ≡ true)
      × (find_key (lowered (interface_name k)) interface_keys ≡ some k)
      × (is_script_key (lowered (interface_name k)) ≡ is_script k)
unfolding spells same is_space trim_left trim_right trim_space contains ascii_lower find_key
    is_script_key
interface_name_lem InterfaceKey.private_key = (refl, refl, refl)
interface_name_lem InterfaceKey.listen_port = (refl, refl, refl)
interface_name_lem InterfaceKey.mtu = (refl, refl, refl)
interface_name_lem InterfaceKey.address = (refl, refl, refl)
interface_name_lem InterfaceKey.dns = (refl, refl, refl)
interface_name_lem InterfaceKey.pre_up = (refl, refl, refl)
interface_name_lem InterfaceKey.post_up = (refl, refl, refl)
interface_name_lem InterfaceKey.pre_down = (refl, refl, refl)
interface_name_lem InterfaceKey.post_down = (refl, refl, refl)
interface_name_lem InterfaceKey.table = (refl, refl, refl)

peer_name_lem :
    (k : PeerKey)
    → (spells (peer_name k) ≡ true)
      × (find_key (lowered (peer_name k)) peer_keys ≡ some k)
      × (is_script_key (lowered (peer_name k)) ≡ false)
unfolding spells same is_space trim_left trim_right trim_space contains ascii_lower find_key
    is_script_key
peer_name_lem PeerKey.public_key = (refl, refl, refl)
peer_name_lem PeerKey.preshared_key = (refl, refl, refl)
peer_name_lem PeerKey.allowed_ips = (refl, refl, refl)
peer_name_lem PeerKey.persistent_keepalive = (refl, refl, refl)
peer_name_lem PeerKey.endpoint = (refl, refl, refl)

module _ (lib : Library) (printer : Printer) (law : IsLawful lib printer) where
  spells-IsKeyName : (name : Text) → spells name ≡ true → IsKeyName lib name (lowered name)
  unfolding spells
  spells-IsKeyName name h = record {
    nonempty = ground arith;
    begins = ground (arith, same_iff (trim_left is_space name) name);
    ends = ground (arith, same_iff (trim_space (name ++ codes " ")) name);
    no_equals = ground arith;
    no_sharp = ground arith;
    no_newline = ground arith;
    lower = law.lower name (ground arith);
  }

write_field_present :
    (name v : Text) → write_field no_comments name true v ≡ line_of name v ++ codes "\n"
unfolding write_field write_line lines_of comments_of
write_field_present name v =
    ap (λ r. r ++ codes "\n") (append-nil (name ++ codes " = " ++ v) ∙ line_of_lem name v)

pub write_field_absent : (name v : Text) → write_field no_comments name false v ≡ []
unfolding write_field comments_of
write_field_absent name v = refl

-- The parser within the section of an interface, and of a peer.
abbrev pub inside : Interface → Bool → Parsing
inside i seen = record at_start {
  parser_state = in_interface_section;
  interface = i;
  saw_private_key = seen;
}

abbrev pub with_peer : Parsing → Peer → Parsing
with_peer st p = record st { parser_state = in_peer_section; peer = some p; pending_comments = [] }

module _ (lib : Library) where
  set_key-inside :
      (k : InterfaceKey) (key v : Text) (i j : Interface) (seen saw : Bool)
      → find_key key interface_keys ≡ some k
      → set_known_interface_key lib k v i seen ≡ ok (j, saw)
      → set_key in_interface_section lib key v [] (inside i seen) ≡ ok (inside j saw)
  unfolding set_key set_interface set_interface_key add_line_comments
  set_key-inside k key v i j seen saw h e = rw h (rw e refl)

  set_key-with_peer :
      (k : PeerKey) (key v : Text) (st : Parsing) (p q : Peer)
      → find_key key peer_keys ≡ some k
      → set_known_peer_key lib k v p ≡ ok q
      → set_key in_peer_section lib key v [] (with_peer st p) ≡ ok (with_peer st q)
  unfolding set_key set_peer set_peer_key add_line_comments
  set_key-with_peer k key v st p q h e = rw h (rw e refl)

module _ (lib : Library) (printer : Printer) (law : IsLawful lib printer) where
  -- A field that is written moves the parser as its line does.
  Moves-field :
      (name v : Text) (st next : Parsing)
      → spells name ≡ true
      → contains b'\n' v ≡ false
      → parse_line lib st (line_of name v) ≡ ok next
      → Moves lib st (write_field no_comments name true v) next
  Moves-field name v st next s n e =
      let named = spells-IsKeyName lib printer law name s in
      subst (λ text. Moves lib st text next) (sym (write_field_present name v))
        (Moves-line lib st next (line_of name v) (line_no_newline lib name (lowered name) named v n)
          e)

  pub Moves-interface_field :
      (k : InterfaceKey) (v : Text) (i j : Interface) (seen saw : Bool)
      → is_script k ≡ false
      → IsValue v
      → set_known_interface_key lib k v i seen ≡ ok (j, saw)
      → Moves lib (inside i seen) (write_field no_comments (interface_name k) true v) (inside j saw)
  Moves-interface_field k v i j seen saw no_script value e =
      let name = interface_name k in
      let (spelled, found, script) = interface_name_lem k in
      let named = spells-IsKeyName lib printer law name spelled in
      Moves-field name v (inside i seen) (inside j saw) spelled value.2 (
        parse_line-value lib name (lowered name) named v (inside i seen) value (script ∙ no_script)
          (unfold is_not_in_a_section in refl)
        ∙ set_key-inside lib k (lowered name) v i j seen saw found e)

  pub Moves-script_field :
      (k : InterfaceKey) (v : Text) (i j : Interface) (seen saw : Bool)
      → is_script k ≡ true
      → IsTrimmed v
      → contains b'\n' v ≡ false
      → set_known_interface_key lib k v i seen ≡ ok (j, saw)
      → Moves lib (inside i seen) (write_field no_comments (interface_name k) true v) (inside j saw)
  Moves-script_field k v i j seen saw is t n e =
      let name = interface_name k in
      let (spelled, found, script) = interface_name_lem k in
      let named = spells-IsKeyName lib printer law name spelled in
      Moves-field name v (inside i seen) (inside j saw) spelled n (
        parse_line-script lib name (lowered name) named v (inside i seen) t (script ∙ is)
          (unfold is_not_in_a_section in refl)
        ∙ set_key-inside lib k (lowered name) v i j seen saw found e)

  pub Moves-peer_field :
      (k : PeerKey) (v : Text) (st : Parsing) (p q : Peer)
      → IsValue v
      → set_known_peer_key lib k v p ≡ ok q
      → Moves lib (with_peer st p) (write_field no_comments (peer_name k) true v) (with_peer st q)
  Moves-peer_field k v st p q value e =
      let name = peer_name k in
      let (spelled, found, script) = peer_name_lem k in
      let named = spells-IsKeyName lib printer law name spelled in
      Moves-field name v (with_peer st p) (with_peer st q) spelled value.2 (
        parse_line-value lib name (lowered name) named v (with_peer st p) value script
          (unfold is_not_in_a_section in refl)
        ∙ set_key-with_peer lib k (lowered name) v st p q found e)

  pub Moves-nothing : (st : Parsing) → Moves lib st [] st
  Moves-nothing st = record { behind = λ rest. refl }

  -- A field that is left out does nothing.
  pub Moves-absent :
      (name v : Text) (st : Parsing) → Moves lib st (write_field no_comments name false v) st
  Moves-absent name v st =
      subst (λ text. Moves lib st text st) (sym (write_field_absent name v)) (Moves-nothing st)

  -- A number that is 0 is left out.
  pub Moves-number :
      (k : InterfaceKey) (set : ℕ → Interface) (n : ℕ) (seen : Bool)
      → is_script k ≡ false
      → (0 < n → set_known_interface_key lib k (itoa n) (set 0) seen ≡ ok (set n, seen))
      → Moves lib
          (inside (set 0) seen)
          (write_number no_comments (interface_name k) n)
          (inside (set n) seen)
  unfolding write_number
  Moves-number k set zero seen script e =
      Moves-absent (interface_name k) (itoa 0) (inside (set 0) seen)
  Moves-number k set (suc n) seen script e =
      let positive : ltb 0 (suc n) ≡ true = ground arith in
      rw positive (
        Moves-interface_field k (itoa (suc n)) (set 0) (set (suc n)) seen seen script
          (IsToken-IsValue (itoa (suc n)) (itoa-IsToken (suc n))) (e (omega arith)))

  pub Moves-peer_number :
      (k : PeerKey) (st : Parsing) (set : ℕ → Peer) (n : ℕ)
      → set_known_peer_key lib k (itoa n) (set 0) ≡ ok (set n)
      → Moves lib
          (with_peer st (set 0))
          (write_number no_comments (peer_name k) n)
          (with_peer st (set n))
  unfolding write_number
  Moves-peer_number k st set zero e = Moves-absent (peer_name k) (itoa 0) (with_peer st (set 0))
  Moves-peer_number k st set (suc n) e =
      let positive : ltb 0 (suc n) ≡ true = ground arith in
      rw positive (
        Moves-peer_field k (itoa (suc n)) st (set 0) (set (suc n))
          (IsToken-IsValue (itoa (suc n)) (itoa-IsToken (suc n))) e)

  -- A script that is empty is left out.
  pub Moves-script :
      (k : InterfaceKey) (set : Text → Interface) (v : Text) (seen : Bool)
      → is_script k ≡ true
      → IsScript v
      → set_known_interface_key lib k v (set []) seen ≡ ok (set v, seen)
      → Moves lib
          (inside (set []) seen)
          (write_script no_comments (interface_name k) v)
          (inside (set v) seen)
  unfolding write_script
  Moves-script k set [] seen script h e = Moves-absent (interface_name k) [] (inside (set []) seen)
  Moves-script k set (c ∷ v) seen script (inl h) e = absurd (ground arith)
  Moves-script k set (c ∷ v) seen script (inr (t, n)) e =
      Moves-script_field k (c ∷ v) (set []) (set (c ∷ v)) seen seen script t n e
