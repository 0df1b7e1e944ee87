-- ===== src/Manager/Tests/Samples.antt =====
-- A host in memory, a wire and a pipe, for the manager's theorems to be applied to.
use wireroute_windows.Base.{
  ℕ, ◌+◌, ◌-◌, ◌≡◌, refl, ap, ap₂, List, [], ◌∷◌, ◌++◌, map, Bool, true, false, length, any, take,
  none, some, if◌then◌else◌, arith, min,
}
use wireroute_windows.Base.Numbers.{pos}
use wireroute_windows.Base.Result.{Result, ok, err}
use wireroute_windows.Base.Text.{Text, codes, same, is_space}
use wireroute_windows.Conf.Config.{Config}
use wireroute_windows.Conf.Tests.Samples.{sample_config, sample_library}
use wireroute_windows.Manager.Display.{Encodings}
use wireroute_windows.Manager.Display.Laws.{IsLawful}
use wireroute_windows.Manager.Frames.Laws.{IsWriter}
use wireroute_windows.Manager.Host.{Error, system, svc_running, started, Host}
use wireroute_windows.Manager.Profiles.{Packages}
use wireroute_windows.Manager.Protocol.{Wire}
use wireroute_windows.Manager.Service.{Manager, ManagerService}

abbrev not_found : Error
not_found = system 2

unfoldable pub find_config : Text → List Config → Result Error Config
find_config name [] = err not_found
find_config name (c ∷ configs) =
    let rest = find_config name configs in if same c.name name then ok c else rest

-- The stored configurations; services are always running.
abbrev pub memory_host : Host (List Config)
memory_host = record {
  list_config_names = λ s. ok (map (λ c. c.name) s);
  load_from_name = λ s name. find_config name s;
  path = λ s c. ok c.name;
  service_manager = λ s. ok tt;
  open_service = λ s name. ok tt;
  query = λ s name. ok svc_running;
  save = λ c overwrite s. (ok tt, c ∷ s);
  delete_name = λ name s. (ok tt, []);
  install_tunnel = λ path s. (ok tt, s);
  uninstall_tunnel = λ name s. (ok tt, s);
}

abbrev pub sample_manager : Manager (List Config)
sample_manager = record {
  world = sample_config ∷ [];
  tracked_tunnels = (codes "wg0", started) ∷ [];
  have_quit = false;
  quit_signalled = false;
  registered = 1 ∷ [];
  to_stop = [];
}

abbrev pub administrator : ManagerService
administrator = record { id = 1; elevated_token = 5 }

abbrev pub user : ManagerService
user = record { id = 2; elevated_token = 0 }

-- Bytes are written as characters beyond the spaces, and texts are their own bytes.
abbrev pub shifted : Encodings
shifted = record {
  encode_to_string = map (λ b. b + 0x10000);
  decode_string = λ s. some (map (λ c. c - 0x10000) s);
  utf8 = λ s. s;
  text_of = some;
}

shifted_back : (bytes : List ℕ) → map (λ c. c - 0x10000) (map (λ b. b + 0x10000) bytes) ≡ bytes
shifted_back [] = refl
shifted_back (b ∷ bytes) = ap₂ (λ c d. c ∷ d) (omega arith) (shifted_back bytes)

no_space : (b : ℕ) → is_space (b + 0x10000) ≡ false
unfolding is_space
no_space b = ground arith

shifted_no_spaces : (bytes : List ℕ) → any is_space (map (λ b. b + 0x10000) bytes) ≡ false
shifted_no_spaces [] = refl
shifted_no_spaces (b ∷ bytes) = rw (no_space b) (shifted_no_spaces bytes)

pub shifted-IsLawful : IsLawful shifted
shifted-IsLawful = record {
  decoded = λ bytes. ap some (shifted_back bytes);
  no_spaces = shifted_no_spaces;
  text = λ s. refl;
  decoded_empty = refl;
  text_empty = refl;
}

abbrev pub sample_packages : Packages
sample_packages = record {
  encodings = shifted;
  library = sample_library;
  addr_text = λ a. codes "address";
  prefix_text = λ p. codes "prefix";
  is_punct = λ c. false;
  sort_slice = λ less names. names;
  scalar_base_mult = λ k. k;
}

-- Every frame is a request to stop a tunnel, whose name is the payload.
abbrev pub sample_wire : Wire
sample_wire = record {
  request = record {
    decode = λ payload. some (record {
      version = pos 1;
      request_id = pos 7;
      method = codes "tunnel.stop";
      parameters = payload;
    });
    has_more = λ payload. false;
  };
  hello = record { decode = λ s. none; has_more = λ s. false };
  nothing = record { decode = λ s. some tt; has_more = λ s. false };
  name = record { decode = some; has_more = λ s. false };
  import_profile = record { decode = λ s. none; has_more = λ s. false };
  stop_tunnels = record { decode = λ s. some true; has_more = λ s. false };
  marshal = λ response. some (codes "{}");
  version_number = codes "1.0";
}

-- A pipe that takes a thousand bytes at a time.
abbrev pub pipe : Text → Text → (ℕ × Bool) × Text
pipe w bytes = let n = min 1000 (length bytes) in ((n, false), w ++ take n bytes)

pub pipe-IsWriter : IsWriter pipe (λ w. w)
pipe-IsWriter w bytes = (omega arith, refl)

-- A name of two characters, and a frame that has it.
abbrev pub frame_of_two : Text
frame_of_two = 2 ∷ 0 ∷ 0 ∷ 0 ∷ b'w' ∷ b'g' ∷ []
