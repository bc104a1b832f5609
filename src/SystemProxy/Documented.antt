-- ===== src/SystemProxy/Documented.antt =====
-- What `networksetup` and the file system are documented to do, as hypotheses.
use deconstruct.Base.{
  ℕ, ◌<◌, ◌^◌, Text, codes, Bool, true, false, ◌&&◌, Option, none, some, [], ◌∷◌, ◌≡◌, ◌≢◌, text_eq,
  if◌then◌else◌,
}
use deconstruct.Base.Decimal.{ℤ, pos}
use deconstruct.Store.{done}
use deconstruct.SystemProxy.{ProxyConfig, ProxyState, Computer, on_off, itoa}
use deconstruct.SystemProxy.Reports.{IsSolid, report}

pub data Kind : Type 0 where
  web : Kind
  secure : Kind

abbrev pub same_kind : Kind → Kind → Bool
same_kind web web = true
same_kind web secure = false
same_kind secure web = false
same_kind secure secure = true

-- the configurations of all services
abbrev pub Proxies : Type 0
Proxies = Kind → Text → ProxyConfig

abbrev pub changed : Kind → Text → (ProxyConfig → ProxyConfig) → Proxies → Proxies
changed k s f proxies j t = if same_kind k j && text_eq s t then f (proxies j t) else proxies j t

abbrev pub set_flag : Kind → Text
set_flag web = codes "-setwebproxy"
set_flag secure = codes "-setsecurewebproxy"

abbrev pub state_flag : Kind → Text
state_flag web = codes "-setwebproxystate"
state_flag secure = codes "-setsecurewebproxystate"

abbrev pub get_flag : Kind → Text
get_flag web = codes "-getwebproxy"
get_flag secure = codes "-getsecurewebproxy"

abbrev pub Files : Type 0
Files = Text → Option Text

abbrev pub stored : Text → Option Text → Files → Files
stored path content files p = if text_eq path p then content else files p

-- setting a server turns the proxy on
abbrev pub set_to : Text → ℤ → ProxyConfig → ProxyConfig
set_to host port config = record { enabled = true; server = host; port = port }

abbrev pub turn : Bool → ProxyConfig → ProxyConfig
turn b config = record config { enabled = b }

-- a configuration as it can stand in the preferences of a computer
pub record IsPreference (config : ProxyConfig) : Type 0 where
  pub number : ℕ
  pub solid : IsSolid config.server
  pub fits : number < 2 ^ 63
  pub is_port : config.port ≡ pos number

-- What `networksetup` and the file system are documented to do when they succeed, in terms of the
-- proxies and the files of a state.
pub record Documented {W : Type 0} (computer : Computer W) : Type 0 where
  pub proxies : W → Proxies
  pub files : W → Files
  pub set_lem :
      (k : Kind) (service host : Text) (port : ℤ) (w v : W) (out : Text)
      → computer.run (codes "networksetup" ∷ set_flag k ∷ service ∷ host ∷ itoa port ∷ []) w
        ≡ (done out, v)
      → (proxies v ≡ changed k service (set_to host port) (proxies w)) × (files v ≡ files w)
  pub state_lem :
      (k : Kind) (service : Text) (b : Bool) (w v : W) (out : Text)
      → computer.run (codes "networksetup" ∷ state_flag k ∷ service ∷ on_off b ∷ []) w
        ≡ (done out, v)
      → (proxies v ≡ changed k service (turn b) (proxies w)) × (files v ≡ files w)
  pub get_lem :
      (k : Kind) (service : Text) (w v : W) (out : Text) (p : IsPreference (proxies w k service))
      → computer.run (codes "networksetup" ∷ get_flag k ∷ service ∷ []) w ≡ (done out, v)
      → (out ≡ report (proxies w k service).enabled (proxies w k service).server p.number)
        × (proxies v ≡ proxies w)
        × (files v ≡ files w)
  pub make_dir_lem :
      (w v : W) → computer.make_dir w ≡ (done tt, v) → (proxies v ≡ proxies w) × (files v ≡ files w)
  pub stat_lem : (path : Text) (w : W) → computer.stat path w ≡ done true → files w path ≢ none
  pub read_lem :
      (path content : Text) (w : W)
      → computer.read_file path w ≡ done content
      → files w path ≡ some content
  pub write_lem :
      (path content : Text) (w v : W)
      → computer.write_file path content w ≡ (done tt, v)
      → (proxies v ≡ proxies w) × (files v ≡ stored path (some content) (files w))
  pub remove_lem :
      (path : Text) (w v : W)
      → computer.remove path w ≡ (done tt, v)
      → (proxies v ≡ proxies w) × (files v ≡ stored path none (files w))
  pub coding :
      (state : ProxyState) (content : Text)
      → computer.marshal state ≡ done content
      → computer.unmarshal content ≡ done state
