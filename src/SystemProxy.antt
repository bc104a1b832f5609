-- ===== src/SystemProxy.antt =====
-- daemon/internal/systemproxy/systemproxy.go: the proxy of the operating system, which is set for a
-- network service and later put back as it was.
pub mod Reports
pub mod Documented
pub mod Steps
pub mod Restore
mod Lab
mod Examples
use deconstruct.Base.{
  ℕ, suc, Text, codes, Bool, true, false, Option, none, some, List, [], ◌∷◌, ◌++◌, ◌==◌, ◌||◌, not,
  is_empty, map, text_eq, equal_fold, trim_space, split_on, cut, if◌then◌else◌,
}
use deconstruct.Base.Decimal.{ℤ, pos, negsuc, decimal, atoi}
use deconstruct.Action.{Action, ◌>>=◌, fail, yield, look}
use deconstruct.Store.{Result, done, failed}

pub record ProxyConfig : Type 0 where
  pub enabled : Bool
  pub server : Text
  pub port : ℤ

pub record ProxyState : Type 0 where
  pub service : Text
  pub http : ProxyConfig
  pub https : ProxyConfig

-- The operating system and `encoding/json`: `run` is the runner of commands, a command with its
-- arguments; `stat` says whether a file is there; `path_in` is `filepath.Join` with the directory for
-- saved states; `remove` of a file that is not there succeeds, as `Disable` takes it.
pub record Computer (W : Type 0) : Type 0 where
  pub run : List Text → Action W Text
  pub make_dir : Action W Unit
  pub path_in : Text → Text
  pub stat : Text → W → Result Bool
  pub read_file : Text → W → Result Text
  pub write_file : Text → Text → Action W Unit
  pub remove : Text → Action W Unit
  pub marshal : ProxyState → Result Text
  pub unmarshal : Text → Result ProxyState

unfoldable pub on_off : Bool → Text
on_off true = codes "on"
on_off false = codes "off"

abbrev pub no_config : ProxyConfig
no_config = record { enabled = false; server = []; port = pos 0 }

-- the switch on the name of a line of a report
unfoldable pub set_line : Text → Text → ProxyConfig → ProxyConfig
set_line key value config =
    if text_eq key (codes "Enabled")
    then record config { enabled = equal_fold value (codes "Yes") }
    else if text_eq key (codes "Server")
    then record config { server = value }
    else if text_eq key (codes "Port")
    then elim (atoi value) [ none ↦ config | some p ↦ record config { port = p } ]
    else config

unfoldable pub read_line : Text → ProxyConfig → ProxyConfig
read_line line config =
    let (key, value, found) = cut b':' line in
    if found then set_line (trim_space key) (trim_space value) config else config

unfoldable pub read_lines : List Text → ProxyConfig → ProxyConfig
read_lines [] config = config
read_lines (line ∷ lines) config = read_lines lines (read_line line config)

unfoldable pub parse_network_setup_proxy : Text → ProxyConfig
parse_network_setup_proxy output = read_lines (split_on 10 output) no_config

-- `strconv.Itoa`
unfoldable pub itoa : ℤ → Text
itoa (pos n) = decimal n
itoa (negsuc n) = b'-' ∷ decimal (suc n)

unfoldable pub is_positive : ℤ → Bool
is_positive (pos n) = not (n == 0)
is_positive (negsuc n) = false

-- one byte of the replacer of slashes and blanks
unfoldable pub plain_byte : ℕ → ℕ
plain_byte c = if (c == b'/') || (c == 32) then b'_' else c

unfoldable pub state_name : Text → Text
unfolding plain_byte
state_name service = map plain_byte service ++ codes ".json"

-- the error of a step under a heading
unfoldable pub titled : {W A : Type 0} → Text → Action W A → Action W A
titled title m w = elim (m w).0 [
  | done a ↦ (done a, (m w).1)
  | failed e ↦ (failed (title ++ (codes ": " ++ e)), (m w).1)
]

-- a configuration that can be set again
unfoldable pub is_settable : ProxyConfig → Bool
is_settable config = if is_empty config.server then false else is_positive config.port

module _ {W : Type 0} (computer : Computer W) where
  unfoldable pub command : Text → List Text → Action W Text
  command title args = titled title (computer.run (codes "networksetup" ∷ args))

  unfoldable pub state_path : Text → Text
  state_path service = computer.path_in (state_name service)

  unfoldable pub read_one : Text → Text → Action W ProxyConfig
  read_one service flag = do
    output ← command (codes "read proxy state") (flag ∷ service ∷ [])
    yield (parse_network_setup_proxy output)

  unfoldable pub read : Text → Action W ProxyState
  read service = do
    http ← read_one service (codes "-getwebproxy")
    https ← read_one service (codes "-getsecurewebproxy")
    yield (record { service = service; http = http; https = https })

  unfoldable pub save : Text → Action W Unit
  save service = do
    state ← read service
    content ← titled (codes "marshal system proxy state") (look (λ w. computer.marshal state))
    titled (codes "write system proxy state") (computer.write_file (state_path service) content)

  -- the state is saved unless there is a saved one
  unfoldable pub save_once : Text → Action W Unit
  save_once service = do
    there ← titled (codes "stat system proxy state") (look (computer.stat (state_path service)))
    (if there then yield tt else save service)

  unfoldable pub set_proxies : Text → Text → Text → Action W Unit
  set_proxies service host port = do
    _ ← command (codes "set web proxy") (codes "-setwebproxy" ∷ service ∷ host ∷ port ∷ [])
    _ ←
        command (codes "set secure web proxy")
          (codes "-setsecurewebproxy" ∷ service ∷ host ∷ port ∷ [])
    _ ← command (codes "enable web proxy") (codes "-setwebproxystate" ∷ service ∷ codes "on" ∷ [])
    _ ←
        command (codes "enable secure web proxy")
          (codes "-setsecurewebproxystate" ∷ service ∷ codes "on" ∷ [])
    yield tt

  unfoldable pub enable : Text → Text → ℤ → Action W Unit
  enable service host port =
      if is_empty service
      then fail (codes "service is required")
      else if is_empty host
      then fail (codes "host is required")
      else if is_positive port
      then (do
        _ ← titled (codes "create system proxy state dir") computer.make_dir
        _ ← save_once service
        set_proxies service host (itoa port))
      else fail (codes "port must be positive")

  -- one of the two halves of `apply`
  unfoldable pub restore : Text → Text → Text → Text → Text → ProxyConfig → Action W Unit
  restore set_title set_flag state_title state_flag service config = do
    _ ←
        (if is_settable config
          then command set_title (set_flag ∷ service ∷ config.server ∷ itoa config.port ∷ [])
          else yield [])
    _ ← command state_title (state_flag ∷ service ∷ on_off config.enabled ∷ [])
    yield tt

  unfoldable pub apply : ProxyState → Action W Unit
  apply state = do
    _ ←
        restore (codes "restore web proxy") (codes "-setwebproxy") (codes "restore web proxy state")
          (codes "-setwebproxystate") state.service state.http
    restore (codes "restore secure web proxy") (codes "-setsecurewebproxy")
        (codes "restore secure web proxy state") (codes "-setsecurewebproxystate") state.service
        state.https

  unfoldable pub disable : Text → Action W Unit
  disable service = if is_empty service then fail (codes "service is required") else (do
    content ←
        titled (codes "read system proxy state") (look (computer.read_file (state_path service)))
    state ← titled (codes "decode system proxy state") (look (λ w. computer.unmarshal content))
    _ ← apply state
    titled (codes "remove system proxy state") (computer.remove (state_path service)))
