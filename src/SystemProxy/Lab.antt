-- ===== src/SystemProxy/Lab.antt =====
-- A small computer for tests: the commands act on two tables.
use deconstruct.Base.{
  Text, codes, Bool, true, false, ◌&&◌, Option, none, some, List, [], ◌∷◌, ◌++◌, ◌==◌, ◌≡◌, ◌≢◌,
  refl, sym, ap, ◌∙◌, arith, inl, inr, Option-cases, text_eq, text_eq_sound, if◌then◌else◌, All,
}
use deconstruct.Base.Decimal.{
  ℤ, pos, negsuc, decimal, atoi, atoi-decimal-some, decimal-ne-nil, decimal-IsDigit, IsDigit,
}
use deconstruct.Action.{Action}
use deconstruct.Store.{Result, done, failed}
use deconstruct.SystemProxy.{ProxyConfig, ProxyState, Computer, on_off, itoa}
use deconstruct.SystemProxy.Reports.{report}
use deconstruct.SystemProxy.Documented.{
  Kind, web, secure, Proxies, changed, set_flag, state_flag, get_flag, Files, stored, set_to, turn,
  IsPreference, Documented,
}

abbrev pub Mac : Type 0
Mac = Proxies × Files

-- a port on the command line
abbrev port_of : Text → Option ℤ
port_of [] = none
port_of (c ∷ s) = if c == b'-' then none else atoi (c ∷ s)

abbrev set_proxy : Kind → Text → List Text → Action Mac Text
set_proxy k service (host ∷ port ∷ []) (ps, fs) = elim (port_of port) [
  | none ↦ (failed (codes "bad port"), (ps, fs))
  | some n ↦ (done [], (changed k service (set_to host n) ps, fs))
]
set_proxy k service args m = (failed (codes "usage"), m)

abbrev set_state : Kind → Text → List Text → Action Mac Text
set_state k service (b ∷ []) (ps, fs) =
    (done [], (changed k service (turn (text_eq b (codes "on"))) ps, fs))
set_state k service args m = (failed (codes "usage"), m)

abbrev get_proxy : Kind → Text → Action Mac Text
get_proxy k service (ps, fs) = elim (ps k service).port [
  | pos n ↦ (done (report (ps k service).enabled (ps k service).server n), (ps, fs))
  | negsuc n ↦ (failed (codes "bad preference"), (ps, fs))
]

abbrev perform : Text → Text → List Text → Action Mac Text
perform flag service args =
    if text_eq flag (codes "-setwebproxy")
    then set_proxy web service args
    else if text_eq flag (codes "-setsecurewebproxy")
    then set_proxy secure service args
    else if text_eq flag (codes "-setwebproxystate")
    then set_state web service args
    else if text_eq flag (codes "-setsecurewebproxystate")
    then set_state secure service args
    else if text_eq flag (codes "-getwebproxy")
    then get_proxy web service
    else get_proxy secure service

abbrev run_command : List Text → Action Mac Text
run_command (name ∷ flag ∷ service ∷ args) = perform flag service args
run_command args = λ m. (failed (codes "usage"), m)

-- the one state that this computer can write down
abbrev pub old : ProxyConfig
old = record { enabled = false; server = codes "p"; port = pos 80 }

abbrev pub known : Text → ProxyState
known service = record { service = service; http = old; https = old }

abbrev is_old : ProxyConfig → Bool
is_old config = elim config.enabled [
  | true ↦ false
  | false ↦ elim config.port [
    | pos n ↦ if n == 80 then text_eq config.server (codes "p") else false
    | negsuc n ↦ false
  ]
]

abbrev write_down : ProxyState → Result Text
write_down state =
    if is_old state.http && is_old state.https then done state.service else failed (codes "unknown")

abbrev found : Option Text → Result Text
found none = failed (codes "no such file")
found (some content) = done content

abbrev is_there : Option Text → Bool
is_there none = false
is_there (some content) = true

abbrev pub mac : Computer Mac
mac = record {
  run = run_command;
  make_dir = λ m. (done tt, m);
  path_in = λ name. codes "/state/" ++ name;
  stat = λ path m. done (is_there (m.1 path));
  read_file = λ path m. found (m.1 path);
  write_file = λ path content m. (done tt, (m.0, stored path (some content) m.1));
  remove = λ path m. (done tt, (m.0, stored path none m.1));
  marshal = write_down;
  unmarshal = λ content. done (known content);
}

is_old_sound :
    (b : Bool) (server : Text) (port : ℤ)
    → is_old (record { enabled = b; server = server; port = port }) ≡ true
    → record { enabled = b; server = server; port = port } ≡ old
is_old_sound true server port h = absurd (ground (arith, h))
is_old_sound false server (negsuc n) h = absurd (ground (arith, h))
is_old_sound false server (pos n) h =
    let n_eq : n ≡ 80 = ground (arith, h) in
    let server_eq : server ≡ codes "p" = text_eq_sound server (codes "p") (ground (arith, h)) in
    ap (λ s. record { enabled = false; server = s; port = pos n }) server_eq
    ∙ ap (λ m. record { enabled = false; server = codes "p"; port = pos m }) n_eq

port_of_digits : (s : Text) → s ≢ [] → All IsDigit s → port_of s ≡ atoi s
port_of_digits [] h d = absurd (h refl)
port_of_digits (c ∷ s) h (d, ds) = ground (arith, d)

port_of-itoa : (port n : ℤ) → port_of (itoa port) ≡ some n → n ≡ port
unfolding itoa
port_of-itoa (pos m) n h =
    atoi-decimal-some m n
      (sym (port_of_digits (decimal m) (decimal-ne-nil m) (decimal-IsDigit m)) ∙ h)
port_of-itoa (negsuc m) n h = absurd (ground (arith, h))

on_off_is : (b : Bool) → text_eq (on_off b) (codes "on") ≡ b
unfolding on_off
on_off_is true = refl
on_off_is false = refl

set_proxy_lem :
    (k : Kind) (service host : Text) (port : ℤ) (w v : Mac) (out : Text)
    → set_proxy k service (host ∷ itoa port ∷ []) w ≡ (done out, v)
    → (v.0 ≡ changed k service (set_to host port) w.0) × (v.1 ≡ w.1)
set_proxy_lem k service host port (ps, fs) v out h = elim (Option-cases (port_of (itoa port))) [
  | inl e ↦ absurd (ground (arith, h, e))
  | inr (n, e) ↦ let same : n ≡ port = port_of-itoa port n e in ground (arith, h, e, same)
]

set_state_lem :
    (k : Kind) (service : Text) (b : Bool) (w v : Mac) (out : Text)
    → set_state k service (on_off b ∷ []) w ≡ (done out, v)
    → (v.0 ≡ changed k service (turn b) w.0) × (v.1 ≡ w.1)
set_state_lem k service b (ps, fs) v out h =
    let e = on_off_is b in
    (sym (ap (λ x. x.1.0) h) ∙ ap (λ x. changed k service (turn x) ps) e, sym (ap (λ x. x.1.1) h))

get_proxy_lem :
    (k : Kind) (service : Text) (w v : Mac) (out : Text) (p : IsPreference (w.0 k service))
    → get_proxy k service w ≡ (done out, v)
    → (out ≡ report (w.0 k service).enabled (w.0 k service).server p.number)
      × (v.0 ≡ w.0)
      × (v.1 ≡ w.1)
get_proxy_lem k service (ps, fs) v out p h =
    let e = p.is_port in (ground (arith, h, e), ground (arith, h, e), ground (arith, h, e))

pub write_down_lem :
    (state : ProxyState) (content : Text)
    → write_down state ≡ done content
    → done (known content) ≡ done state
write_down_lem state content h =
    let http =
      is_old_sound state.http.enabled state.http.server state.http.port (ground (arith, h)) in
    let https =
      is_old_sound state.https.enabled state.https.server state.https.port (ground (arith, h)) in
    let service : content ≡ state.service = ground (arith, h) in
    ap (λ t. done (known t)) service
    ∙ ap (λ c. done (record { service = state.service; http = c; https = old })) (sym http)
    ∙ ap (λ c. done (record { service = state.service; http = state.http; https = c })) (sym https)

pub found_lem : (o : Option Text) (content : Text) → found o ≡ done content → o ≡ some content
found_lem none content h = absurd (ground (arith, h))
found_lem (some c) content h = ground (arith, h)

pub there_lem : (o : Option Text) → ◌≡◌ {A = Result Bool} (done (is_there o)) (done true) → o ≢ none
there_lem none h = absurd (ground (arith, h))
there_lem (some c) h = ground arith

pub of_set :
    (k : Kind) (service host : Text) (port : ℤ) (w v : Mac) (out : Text)
    → run_command (codes "networksetup" ∷ set_flag k ∷ service ∷ host ∷ itoa port ∷ []) w
      ≡ (done out, v)
    → (v.0 ≡ changed k service (set_to host port) w.0) × (v.1 ≡ w.1)
of_set web = set_proxy_lem web
of_set secure = set_proxy_lem secure

pub of_state :
    (k : Kind) (service : Text) (b : Bool) (w v : Mac) (out : Text)
    → run_command (codes "networksetup" ∷ state_flag k ∷ service ∷ on_off b ∷ []) w ≡ (done out, v)
    → (v.0 ≡ changed k service (turn b) w.0) × (v.1 ≡ w.1)
of_state web = set_state_lem web
of_state secure = set_state_lem secure

pub of_get :
    (k : Kind) (service : Text) (w v : Mac) (out : Text) (p : IsPreference (w.0 k service))
    → run_command (codes "networksetup" ∷ get_flag k ∷ service ∷ []) w ≡ (done out, v)
    → (out ≡ report (w.0 k service).enabled (w.0 k service).server p.number)
      × (v.0 ≡ w.0)
      × (v.1 ≡ w.1)
of_get web = get_proxy_lem web
of_get secure = get_proxy_lem secure

abbrev pub mac_documented : Documented mac
mac_documented = record {
  proxies = λ m. m.0;
  files = λ m. m.1;
  set_lem = λ k service host port w v out h. of_set k service host port w v out h;
  state_lem = λ k service b w v out h. of_state k service b w v out h;
  get_lem = λ k service w v out p h. of_get k service w v out p h;
  make_dir_lem = λ w v h. (ap (λ x. x.1.0) (sym h), ap (λ x. x.1.1) (sym h));
  stat_lem = λ path w h. there_lem (w.1 path) h;
  read_lem = λ path content w h. found_lem (w.1 path) content h;
  write_lem = λ path content w v h. (ap (λ x. x.1.0) (sym h), ap (λ x. x.1.1) (sym h));
  remove_lem = λ path w v h. (ap (λ x. x.1.0) (sym h), ap (λ x. x.1.1) (sym h));
  coding = λ state content h. write_down_lem state content h;
}
