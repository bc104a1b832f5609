-- ===== src/SystemProxy/Steps.antt =====
-- What each operation of the manager does to the proxies and the files when it succeeds.
use deconstruct.Base.{
  Text, codes, Bool, true, false, none, some, [], ◌∷◌, ◌≡◌, sym, ap, ◌∙◌, arith, inl, inr,
  Bool-cases, is_empty, if◌then◌else◌,
}
use mathlib.Core.Path.{subst}
use mathlib.Core.Option.{some-injective}
use deconstruct.Base.Decimal.{ℤ}
use deconstruct.Action.{Action, fail, yield, look, bind-done, Result-cases}
use deconstruct.Store.{Result, done}
use deconstruct.SystemProxy.{
  ProxyConfig, ProxyState, Computer, on_off, itoa, is_positive, titled, is_settable, command,
  state_path, parse_network_setup_proxy, read_one, read, save, save_once, set_proxies, enable,
  restore, apply, disable,
}
use deconstruct.SystemProxy.Reports.{parse_network_setup_proxy-report}
use deconstruct.SystemProxy.Documented.{
  Kind, web, secure, Proxies, changed, set_flag, state_flag, get_flag, Files, stored, set_to, turn,
  Documented, IsPreference,
}

titled-done :
    {W A : Type 0} (t : Text) (m : Action W A) (w v : W) (a : A)
    → titled t m w ≡ (done a, v)
    → m w ≡ (done a, v)
unfolding titled
titled-done t m w v a h = elim (Result-cases (m w).0) [
  | inl (b, e) ↦ ground (arith, h, e)
  | inr (b, e) ↦ absurd (ground (arith, h, e))
]

yield-done : {W A : Type 0} (a b : A) (w v : W) → yield a w ≡ (done b, v) → (a ≡ b) × (w ≡ v)
unfolding yield
yield-done a b w v h = (ground (arith, h), ground (arith, h))

look-done :
    {W A : Type 0} (f : W → Result A) (a : A) (w v : W)
    → look f w ≡ (done a, v)
    → (f w ≡ done a) × (w ≡ v)
unfolding look
look-done f a w v h = (ground (arith, h), ground (arith, h))

done-injective : {A : Type 0} (a b : A) → done a ≡ done b → a ≡ b
done-injective a b e = ground (arith, e)

unless_done :
    {W A : Type 0} (b : Bool) (t : Text) (m : Action W A) (w v : W) (a : A)
    → (if b then fail t else m) w ≡ (done a, v)
    → m w ≡ (done a, v)
unfolding fail
unless_done true t m w v a h = absurd (ground (arith, h))
unless_done false t m w v a h = h

when_done :
    {W A : Type 0} (b : Bool) (t : Text) (m : Action W A) (w v : W) (a : A)
    → (if b then m else fail t) w ≡ (done a, v)
    → m w ≡ (done a, v)
unfolding fail
when_done true t m w v a h = h
when_done false t m w v a h = absurd (ground (arith, h))

-- setting again what was saved
abbrev pub again : Kind → Text → ProxyConfig → Proxies → Proxies
again k service config ps =
    changed k service (turn config.enabled)
      (if is_settable config then changed k service (set_to config.server config.port) ps else ps)

module _ {W : Type 0} (computer : Computer W) (documented : Documented computer) where
  -- what a step does to the proxies and the files
  abbrev Leads : W → W → Proxies → Files → Type 0
  Leads w v ps fs = (documented.proxies v ≡ ps) × (documented.files v ≡ fs)

  command_set :
      (k : Kind) (t service host : Text) (port : ℤ) (w v : W) (out : Text)
      → command computer t (set_flag k ∷ service ∷ host ∷ itoa port ∷ []) w ≡ (done out, v)
      → Leads w v (changed k service (set_to host port) (documented.proxies w)) (documented.files w)
  unfolding command
  command_set k t service host port w v out h =
      documented.set_lem k service host port w v out (titled-done t _ w v out h)

  command_state :
      (k : Kind) (t service : Text) (b : Bool) (w v : W) (out : Text)
      → command computer t (state_flag k ∷ service ∷ on_off b ∷ []) w ≡ (done out, v)
      → Leads w v (changed k service (turn b) (documented.proxies w)) (documented.files w)
  unfolding command
  command_state k t service b w v out h =
      documented.state_lem k service b w v out (titled-done t _ w v out h)

  read_one_lem :
      (k : Kind) (service : Text) (config : ProxyConfig) (w v : W)
      → IsPreference (documented.proxies w k service)
      → read_one computer service (get_flag k) w ≡ (done config, v)
      → (config ≡ documented.proxies w k service)
        × Leads w v (documented.proxies w) (documented.files w)
  unfolding read_one command
  read_one_lem k service config w v p h =
      let (out, u, run, last) = bind-done _ _ w v config h in
      let (e, same) = yield-done _ _ u v last in
      let (r, ps, fs) = documented.get_lem k service w u out p (titled-done _ _ w u out run) in
      (
        sym e
            ∙ ap parse_network_setup_proxy r
            ∙ parse_network_setup_proxy-report (documented.proxies w k service).enabled
                (documented.proxies w k service).server p.number p.solid p.fits
            ∙ ap (λ n. record (documented.proxies w k service) { port = n }) (sym p.is_port),
        (ap documented.proxies (sym same) ∙ ps, ap documented.files (sym same) ∙ fs),
      )

  set_proxies_lem :
      (service host : Text) (port : ℤ) (w v : W)
      → set_proxies computer service host (itoa port) w ≡ (done tt, v)
      → Leads w v
          (changed secure service (turn true) (
            changed web service (turn true) (
              changed secure service
                (set_to host port)
                (changed web service (set_to host port) (documented.proxies w)))))
          (documented.files w)
  unfolding set_proxies on_off
  set_proxies_lem service host port w v h =
      let (a, u1, r1, h1) = bind-done _ _ w v tt h in
      let (b, u2, r2, h2) = bind-done _ _ u1 v tt h1 in
      let (c, u3, r3, h3) = bind-done _ _ u2 v tt h2 in
      let (d, u4, r4, h4) = bind-done _ _ u3 v tt h3 in
      let e1 = command_set web _ service host port w u1 a r1 in
      let e2 = command_set secure _ service host port u1 u2 b r2 in
      let e3 = command_state web _ service true u2 u3 c r3 in
      let e4 = command_state secure _ service true u3 u4 d r4 in
      let same = (yield-done _ _ u4 v h4).1 in
      (
        ap documented.proxies (sym same)
            ∙ e4.0
            ∙ ap (changed secure service (turn true)) (
                e3.0
                ∙ ap (changed web service (turn true))
                    (e2.0 ∙ ap (changed secure service (set_to host port)) e1.0)),
        ap documented.files (sym same) ∙ e4.1 ∙ e3.1 ∙ e2.1 ∙ e1.1,
      )

  -- the state of a service as `Read` gives it
  abbrev state_of : W → Text → ProxyState
  state_of w service = record {
    service = service;
    http = documented.proxies w web service;
    https = documented.proxies w secure service;
  }

  abbrev Preferences : W → Text → Type 0
  Preferences w service = (k : Kind) → IsPreference (documented.proxies w k service)

  read_lem :
      (service : Text) (state : ProxyState) (w v : W)
      → Preferences w service
      → read computer service w ≡ (done state, v)
      → (state ≡ state_of w service) × Leads w v (documented.proxies w) (documented.files w)
  unfolding read
  read_lem service state w v p h =
      let (a, u1, r1, h1) = bind-done _ _ w v state h in
      let (b, u2, r2, h2) = bind-done _ _ u1 v state h1 in
      let e1 = read_one_lem web service a w u1 (p web) r1 in
      let still : IsPreference (documented.proxies u1 secure service) =
        subst (λ ps. IsPreference (ps secure service)) (sym e1.1.0) (p secure) in
      let e2 = read_one_lem secure service b u1 u2 still r2 in
      let (e, same) = yield-done _ _ u2 v h2 in
      (
        sym e
            ∙ ap (λ c. record { service = service; http = c; https = b }) e1.0
            ∙ ap
                (λ c. record {
                  service = service;
                  http = documented.proxies w web service;
                  https = c;
                })
                (e2.0 ∙ ap (λ ps. ps secure service) e1.1.0),
        (
          ap documented.proxies (sym same) ∙ e2.1.0 ∙ e1.1.0,
          ap documented.files (sym same) ∙ e2.1.1 ∙ e1.1.1,
        ),
      )

  -- the saved file holds the state
  abbrev Saves : Text → W → W → Type 0
  Saves service w v =
      (content : Text) × (computer.unmarshal content ≡ done (state_of w service))
      × Leads w v (documented.proxies w)
          (stored (state_path computer service) (some content) (documented.files w))

  save_lem :
      (service : Text) (w v : W)
      → Preferences w service
      → save computer service w ≡ (done tt, v)
      → Saves service w v
  unfolding save
  save_lem service w v p h =
      let (state, u1, r1, h1) = bind-done _ _ w v tt h in
      let (content, u2, r2, h2) = bind-done _ _ u1 v tt h1 in
      let e1 = read_lem service state w u1 p r1 in
      let (marshalled, same) = look-done _ _ u1 u2 (titled-done _ _ u1 u2 content r2) in
      let e3 = documented.write_lem _ content u2 v (titled-done _ _ u2 v tt h2) in
      (
        content,
        documented.coding state content marshalled ∙ ap done e1.0,
        (
          e3.0 ∙ ap documented.proxies (sym same) ∙ e1.1.0,
          e3.1
              ∙ ap (stored (state_path computer service) (some content))
                  (ap documented.files (sym same) ∙ e1.1.1),
        ),
      )

  save_once_lem :
      (service : Text) (w v : W)
      → Preferences w service
      → documented.files w (state_path computer service) ≡ none
      → save_once computer service w ≡ (done tt, v)
      → Saves service w v
  unfolding save_once
  save_once_lem service w v p fresh h =
      let (there, u, r, h1) = bind-done _ _ w v tt h in
      let (stat, same) = look-done _ _ w u (titled-done _ _ w u there r) in
      elim (Bool-cases there) [
        | inl e ↦
            absurd (documented.stat_lem (state_path computer service) w (stat ∙ ap done e) fresh)
        | inr e ↦ save_lem service w v p (
            ap (save computer service) same
            ∙ subst (λ b. (if b then yield tt else save computer service) u ≡ (done tt, v)) e h1)
      ]

  maybe_set :
      (b : Bool) (k : Kind) (t service host : Text) (port : ℤ) (w v : W) (out : Text)
      → (if b then command computer t (set_flag k ∷ service ∷ host ∷ itoa port ∷ []) else yield [])
          w
        ≡ (done out, v)
      → Leads w v
          (if b
            then changed k service (set_to host port) (documented.proxies w)
            else documented.proxies w)
          (documented.files w)
  maybe_set true k t service host port w v out h = command_set k t service host port w v out h
  maybe_set false k t service host port w v out h =
      let same = (yield-done _ _ w v h).1 in
      (ap documented.proxies (sym same), ap documented.files (sym same))

  restore_lem :
      (k : Kind) (t1 t2 service : Text) (config : ProxyConfig) (w v : W)
      → restore computer t1 (set_flag k) t2 (state_flag k) service config w ≡ (done tt, v)
      → Leads w v
          (changed k service (turn config.enabled) (
            if is_settable config
            then changed k service (set_to config.server config.port) (documented.proxies w)
            else documented.proxies w))
          (documented.files w)
  unfolding restore
  restore_lem k t1 t2 service config w v h =
      let (a, u1, r1, h1) = bind-done _ _ w v tt h in
      let (b, u2, r2, h2) = bind-done _ _ u1 v tt h1 in
      let same = (yield-done _ _ u2 v h2).1 in
      let e2 = command_state k t2 service config.enabled u1 u2 b r2 in
      let e1 = maybe_set (is_settable config) k t1 service config.server config.port w u1 a r1 in
      (
        ap documented.proxies (sym same) ∙ e2.0 ∙ ap (changed k service (turn config.enabled)) e1.0,
        ap documented.files (sym same) ∙ e2.1 ∙ e1.1,
      )

  apply_lem :
      (state : ProxyState) (w v : W)
      → apply computer state w ≡ (done tt, v)
      → Leads w v
          (again secure state.service state.https
            (again web state.service state.http (documented.proxies w)))
          (documented.files w)
  unfolding apply
  apply_lem state w v h =
      let (a, u, r, h1) = bind-done _ _ w v tt h in
      let e1 = restore_lem web _ _ state.service state.http w u r in
      let e2 = restore_lem secure _ _ state.service state.https u v h1 in
      (e2.0 ∙ ap (again secure state.service state.https) e1.0, e2.1 ∙ e1.1)

  pub disable_lem :
      (service content : Text) (state : ProxyState) (w v : W)
      → documented.files w (state_path computer service) ≡ some content
      → computer.unmarshal content ≡ done state
      → disable computer service w ≡ (done tt, v)
      → Leads w v
          (again secure state.service state.https
            (again web state.service state.http (documented.proxies w)))
          (stored (state_path computer service) none (documented.files w))
  unfolding disable
  disable_lem service content state w v there decoded h =
      let (c, u1, r1, h1) =
        bind-done _ _ w v tt
          (unless_done (is_empty service) (codes "service is required") _ w v tt h) in
      let (st, u2, r2, h2) = bind-done _ _ u1 v tt h1 in
      let (a, u3, r3, h3) = bind-done _ _ u2 v tt h2 in
      let (got, same1) = look-done _ _ w u1 (titled-done _ _ w u1 c r1) in
      let (read_state, same2) = look-done _ _ u1 u2 (titled-done _ _ u1 u2 st r2) in
      let same = same1 ∙ same2 in
      let content_eq : c ≡ content =
        some-injective _ _ (sym (documented.read_lem _ c w got) ∙ there) in
      let state_eq : st ≡ state =
        done-injective st state (sym read_state ∙ ap computer.unmarshal content_eq ∙ decoded) in
      let e1 = apply_lem st u2 u3 r3 in
      let e2 = documented.remove_lem _ u3 v (titled-done _ _ u3 v tt h3) in
      (
        e2.0
            ∙ e1.0
            ∙ ap
                (λ s.
                  again secure s.service s.https
                    (again web s.service s.http (documented.proxies u2)))
                state_eq
            ∙ ap
                (λ x.
                  again secure state.service state.https
                    (again web state.service state.http (documented.proxies x)))
                (sym same),
        e2.1
            ∙ ap (stored (state_path computer service) none)
                (e1.1 ∙ ap documented.files (sym same)),
      )

  pub enable_lem :
      (service host : Text) (port : ℤ) (w v : W)
      → Preferences w service
      → documented.files w (state_path computer service) ≡ none
      → enable computer service host port w ≡ (done tt, v)
      → (content : Text) × (computer.unmarshal content ≡ done (state_of w service))
        × Leads w v
            (changed secure service (turn true) (
              changed web service (turn true) (
                changed secure service
                  (set_to host port)
                  (changed web service (set_to host port) (documented.proxies w)))))
            (stored (state_path computer service) (some content) (documented.files w))
  unfolding enable
  enable_lem service host port w v p fresh h =
      let run =
        when_done (is_positive port) _ _ w v tt
          (unless_done (is_empty host) _ _ w v tt (unless_done (is_empty service) _ _ w v tt h)) in
      let (a, u1, r1, h1) = bind-done _ _ w v tt run in
      let (b, u2, r2, h2) = bind-done _ _ u1 v tt h1 in
      let (ps, fs) = documented.make_dir_lem w u1 (titled-done _ _ w u1 tt r1) in
      let kept : Preferences u1 service =
        λ k. subst (λ x. IsPreference (x k service)) (sym ps) (p k) in
      let still : documented.files u1 (state_path computer service) ≡ none =
        ap (λ f. f (state_path computer service)) fs ∙ fresh in
      let (content, coded, e1) = save_once_lem service u1 u2 kept still r2 in
      let e2 = set_proxies_lem service host port u2 v h2 in
      (
        content,
        coded
            ∙ ap
                (λ x.
                  done
                    (record { service = service; http = x web service; https = x secure service }))
                ps,
        (
          e2.0
              ∙ ap
                  (λ x. changed secure service (turn true) (
                    changed web service (turn true) (
                      changed secure service (set_to host port)
                        (changed web service (set_to host port) x))))
                  (e1.0 ∙ ps),
          e2.1 ∙ e1.1 ∙ ap (stored (state_path computer service) (some content)) fs,
        ),
      )
