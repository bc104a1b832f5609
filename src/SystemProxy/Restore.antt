-- ===== src/SystemProxy/Restore.antt =====
-- `Enable` and `Disable` together: what they do to the proxies of the computer.
use deconstruct.Base.{
  codes, false, ◌++◌, map, Text, codes, true, false, ◌&&◌, Option, none, some, ◌≡◌, refl, sym, ap,
  ◌∙◌, inl, inr, Bool-cases, text_eq, text_eq_refl, text_eq_sound, if◌then◌else◌,
}
use deconstruct.Base.Decimal.{ℤ}
use deconstruct.Store.{done}
use deconstruct.SystemProxy.{
  plain_byte, state_name, ProxyState, ProxyConfig, ProxyState, Computer, is_settable, state_path,
  enable, disable,
}
use deconstruct.SystemProxy.Documented.{
  Kind, web, secure, same_kind, Proxies, changed, Files, stored, set_to, turn, Documented,
  IsPreference,
}
use deconstruct.SystemProxy.Steps.{again, disable_lem, enable_lem}

-- what is left of a configuration after the proxy was set to a host and put back
abbrev pub put_back : Text → ℤ → ProxyConfig → ProxyConfig
put_back host port old =
    if is_settable old then old else record { enabled = old.enabled; server = host; port = port }

abbrev enabled : Text → Text → ℤ → Proxies → Proxies
enabled service host port ps = changed secure service (turn true) (
    changed web service (turn true)
      (changed secure service (set_to host port) (changed web service (set_to host port) ps)))

enabled_at :
    (service host : Text) (port : ℤ) (ps : Proxies) (j : Kind) (t : Text)
    → enabled service host port ps j t
      ≡ (if text_eq service t then set_to host port (ps j t) else ps j t)
enabled_at service host port ps web t = elim (Bool-cases (text_eq service t)) [
  | inl e ↦ rw (e) refl
  | inr e ↦ rw (e) refl
]
enabled_at service host port ps secure t = elim (Bool-cases (text_eq service t)) [
  | inl e ↦ rw (e) refl
  | inr e ↦ rw (e) refl
]

-- what is set again over a configuration from the saved one
abbrev pub put_over : ProxyConfig → ProxyConfig → ProxyConfig
put_over c x = if is_settable c then c else record x { enabled = c.enabled }

again_at :
    (k : Kind) (service : Text) (c : ProxyConfig) (ps : Proxies) (j : Kind) (t : Text)
    → again k service c ps j t
      ≡ (if same_kind k j && text_eq service t then put_over c (ps j t) else ps j t)
again_at k service c ps j t = elim (Bool-cases (is_settable c)) [
  | inl s ↦ elim (Bool-cases (same_kind k j && text_eq service t)) [
    | inl e ↦ rw (s, e) refl
    | inr e ↦ rw (s, e) refl
  ]
  | inr s ↦ elim (Bool-cases (same_kind k j && text_eq service t)) [
    | inl e ↦ rw (s, e) refl
    | inr e ↦ rw (s, e) refl
  ]
]

put_over_set :
    (host : Text) (port : ℤ) (c : ProxyConfig)
    → put_over c (set_to host port c) ≡ put_back host port c
put_over_set host port c = elim (Bool-cases (is_settable c)) [
  | inl s ↦ rw (s) refl
  | inr s ↦ rw (s) refl
]

one_at :
    (service host : Text) (port : ℤ) (old ps : Text → ProxyConfig) (t : Text)
    → ps t ≡ (if text_eq service t then set_to host port (old t) else old t)
    → (if text_eq service t then put_over (old service) (ps t) else ps t)
      ≡ (if text_eq service t then put_back host port (old t) else old t)
one_at service host port old ps t h = elim (Bool-cases (text_eq service t)) [
  | inl e ↦
      rw (h, e)
        (ap (λ s. put_over (old s) (set_to host port (old t))) (text_eq_sound service t e)
          ∙ put_over_set host port (old t))
  | inr e ↦ rw (h, e) refl
]

stored_there : (path : Text) (o : Option Text) (fs : Files) → stored path o fs path ≡ o
stored_there path o fs = rw (text_eq_refl path) refl

stored_twice :
    (path : Text) (o : Option Text) (fs : Files) (p : Text)
    → fs path ≡ none
    → stored path none (stored path o fs) p ≡ fs p
stored_twice path o fs p h = elim (Bool-cases (text_eq path p)) [
  | inl e ↦ rw (e) (sym h ∙ ap fs (text_eq_sound path p e))
  | inr e ↦ rw (e) refl
]

-- the configuration of one kind in a saved state
abbrev pub saved_of : ProxyState → Kind → ProxyConfig
saved_of state web = state.http
saved_of state secure = state.https

-- two configurations are set again, one after the other
both_at :
    (service host : Text) (port : ℤ) (old ps : Proxies) (j : Kind) (t : Text)
    → ps j t ≡ (if text_eq service t then set_to host port (old j t) else old j t)
    → again secure service (old secure service) (again web service (old web service) ps) j t
      ≡ (if text_eq service t then put_back host port (old j t) else old j t)
both_at service host port old ps web t h =
    again_at secure service (old secure service) (again web service (old web service) ps) web t
    ∙ again_at web service (old web service) ps web t
    ∙ one_at service host port (old web) (ps web) t h
both_at service host port old ps secure t h =
    again_at secure service (old secure service) (again web service (old web service) ps) secure t
    ∙ ap (λ x. if text_eq service t then put_over (old secure service) x else x)
        (again_at web service (old web service) ps secure t)
    ∙ one_at service host port (old secure) (ps secure) t h

-- What `Disable` leaves after `Enable` when both succeed, if the commands and the file system do what
-- is documented, the configurations of the service have servers without white space and ports that fit
-- an int, and there was no saved state: no saved state, each proxy of the service as it was or, where it
-- had no server to set again, turned on or off as it was with the server that was enabled; and the other
-- services and files as they were.
pub disable-enable :
    {W : Type 0} (computer : Computer W) (documented : Documented computer) (service host : Text)
    (port : ℤ) (w u v : W)
    → ((k : Kind) → IsPreference (documented.proxies w k service))
    → documented.files w (state_path computer service) ≡ none
    → enable computer service host port w ≡ (done tt, u)
    → disable computer service u ≡ (done tt, v)
    → ((k : Kind) (t : Text)
        → documented.proxies v k t ≡ (
            if text_eq service t
            then put_back host port (documented.proxies w k t)
            else documented.proxies w k t))
      × ((path : Text) → documented.files v path ≡ documented.files w path)
disable-enable computer documented service host port w u v p fresh on off =
    let (content, coded, e) = enable_lem computer documented service host port w u p fresh on in
    let there : documented.files u (state_path computer service) ≡ some content =
      ap (λ f. f (state_path computer service)) e.1
      ∙ stored_there (state_path computer service) (some content) (documented.files w) in
    let d = disable_lem computer documented service content _ u v there coded off in
    (
      λ k t.
          ap (λ x. x k t) d.0
          ∙ both_at service host port (documented.proxies w) (documented.proxies u) k t
              (ap (λ x. x k t) e.0 ∙ enabled_at service host port (documented.proxies w) k t),
      λ path.
          ap (λ x. x path) d.1
          ∙ ap (λ f. stored (state_path computer service) none f path) e.1
          ∙ stored_twice (state_path computer service) (some content) (documented.files w) path
              fresh,
    )

both_again :
    (service : Text) (state : ProxyState) (ps : Proxies) (k : Kind) (t : Text)
    → again secure service state.https (again web service state.http ps) k t
      ≡ (if text_eq service t then put_over (saved_of state k) (ps k t) else ps k t)
both_again service state ps web t =
    again_at secure service state.https (again web service state.http ps) web t
    ∙ again_at web service state.http ps web t
both_again service state ps secure t =
    again_at secure service state.https (again web service state.http ps) secure t
    ∙ ap (λ x. if text_eq service t then put_over state.https x else x)
        (again_at web service state.http ps secure t)

untouched :
    (service other : Text) (http https : ProxyConfig) (ps : Proxies) (k : Kind)
    → text_eq service other ≡ false
    → again secure service https (again web service http ps) k other ≡ ps k other
untouched service other http https ps web n =
    again_at secure service https (again web service http ps) web other
    ∙ again_at web service http ps web other
    ∙ rw (n) refl
untouched service other http https ps secure n =
    again_at secure service https (again web service http ps) secure other
    ∙ rw (n) (again_at web service http ps secure other)

-- Two services whose names differ in slashes, blanks and underscores only share one saved state: where
-- it is the state of the one, a `Disable` of the other that succeeds puts each proxy of the one back to
-- what was saved for it or, where no server was saved, turns it on or off as it was saved; it leaves the
-- proxies of the other and of all other services as they are, deletes the saved state and changes no
-- other file; if the commands and the file system do what is documented.
pub disable_collides :
    {W : Type 0} (computer : Computer W) (documented : Documented computer)
    (service other content : Text) (state : ProxyState) (w v : W)
    → map plain_byte service ≡ map plain_byte other
    → text_eq service other ≡ false
    → state.service ≡ service
    → documented.files w (state_path computer service) ≡ some content
    → computer.unmarshal content ≡ done state
    → disable computer other w ≡ (done tt, v)
    → ((k : Kind) (t : Text)
        → documented.proxies v k t ≡ (
            if text_eq service t
            then put_over (saved_of state k) (documented.proxies w k t)
            else documented.proxies w k t))
      × ((k : Kind) → documented.proxies v k other ≡ documented.proxies w k other)
      × (documented.files v (state_path computer service) ≡ none)
      × ((p : Text)
          → documented.files v p
            ≡ (if text_eq (state_path computer service) p then none else documented.files w p))
unfolding state_path state_name
disable_collides computer documented service other content state w v e n s there coded h =
    let path : state_path computer service ≡ state_path computer other =
      ap (λ x. computer.path_in (x ++ codes ".json")) e in
    let d =
      disable_lem computer documented other content state w v
        (ap (documented.files w) (sym path) ∙ there) coded h in
    let apart : text_eq state.service other ≡ false = ap (λ x. text_eq x other) s ∙ n in
    (
      λ k t.
          ap (λ x. x k t) d.0
          ∙ both_again state.service state (documented.proxies w) k t
          ∙ ap
              (λ x.
                if text_eq x t
                then put_over (saved_of state k) (documented.proxies w k t)
                else documented.proxies w k t)
              s,
      λ k.
          ap (λ x. x k other) d.0
          ∙ untouched state.service other state.http state.https (documented.proxies w) k apart,
      ap (documented.files v) path
          ∙ ap (λ f. f (state_path computer other)) d.1
          ∙ stored_there (state_path computer other) none (documented.files w),
      λ p.
          ap (λ f. f p) d.1
          ∙ ap (λ x. if text_eq x p then none else documented.files w p) (sym path),
    )
