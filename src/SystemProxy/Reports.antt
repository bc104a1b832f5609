-- ===== src/SystemProxy/Reports.antt =====
-- A report of `networksetup` on one proxy is read back.
use deconstruct.Base.{
  ℕ, ◌<◌, ◌^◌, Text, codes, Bool, true, false, List, [], ◌∷◌, ◌++◌, ◌≡◌, ◌≢◌, refl, ap, ◌∙◌, arith,
  All, All-imp, All-append, trim_space, trim_left, trim_right, is_space, split_on, cut, equal_fold,
  to_lower, lower_byte,
}
use deconstruct.Base.Decimal.{pos, decimal, decimal-IsDigit, atoi-decimal}
use deconstruct.Base.Strings.Laws.{Lacks, is_lacking, is_lacking-Lacks, split_on_first, cut-append}
use deconstruct.SystemProxy.{
  ProxyConfig, no_config, set_line, read_line, read_lines, parse_network_setup_proxy,
}

-- a text without white space
abbrev pub IsSolid : Text → Type 0
IsSolid = All (λ c. is_space c ≡ false)

trim_right-IsSolid : (s : Text) → IsSolid s → trim_right is_space s ≡ s
unfolding trim_right
trim_right-IsSolid [] h = refl
trim_right-IsSolid (c ∷ s) (hc, hs) = ground (arith, trim_right-IsSolid s hs, hc)

trim_space-IsSolid : (s : Text) → IsSolid s → trim_space (32 ∷ s) ≡ s
unfolding trim_space trim_left
trim_space-IsSolid [] h = refl
trim_space-IsSolid (c ∷ s) (hc, hs) = rw (hc) (trim_right-IsSolid (c ∷ s) (hc, hs))

IsSolid-Lacks : (s : Text) → IsSolid s → Lacks 10 s
unfolding is_space
IsSolid-Lacks s h = All-imp (λ c e f. ground (arith, e, f)) s h

decimal-IsSolid : (n : ℕ) → IsSolid (decimal n)
unfolding is_space
decimal-IsSolid n = All-imp (λ c h. ground (arith, h)) (decimal n) (decimal-IsDigit n)

abbrev yes_no : Bool → Text
yes_no true = codes "Yes"
yes_no false = codes "No"

-- what the command prints for a configuration with port `n`
unfoldable pub report : Bool → Text → ℕ → Text
report enabled server n =
    (codes "Enabled" ++ (b':' ∷ (32 ∷ yes_no enabled)))
    ++ (10
        ∷ ((codes "Server" ++ (b':' ∷ (32 ∷ server)))
            ++ (10
                ∷ ((codes "Port" ++ (b':' ∷ (32 ∷ decimal n)))
                    ++ (10 ∷ (codes "Authenticated Proxy Enabled: 0" ++ (10 ∷ [])))))))

line-Lacks :
    (key value : Text)
    → is_lacking 10 key ≡ true
    → IsSolid value
    → Lacks 10 (key ++ (b':' ∷ (32 ∷ value)))
line-Lacks key value k v =
    All-append (λ c. c ≢ 10) key _ (is_lacking-Lacks 10 key k)
      (omega arith, (omega arith, IsSolid-Lacks value v))

read_line-field :
    (key value : Text) (config : ProxyConfig)
    → is_lacking b':' key ≡ true
    → trim_space key ≡ key
    → IsSolid value
    → read_line (key ++ (b':' ∷ (32 ∷ value))) config ≡ set_line key value config
unfolding read_line
read_line-field key value config l t v =
    rw
      (
        cut-append b':' key (32 ∷ value) (is_lacking-Lacks b':' key l),
        t,
        trim_space-IsSolid value v,
      )
      refl

yes_no-IsSolid : (b : Bool) → IsSolid (yes_no b)
unfolding is_space
yes_no-IsSolid true = (refl, (refl, (refl, tt)))
yes_no-IsSolid false = (refl, (refl, tt))

yes_no-equal_fold : (b : Bool) → equal_fold (yes_no b) (codes "Yes") ≡ b
unfolding equal_fold to_lower lower_byte
yes_no-equal_fold true = refl
yes_no-equal_fold false = refl

read_lines-field :
    (key value : Text) (lines : List Text) (config : ProxyConfig)
    → is_lacking b':' key ≡ true
    → trim_space key ≡ key
    → IsSolid value
    → read_lines ((key ++ (b':' ∷ (32 ∷ value))) ∷ lines) config
      ≡ read_lines lines (set_line key value config)
unfolding read_lines
read_lines-field key value lines config l t v =
    ap (read_lines lines) (read_line-field key value config l t v)

set_line-enabled :
    (enabled : Bool)
    → set_line (codes "Enabled") (yes_no enabled) no_config ≡ record no_config { enabled = enabled }
unfolding set_line
set_line-enabled enabled = ap (λ t. record no_config { enabled = t }) (yes_no-equal_fold enabled)

set_line-port :
    (config : ProxyConfig) (n : ℕ)
    → n < 2 ^ 63
    → set_line (codes "Port") (decimal n) config ≡ record config { port = pos n }
unfolding set_line
set_line-port config n b = rw (atoi-decimal n b, set_line) refl

report_lines :
    (enabled : Bool) (server : Text) (n : ℕ)
    → IsSolid server
    → split_on 10 (report enabled server n)
      ≡ (codes "Enabled" ++ (b':' ∷ (32 ∷ yes_no enabled)))
        ∷ (codes "Server" ++ (b':' ∷ (32 ∷ server)))
        ∷ (codes "Port" ++ (b':' ∷ (32 ∷ decimal n)))
        ∷ codes "Authenticated Proxy Enabled: 0"
        ∷ []
        ∷ []
unfolding report split_on
report_lines enabled server n h =
    split_on_first 10 _ _
      (line-Lacks (codes "Enabled") (yes_no enabled) refl (yes_no-IsSolid enabled))
    ∙ ap (λ x. (codes "Enabled" ++ (b':' ∷ (32 ∷ yes_no enabled))) ∷ x)
        (split_on_first 10 _ _ (line-Lacks (codes "Server") server refl h)
          ∙ ap (λ x. (codes "Server" ++ (b':' ∷ (32 ∷ server))) ∷ x)
              (split_on_first 10 _ _
                  (line-Lacks (codes "Port") (decimal n) refl (decimal-IsSolid n))
                ∙ ap (λ x. (codes "Port" ++ (b':' ∷ (32 ∷ decimal n))) ∷ x) refl))

last_lines :
    (config : ProxyConfig)
    → read_lines (codes "Authenticated Proxy Enabled: 0" ∷ [] ∷ []) config ≡ config
unfolding read_lines read_line cut set_line trim_space trim_left trim_right is_space
last_lines config = refl

set_line-server :
    (config : ProxyConfig) (server : Text)
    → set_line (codes "Server") server config ≡ record config { server = server }
unfolding set_line
set_line-server config server = refl

-- A report is read back, if the server has no white space and the port fits an int.
pub parse_network_setup_proxy-report :
    (enabled : Bool) (server : Text) (n : ℕ)
    → IsSolid server
    → n < 2 ^ 63
    → parse_network_setup_proxy (report enabled server n)
      ≡ record { enabled = enabled; server = server; port = pos n }
unfolding parse_network_setup_proxy trim_space trim_left trim_right is_space
parse_network_setup_proxy-report enabled server n h b =
    rw
      (
        report_lines enabled server n h,
        read_lines-field (codes "Enabled") (yes_no enabled) _ no_config refl refl
            (yes_no-IsSolid enabled),
        set_line-enabled enabled,
        read_lines-field (codes "Server") server _ (record no_config { enabled = enabled }) refl
            refl h,
        set_line-server (record no_config { enabled = enabled }) server,
        read_lines-field (codes "Port") (decimal n) _
            (record { enabled = enabled; server = server; port = pos 0 }) refl refl
            (decimal-IsSolid n),
        set_line-port (record { enabled = enabled; server = server; port = pos 0 }) n b,
      )
      (last_lines (record { enabled = enabled; server = server; port = pos n }))
