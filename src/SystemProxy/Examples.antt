-- ===== src/SystemProxy/Examples.antt =====
-- Tests and instances of the theorems on the system proxy.
use deconstruct.Base.{
  Text, codes, true, none, some, ◌≡◌, refl, arith, text_eq, if◌then◌else◌, split_on, cut,
  trim_space, trim_left, trim_right, is_space, equal_fold, to_lower, lower_byte,
}
use deconstruct.Base.Decimal.{pos, decimal, atoi, parse_digits, parse_magnitude}
use deconstruct.Action.{fail, yield, look, ◌>>=◌}
use deconstruct.Store.{done}
use deconstruct.SystemProxy.{
  enable, disable, restore, apply, is_settable, on_off, is_positive, titled, save_once, save, read,
  read_one, command, set_proxies, itoa, state_path, state_name, plain_byte,
  parse_network_setup_proxy, read_lines, read_line, set_line,
}
use deconstruct.SystemProxy.Reports.{report, parse_network_setup_proxy-report}
use deconstruct.SystemProxy.Documented.{Kind, web, changed, stored, IsPreference}
use deconstruct.SystemProxy.Restore.{put_back, put_over, saved_of, disable-enable, disable_collides}
use deconstruct.SystemProxy.Lab.{Mac, old, known, mac, mac_documented}

parse_network_setup_proxy-report_example :
    parse_network_setup_proxy (report true (codes "a.b") 8080)
    ≡ record { enabled = true; server = codes "a.b"; port = pos 8080 }
unfolding is_space
parse_network_setup_proxy-report_example =
    parse_network_setup_proxy-report true (codes "a.b") 8080 (refl, (refl, (refl, tt)))
      (omega arith)

-- every service has the proxy `old`, and nothing is saved
abbrev start : Mac
start = (λ k t. old, λ path. none)

abbrev enabled : Mac
enabled = (enable mac (codes "W") (codes "h") (pos 8) start).1

abbrev disabled : Mac
disabled = (disable mac (codes "W") enabled).1

old-IsPreference : IsPreference old
unfolding is_space
old-IsPreference = record { number = 80; solid = (refl, tt); fits = omega arith; is_port = refl }

enable_test : enable mac (codes "W") (codes "h") (pos 8) start ≡ (done tt, enabled)
unfolding enable is_positive titled save_once save read read_one command set_proxies itoa decimal
    fail yield look ◌>>=◌ state_path state_name plain_byte parse_network_setup_proxy read_lines
    read_line set_line report split_on cut trim_space trim_left trim_right is_space equal_fold
    to_lower lower_byte atoi parse_digits parse_magnitude
enable_test = refl

disable_test : disable mac (codes "W") enabled ≡ (done tt, disabled)
unfolding enable disable restore apply is_settable on_off is_positive titled save_once save read
    read_one command set_proxies itoa decimal fail yield look ◌>>=◌ state_path state_name plain_byte
    parse_network_setup_proxy read_lines read_line set_line report split_on cut trim_space trim_left
    trim_right is_space equal_fold to_lower lower_byte atoi parse_digits parse_magnitude
disable_test = refl

disable-enable_example :
    ((k : Kind) (t : Text)
      → mac_documented.proxies disabled k t
        ≡ (if text_eq (codes "W") t then put_back (codes "h") (pos 8) old else old))
    × ((path : Text) → mac_documented.files disabled path ≡ none)
disable-enable_example =
    disable-enable mac mac_documented (codes "W") (codes "h") (pos 8) start enabled disabled
      (λ k. old-IsPreference) refl enable_test disable_test

-- the state of `a b` is saved, and the proxy of `a_b` set by hand
abbrev saved : Mac
saved = (
  changed web (codes "a_b") (λ c. record { enabled = true; server = codes "h"; port = pos 8 })
      (λ k t. old),
  stored (codes "/state/a_b.json") (some (codes "a b")) (λ path. none),
)

abbrev mistaken : Mac
mistaken = (disable mac (codes "a_b") saved).1

mistaken_test : disable mac (codes "a_b") saved ≡ (done tt, mistaken)
unfolding enable disable restore apply is_settable on_off is_positive titled save_once save read
    read_one command set_proxies itoa decimal fail yield look ◌>>=◌ state_path state_name plain_byte
    parse_network_setup_proxy read_lines read_line set_line report split_on cut trim_space trim_left
    trim_right is_space equal_fold to_lower lower_byte atoi parse_digits parse_magnitude
mistaken_test = refl

saved_path : saved.1 (state_path mac (codes "a b")) ≡ some (codes "a b")
unfolding state_path state_name plain_byte
saved_path = refl

disable_collides_example :
    ((k : Kind) (t : Text)
      → mac_documented.proxies mistaken k t ≡ (
          if text_eq (codes "a b") t
          then put_over (saved_of (known (codes "a b")) k) (saved.0 k t)
          else saved.0 k t))
    × ((k : Kind) → mac_documented.proxies mistaken k (codes "a_b") ≡ saved.0 k (codes "a_b"))
    × (mac_documented.files mistaken (state_path mac (codes "a b")) ≡ none)
    × ((p : Text)
        → mac_documented.files mistaken p
          ≡ (if text_eq (state_path mac (codes "a b")) p then none else saved.1 p))
unfolding plain_byte
disable_collides_example =
    disable_collides mac mac_documented (codes "a b") (codes "a_b") (codes "a b")
      (known (codes "a b")) saved mistaken refl refl refl saved_path refl mistaken_test
