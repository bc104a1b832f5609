-- ===== src/Workflow/Precedence.antt =====
-- Which secret of a profile wins where several are for one header.
use deconstruct.Base.{
  Text, codes, Assoc, Bool, true, false, not, ◌&&◌, Option, some, List, [], ◌∷◌, lookup, insert,
  lookup-insert, is_empty, text_eq, has_prefix, trim_prefix, join, to_lower, lower_byte,
  if◌then◌else◌, ◌≡◌, refl, ap, ◌∙◌, arith,
}
use deconstruct.Redact.{Header}
use deconstruct.Workflow.AuthMaterial.{
  secret, put_secret, put_custom, put_cookie, put_cookies, put_all, cookie_pairs,
  canonical_auth_header,
}

-- the first text that is not empty, as the only value of a header, or what was there
abbrev pub chosen : List Text → Option (List Text) → Option (List Text)
chosen [] before = before
chosen (t ∷ ts) before = let rest = chosen ts before in if is_empty t then rest else some (t ∷ [])

-- the last value of the entries `header.name` that is not empty
unfoldable pub custom : Text → Assoc Text → Text
custom name [] = []
custom name ((key, value) ∷ material) =
    let later = custom name material in
    if not (is_empty later)
    then later
    else if (has_prefix key (codes "header.") && not (is_empty value))
        && text_eq (trim_prefix key (codes "header.")) name
    then value
    else []

lookup-put_secret :
    (key name n : Text) (material : Assoc Text) (headers : Header)
    → lookup n (put_secret key name material headers) ≡ (
        if text_eq name n
        then chosen (secret key material ∷ []) (lookup n headers)
        else lookup n headers)
unfolding put_secret
lookup-put_secret key name n material headers =
    ground (arith, lookup-insert name n (secret key material ∷ []) headers)

-- one entry ahead of the later ones
merge :
    (later value : Text) (custom_key same : Bool) (before : Option (List Text))
    → chosen
        (later ∷ [])
        (if (custom_key && not (is_empty value)) && same then some (value ∷ []) else before)
      ≡ chosen
          ((if not (is_empty later)
              then later
              else if (custom_key && not (is_empty value)) && same
              then value
              else [])
            ∷ [])
          before
merge (c ∷ later) value p e before = refl
merge [] value false e before = refl
merge [] [] true e before = refl
merge [] (c ∷ value) true true before = refl
merge [] (c ∷ value) true false before = refl

lookup-if_insert :
    (n name : Text) (values : List Text) (guard : Bool) (headers : Header)
    → lookup n (if guard then insert name values headers else headers)
      ≡ (if guard && text_eq name n then some values else lookup n headers)
lookup-if_insert n name values true headers = lookup-insert name n values headers
lookup-if_insert n name values false headers = refl

lookup-put_custom :
    (n : Text) (material : Assoc Text) (headers : Header)
    → lookup n (put_custom material headers) ≡ chosen (custom n material ∷ []) (lookup n headers)
unfolding put_custom custom
lookup-put_custom n [] headers = refl
lookup-put_custom n ((key, value) ∷ material) headers =
    let name = trim_prefix key (codes "header.") in
    let guard = has_prefix key (codes "header.") && not (is_empty value) in
    lookup-put_custom n material (if guard then insert name (value ∷ []) headers else headers)
    ∙ ap (chosen (custom n material ∷ [])) (lookup-if_insert n name (value ∷ []) guard headers)
    ∙ merge (custom n material) value (has_prefix key (codes "header.")) (text_eq name n)
        (lookup n headers)

module _ (sort : List Text → List Text) (material : Assoc Text) where
  -- the cookies of the entries `cookie.name`
  abbrev pub listed_cookies : Option (List Text) → Option (List Text)
  listed_cookies before = elim (sort (cookie_pairs material)) [
    | [] ↦ before
    | c ∷ cs ↦ some (join (codes "; ") (c ∷ cs) ∷ [])
  ]

  lookup-put_cookies :
      (n : Text) (headers : Header)
      → lookup n (put_cookies sort material headers) ≡ (
          if text_eq (codes "Cookie") n
          then listed_cookies (lookup n headers)
          else lookup n headers)
  unfolding put_cookies
  lookup-put_cookies n headers = listed (sort (cookie_pairs material))
    where
      listed :
          (cookies : List Text)
          → lookup n (elim cookies [
            | [] ↦ headers
            | c ∷ cs ↦ insert (codes "Cookie") (join (codes "; ") (c ∷ cs) ∷ []) headers
          ])
            ≡ (if text_eq (codes "Cookie") n
                then elim cookies [
                  | [] ↦ lookup n headers
                  | c ∷ cs ↦ some (join (codes "; ") (c ∷ cs) ∷ [])
                ]
                else lookup n headers)
      listed [] = ground arith
      listed (c ∷ cs) = lookup-insert (codes "Cookie") n (join (codes "; ") (c ∷ cs) ∷ []) headers

  lookup-put_cookie :
      (n : Text) (headers : Header)
      → lookup n (put_cookie sort material headers) ≡ (
          if text_eq (codes "Cookie") n
          then chosen
              (secret (codes "cookie") material ∷ secret (codes "Cookie") material ∷ [])
              (listed_cookies (lookup n headers))
          else lookup n headers)
  unfolding put_cookie put_secret
  lookup-put_cookie n headers =
      pick (secret (codes "cookie") material) (secret (codes "Cookie") material)
    where
      pick :
          (a b : Text)
          → lookup n (
              if not (is_empty a)
              then (if is_empty a then headers else insert (codes "Cookie") (a ∷ []) headers)
              else if not (is_empty b)
              then (if is_empty b then headers else insert (codes "Cookie") (b ∷ []) headers)
              else put_cookies sort material headers)
            ≡ (if text_eq (codes "Cookie") n
                then chosen (a ∷ b ∷ []) (listed_cookies (lookup n headers))
                else lookup n headers)
      pick (x ∷ a) b = lookup-insert (codes "Cookie") n ((x ∷ a) ∷ []) headers
      pick [] (x ∷ b) = lookup-insert (codes "Cookie") n ((x ∷ b) ∷ []) headers
      pick [] [] = lookup-put_cookies n headers

  ruleset winning = (put_all, lookup-put_custom, lookup-put_secret, lookup-put_cookie)

  -- what a header holds once all secrets are in place
  abbrev pub Wins : Text → List Text → (Option (List Text) → Option (List Text)) → Header → Type 0
  Wins name secrets otherwise headers =
      lookup name (put_all sort material headers)
      ≡ chosen (custom name material ∷ secrets) (otherwise (lookup name headers))

  -- For each header the secrets are tried in one order: the last entry `header.name` first, then the
  -- entries of its own name in its own case ahead of those in lower case, except that `cookie` comes
  -- ahead of `Cookie`, then the listed cookies, then what the request has. Empty secrets do not count.
  pub put_all-precedence :
      (headers : Header)
      → Wins
          (codes "Authorization")
          (secret (codes "Authorization") material ∷ secret (codes "authorization") material ∷ [])
          (λ before. before)
          headers
        × Wins
            (codes "Cookie")
            (secret (codes "cookie") material ∷ secret (codes "Cookie") material ∷ [])
            listed_cookies
            headers
        × Wins
            (codes "X-CSRF-Token")
            (secret (codes "X-CSRF-Token") material ∷ secret (codes "x-csrf-token") material ∷ [])
            (λ before. before)
            headers
        × Wins
            (codes "X-XSRF-Token")
            (secret (codes "X-XSRF-Token") material ∷ secret (codes "x-xsrf-token") material ∷ [])
            (λ before. before)
            headers
  unfolding put_all canonical_auth_header to_lower lower_byte
  put_all-precedence headers = (simp winning, simp winning, simp winning, simp winning)
