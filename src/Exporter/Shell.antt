-- ===== src/Exporter/Shell.antt =====
-- How a POSIX shell reads the command line.
use deconstruct.Base.{
  ℕ, Text, codes, Bool, true, ◌&&◌, ◌||◌, Option, none, some, List, [], ◌∷◌, ◌++◌, append_assoc,
  append-nil, All, join, is_empty, replace_all, leb, ◌==◌, ==_iff, has_prefix, if◌then◌else◌, inl,
  inr, Bool-cases, arith, ◌≡◌, refl, sym, ap, ◌∙◌,
}
use deconstruct.Exporter.{shell_quote, escaped_quote, header_parts, body_parts, curl_parts, curl}

-- a byte that stands for itself outside of quotes
abbrev pub plain_byte : ℕ → Bool
plain_byte c = (leb b'a' c && leb c b'z') || ((leb b'A' c && leb c b'Z') || (c == b'-'))

-- a text in front of the first word
abbrev pub prepend : Text → Option (List Text) → Option (List Text)
prepend t (some (w ∷ ws)) = some ((t ++ w) ∷ ws)
prepend t (some []) = some []
prepend t none = none

-- a blank ends a word
abbrev pub next_word : Option (List Text) → Option (List Text)
next_word none = none
next_word (some ws) = some ([] ∷ ws)

-- The words of a line, from outside of quotes and from inside: none where a quote is left open or a
-- byte has another meaning to a shell.
unfoldable mutual
  pub words : Text → Option (List Text)
  words [] = some ([] ∷ [])
  words (c ∷ s) =
      if c == b' '
      then next_word (words s)
      else if c == b'\''
      then quoted s
      else if c == b'\\'
      then escaped s
      else if plain_byte c
      then prepend (c ∷ []) (words s)
      else none

  pub quoted : Text → Option (List Text)
  quoted [] = none
  quoted (c ∷ s) = if c == b'\'' then words s else prepend (c ∷ []) (quoted s)

  pub escaped : Text → Option (List Text)
  escaped [] = none
  escaped (c ∷ s) = prepend (c ∷ []) (words s)

prepend-append :
    (a b : Text) (o : Option (List Text)) → prepend a (prepend b o) ≡ prepend (a ++ b) o
prepend-append a b none = refl
prepend-append a b (some []) = refl
prepend-append a b (some (w ∷ ws)) = ap (λ t. some (t ∷ ws)) (sym (append_assoc a b w))

-- a part of a line is read as a text, whatever follows
abbrev Reads : Text → Text → Type 0
Reads part text = (rest : Text) → words (part ++ rest) ≡ prepend text (words rest)

prepend-nil : (o : Option (List Text)) → prepend [] o ≡ o
prepend-nil none = refl
prepend-nil (some []) = refl
prepend-nil (some (w ∷ ws)) = refl

-- the inside of a quoted value, up to the closing quote
quoted-replace_all :
    (value rest : Text)
    → quoted (replace_all value (b'\'' ∷ []) escaped_quote ++ (b'\'' ∷ rest))
      ≡ prepend value (words rest)
unfolding words replace_all has_prefix
quoted-replace_all [] rest = sym (prepend-nil (words rest))
quoted-replace_all (c ∷ value) rest =
    let next =
      ap (prepend (c ∷ [])) (quoted-replace_all value rest)
      ∙ prepend-append (c ∷ []) value (words rest) in
    elim (Bool-cases (c == b'\'')) [
      | inl t ↦
          let same : c ≡ b'\'' = (==_iff c b'\'').0 t in
          rw t (
            ap
              (λ d.
                prepend (d ∷ [])
                  (quoted (replace_all value (b'\'' ∷ []) escaped_quote ++ (b'\'' ∷ rest))))
              (sym same)
            ∙ next)
      | inr f ↦ rw f (rw (f, quoted) next)
    ]

shell_quote-Reads : (value : Text) → Reads (shell_quote value) value
unfolding shell_quote words
shell_quote-Reads [] rest = sym (prepend-nil (words rest))
shell_quote-Reads (c ∷ value) rest =
    ap quoted (append_assoc (replace_all (c ∷ value) (b'\'' ∷ []) escaped_quote) (b'\'' ∷ []) rest)
    ∙ quoted-replace_all (c ∷ value) rest

words-plain : (c : ℕ) (s : Text) → plain_byte c ≡ true → words (c ∷ s) ≡ prepend (c ∷ []) (words s)
unfolding words
words-plain c s h = ground (arith, h)

plain-Reads : (t : Text) → All (λ c. plain_byte c ≡ true) t → Reads t t
plain-Reads [] h rest = sym (prepend-nil (words rest))
plain-Reads (c ∷ t) (h, hs) rest =
    words-plain c (t ++ rest) h
    ∙ ap (prepend (c ∷ [])) (plain-Reads t hs rest)
    ∙ prepend-append (c ∷ []) t (words rest)

abbrev AllRead : List Text → List Text → Type 0
AllRead [] [] = Unit
AllRead (p ∷ ps) (v ∷ vs) = Reads p v × AllRead ps vs
AllRead _ _ = ⊥

AllRead-append :
    (ps qs vs ws : List Text) → AllRead ps vs → AllRead qs ws → AllRead (ps ++ qs) (vs ++ ws)
AllRead-append [] qs [] ws h g = g
AllRead-append [] qs (v ∷ vs) ws h g = elim h [ ]
AllRead-append (p ∷ ps) qs [] ws h g = elim h [ ]
AllRead-append (p ∷ ps) qs (v ∷ vs) ws (h, hs) g = (h, AllRead-append ps qs vs ws hs g)

words-join :
    (p : Text) (ps : List Text) (v : Text) (vs : List Text)
    → AllRead (p ∷ ps) (v ∷ vs)
    → words (join (codes " ") (p ∷ ps)) ≡ some (v ∷ vs)
unfolding join words
words-join p [] v [] (h, _) =
    ap words (sym (append-nil p)) ∙ h [] ∙ ap (λ t. some (t ∷ [])) (append-nil v)
words-join p [] v (x ∷ vs) (h, hs) = elim hs [ ]
words-join p (q ∷ ps) v [] (h, hs) = elim hs [ ]
words-join p (q ∷ ps) v (x ∷ vs) (h, hs) =
    h (codes " " ++ join (codes " ") (q ∷ ps))
    ∙ ap (λ o. prepend v (next_word o)) (words-join q ps x vs hs)
    ∙ ap (λ t. some (t ∷ (x ∷ vs))) (append-nil v)

-- the arguments that curl is to get
unfoldable pub header_words : List (Text × Text) → List Text
header_words [] = []
header_words ((key, value) ∷ headers) =
    codes "-H" ∷ ((key ++ (codes ": " ++ value)) ∷ header_words headers)

unfoldable pub body_words : Text → List Text
body_words body = if is_empty body then [] else codes "--data-binary" ∷ (body ∷ [])

unfoldable pub curl_words : Text → Text → List (Text × Text) → Text → List Text
curl_words method url headers body =
    codes "curl"
    ∷ (codes "-X" ∷ (method ∷ (header_words headers ++ (body_words body ++ (url ∷ [])))))

header_parts-AllRead :
    (headers : List (Text × Text)) → AllRead (header_parts headers) (header_words headers)
unfolding header_parts header_words
header_parts-AllRead [] = tt
header_parts-AllRead ((key, value) ∷ headers) = (
  plain-Reads (codes "-H") (refl, (refl, tt)),
  (shell_quote-Reads (key ++ (codes ": " ++ value)), header_parts-AllRead headers),
)

body_parts-AllRead : (body : Text) → AllRead (body_parts body) (body_words body)
unfolding body_parts body_words
body_parts-AllRead [] = tt
body_parts-AllRead (c ∷ body) = (
  plain-Reads (codes "--data-binary") (
    refl,
    (
      refl,
      (refl, (refl, (refl, (refl, (refl, (refl, (refl, (refl, (refl, (refl, (refl, tt))))))))))),
    ),
  ),
  (shell_quote-Reads (c ∷ body), tt),
)

-- A shell reads the exported line as the arguments that are meant, whatever bytes the request holds.
pub words-curl :
    (method url : Text) (headers : List (Text × Text)) (body : Text)
    → words (curl method url headers body) ≡ some (curl_words method url headers body)
unfolding curl curl_parts curl_words
words-curl method url headers body = words-join _ _ _ _ (
  plain-Reads (codes "curl") (refl, (refl, (refl, (refl, tt)))),
  (
    plain-Reads (codes "-X") (refl, (refl, tt)),
    (
      shell_quote-Reads method,
      AllRead-append (header_parts headers) _ (header_words headers) _
          (header_parts-AllRead headers)
          (AllRead-append (body_parts body) _ (body_words body) _ (body_parts-AllRead body)
            (shell_quote-Reads url, tt)),
    ),
  ),
)
