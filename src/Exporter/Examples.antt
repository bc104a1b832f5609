-- ===== src/Exporter/Examples.antt =====
-- A line with a quote in the body, as a test and as an instance.
use deconstruct.Base.{replace_all, codes, some, [], ◌∷◌, ◌≡◌, refl}
use deconstruct.Exporter.{shell_quote, curl}
use deconstruct.Exporter.Shell.{words, curl_words, words-curl}

quote_it : shell_quote (codes "it's") ≡ codes "'it'\\''s'"
unfolding shell_quote replace_all
quote_it = refl

words-curl_example :
    words (
      curl
        (codes "POST")
        (codes "https://a/?b=c&d")
        ((codes "Accept", codes "*/*") ∷ [])
        (codes "it's"))
    ≡ some (
        curl_words
          (codes "POST")
          (codes "https://a/?b=c&d")
          ((codes "Accept", codes "*/*") ∷ [])
          (codes "it's"))
words-curl_example =
    words-curl (codes "POST") (codes "https://a/?b=c&d") ((codes "Accept", codes "*/*") ∷ [])
      (codes "it's")
