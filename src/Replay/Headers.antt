-- ===== src/Replay/Headers.antt =====
-- The methods of `http.Header` that the daemon calls, and `removeHopByHopHeaders` of
-- daemon/internal/replay/replay.go.
use deconstruct.Base.{
  ℕ, Text, codes, Bool, true, ◌&&◌, ◌||◌, none, some, List, [], ◌∷◌, ◌++◌, leb, ◌==◌, lower_byte,
  upper_byte, lookup, insert, remove, if◌then◌else◌,
}
use deconstruct.Redact.{Header}

-- the bytes of a token, which a header name is made of
unfoldable pub is_token_byte : ℕ → Bool
is_token_byte c =
    (leb b'0' c && leb c b'9')
    || ((leb b'a' c && leb c b'z')
        || ((leb b'A' c && leb c b'Z')
            || ((c == b'!')
                || ((leb b'#' c && leb c b'\'')
                    || ((c == b'*')
                        || ((c == b'+')
                            || ((c == b'-')
                                || ((c == b'.')
                                    || ((leb b'^' c && leb c b'`')
                                        || ((c == b'|') || (c == b'~')))))))))))

unfoldable pub is_token : Text → Bool
is_token [] = true
is_token (c ∷ s) = is_token_byte c && is_token s

-- upper case at the start and behind a dash, lower case elsewhere
unfoldable pub capitals : Bool → Text → Text
capitals upper [] = []
capitals upper (c ∷ s) =
    let d = if upper then upper_byte c else lower_byte c in d ∷ capitals (c == b'-') s

-- `http.CanonicalHeaderKey`: a name that is no token stays as it is
unfoldable pub canonical_key : Text → Text
canonical_key name = if is_token name then capitals true name else name

unfoldable pub header_del : Text → Header → Header
header_del name headers = remove (canonical_key name) headers

unfoldable pub header_values : Text → Header → List Text
header_values name headers = elim (lookup (canonical_key name) headers) [ none ↦ [] | some vs ↦ vs ]

-- `http.Header.Get`
unfoldable pub header_get : Text → Header → Text
header_get name headers = elim (header_values name headers) [ [] ↦ [] | v ∷ vs ↦ v ]

unfoldable pub header_add : Text → Text → Header → Header
header_add name value headers =
    insert (canonical_key name) (header_values name headers ++ (value ∷ [])) headers

abbrev pub hop_by_hop_headers : List Text
hop_by_hop_headers =
    codes "Connection"
    ∷ codes "Keep-Alive"
    ∷ codes "Proxy-Authenticate"
    ∷ codes "Proxy-Authorization"
    ∷ codes "Proxy-Connection"
    ∷ codes "Te"
    ∷ codes "Trailer"
    ∷ codes "Transfer-Encoding"
    ∷ codes "Upgrade"
    ∷ []

unfoldable pub del_all : List Text → Header → Header
del_all [] headers = headers
del_all (name ∷ names) headers = del_all names (header_del name headers)

unfoldable pub remove_hop_by_hop_headers : Header → Header
remove_hop_by_hop_headers headers = del_all hop_by_hop_headers headers
