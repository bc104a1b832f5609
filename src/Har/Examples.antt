-- ===== src/Har/Examples.antt =====
-- An import of a document with two entries.
use deconstruct.Base.{◌+◌, codes, none, List, [], ◌∷◌, ◌≡◌, refl, sym, ap, length}
use deconstruct.Action.{◌>>=◌, fail, yield}
use deconstruct.Store.{done}
use deconstruct.Replay.Engine.{tag_all}
use deconstruct.Replay.Lab.{Stored, stores, IsSafe, stores_keep}
use deconstruct.Har.{
  HarEntry, Options, Archive, store_entry, import_entry, import_entries, redacts, import_document,
  import,
}
use deconstruct.Har.Secrets.{import-KeepsSecrets}
use deconstruct.Har.Counts.{CountsFlows, import-counts}

abbrev entry : HarEntry
entry = record {
  request = record {
    method = codes "GET";
    url = codes "u";
    headers = record { name = codes "Authorization"; value = codes "Bearer x" } ∷ [];
    cookies = record { name = codes "c"; value = codes "1" } ∷ [];
    post_data = record { mime_type = []; text = []; encoding = [] };
  };
  response = record {
    status = 200;
    headers = [];
    cookies = [];
    content = record { mime_type = []; text = codes "ok"; encoding = [] };
  };
}

-- every document has the two entries
abbrev drawer : Archive Stored
drawer = record {
  back = stores;
  ensure_session = λ id name kind w. (done tt, w);
  read_file = λ path w. (done [], w);
  entries_of = λ content. done (entry ∷ entry ∷ []);
  base64 = λ s. none;
}

abbrev options : Options
options = record { name = []; redact = none; app_name = [] }

drawer_counts : CountsFlows drawer (λ w. length w.0)
drawer_counts = record {
  insert_flow = λ flow w v h. ap (λ x. length x.1.0) (sym h);
  put = λ body w. refl;
  new_id = λ prefix w. refl;
  tag_flow = λ id tag w. refl;
  ensure_session = λ id name kind w. refl;
}

abbrev after : Stored
after = (import drawer [] options ([], [])).1

import-KeepsSecrets_example : IsSafe after
unfolding redacts
import-KeepsSecrets_example =
    import-KeepsSecrets drawer IsSafe stores_keep (λ id name kind w safe. safe) [] options ([], [])
      refl (tt, tt)

import_test :
    import drawer [] options ([], [])
    ≡ (done (record { session_id = codes "session"; flows = 2 }), after)
unfolding import import_document import_entries import_entry store_entry tag_all yield fail ◌>>=◌
import_test = refl

import-counts_example :
    (entries : List HarEntry) × (drawer.entries_of [] ≡ done entries)
    × (2 ≡ length entries)
    × (length after.0 ≡ 0 + length entries)
import-counts_example =
    import-counts drawer (λ w. length w.0) drawer_counts [] options
      (record { session_id = codes "session"; flows = 2 }) ([], []) after import_test
