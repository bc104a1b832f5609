-- ===== src/Blobstore/Examples.antt =====
-- A blob that is put and got on a disk that holds one file, and a file that does not fit its name.
use mathlib.Core.Path.{subst}
use deconstruct.Base.{
  Text, codes, true, [], ◌∷◌, ◌++◌, ◌≡◌, refl, text_eq, text_eq_refl, if◌then◌else◌, arith,
}
use deconstruct.Action.{◌>>=◌, yield}
use deconstruct.Store.{Result, done, failed}
use deconstruct.Blobstore.{Disk, blob_path, write_blob, put_under, put, checked, get}
use deconstruct.Blobstore.RoundTrip.{put-get}

-- the path and the content of the only file
abbrev State : Type 0
State = Text × Text

abbrev read_one : Text → State → Result Text
read_one path (name, content) =
    if text_eq name path then done content else failed (codes "not found")

abbrev one_file : Disk State
one_file = record {
  stat = λ path w. done (text_eq w.0 path);
  read_file = read_one;
  write_file = λ path content w. (done tt, (path, content));
  digest = λ body. codes "d" ++ body;
  compress = λ body. done (codes "z" ++ body);
  decompress = λ content. elim content [ [] ↦ failed (codes "eof") | c ∷ rest ↦ done rest ];
}

abbrev full_disk : State
full_disk = (codes "r/sha256/dhi.bin.zst", codes "zhi")

put_hi : put one_file (codes "r") (codes "hi") ([], []) ≡ (done (codes "dhi"), full_disk)
unfolding put put_under write_blob ◌>>=◌ yield blob_path
put_hi = refl

get_hi : get one_file (codes "r") (codes "dhi") full_disk ≡ done (codes "hi")
unfolding get checked blob_path
get_hi = refl

read_back :
    (path content : Text) (w v : State)
    → one_file.write_file path content w ≡ (done tt, v)
    → one_file.read_file path v ≡ done content
read_back path content w v e =
    let same : (path, content) ≡ v = ground (arith, e) in
    subst (λ u. read_one path u ≡ done content) same (rw (text_eq_refl path))

unpack :
    (content : Text)
    → one_file.compress (codes "hi") ≡ done content
    → one_file.decompress content ≡ done (codes "hi")
unpack content e =
    let same : codes "zhi" ≡ content = ground (arith, e) in
    subst (λ c. one_file.decompress c ≡ done (codes "hi")) same refl

nothing_there :
    one_file.stat (blob_path (codes "r") (codes "dhi")) ([], []) ≡ done true
    → get one_file (codes "r") (codes "dhi") ([], []) ≡ done (codes "hi")
unfolding blob_path
nothing_there e = absurd (ground (arith, e))

put-get_example : get one_file (codes "r") (codes "dhi") full_disk ≡ done (codes "hi")
put-get_example =
    put-get one_file (codes "r") read_back (codes "hi") unpack (codes "dhi") ([], []) full_disk
      (λ e. absurd (ground (arith, e))) nothing_there put_hi
