-- ===== src/Blobstore/RoundTrip.antt =====
-- What is put is got back, and nothing else is got.
use deconstruct.Base.{
  Text, true, false, [], ◌∷◌, ◌≡◌, ◌≢◌, refl, ap, ◌∙◌, inl, inr, Bool-cases, arith, text_eq_iff,
  text_eq_refl, is_empty,
}
use deconstruct.Action.{Result-cases, bind-done, yield, fail}
use deconstruct.Store.{done}
use deconstruct.Blobstore.{Disk, blob_path, write_blob, put_under, put, checked, get}

module _ {W : Type 0} (disk : Disk W) (root : Text) where
  -- Whatever the disk holds, what is got has the digest that was asked for.
  pub get-digest :
      (hash body : Text) (w : W) → get disk root hash w ≡ done body → disk.digest body ≡ hash
  unfolding get checked
  get-digest hash body w e = elim (Result-cases (disk.read_file (blob_path root hash) w)) [
    | inr (t, h) ↦ absurd (ground (arith, rw (h, get) at e))
    | inl (content, h) ↦ elim (Result-cases (disk.decompress content)) [
      | inr (t, h2) ↦ absurd (ground (arith, rw (h, h2, get) at e))
      | inl (found, h2) ↦ ground (arith, rw (h, h2, get) at e, text_eq_iff (disk.digest found) hash)
    ]
  ]

  checked-digest : (body : Text) → checked disk root (disk.digest body) body ≡ done body
  unfolding checked
  checked-digest body = rw (text_eq_refl (disk.digest body))

  get-written :
      (body content : Text) (v : W)
      → disk.read_file (blob_path root (disk.digest body)) v ≡ done content
      → disk.decompress content ≡ done body
      → get disk root (disk.digest body) v ≡ done body
  unfolding get
  get-written body content v e d = rw (e, d, get) (checked-digest body)

  module _
      (written : (path content : Text) (w v : W)
        → disk.write_file path content w ≡ (done tt, v)
        → disk.read_file path v ≡ done content)
      (body : Text)
      (unpacks : (content : Text)
        → disk.compress body ≡ done content
        → disk.decompress content ≡ done body) where
    write_blob-get :
        (hash : Text) (w v : W)
        → write_blob disk root (disk.digest body) body w ≡ (done hash, v)
        → (hash ≡ disk.digest body) × (get disk root (disk.digest body) v ≡ done body)
    unfolding write_blob fail yield
    write_blob-get hash w v e = elim (Result-cases (disk.compress body)) [
      | inr (t, h) ↦ absurd (ground (arith, rw (h, write_blob) at e))
      | inl (content, h) ↦
          let (_, u, wrote, e2) = bind-done _ _ w v hash (rw (h, write_blob) at e) in
          let same : u ≡ v = ground (arith, e2) in
          (
            ground (arith, e2),
            get-written body content v (written _ content w v (rw same at wrote))
                (unpacks content h),
          )
    ]

    -- A body that is not empty and was put is got back under the hash that was returned, if a written
    -- file is read back, what is compressed unpacks again, and a file that is already there under the
    -- digest of the body gives the body.
    pub put-get :
        (hash : Text) (w v : W)
        → body ≢ []
        → (disk.stat (blob_path root (disk.digest body)) w ≡ done true
            → get disk root (disk.digest body) w ≡ done body)
        → put disk root body w ≡ (done hash, v)
        → get disk root hash v ≡ done body
    unfolding put put_under
    put-get hash w v some_body present e =
        let full : is_empty body ≡ false = nonempty body some_body in
        let e1 = rw (full, put) at e in
        elim (Result-cases (disk.stat (blob_path root (disk.digest body)) w)) [
          | inr (t, h) ↦ absurd (ground (arith, rw (h, put_under) at e1))
          | inl (there, h) ↦ elim (Bool-cases there) [
            | inl y ↦
                let e2 = rw (h, y, put_under) at e1 in
                let same : hash ≡ disk.digest body = ground (arith, e2) in
                let kept : v ≡ w = ground (arith, e2) in rw (same, kept) (present (h ∙ ap done y))
            | inr n ↦
                let (same, got) = write_blob-get hash w v (rw (h, n, put_under) at e1) in
                rw same got
          ]
        ]
      where
        nonempty : (s : Text) → s ≢ [] → is_empty s ≡ false
        nonempty [] h = absurd (h refl)
        nonempty (c ∷ s) h = refl
