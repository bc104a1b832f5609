-- ===== src/Har/Counts.antt =====
-- An import stores each entry once.
use deconstruct.Base.{
  ℕ, suc, ◌+◌, Text, codes, Bool, List, [], ◌∷◌, ◌≡◌, refl, sym, ap, ◌∙◌, arith, length, inl, inr,
}
use deconstruct.Action.{Action, fail, yield, bind-done, Result-cases}
use deconstruct.Redact.{Header}
use deconstruct.Store.{Flow, done}
use deconstruct.Replay.Engine.{tag_all}
use deconstruct.Har.{
  HarEntry, Options, ImportResult, Archive, store_entry, import_entry, import_entries,
  import_document, import, named,
}

-- a number read off the state that counts the stored flows
pub record CountsFlows {W : Type 0} (archive : Archive W) (flows : W → ℕ) : Type 0 where
  pub insert_flow :
      (flow : Flow) (w v : W)
      → archive.back.insert_flow flow w ≡ (done tt, v)
      → flows v ≡ suc (flows w)
  pub put : (body : Text) (w : W) → flows (archive.back.blob_put body w).1 ≡ flows w
  pub new_id : (prefix : Text) (w : W) → flows (archive.back.new_id prefix w).1 ≡ flows w
  pub tag_flow : (id tag : Text) (w : W) → flows (archive.back.tag_flow id tag w) ≡ flows w
  pub ensure_session :
      (id name kind : Text) (w : W) → flows (archive.ensure_session id name kind w).1 ≡ flows w

yielded_result : {W : Type 0} (a b : ImportResult) (w v : W) → yield a w ≡ (done b, v) → b ≡ a
unfolding yield
yielded_result a b w v h = ground (arith, h)

module _ {W : Type 0} (archive : Archive W) (flows : W → ℕ)
    (counts : CountsFlows archive flows) where
  -- a step that succeeds and counts nothing
  moved :
      {A : Type 0} (m : Action W A) (a : A) (w v : W)
      → m w ≡ (done a, v)
      → flows (m w).1 ≡ flows w
      → flows v ≡ flows w
  moved m a w v e h = ap (λ x. flows x.1) (sym e) ∙ h

  tag_all-flows :
      (id : Text) (tags : List Text) (w : W) → flows (tag_all archive.back id tags w) ≡ flows w
  unfolding tag_all
  tag_all-flows id [] w = refl
  tag_all-flows id (tag ∷ tags) w = tag_all-flows id tags _ ∙ counts.tag_flow id tag w

  store_entry-flows :
      (session_id app_name flow_id : Text) (entry : HarEntry) (qh ph : Header) (qb pb : Text)
      (w v : W)
      → store_entry archive session_id app_name flow_id entry qh ph qb pb w ≡ (done tt, v)
      → flows v ≡ suc (flows w)
  unfolding store_entry
  store_entry-flows session_id app_name flow_id entry qh ph qb pb w v h =
      let (a, u1, r1, h1) = bind-done _ _ w v tt h in
      let (b, u2, r2, h2) = bind-done _ _ u1 v tt h1 in
      let (c, u3, r3, h3) = bind-done _ _ u2 v tt h2 in
      ap (λ x. flows x.1) (sym h3)
      ∙ tag_all-flows flow_id _ u3
      ∙ counts.insert_flow _ u2 u3 r3
      ∙ ap suc (
          moved (archive.back.blob_put pb) b u1 u2 r2 (counts.put pb u1)
          ∙ moved (archive.back.blob_put qb) a w u1 r1 (counts.put qb w))

  import_entry-flows :
      (session_id app_name : Text) (redact : Bool) (entry : HarEntry) (w v : W)
      → import_entry archive session_id app_name redact entry w ≡ (done tt, v)
      → flows v ≡ suc (flows w)
  unfolding import_entry
  import_entry-flows session_id app_name redact entry w v h =
      let (id, u, r, h1) = bind-done _ _ w v tt h in
      store_entry-flows session_id app_name id entry _ _ _ _ u v h1
      ∙ ap suc
          (moved (archive.back.new_id (codes "flow")) id w u r (counts.new_id (codes "flow") w))

  import_entries-flows :
      (session_id app_name : Text) (redact : Bool) (entries : List HarEntry) (n m : ℕ) (w v : W)
      → import_entries archive session_id app_name redact entries n w ≡ (done m, v)
      → (m ≡ n + length entries) × (flows v ≡ flows w + length entries)
  unfolding import_entries yield
  import_entries-flows session_id app_name redact [] n m w v h =
      (ground (arith, h), ground (arith, h))
  import_entries-flows session_id app_name redact (entry ∷ entries) n m w v h =
      let (a, u, r, h1) = bind-done _ _ w v m h in
      let one = import_entry-flows session_id app_name redact entry w u r in
      let (e, f) = import_entries-flows session_id app_name redact entries (n + 1) m u v h1 in
      (omega (arith, e), omega (arith, one, f))

  import_document-flows :
      (entries : List HarEntry) (options : Options) (result : ImportResult) (w v : W)
      → import_document archive entries options w ≡ (done result, v)
      → (result.flows ≡ length entries) × (flows v ≡ flows w + length entries)
  unfolding import_document yield
  import_document-flows entries options result w v h =
      let (id, u1, r1, h1) = bind-done _ _ w v result h in
      let (a, u2, r2, h2) = bind-done _ _ u1 v result h1 in
      let title = named archive options.name (codes "Imported HAR") in
      let (m, u3, r3, h3) = bind-done _ _ u2 v result h2 in
      let (e, f) = import_entries-flows id _ _ entries 0 m u2 u3 r3 in
      let before : flows u2 ≡ flows w =
        moved (archive.ensure_session id title (codes "har")) a u1 u2 r2
          (counts.ensure_session id title (codes "har") u1)
        ∙ moved (archive.back.new_id (codes "session")) id w u1 r1
            (counts.new_id (codes "session") w) in
      let last : flows v ≡ flows u3 = ap (λ x. flows x.1) (sym h3) in
      let said : result.flows ≡ m = ap (λ x. x.flows) (yielded_result _ result u3 v h3) in
      (omega (arith, e, said), omega (arith, f, before, last))

  -- An import that succeeds has decoded the document and stored one flow for each of its entries, and
  -- its result says so, for every number that counts the stored flows.
  pub import-counts :
      (content : Text) (options : Options) (result : ImportResult) (w v : W)
      → import archive content options w ≡ (done result, v)
      → (entries : List HarEntry) × (archive.entries_of content ≡ done entries)
        × (result.flows ≡ length entries)
        × (flows v ≡ flows w + length entries)
  unfolding import fail
  import-counts content options result w v h = elim (Result-cases (archive.entries_of content)) [
    | inr (t, e) ↦ absurd (ground (arith, e, h))
    | inl (entries, e) ↦
        let (n, f) = import_document-flows entries options result w v (rw (e, import) at h) in
        (entries, e, n, f)
  ]
