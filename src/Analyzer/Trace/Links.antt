-- ===== src/Analyzer/Trace/Links.antt =====
-- The links between CSRF tokens, which the index and the links keep.
use deconstruct.Base.{
  Text, true, false, ◌||◌, some, List, [], ◌∷◌, ◌≡◌, sym, ◌∙◌, arith, inl, inr, Bool-cases,
  Option-cases, is_empty, text_eq, member, All, All-append,
}
use mathlib.Core.Path.{subst}
use mathlib.Core.Option.{some-injective}
use deconstruct.Analyzer.{Seen, AuthArtifact, AuthCsrfLink, ObservedArtifact, Readers}
use deconstruct.Analyzer.Artifacts.{is_csrf_name, fingerprint}
use deconstruct.Analyzer.Trace.{Tracing, trace_flow, trace_flows}
use deconstruct.Analyzer.Indexing.{
  ArtifactIndex, is_csrf_source, find_csrf_source, csrf_link, upserted, note_use, use_links,
  index_uses,
}
use deconstruct.Analyzer.Trace.Index.{
  IsArtifact, key_of, IsIndex, key_of-note_use, note_use-IsArtifact, put-IsIndex, upserted-Entry,
  index_sources-IsIndex,
}

-- a link leads from one of the flows `ids` to another, for a name of a CSRF token
pub record IsLink (ids : List Text) (link : AuthCsrfLink) : Type 0 where
  pub named : is_csrf_name link.token_name ≡ true
  pub from_flow : member link.source_flow_id ids ≡ true
  pub to_flow : member link.used_by_flow_id ids ≡ true
  pub apart : text_eq link.source_flow_id link.used_by_flow_id ≡ false

module _ (ids : List Text) where
  csrf_link-IsLink :
      (observed : ObservedArtifact) (id : Text) (source : AuthArtifact)
      → is_csrf_name observed.name ≡ true
      → member id ids ≡ true
      → IsArtifact ids source
      → All (IsLink ids) (csrf_link observed id source)
  unfolding csrf_link
  csrf_link-IsLink observed id source n m h =
      let f = h.from_flow in
      elim (Bool-cases (is_empty source.source_flow_id || text_eq source.source_flow_id id)) [
        | inl e ↦ rw (e, csrf_link) tt
        | inr e ↦
            rw (e, csrf_link)
              (
                record {
                  named = n;
                  from_flow = ground (arith, e, f);
                  to_flow = m;
                  apart = ground (arith, e);
                },
                tt,
              )
      ]

  find_csrf_source-IsArtifact :
      (hash : Text) (index : ArtifactIndex) (a : AuthArtifact)
      → All (λ e. (e.0 ≡ key_of e.1) × IsArtifact ids e.1) index
      → find_csrf_source hash index ≡ some a
      → IsArtifact ids a
  unfolding find_csrf_source
  find_csrf_source-IsArtifact hash [] a h e = absurd (ground (arith, e))
  find_csrf_source-IsArtifact hash ((k, b) ∷ index) a ((ke, i), hs) e =
      elim (Bool-cases (is_csrf_source hash b)) [
        | inl t ↦ subst (IsArtifact ids) (some-injective b a (rw (t, find_csrf_source) at e)) i
        | inr t ↦ find_csrf_source-IsArtifact hash index a hs (rw (t, find_csrf_source) at e)
      ]

  module _ (readers : Readers) (fresh : Text → Text) where
    use_links-IsLink :
        (seen : Seen) (observed : ObservedArtifact) (a : AuthArtifact) (index : ArtifactIndex)
        → member seen.flow.id ids ≡ true
        → IsArtifact ids a
        → IsIndex ids index
        → All (IsLink ids) (use_links readers fresh seen observed a index)
    unfolding use_links
    use_links-IsLink seen observed a index m i h = elim (Bool-cases (is_csrf_name observed.name)) [
      | inr n ↦ rw (n, use_links) tt
      | inl n ↦ elim (Bool-cases (is_empty a.source_flow_id)) [
        | inr e ↦ rw (n, e, use_links) (csrf_link-IsLink observed seen.flow.id a n m i)
        | inl e ↦
            elim (Option-cases (find_csrf_source (fingerprint readers observed.value) index)) [
              | inl f ↦ rw (n, e, f, use_links) tt
              | inr (source, f) ↦
                  rw (n, e, f, use_links)
                    (csrf_link-IsLink observed seen.flow.id source n m (
                      find_csrf_source-IsArtifact (fingerprint readers observed.value) index source
                        h.entries f))
            ]
      ]
    ]

    index_uses-IsLink :
        (seen : Seen) (os : List ObservedArtifact) (index : ArtifactIndex)
        (links : List AuthCsrfLink)
        → member seen.flow.id ids ≡ true
        → IsIndex ids index
        → All (IsLink ids) links
        → IsIndex ids (index_uses readers fresh seen os (index, links)).0
          × All (IsLink ids) (index_uses readers fresh seen os (index, links)).1
    unfolding index_uses
    index_uses-IsLink seen [] index links m h l = (h, l)
    index_uses-IsLink seen (o ∷ os) index links m h l =
        let (k, i) = upserted-Entry ids readers fresh o seen false index m h in
        let noted =
          note_use-IsArtifact ids seen.flow.id (upserted readers fresh o seen false index) m i in
        let later =
          put-IsIndex ids readers fresh o
            (note_use seen.flow.id (upserted readers fresh o seen false index)) index
            (
              k ∙ sym (key_of-note_use seen.flow.id (upserted readers fresh o seen false index)),
              noted,
            )
            h in
        index_uses-IsLink seen os _ _ m later
          (All-append (IsLink ids) links _ l (use_links-IsLink seen o _ _ m noted later))

    -- what the loop over the flows keeps
    abbrev pub IsTracing : Tracing → Type 0
    IsTracing t = IsIndex ids t.index × All (IsLink ids) t.csrf_links

    module _ (body_of : Text → Text) where
      trace_flow-IsTracing :
          (seen : Seen) (t : Tracing)
          → member seen.flow.id ids ≡ true
          → IsTracing t
          → IsTracing (trace_flow readers fresh body_of seen t)
      unfolding trace_flow
      trace_flow-IsTracing seen t m (h, l) =
          index_uses-IsLink seen _ _ t.csrf_links m
            (index_sources-IsIndex ids readers fresh seen _ t.index m h) l

      pub trace_flows-IsTracing :
          (flows : List Seen) (t : Tracing)
          → All (λ seen. member seen.flow.id ids ≡ true) flows
          → IsTracing t
          → IsTracing (trace_flows readers fresh body_of flows t)
      unfolding trace_flows
      trace_flows-IsTracing [] t ms h = h
      trace_flows-IsTracing (seen ∷ flows) t (m, ms) h =
          trace_flows-IsTracing flows _ ms (trace_flow-IsTracing seen t m h)
