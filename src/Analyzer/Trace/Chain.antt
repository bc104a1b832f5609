-- ===== src/Analyzer/Trace/Chain.antt =====
-- What holds of a traced chain.
use deconstruct.Base.{
  ◌≢◌, Text, Bool, true, false, ◌||◌, List, [], ◌∷◌, ◌++◌, ◌≡◌, refl, sym, ap, ◌∙◌, arith, inl, inr,
  Bool-cases, text_eq, text_eq_refl, text_eq_sound, member, keys, map, All, Distinct, append_assoc,
  append-nil, member-append,
}
use mathlib.Core.Path.{subst}
use deconstruct.Analyzer.{Seen, AuthArtifact, AuthCsrfLink, AuthChain, Readers}
use deconstruct.Analyzer.Classify.{sort_by, sort_strings, text_less}
use deconstruct.Analyzer.Sorting.{sort_by-All, sort_by-Distinct}
use deconstruct.Analyzer.Trace.{
  Tracing, no_tracing, link_key, unique_csrf_links, values_of, tidy, sorted, trace_flow,
  trace_flows, chain_of, artifact_less,
}
use deconstruct.Analyzer.Indexing.{ArtifactIndex}
use deconstruct.Analyzer.Trace.Index.{IsArtifact, key_of}
use deconstruct.Action.{fail, yield, bind-done, Result-cases}
use deconstruct.Store.{done}
use deconstruct.Analyzer.Trace.{
  TraceParams, AuthStore, load_flows, body, save_chain, saves, or_else, trace, trace_loaded,
}
use deconstruct.Analyzer.Trace.Links.{IsLink, trace_flows-IsTracing}

map-same : (xs : List Text) → map (λ x. x) xs ≡ xs
map-same [] = refl
map-same (x ∷ xs) = ap (λ ys. x ∷ ys) (map-same xs)

sort_strings-Distinct : (xs : List Text) → Distinct xs → Distinct (sort_strings xs)
unfolding sort_strings
sort_strings-Distinct xs d =
    subst Distinct (map-same (sort_by text_less xs))
      (sort_by-Distinct text_less (λ x. x) xs (subst Distinct (sym (map-same xs)) d))

sort_strings-All : (P : Text → Type 0) (xs : List Text) → All P xs → All P (sort_strings xs)
unfolding sort_strings
sort_strings-All P xs h = sort_by-All text_less P xs h

tidy-IsArtifact :
    (ids : List Text) (artifacts : List AuthArtifact)
    → All (IsArtifact ids) artifacts
    → All (IsArtifact ids) (tidy artifacts)
unfolding tidy
tidy-IsArtifact ids [] h = tt
tidy-IsArtifact ids (a ∷ artifacts) (h, hs) = (
  record {
    ordered = h.ordered;
    from_flow = h.from_flow;
    uses = sort_strings-All (λ id. member id ids ≡ true) a.used_by_flow_ids h.uses;
    used_once = sort_strings-Distinct a.used_by_flow_ids h.used_once;
    located_once = sort_strings-Distinct a.locations h.located_once;
  },
  tidy-IsArtifact ids artifacts hs,
)

key_of-tidy : (artifacts : List AuthArtifact) → map key_of (tidy artifacts) ≡ map key_of artifacts
unfolding tidy
key_of-tidy [] = refl
key_of-tidy (a ∷ artifacts) = ap (λ ks. key_of a ∷ ks) (key_of-tidy artifacts)

values_of-IsArtifact :
    (ids : List Text) (index : ArtifactIndex)
    → All (λ e. (e.0 ≡ key_of e.1) × IsArtifact ids e.1) index
    → All (IsArtifact ids) (values_of index) × (keys index ≡ map key_of (values_of index))
values_of-IsArtifact ids [] h = (tt, refl)
values_of-IsArtifact ids ((k, a) ∷ index) ((e, i), hs) =
    let (rest, ks) = values_of-IsArtifact ids index hs in
    ((i, rest), ap (λ x. x ∷ keys index) e ∙ ap (λ xs. key_of a ∷ xs) ks)

unique_csrf_links-All :
    (P : AuthCsrfLink → Type 0) (seen : List Text) (links : List AuthCsrfLink)
    → All P links
    → All P (unique_csrf_links seen links)
unfolding unique_csrf_links
unique_csrf_links-All P seen [] h = tt
unique_csrf_links-All P seen (l ∷ links) (h, hs) = elim (Bool-cases (member (link_key l) seen)) [
  | inl e ↦ rw (e, unique_csrf_links) (unique_csrf_links-All P seen links hs)
  | inr e ↦ rw (e, unique_csrf_links) (h, unique_csrf_links-All P (link_key l ∷ seen) links hs)
]

or_true : (a b : Bool) → b ≡ true → (a || b) ≡ true
or_true true b h = refl
or_true false b h = h

member_head : (t : Text) (ts : List Text) → member t (t ∷ ts) ≡ true
unfolding member
member_head t ts = rw (text_eq_refl t) refl

member_apart :
    (s t : Text) (ts : List Text) → member s ts ≡ false → member t ts ≡ true → text_eq s t ≡ false
member_apart s t ts n m = elim (Bool-cases (text_eq s t)) [
  | inr e ↦ e
  | inl e ↦
      absurd (ground (arith, n, subst (λ x. member x ts ≡ true) (sym (text_eq_sound s t e)) m))
]

unique_csrf_links-seen :
    (t : Text) (seen : List Text) (links : List AuthCsrfLink)
    → member t seen ≡ true
    → member t (map link_key (unique_csrf_links seen links)) ≡ false
unfolding unique_csrf_links member
unique_csrf_links-seen t seen [] m = refl
unique_csrf_links-seen t seen (l ∷ links) m = elim (Bool-cases (member (link_key l) seen)) [
  | inl e ↦ rw (e, unique_csrf_links) (unique_csrf_links-seen t seen links m)
  | inr e ↦
      let rest = unique_csrf_links-seen t (link_key l ∷ seen) links (ground (arith, m)) in
      rw (e, unique_csrf_links, member_apart (link_key l) t seen e m) rest
]

unique_csrf_links-Distinct :
    (seen : List Text) (links : List AuthCsrfLink)
    → Distinct (map link_key (unique_csrf_links seen links))
unfolding unique_csrf_links
unique_csrf_links-Distinct seen [] = tt
unique_csrf_links-Distinct seen (l ∷ links) = elim (Bool-cases (member (link_key l) seen)) [
  | inl e ↦ rw (e, unique_csrf_links) (unique_csrf_links-Distinct seen links)
  | inr e ↦
      rw (e, unique_csrf_links)
        (
          unique_csrf_links-seen (link_key l) (link_key l ∷ seen) links
              (member_head (link_key l) seen),
          unique_csrf_links-Distinct (link_key l ∷ seen) links,
        )
]

-- What a chain says of its flows.
pub record IsChain (chain : AuthChain) : Type 0 where
  pub artifacts : All (IsArtifact chain.flow_ids) chain.artifacts
  pub kept_once : Distinct (map key_of chain.artifacts)
  pub links : All (IsLink chain.flow_ids) chain.csrf_links
  pub linked_once : Distinct (map link_key chain.csrf_links)

flow_ids-trace_flows :
    (readers : Readers) (fresh body_of : Text → Text) (flows : List Seen) (t : Tracing)
    → (trace_flows readers fresh body_of flows t).flow_ids
      ≡ t.flow_ids ++ map (λ s. s.flow.id) flows
unfolding trace_flows trace_flow
flow_ids-trace_flows readers fresh body_of [] t = sym (append-nil t.flow_ids)
flow_ids-trace_flows readers fresh body_of (seen ∷ flows) t =
    flow_ids-trace_flows readers fresh body_of flows (trace_flow readers fresh body_of seen t)
    ∙ append_assoc t.flow_ids (seen.flow.id ∷ []) (map (λ s. s.flow.id) flows)

flow_members :
    (before : List Text) (flows : List Seen)
    → All (λ s. member s.flow.id (before ++ map (λ s. s.flow.id) flows) ≡ true) flows
flow_members before [] = tt
flow_members before (seen ∷ flows) = (
  member-append seen.flow.id before (seen.flow.id ∷ map (λ s. s.flow.id) flows)
      ∙ or_true (member seen.flow.id before) _
          (member_head seen.flow.id (map (λ s. s.flow.id) flows)),
  subst (λ ids. All (λ s. member s.flow.id ids ≡ true) flows)
      (append_assoc before (seen.flow.id ∷ []) (map (λ s. s.flow.id) flows))
      (flow_members (before ++ (seen.flow.id ∷ [])) flows),
)

-- The chain of the flows is sound: its artifacts and links name its flows only; each type, name and
-- fingerprint has one artifact, first seen no later than last seen, with no use and no location twice;
-- and the links are distinct, of CSRF names, and lead from one flow to another.
pub chain_of-IsChain :
    (readers : Readers) (fresh body_of : Text → Text) (id session_id host : Text)
    (flows : List Seen)
    → IsChain (chain_of id session_id host (trace_flows readers fresh body_of flows no_tracing))
unfolding chain_of sorted
chain_of-IsChain readers fresh body_of id session_id host flows =
    let t = trace_flows readers fresh body_of flows no_tracing in
    let members =
      subst (λ ids. All (λ s. member s.flow.id ids ≡ true) flows)
        (sym (flow_ids-trace_flows readers fresh body_of flows no_tracing))
        (flow_members [] flows) in
    let (h, l) =
      trace_flows-IsTracing t.flow_ids readers fresh body_of flows no_tracing members
        (record { entries = tt; keyed_once = tt }, tt) in
    let (good, ks) = values_of-IsArtifact t.flow_ids t.index h.entries in
    record {
      artifacts =
          tidy-IsArtifact t.flow_ids (sort_by artifact_less (values_of t.index))
            (sort_by-All artifact_less (IsArtifact t.flow_ids) (values_of t.index) good);
      kept_once = subst Distinct (sym (key_of-tidy (sort_by artifact_less (values_of t.index)))) (
          sort_by-Distinct artifact_less key_of (values_of t.index)
            (subst Distinct ks h.keyed_once));
      links = unique_csrf_links-All (IsLink t.flow_ids) [] t.csrf_links l;
      linked_once = unique_csrf_links-Distinct [] t.csrf_links;
    }

yielded : {W A : Type 0} (a b : A) (w v : W) → yield a w ≡ (done b, v) → a ≡ b
unfolding yield
yielded a b w v h = ground (arith, h)

save_chain-same :
    {W : Type 0} (store : AuthStore W) (params : TraceParams) (chain c : AuthChain) (w v : W)
    → save_chain store params chain w ≡ (done c, v)
    → chain ≡ c
unfolding save_chain
save_chain-same store params chain c w v h = elim (Bool-cases (saves params.save)) [
  | inl e ↦
      let (a, u, r, l) = bind-done _ _ w v c (rw (e, save_chain) at h) in yielded chain c u v l
  | inr e ↦ yielded chain c w v (rw (e, save_chain) at h)
]

trace_loaded-IsChain :
    {W : Type 0} (store : AuthStore W) (readers : Readers) (fresh : Text → Text)
    (params : TraceParams) (flows : List Seen) (w v : W) (chain : AuthChain)
    → trace_loaded store readers fresh params flows w ≡ (done chain, v)
    → IsChain chain × (chain.flow_ids ≡ map (λ s. s.flow.id) flows) × (flows ≢ [])
unfolding trace_loaded fail chain_of
trace_loaded-IsChain store readers fresh params [] w v chain h = absurd (ground (arith, h))
trace_loaded-IsChain store readers fresh params (seen ∷ flows) w v chain h =
    let (id, u, r, last) = bind-done _ _ w v chain h in
    let same = save_chain-same store params _ chain u v last in
    (
      subst IsChain same (
          chain_of-IsChain readers fresh (body store u) id
            (or_else params.session_id seen.flow.session_id) (or_else params.host seen.flow.host)
            (seen ∷ flows)),
      ap (λ c. c.flow_ids) (sym same)
          ∙ flow_ids-trace_flows readers fresh (body store u) (seen ∷ flows) no_tracing,
      λ e. cc e,
    )

-- The flows of a chain that a trace returns are those that were loaded, in order, at least one. Its
-- artifacts and links name only them; each type, name and fingerprint has one artifact, first seen no
-- later than last seen, with no use and no location twice; and its links are distinct, for names of CSRF
-- tokens, and lead from one flow to another.
pub trace-IsChain :
    {W : Type 0} (store : AuthStore W) (readers : Readers) (fresh : Text → Text)
    (params : TraceParams) (w v : W) (chain : AuthChain)
    → trace store readers fresh params w ≡ (done chain, v)
    → (flows : List Seen) × (load_flows store params w ≡ done flows)
      × (flows ≢ [])
      × (chain.flow_ids ≡ map (λ s. s.flow.id) flows)
      × IsChain chain
unfolding trace
trace-IsChain store readers fresh params w v chain h =
    elim (Result-cases (load_flows store params w)) [
      | inr (t, e) ↦ absurd (ground (arith, e, h))
      | inl (flows, e) ↦
          let (good, ids, some_flow) =
            trace_loaded-IsChain store readers fresh params flows w v chain (rw (e, trace) at h) in
          (flows, e, some_flow, ids, good)
    ]
