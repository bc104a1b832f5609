-- ===== src/Analyzer/Trace/Index.antt =====
-- The index of artifacts: what holds of it after each flow.
use deconstruct.Base.{
  ◌≤◌, Text, Bool, true, ◌||◌, List, [], ◌∷◌, ◌++◌, ◌≡◌, refl, sym, ◌∙◌, arith, inl, inr,
  Bool-cases, Option-cases, is_empty, member, lookup, insert, keys, All, All-append, All-insert,
  All-lookup, Distinct, insert-Distinct, append-Distinct,
}
use deconstruct.Analyzer.{Seen, AuthArtifact, ObservedArtifact, Readers}
use deconstruct.Analyzer.Indexing.{
  ArtifactIndex, artifact_key, new_artifact, add_location, note_source, note_use, see_again,
  upserted, index_sources,
}

-- an artifact of the flows `ids`
pub record IsArtifact (ids : List Text) (a : AuthArtifact) : Type 0 where
  pub ordered : a.first_seen ≤ a.last_seen
  pub from_flow : (is_empty a.source_flow_id || member a.source_flow_id ids) ≡ true
  pub uses : All (λ id. member id ids ≡ true) a.used_by_flow_ids
  pub used_once : Distinct a.used_by_flow_ids
  pub located_once : Distinct a.locations

abbrev pub key_of : AuthArtifact → Text
key_of a = a.kind ++ (0 ∷ (a.name ++ (0 ∷ a.value_hash)))

-- every artifact stands under the key of its type, name and fingerprint, and none under two
pub record IsIndex (ids : List Text) (index : ArtifactIndex) : Type 0 where
  pub entries : All (λ e. (e.0 ≡ key_of e.1) × IsArtifact ids e.1) index
  pub keyed_once : Distinct (keys index)

add_location-Distinct : (l : Text) (ls : List Text) → Distinct ls → Distinct (add_location l ls)
unfolding add_location
add_location-Distinct l ls d = elim (Bool-cases (is_empty l || member l ls)) [
  | inl e ↦ rw (e, add_location) d
  | inr e ↦ rw (e, add_location) (append-Distinct l ls (ground (arith, e)) d)
]

key_of-see_again :
    (observed : ObservedArtifact) (seen : Seen) (mode : Bool) (a : AuthArtifact)
    → key_of (see_again observed seen mode a) ≡ key_of a
unfolding see_again
key_of-see_again observed seen mode a = refl

key_of-new_artifact :
    (readers : Readers) (fresh : Text → Text) (observed : ObservedArtifact) (seen : Seen)
    (mode : Bool)
    → artifact_key readers observed
      ≡ key_of (see_again observed seen mode (new_artifact readers fresh observed seen))
unfolding see_again new_artifact artifact_key
key_of-new_artifact readers fresh observed seen mode = refl

pub key_of-note_source : (id : Text) (a : AuthArtifact) → key_of (note_source id a) ≡ key_of a
unfolding note_source
key_of-note_source id a = elim (Bool-cases (is_empty a.source_flow_id)) [
  | inl e ↦ rw (e, note_source) refl
  | inr e ↦ rw (e, note_source) refl
]

pub key_of-note_use : (id : Text) (a : AuthArtifact) → key_of (note_use id a) ≡ key_of a
unfolding note_use
key_of-note_use id a = elim (Bool-cases (member id a.used_by_flow_ids)) [
  | inl e ↦ rw (e, note_use) refl
  | inr e ↦ rw (e, note_use) refl
]

module _ (ids : List Text) where
  see_again-IsArtifact :
      (observed : ObservedArtifact) (seen : Seen) (mode : Bool) (a : AuthArtifact)
      → member seen.flow.id ids ≡ true
      → IsArtifact ids a
      → IsArtifact ids (see_again observed seen mode a)
  unfolding see_again
  see_again-IsArtifact observed seen mode a m h = record {
    ordered = (let o = h.ordered in ground (arith, o));
    from_flow = (let f = h.from_flow in ground (arith, f, m));
    uses = h.uses;
    used_once = h.used_once;
    located_once = add_location-Distinct observed.location a.locations h.located_once;
  }

  note_source-IsArtifact :
      (id : Text) (a : AuthArtifact)
      → member id ids ≡ true
      → IsArtifact ids a
      → IsArtifact ids (note_source id a)
  unfolding note_source
  note_source-IsArtifact id a m h = elim (Bool-cases (is_empty a.source_flow_id)) [
    | inl e ↦
        rw (e, note_source)
          (record {
            ordered = h.ordered;
            from_flow = ground (arith, m);
            uses = h.uses;
            used_once = h.used_once;
            located_once = h.located_once;
          })
    | inr e ↦ rw (e, note_source) h
  ]

  pub note_use-IsArtifact :
      (id : Text) (a : AuthArtifact)
      → member id ids ≡ true
      → IsArtifact ids a
      → IsArtifact ids (note_use id a)
  unfolding note_use
  note_use-IsArtifact id a m h = elim (Bool-cases (member id a.used_by_flow_ids)) [
    | inl e ↦ rw (e, note_use) h
    | inr e ↦
        rw (e, note_use)
          (record {
            ordered = h.ordered;
            from_flow = h.from_flow;
            uses = All-append (λ x. member x ids ≡ true) a.used_by_flow_ids _ h.uses (m, tt);
            used_once = append-Distinct id a.used_by_flow_ids e h.used_once;
            located_once = h.located_once;
          })
  ]

  module _ (readers : Readers) (fresh : Text → Text) where
    new_artifact-IsArtifact :
        (observed : ObservedArtifact) (seen : Seen)
        → IsArtifact ids (new_artifact readers fresh observed seen)
    unfolding new_artifact
    new_artifact-IsArtifact observed seen = record {
      ordered = omega arith;
      from_flow = refl;
      uses = tt;
      used_once = tt;
      located_once = tt;
    }

    abbrev pub Entry : ObservedArtifact → AuthArtifact → Type 0
    Entry observed a = (artifact_key readers observed ≡ key_of a) × IsArtifact ids a

    pub upserted-Entry :
        (observed : ObservedArtifact) (seen : Seen) (mode : Bool) (index : ArtifactIndex)
        → member seen.flow.id ids ≡ true
        → IsIndex ids index
        → Entry observed (upserted readers fresh observed seen mode index)
    unfolding upserted
    upserted-Entry observed seen mode index m h =
        elim (Option-cases (lookup (artifact_key readers observed) index)) [
          | inl e ↦
              rw (e, upserted)
                (
                  key_of-new_artifact readers fresh observed seen mode,
                  see_again-IsArtifact observed seen mode _ m
                      (new_artifact-IsArtifact observed seen),
                )
          | inr (a, e) ↦
              let (k, i) =
                All-lookup (λ e. (e.0 ≡ key_of e.1) × IsArtifact ids e.1)
                  (artifact_key readers observed) a index h.entries e in
              rw (e, upserted)
                (
                  k ∙ sym (key_of-see_again observed seen mode a),
                  see_again-IsArtifact observed seen mode a m i,
                )
        ]

    pub put-IsIndex :
        (observed : ObservedArtifact) (a : AuthArtifact) (index : ArtifactIndex)
        → Entry observed a
        → IsIndex ids index
        → IsIndex ids (insert (artifact_key readers observed) a index)
    put-IsIndex observed a index e h = record {
      entries = All-insert _ (artifact_key readers observed) a index e h.entries;
      keyed_once = insert-Distinct (artifact_key readers observed) a index h.keyed_once;
    }

    pub index_sources-IsIndex :
        (seen : Seen) (observed : List ObservedArtifact) (index : ArtifactIndex)
        → member seen.flow.id ids ≡ true
        → IsIndex ids index
        → IsIndex ids (index_sources readers fresh seen observed index)
    unfolding index_sources
    index_sources-IsIndex seen [] index m h = h
    index_sources-IsIndex seen (o ∷ os) index m h =
        let (k, i) = upserted-Entry o seen true index m h in
        index_sources-IsIndex seen os _ m (
          put-IsIndex o (note_source seen.flow.id (upserted readers fresh o seen true index)) index
            (
              k ∙ sym (key_of-note_source seen.flow.id (upserted readers fresh o seen true index)),
              note_source-IsArtifact seen.flow.id _ m i,
            )
            h)
