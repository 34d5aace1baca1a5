-- ===== src/Rooms/Metadata/Merge.antt =====
-- Giving a room to a tenant (src/livekit/metadata.rs, `merge_auth_id`).
use sayna.Prelude.{
  false, none, some, is_empty, if◌then◌else◌, refl, ap, ◌≡◌, ◌≢◌, ◌∙◌, ◌⊎◌, inl, inr, Bool-cases,
  Option-cases, arith,
}
use sayna.Prelude.Text.{Text, text_eq, text_eq_iff, trim}
use sayna.Prelude.Dict.{lookup, insert, lookup-insert}
use sayna.Rooms.Metadata.{
  Json, Map, object, string, ok, err, auth_id_conflict, as_str, auth_id_key, parse_metadata,
  get_auth_id, merge_auth_id,
}

module _ {V : Type 0} (json : Json V) where
  -- The text of a map, which has no blanks around it, reads back as the map.
  abbrev pub ReadsBack : Map V → Type 0
  ReadsBack map =
      (is_empty (trim (json.to_string map)) ≡ false)
      × (json.from_str (trim (json.to_string map)) ≡ some (object map))

  parse_metadata-to_string :
      (map : Map V) → ReadsBack map → parse_metadata json (json.to_string map) ≡ ok map
  unfolding parse_metadata
  parse_metadata-to_string map (some_text, reads) = rw (some_text, reads) refl

  get_auth_id-map :
      (raw : Text) (map : Map V)
      → parse_metadata json raw ≡ ok map
      → get_auth_id json raw ≡ as_str (lookup auth_id_key map)
  unfolding get_auth_id
  get_auth_id-map raw map p = rw (get_auth_id, p) refl

  merge_auth_id-none :
      (raw auth_id : Text) (map : Map V)
      → parse_metadata json raw ≡ ok map
      → as_str (lookup auth_id_key map) ≡ none
      → merge_auth_id json raw auth_id
        ≡ ok (json.to_string (insert auth_id_key (string auth_id) map))
  unfolding merge_auth_id
  merge_auth_id-none raw auth_id map p e = rw (merge_auth_id, p, e) refl

  merge_auth_id-some :
      (raw auth_id owner : Text) (map : Map V)
      → parse_metadata json raw ≡ ok map
      → as_str (lookup auth_id_key map) ≡ some owner
      → merge_auth_id json raw auth_id ≡ (
          if text_eq owner auth_id
          then ok (json.to_string map)
          else err (auth_id_conflict owner auth_id))
  unfolding merge_auth_id
  merge_auth_id-some raw auth_id owner map p e = rw (merge_auth_id, p, e) refl

  -- Metadata that parses to `map`, where the JSON library reads back what it writes of that map and
  -- of the map with the tenant. A merge is refused when the metadata names another tenant. Otherwise
  -- it gives metadata that names the tenant of the merge and has every other field of the map.
  pub merge_auth_id-owner :
      (raw auth_id : Text) (map : Map V)
      → parse_metadata json raw ≡ ok map
      → ReadsBack map
      → ReadsBack (insert auth_id_key (string auth_id) map)
      → ((owner : Text) × (get_auth_id json raw ≡ some owner)
          × (owner ≢ auth_id)
          × (merge_auth_id json raw auth_id ≡ err (auth_id_conflict owner auth_id)))
        ⊎ ((merged : Text) × (after : Map V) × (merge_auth_id json raw auth_id ≡ ok merged)
            × (parse_metadata json merged ≡ ok after)
            × (get_auth_id json merged ≡ some auth_id)
            × ((k : Text) → text_eq auth_id_key k ≡ false → lookup k after ≡ lookup k map))
  merge_auth_id-owner raw auth_id map p r r' =
      elim (Option-cases (as_str (lookup auth_id_key map))) [
        | inl e ↦
            let after : Map V = insert auth_id_key (string auth_id) map in
            let q : parse_metadata json (json.to_string after) ≡ ok after =
              parse_metadata-to_string after r' in
            let there : as_str (lookup auth_id_key after) ≡ some auth_id =
              rw (lookup-insert auth_id_key auth_id_key (string auth_id) map) refl in
            inr (
              json.to_string after,
              after,
              merge_auth_id-none raw auth_id map p e,
              q,
              get_auth_id-map (json.to_string after) after q ∙ there,
              λ k ne. rw (lookup-insert auth_id_key k (string auth_id) map, ne) refl,
            )
        | inr (owner, e) ↦ elim (Bool-cases (text_eq owner auth_id)) [
          | inl t ↦
              let same : owner ≡ auth_id = (text_eq_iff owner auth_id).0 t in
              let q : parse_metadata json (json.to_string map) ≡ ok map =
                parse_metadata-to_string map r in
              inr (
                json.to_string map,
                map,
                merge_auth_id-some raw auth_id owner map p e ∙ rw t refl,
                q,
                get_auth_id-map (json.to_string map) map q ∙ e ∙ ap some same,
                λ k ne. refl,
              )
          | inr t ↦ inl (
            owner,
            get_auth_id-map raw map p ∙ e,
            (λ same. absurd (ground (arith, text_eq_iff owner auth_id))),
            merge_auth_id-some raw auth_id owner map p e ∙ rw t refl,
          )
        ]
      ]
