-- ===== src/Conversion/Stash.antt =====
-- marshalData and unmarshalData of api/v1beta1/conversion.go: the hub object in an annotation.
use cluster_api_provider_tin.Prelude.{String, ◌≡◌, Option, none, some, List, lookup, insert, delete}
use cluster_api_provider_tin.Objects.{ObjectMeta}

abbrev pub data_annotation : String
data_annotation = "cluster.x-k8s.io/conversion-data"

-- The JSON codec of a hub type, its metadata left out: third-party code, which may fail.
pub record Codec (H : Type 0) : Type 0 where
  pub encode : H → Option String
  pub decode : String → Option H

-- What the codec is relied on for: of the text that it makes of `h` it restores `field`.
pub record Restores {H F : Type 0} (c : Codec H) (field : H → F) (h : H) : Type 0 where
  pub restored :
      (text : String)
      → c.encode h ≡ some text
      → (h' : H) × (c.decode text ≡ some h') × (field h' ≡ field h)

unfoldable pub with_annotations : ObjectMeta → List (String × String) → ObjectMeta
with_annotations meta annotations = record meta { annotations = annotations }

abbrev pub stashed_text : Option String → ObjectMeta → Option ObjectMeta
stashed_text none meta = none
stashed_text (some text) meta =
    some (with_annotations meta (insert data_annotation text meta.annotations))

module _ {H : Type 0} (c : Codec H) where
  -- The metadata with the stash, or none where the object cannot be encoded. The hub object shares
  -- its map of annotations with the result where the map is not nil, so the stash is then in the
  -- hub object as well; the result here is the metadata of the v1beta1 object.
  unfoldable pub marshal_data : H → ObjectMeta → Option ObjectMeta
  unfolding with_annotations
  marshal_data h meta = stashed_text (c.encode h) meta

  decoded : ObjectMeta → Option H → Option (Option H × ObjectMeta)
  unfolding with_annotations
  decoded meta none = none
  decoded meta (some h) =
      some (some h, with_annotations meta (delete data_annotation meta.annotations))

  found_text : ObjectMeta → Option String → Option (Option H × ObjectMeta)
  unfolding decoded
  found_text meta none = some (none, meta)
  found_text meta (some text) = decoded meta (c.decode text)

  -- What was stashed, if anything was, and the metadata without it; none where the text cannot be
  -- decoded. The object and its conversion share the map of annotations, so both lose the stash.
  unfoldable pub unmarshal_data : ObjectMeta → Option (Option H × ObjectMeta)
  unfolding found_text
  unmarshal_data meta = found_text meta (lookup data_annotation meta.annotations)
