-- ===== src/Repository/Hash.antt =====
-- The hashed tuples of src/core/profile_repository.cpp: the keys of the cache and the ids of the
-- profiles. `QString::toUtf8` and the hexadecimal SHA-256 are arguments.
use remmina_krunner.Base.{ℕ, zero, suc, ◌/◌, ◌%◌, Text, codes, List, [], ◌∷◌, ◌++◌, length}

-- The loop over the bytes of the length, the last one first.
unfoldable pub length_bytes : ℕ → ℕ → Text → Text
length_bytes zero number bytes = bytes
length_bytes (suc index) number bytes = length_bytes index (number / 256) (number % 256 ∷ bytes)

-- What `addLength` adds: eight bytes.
unfoldable pub add_length : ℕ → Text
unfolding length_bytes
add_length number = length_bytes 8 number []

module _ (to_utf8 : Text → Text) where
  unfoldable pub field_bytes : Text → Text
  unfolding add_length
  field_bytes field = let encoded = to_utf8 field in add_length (length encoded) ++ encoded

  -- The loop over the fields.
  unfoldable pub fields_bytes : List Text → Text
  unfolding field_bytes
  fields_bytes [] = []
  fields_bytes (field ∷ fields) = field_bytes field ++ fields_bytes fields

  -- All that is hashed.
  unfoldable pub tuple_bytes : List Text → Text
  unfolding add_length fields_bytes
  tuple_bytes fields = add_length (length fields) ++ fields_bytes fields

  module _ (sha256_hex : Text → Text) where
    unfoldable pub hash_tuple : List Text → Text
    unfolding tuple_bytes
    hash_tuple fields = sha256_hex (tuple_bytes fields)

    unfoldable pub cache_key : Text → Text → Text → Text
    unfolding hash_tuple
    cache_key instance_id host_path canonical_identity = hash_tuple (
        codes "remmina-krunner-profile-cache-v1"
        ∷ instance_id
        ∷ host_path
        ∷ canonical_identity
        ∷ [])

    unfoldable pub opaque_profile_id : Text → Text → Text
    unfolding hash_tuple
    opaque_profile_id instance_id canonical_identity =
        hash_tuple (codes "remmina-krunner-profile-id-v1" ∷ instance_id ∷ canonical_identity ∷ [])
