-- ===== src/KConfigStore.antt =====
-- src/core/kconfig_selection_store.cpp: the store of the selected id in a configuration file. KConfig
-- is an argument: a file as it is read back, and the sync of an edited entry.
use remmina_krunner.Base.{
  Text, [], ◌∷◌, Option, none, some, is_empty, if◌then◌else◌, Bool, true, false, ◌≡◌, ap, refl, ◌∙◌,
}
use remmina_krunner.Registry.{SelectionStore}

-- The entry of the file under the key, `none` if it is not there. `sync` reports whether the edit
-- was written; what was written is read back, and a failed sync leaves the file.
pub record KConfig : Type 1 where
  pub File : Type 0
  pub entry : File → Option Text
  pub sync : Option Text → File → Bool × File
  pub synced : (e : Option Text) (f : File) → (sync e f).0 ≡ true → entry (sync e f).1 ≡ e
  pub unsynced : (e : Option Text) (f : File) → (sync e f).0 ≡ false → entry (sync e f).1 ≡ entry f

-- `readEntry` with the empty text as its default.
unfoldable pub or_empty : Option Text → Text
or_empty none = []
or_empty (some id) = id

-- The edit of the entry: an empty id deletes it.
unfoldable pub edit : Text → Option Text
edit id = if is_empty id then none else some id

or_empty-edit : (id : Text) → or_empty (edit id) ≡ id
unfolding or_empty edit
or_empty-edit [] = refl
or_empty-edit (c ∷ id) = refl

module _ (config : KConfig) where
  open config use {File, entry, sync, synced, unsynced}

  unfoldable pub selected_id : File → Text
  unfolding or_empty
  selected_id f = or_empty (entry f)

  unfoldable pub write_selected_id : Text → File → Bool × File
  unfolding edit
  write_selected_id id f = sync (edit id) f

  -- A write that reports success is read back, the empty id too, and a write that reports failure
  -- leaves the id that was stored.
  pub selected_id-write_selected_id :
      (id : Text) (f : File)
      → ((write_selected_id id f).0 ≡ true → selected_id (write_selected_id id f).1 ≡ id)
        × ((write_selected_id id f).0 ≡ false
            → selected_id (write_selected_id id f).1 ≡ selected_id f)
  unfolding selected_id write_selected_id
  selected_id-write_selected_id id f = (
    λ h. ap or_empty (synced (edit id) f h) ∙ or_empty-edit id,
    λ h. ap or_empty (unsynced (edit id) f h),
  )

  -- The store as the registry uses it.
  abbrev pub kconfig_store : SelectionStore
  kconfig_store = record {
    State = File;
    selected_id = selected_id;
    write_selected_id = write_selected_id;
    written = λ id f. (selected_id-write_selected_id id f).0;
    refused = λ id f. (selected_id-write_selected_id id f).1;
  }
