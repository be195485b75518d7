-- ===== src/Chunk/Ids.antt =====
-- store.go: `IDs`, the listing of the chunks.
use minidist.Base.{
  ◌≡◌, Bool, true, false, ◌&&◌, Option, none, some, List, [], ◌∷◌, arith, if◌then◌else◌,
}
use minidist.Base.Text.{Text, text_eq_iff}
use minidist.Base.TextSort.{sort_texts, contains-sort_texts}
use minidist.Base.Assoc.{lookup, text_eq_inst}
use minidist.Base.Sets.{contains}
use minidist.Chunk.{File, Files, is_valid}

-- The names that are ids, in the order of the walk.
unfoldable pub valid_names : Files → List Text
valid_names [] = []
valid_names ((id, file) ∷ rest) =
    let more = valid_names rest in if is_valid id then id ∷ more else more

-- `IDs`, when the walk succeeds.
unfoldable pub ids : Files → List Text
unfolding valid_names
ids files = sort_texts (valid_names files)

abbrev is_file : Option File → Bool
is_file none = false
is_file (some file) = true

contains-valid_names :
    (files : Files) (id : Text)
    → contains (valid_names files) id ≡ (is_valid id && is_file (lookup id files))
unfolding valid_names contains lookup
contains-valid_names [] id = ground arith
contains-valid_names ((k, f) ∷ rest) id =
    ground (arith, contains-valid_names rest id, text_eq_iff k id)

-- The ids are the valid names of the files.
pub contains-ids :
    (files : Files) (id : Text)
    → contains (ids files) id ≡ (is_valid id && is_file (lookup id files))
unfolding ids
contains-ids files id =
    ground (arith, contains-sort_texts (valid_names files) id, contains-valid_names files id)
