-- ===== src/Object/Witnesses.antt =====
-- internal/object at a concrete input: a store that numbers its chunks.
use minidist.Base.{
  ℕ, zero, suc, ◌≤◌, ◌≡◌, refl, sym, ap, ◌∙◌, inl, inr, true, Option, none, some, List, [], ◌∷◌,
  ◌++◌, arith, length, get_elem?, get_elem?-append_left, get_elem?-append_last, ltb, Bool-cases,
}
use minidist.Base.Text.{Text, codes}
use minidist.Store.Snapshot.{Codec}
use minidist.Object.{
  ChunkInfo, Metadata, ChunkStore, MetadataStore, write_chunks, write_loop, object_metadata, put,
  get,
}
use minidist.Object.RoundTrip.{Keeps}
use minidist.Object.Stored.{get-put_object}

abbrev number_of : Text → ℕ
number_of [] = 0
number_of (n ∷ rest) = n

abbrev numbered : ChunkStore (List (List ℕ))
numbered = record {
  put_chunk = λ d s. (some (length s ∷ []), s ++ d ∷ []);
  get_chunk = λ id s. get_elem? s (number_of id);
}

no_entry : (s : List (List ℕ)) (i : ℕ) → length s ≤ i → get_elem? s i ≡ none
no_entry [] i h = refl
no_entry (x ∷ s) zero h = absurd (omega arith)
no_entry (x ∷ s) (suc i) h = no_entry s i (omega arith)

stays :
    (d : List ℕ) (s : List (List ℕ)) (i : ℕ) (x : List ℕ)
    → get_elem? s i ≡ some x
    → get_elem? (s ++ d ∷ []) i ≡ some x
stays d s i x e = elim (Bool-cases (ltb i (length s))) [
  | inl l ↦ get_elem?-append_left s (d ∷ []) i (ground arith) ∙ e
  | inr l ↦ let missing = no_entry s i (ground arith) in absurd (ground (arith, missing, e))
]

-- Every content is of interest.
abbrev AnyBytes : List ℕ → Type 0
AnyBytes d = Unit {0}

numbered-Keeps : Keeps numbered AnyBytes
numbered-Keeps = record {
  got = λ d s id o e.
      ap (λ (o : Option Text). get_elem? (s ++ d ∷ []) (number_of (text_or_none o))) (sym e)
      ∙ get_elem?-append_last s d;
  kept = λ d s id x o e. stays d s (number_of id) x e;
}
  where
    text_or_none : Option Text → Text
    text_or_none none = []
    text_or_none (some t) = t

-- One value, whatever the key.
abbrev single : MetadataStore (List ℕ)
single = record {
  put_value = λ k v m. (true, v);
  get_value = λ k m. some (some m);
  delete_value = λ k m. (true, []);
}

abbrev name : Text
name = codes "a.txt"

abbrev content : List ℕ
content = 1 ∷ 2 ∷ 3 ∷ 4 ∷ 5 ∷ []

abbrev infos : List ChunkInfo
infos =
    record { id = 0 ∷ []; size = 2 }
    ∷ record { id = 1 ∷ []; size = 2 }
    ∷ record { id = 2 ∷ []; size = 1 }
    ∷ []

abbrev pieces : List (List ℕ)
pieces = (1 ∷ 2 ∷ []) ∷ (3 ∷ 4 ∷ []) ∷ (5 ∷ []) ∷ []

abbrev one_metadata : Codec Metadata
one_metadata = record {
  marshal = λ x. some (7 ∷ []);
  unmarshal = λ b. some (object_metadata name 2 infos);
}

abbrev digest : List ℕ → List ℕ
digest bytes = bytes

cut : write_chunks numbered 2 content [] ≡ some (some infos, pieces)
unfolding write_chunks write_loop
cut = refl

get-put_object_example :
    (put numbered single one_metadata digest name content 2 [] []
      ≡ some (some (object_metadata name 2 infos), (pieces, 7 ∷ [])))
    × (get numbered single one_metadata digest name pieces (7 ∷ []) ≡ some (some content))
get-put_object_example =
    get-put_object numbered AnyBytes numbered-Keeps single one_metadata digest name content 2 []
      pieces [] (7 ∷ []) infos (7 ∷ []) (omega arith) (omega arith) (λ k. tt) cut refl refl refl
      refl
