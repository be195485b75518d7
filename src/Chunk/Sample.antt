-- ===== src/Chunk/Sample.antt =====
-- internal/chunk: a content, and a digest that tells it from every other content, for examples.
use minidist.Base.{
  ℕ, zero, suc, ◌<◌, ◌≡◌, ◌≢◌, refl, sym, ap, ◌∙◌, inl, inr, true, List, [], ◌∷◌, arith,
  if◌then◌else◌, All, get_or, Bool-cases,
}
use minidist.Base.Text.{text_eq, text_eq_iff}
use minidist.Chunk.{hex, chunk_id}
use minidist.Chunk.Content.{IsDigest}

abbrev repeated : ℕ → ℕ → List ℕ
repeated zero b = []
repeated (suc n) b = b ∷ repeated n b

abbrev pub content : List ℕ
content = 1 ∷ 2 ∷ []

abbrev pub digest : List ℕ → List ℕ
digest bytes = if text_eq bytes content then repeated 32 17 else repeated 32 34

repeated_in_range : (n b : ℕ) → b < 256 → All (λ c. c < 256) (repeated n b)
repeated_in_range zero b h = tt
repeated_in_range (suc n) b h = (h, repeated_in_range n b h)

pub content-IsDigest : IsDigest (digest content)
unfolding text_eq
content-IsDigest = (refl, repeated_in_range 32 17 (omega arith))

differ : hex (repeated 32 34) ≢ hex (repeated 32 17)
unfolding hex
differ e = let d : ◌≡◌ {A = ℕ} 50 49 = ap (λ t. get_or t 0 0) e in omega arith

pub unique : (other : List ℕ) → chunk_id digest other ≡ chunk_id digest content → other ≡ content
unique other e = elim (Bool-cases (text_eq other content)) [
  | inl s ↦ (text_eq_iff other content).0 s
  | inr s ↦
      let own : text_eq content content ≡ true = ground (arith, text_eq_iff content content) in
      let left : chunk_id digest other ≡ hex (repeated 32 34) = unfold chunk_id in rw s refl in
      let right : chunk_id digest content ≡ hex (repeated 32 17) = unfold chunk_id in rw own refl in
      absurd (differ (sym left ∙ e ∙ right))
]
