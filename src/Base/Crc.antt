-- ===== src/Base/Crc.antt =====
-- hash/crc32's `ChecksumIEEE`: the reflected polynomial 0xEDB88320, one bit at a time.
use Prim.Native.Nat.{bit_xor, ◌<◌}
use minidist.Base.Tests.{◌==◌, if◌then◌else◌}
use native.Mathlib.Omega.{arith}
use minidist.Base.Words.{u32, u32_mod}
use Prim.Native.Nat.{ℕ, zero, suc, ◌/◌, ◌%◌}
use mathlib.Core.Path.{◌≡◌, refl, sym, ap, ◌∙◌}
use mathlib.Core.List.{List, [], ◌∷◌, ◌++◌}
use minidist.Base.Text.{codes}

crc_bits : ℕ → ℕ → ℕ
crc_bits zero c = c
crc_bits (suc n) c = crc_bits n (if c % 2 == 1 then bit_xor (c / 2) 0xEDB88320 else c / 2)

crc_bytes : ℕ → List ℕ → ℕ
crc_bytes c [] = c
crc_bytes c (b ∷ bs) = crc_bytes (crc_bits 8 (bit_xor c b)) bs

-- The register after some bytes, before the last complement.
unfoldable pub crc_register : List ℕ → ℕ
unfolding crc_bits crc_bytes
crc_register bytes = crc_bytes 0xFFFFFFFF bytes

unfoldable pub crc32 : List ℕ → ℕ
unfolding crc_register
crc32 bytes = u32 (bit_xor (crc_register bytes) 0xFFFFFFFF)

-- The check value of the CRC catalogue.
crc32_check_value : crc32 (codes "123456789") ≡ 0xCBF43926
unfolding crc32
crc32_check_value = refl

crc_bytes-append : (c : ℕ) (a s : List ℕ) → crc_bytes c (a ++ s) ≡ crc_bytes (crc_bytes c a) s
unfolding crc_bytes
crc_bytes-append c [] s = refl
crc_bytes-append c (x ∷ a) s = crc_bytes-append (crc_bits 8 (bit_xor c x)) a s

-- Texts that leave the same register still have the same checksum after the same suffix.
pub crc32-append_twins :
    (a b s : List ℕ) → crc_register a ≡ crc_register b → crc32 (a ++ s) ≡ crc32 (b ++ s)
unfolding crc32
crc32-append_twins a b s e = ap (λ c. u32 (bit_xor c 0xFFFFFFFF)) same
  where
    same : crc_bytes 0xFFFFFFFF (a ++ s) ≡ crc_bytes 0xFFFFFFFF (b ++ s)
    same =
        crc_bytes-append 0xFFFFFFFF a s
        ∙ ap (λ c. crc_bytes c s) (unfold crc_register in e)
        ∙ sym (crc_bytes-append 0xFFFFFFFF b s)

pub crc32-lt : (bytes : List ℕ) → crc32 bytes < u32_mod
unfolding crc32
crc32-lt bytes = omega arith
