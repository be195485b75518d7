-- ===== src/Base/BigEndian.antt =====
-- encoding/binary's `BigEndian` on the byte slices that the code gives it.
use Prim.Native.Nat.{ℕ, ◌+◌, ◌*◌, ◌/◌, ◌%◌, ◌<◌}
use mathlib.Core.Path.{◌≡◌}
use mathlib.Core.List.{List, [], ◌∷◌}
use native.Mathlib.Omega.{arith}
use minidist.Base.Lists.{get_or}
use minidist.Base.Words.{u32_mod}

unfoldable pub put_u32 : ℕ → List ℕ
put_u32 n = n / 16777216 % 256 ∷ n / 65536 % 256 ∷ n / 256 % 256 ∷ n % 256 ∷ []

unfoldable pub put_u16 : ℕ → List ℕ
put_u16 n = n / 256 % 256 ∷ n % 256 ∷ []

-- A slice is read at fixed places; the callers give it enough bytes.
unfoldable pub get_u32 : List ℕ → ℕ
get_u32 b = get_or b 0 0 * 16777216 + get_or b 1 0 * 65536 + get_or b 2 0 * 256 + get_or b 3 0

unfoldable pub get_u16 : List ℕ → ℕ
get_u16 b = get_or b 0 0 * 256 + get_or b 1 0

pub get_u32-put_u32 : (n : ℕ) → n < u32_mod → get_u32 (put_u32 n) ≡ n
unfolding get_u32 put_u32
get_u32-put_u32 n h = omega arith
