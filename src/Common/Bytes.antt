-- ===== src/Common/Bytes.antt =====
-- Bytes of a buffer: a copy of some of them, and a comparison by memcmp.
use Prim.Native.Nat.{ℕ, zero, suc, ◌+◌}
use mathlib.Core.Bool.{Bool, true, ◌&&◌}
use mathlib.Core.List.{List, [], ◌∷◌}
use lite_forth.Common.Tests.{◌==◌}
use lite_forth.Common.Lists.{get_or}

-- `n` bytes of a buffer from i on.
unfoldable pub bytes_at : ℕ → ℕ → List ℕ → List ℕ
bytes_at zero i buf = []
bytes_at (suc n) i buf = get_or buf i 0 ∷ bytes_at n (i + 1) buf

-- memcmp(buf + i, expected, ...) == 0
unfoldable pub same_at : ℕ → List ℕ → List ℕ → Bool
same_at i [] buf = true
same_at i (x ∷ xs) buf = (get_or buf i 0 == x) && same_at (i + 1) xs buf
