-- ===== src/Base/Random.antt =====
-- crypto/rand, which is not part of this repository: a source of bytes that may fail. The package
-- documents that a successful Read fills the whole buffer.
use Prim.Native.Nat.{ℕ}
use mathlib.Core.Path.{◌≡◌}
use mathlib.Core.Option.{Option, some}
use genomedb.Base.Lists.{length}
use genomedb.Base.ByteStrings.{Bytes, IsBytes}

pub record Entropy : Type 1 where
  pub Source : Type 0
  pub read : ℕ → Source → Option (Bytes × Source)
  pub read_fills :
      (n : ℕ) (s : Source) (b : Bytes) (s' : Source)
      → read n s ≡ some (b, s')
      → (length b ≡ n) × IsBytes b
