-- ===== src/Base/Words.antt =====
-- 16-bit words and their bytes in memory. The program runs on little-endian hosts: the comment of
-- libtftp/include/tftp/tftp.hpp on `Opcode` says so.
use Prim.Native.Nat.{ℕ, zero, suc, ◌+◌, ◌*◌, ◌/◌, ◌%◌, ◌<◌}
use mathlib.Core.Path.{◌≡◌, refl}
use mathlib.Core.Bool.{Bool, true, false}
use computer_networking_tamu.Base.Tests.{if◌then◌else◌}
use mathlib.Core.List.{List, [], ◌∷◌}
use native.Mathlib.Omega.{arith}
use computer_networking_tamu.Base.Lists.{length}

-- Host to network order: the two bytes of the word change places.
unfoldable pub htons : ℕ → ℕ
htons x = x % 256 * 256 + x / 256 % 256

unfoldable pub ntohs : ℕ → ℕ
unfolding htons
ntohs x = htons x

-- The bytes of a `uint16_t` in memory.
unfoldable pub le16 : ℕ → List ℕ
le16 x = x % 256 ∷ x / 256 % 256 ∷ []

pub length-le16 : (x : ℕ) → length (le16 x) ≡ 2
unfolding le16
length-le16 x = refl

pub htons-lt : (x : ℕ) → htons x < 65536
unfolding htons
htons-lt x = omega arith

pub ntohs-htons : (x : ℕ) → x < 65536 → ntohs (htons x) ≡ x
unfolding htons ntohs
ntohs-htons x h = omega arith

pub htons-htons : (x : ℕ) → x < 65536 → htons (htons x) ≡ x
unfolding htons
htons-htons x h = omega arith

-- A test that holds of every number under a bound, found out by evaluation.
unfoldable pub holds_below : (ℕ → Bool) → ℕ → Bool
holds_below test zero = true
holds_below test (suc bound) = if test bound then holds_below test bound else false

pub holds_below-at :
    (test : ℕ → Bool) (bound value : ℕ)
    → value < bound
    → holds_below test bound ≡ true
    → test value ≡ true
unfolding holds_below
holds_below-at test zero value under held = elim under [ ]
holds_below-at test (suc bound) value under held = ground (arith, holds_below-at test bound value)
