-- ===== src/Pcap/Words.antt =====
-- The bytes of the integers in the headers of src/sockets/pcap.rs, least significant first.
use rust_nethuns.Common.{
  ℕ, zero, suc, ◌+◌, ◌*◌, ◌/◌, ◌%◌, ◌^◌, ◌<◌, ◌≡◌, refl, ap, List, [], ◌∷◌, ◌++◌, length, arith,
}
use native.Mathlib.Nat.{pow-suc}

-- The `w` low bytes of a number, and the number of the first `w` bytes.
unfoldable pub to_le : ℕ → ℕ → List ℕ
to_le zero n = []
to_le (suc w) n = (n % 256) ∷ to_le w (n / 256)

unfoldable pub from_le : ℕ → List ℕ → ℕ
from_le zero bytes = 0
from_le (suc w) [] = 0
from_le (suc w) (b ∷ bytes) = b + 256 * from_le w bytes

pub length-to_le : (w n : ℕ) → length (to_le w n) ≡ w
unfolding to_le
length-to_le zero n = refl
length-to_le (suc w) n = ap suc (length-to_le w (n / 256))

-- A number that fits is read back, whatever follows it.
pub from_le-to_le : (w n : ℕ) (rest : List ℕ) → n < 256 ^ w → from_le w (to_le w n ++ rest) ≡ n
unfolding to_le from_le
from_le-to_le zero n rest h = omega arith
from_le-to_le (suc w) n rest h =
    omega (arith, from_le-to_le w (n / 256) rest (omega (arith, pow-suc 256 w)))
