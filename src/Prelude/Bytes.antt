-- ===== src/Prelude/Bytes.antt =====
-- Bytes as numbers below 256, and a u32 in big-endian order.
use Prim.Native.Nat.{ℕ, ◌+◌, ◌*◌, ◌/◌, ◌%◌, ◌^◌, ◌<◌}
use mathlib.Core.Path.{◌≡◌, refl}
use mathlib.Core.List.{List, [], ◌∷◌, ◌++◌}
use ebbflow.Prelude.Lists.{length, take, drop}
use native.Mathlib.Omega.{arith}

abbrev pub Bytes : Type 0
Bytes = List ℕ

-- `u32::to_be_bytes`
unfoldable pub to_be_bytes : ℕ → Bytes
to_be_bytes n = (n / 2 ^ 24 % 256) ∷ (n / 2 ^ 16 % 256) ∷ (n / 2 ^ 8 % 256) ∷ (n % 256) ∷ []

-- `u32::from_be_bytes`, on four bytes
unfoldable pub from_be_bytes : Bytes → ℕ
from_be_bytes (a ∷ b ∷ c ∷ d ∷ _) = a * 2 ^ 24 + b * 2 ^ 16 + c * 2 ^ 8 + d
from_be_bytes _ = 0

pub from-to_be_bytes : (n : ℕ) → n < 2 ^ 32 → from_be_bytes (to_be_bytes n) ≡ n
unfolding from_be_bytes to_be_bytes
from-to_be_bytes n h = omega arith

pub take-to_be_bytes : (n : ℕ) (b : Bytes) → take 4 (to_be_bytes n ++ b) ≡ to_be_bytes n
unfolding to_be_bytes
take-to_be_bytes n b = refl

pub drop-to_be_bytes : (n : ℕ) (b : Bytes) → drop 4 (to_be_bytes n ++ b) ≡ b
unfolding to_be_bytes
drop-to_be_bytes n b = refl

pub length-to_be_bytes : (n : ℕ) (b : Bytes) → length (to_be_bytes n ++ b) ≡ 4 + length b
unfolding to_be_bytes
length-to_be_bytes n b = omega arith

pub length_of_to_be_bytes : (n : ℕ) → length (to_be_bytes n) ≡ 4
unfolding to_be_bytes
length_of_to_be_bytes n = refl
