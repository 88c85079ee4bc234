-- ===== src/BigEndian.antt =====
-- Numbers as big-endian bytes: `int.to_bytes(width, "big")`, `int.from_bytes` and
-- `struct.pack("!I")`, which the session layer uses.
use fedoralink.Prelude.{
  ℕ, zero, suc, ◌+◌, ◌*◌, ◌/◌, ◌%◌, ◌^◌, ◌<◌, ◌≡◌, refl, ap, ◌∙◌, [], ◌∷◌, ◌++◌, length,
  length-append, Option, none, some, ltb, if◌then◌else◌, arith,
}
use native.Mathlib.Nat.{pow-suc}
use fedoralink.Framing.{Bytes}

-- the low `width` bytes of a number, the highest first
unfoldable pub digits_be : ℕ → ℕ → Bytes
digits_be zero n = []
digits_be (suc w) n = digits_be w (n / 256) ++ (n % 256) ∷ []

-- `n.to_bytes(width, "big")`; `none` is the OverflowError
unfoldable pub to_bytes : ℕ → ℕ → Option Bytes
to_bytes width n = if ltb n (256 ^ width) then some (digits_be width n) else none

value_from : ℕ → Bytes → ℕ
value_from acc [] = acc
value_from acc (b ∷ bs) = value_from (acc * 256 + b) bs

-- `int.from_bytes(data, "big")`
unfoldable pub from_bytes : Bytes → ℕ
unfolding value_from
from_bytes data_bytes = value_from 0 data_bytes

value_from-append :
    (acc : ℕ) (xs : Bytes) (b : ℕ) → value_from acc (xs ++ b ∷ []) ≡ value_from acc xs * 256 + b
unfolding value_from
value_from-append acc [] b = refl
value_from-append acc (x ∷ xs) b = value_from-append (acc * 256 + x) xs b

pub length-digits_be : (w n : ℕ) → length (digits_be w n) ≡ w
unfolding digits_be
length-digits_be zero n = refl
length-digits_be (suc w) n =
    omega
      (arith, length-append (digits_be w (n / 256)) ((n % 256) ∷ []), length-digits_be w (n / 256))

-- Reading the bytes of a number that fits gives the number.
pub from_bytes-digits_be : (w n : ℕ) → n < 256 ^ w → from_bytes (digits_be w n) ≡ n
unfolding digits_be from_bytes
from_bytes-digits_be zero n h = omega arith
from_bytes-digits_be (suc w) n h =
    value_from-append 0 (digits_be w (n / 256)) (n % 256)
    ∙ (let ih = from_bytes-digits_be w (n / 256) (omega (arith, pow-suc 256 w)) in omega arith)

-- Numbers that fit have different bytes.
pub to_bytes_injective :
    (w m n : ℕ) (bs : Bytes) → to_bytes w m ≡ some bs → to_bytes w n ≡ some bs → m ≡ n
unfolding to_bytes
to_bytes_injective w m n bs p q =
    ground (arith, from_bytes-digits_be w m, from_bytes-digits_be w n, ap from_bytes)
