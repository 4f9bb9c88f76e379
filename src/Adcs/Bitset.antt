-- ===== src/Adcs/Bitset.antt =====
-- `std::bitset` as the list of its bits from bit 0 on, and its number.
use flight_software.Base.{
  ℕ, zero, suc, ◌+◌, ◌*◌, ◌/◌, ◌%◌, ◌^◌, ◌<◌, ◌≡◌, refl, ap, Bool, false, ◌==◌, if◌then◌else◌, List,
  [], ◌∷◌, length, arith,
}
use native.Mathlib.Nat.{pow-suc}

-- `to_ulong`.
unfoldable pub to_ulong : List Bool → ℕ
to_ulong [] = 0
to_ulong (b ∷ bits) = (if b then 1 else 0) + 2 * to_ulong bits

-- The constructor of a bitset of `n` bits from a number.
unfoldable pub of_ulong : ℕ → ℕ → List Bool
of_ulong zero v = []
of_ulong (suc n) v = (v % 2 == 1) ∷ of_ulong n (v / 2)

-- `of_ulong n 0`, as `bitset(0)` makes it.
unfoldable pub none_set : ℕ → List Bool
none_set zero = []
none_set (suc n) = false ∷ none_set n

of_ulong-head : (b : Bool) (v : ℕ) → (((if b then 1 else 0) + 2 * v) % 2 == 1) ≡ b
of_ulong-head b v = ground arith

of_ulong-tail : (b : Bool) (v : ℕ) → ((if b then 1 else 0) + 2 * v) / 2 ≡ v
of_ulong-tail b v = ground arith

pub of_ulong-to_ulong : (bits : List Bool) → of_ulong (length bits) (to_ulong bits) ≡ bits
unfolding of_ulong to_ulong
of_ulong-to_ulong [] = refl
of_ulong-to_ulong (b ∷ bits) =
    rw (of_ulong-head b (to_ulong bits), of_ulong-tail b (to_ulong bits))
      (ap (λ t. b ∷ t) (of_ulong-to_ulong bits))

pub to_ulong-lt : (bits : List Bool) → to_ulong bits < 2 ^ length bits
unfolding to_ulong
to_ulong-lt [] = omega arith
to_ulong-lt (b ∷ bits) = ground (arith, to_ulong-lt bits, pow-suc 2 (length bits))
