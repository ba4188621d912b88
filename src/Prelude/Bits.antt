-- ===== src/Prelude/Bits.antt =====
-- The bitwise conjunction of native numbers with a mask whose set bits are the highest ones.
use Prim.Native.Nat.{bit_and, bit_and-bitwise, digits}
use native.Mathlib.Nat.{pow-suc, one-le-pow, div-div-eq-div-mul}
use sjmb_slack.Prelude.{
  ℕ, zero, suc, ◌+◌, ◌-◌, ◌*◌, ◌/◌, ◌%◌, ◌^◌, ◌≤◌, ◌<◌, ◌≡◌, refl, ap, ◌∙◌, min, arith,
}

-- The digit recursion that the native operation stands for, on `k` rounds.
abbrev and_rounds : ℕ → ℕ → ℕ → ℕ
and_rounds k x y = digits (λ z. zero) min k x y

-- Enough rounds give one value.
and_rounds_enough : (j k x y : ℕ) → x ≤ j → x ≤ k → and_rounds j x y ≡ and_rounds k x y
and_rounds_enough zero zero x y h g = refl
and_rounds_enough zero (suc k) zero y h g = refl
and_rounds_enough (suc j) zero zero y h g = refl
and_rounds_enough (suc j) (suc k) zero y h g = refl
and_rounds_enough zero k (suc x) y h g = absurd (omega arith)
and_rounds_enough (suc j) zero (suc x) y h g = absurd (omega arith)
and_rounds_enough (suc j) (suc k) (suc x) y h g =
    omega (arith, and_rounds_enough j k (suc x / 2) (y / 2) (omega arith) (omega arith))

-- One binary digit at a time.
pub bit_and-halves : (x y : ℕ) → bit_and x y ≡ bit_and (x / 2) (y / 2) * 2 + min (x % 2) (y % 2)
bit_and-halves zero y = omega (arith, bit_and-bitwise 0 y, bit_and-bitwise 0 (y / 2))
bit_and-halves (suc x) y = omega (
  arith,
  bit_and-bitwise (suc x) y,
  bit_and-bitwise (suc x / 2) (y / 2),
  and_rounds_enough x (suc x / 2) (suc x / 2) (y / 2) (omega arith) (omega arith),
)

-- A mask of the lowest `j` bits keeps what is below `2 ^ j`.
bit_and-ones : (j x : ℕ) → x < 2 ^ j → bit_and x (2 ^ j - 1) ≡ x
bit_and-ones zero zero h = refl
bit_and-ones zero (suc x) h = absurd (omega arith)
bit_and-ones (suc j) x h =
    let double : 2 ^ suc j ≡ 2 ^ j * 2 = pow-suc 2 j in
    let some_bit : 1 ≤ 2 ^ j = one-le-pow j 2 (omega arith) in
    let half : (2 ^ suc j - 1) / 2 ≡ 2 ^ j - 1 = omega (arith, double, some_bit) in
    bit_and-halves x (2 ^ suc j - 1)
    ∙ rw (half, bit_and-ones j (x / 2) (omega (arith, double))) (omega (arith, double, some_bit))

times_double : (k a : ℕ) → a * 2 ^ suc k ≡ a * 2 ^ k * 2
times_double k a = rw (pow-suc 2 k) (omega arith)

-- Above `k` clear bits a mask of `j` ones clears the lowest `k` bits and keeps the others.
pub bit_and-high :
    (k j x : ℕ) → x < 2 ^ j * 2 ^ k → bit_and x ((2 ^ j - 1) * 2 ^ k) ≡ x / 2 ^ k * 2 ^ k
bit_and-high zero j x h =
    let same : (2 ^ j - 1) * 2 ^ 0 ≡ 2 ^ j - 1 = omega arith in
    rw (same, bit_and-ones j x (omega arith)) (omega arith)
bit_and-high (suc k) j x h =
    let ones = 2 ^ j - 1 in
    let doubled = times_double k in
    let half : ones * 2 ^ suc k / 2 ≡ ones * 2 ^ k = omega (arith, doubled ones) in
    let clear : ones * 2 ^ suc k % 2 ≡ 0 = omega (arith, doubled ones) in
    let parts : x / 2 / 2 ^ k ≡ x / (2 * 2 ^ k) = div-div-eq-div-mul x 2 (2 ^ k) in
    let whole : x / 2 ^ suc k ≡ x / (2 * 2 ^ k) = ap (λ n. x / n) (omega (arith, pow-suc 2 k)) in
    bit_and-halves x (ones * 2 ^ suc k)
    ∙ rw (half, clear, bit_and-high k j (x / 2) (omega (arith, doubled (2 ^ j))), parts, whole)
        (omega (arith, doubled (x / (2 * 2 ^ k))))
