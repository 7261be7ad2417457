-- ===== src/Sbcp/Header/Bits.antt =====
-- The masks and shifts of the header's two bytes, as arithmetic; each is checked over all bytes.
use computer_networking_tamu.Base.{
  ℕ, ◌+◌, ◌*◌, ◌/◌, ◌%◌, ◌<◌, ◌≡◌, refl, true, bit_and, bit_or, holds_below, holds_below-at, ◌==◌,
  ==_iff, arith,
}

high_table : holds_below (λ x. bit_and x 0x80 == x / 128 * 128) 256 ≡ true
unfolding holds_below
high_table = refl

pub bit_and-high : (x : ℕ) → x < 256 → bit_and x 0x80 ≡ x / 128 * 128
bit_and-high x h = (==_iff _ _).0 (holds_below-at _ 256 x h high_table)

low_table : holds_below (λ x. bit_and x 0x7F == x % 128) 256 ≡ true
unfolding holds_below
low_table = refl

pub bit_and-low : (x : ℕ) → x < 256 → bit_and x 0x7F ≡ x % 128
bit_and-low x h = (==_iff _ _).0 (holds_below-at _ 256 x h low_table)

one_table : holds_below (λ x. bit_and x 0x1 == x % 2) 512 ≡ true
unfolding holds_below
one_table = refl

pub bit_and-one : (x : ℕ) → x < 512 → bit_and x 0x1 ≡ x % 2
bit_and-one x h = (==_iff _ _).0 (holds_below-at _ 512 x h one_table)

shift_table : holds_below (λ x. bit_or (x / 2 * 2) (x % 2) == x) 512 ≡ true
unfolding holds_below
shift_table = refl

-- `u << 1 | b`, for a byte `u` and a bit `b`.
pub bit_or-shift : (u b : ℕ) → u < 256 → b < 2 → bit_or (u * 2) b ≡ u * 2 + b
bit_or-shift u b hu hb =
    let e : (u * 2 + b) / 2 * 2 ≡ u * 2 = omega arith in
    let f : (u * 2 + b) % 2 ≡ b = omega arith in
    let t = (==_iff _ _).0 (holds_below-at _ 512 (u * 2 + b) (omega arith) shift_table) in
    rw (e, f) at t

join_table : holds_below (λ x. bit_or (x / 128 * 128) (x % 128) == x) 256 ≡ true
unfolding holds_below
join_table = refl

-- `b << 7 | t`, for a bit `b` and seven bits `t`.
pub bit_or-high : (b t : ℕ) → b < 2 → t < 128 → bit_or (b * 128) t ≡ b * 128 + t
bit_or-high b t hb ht =
    let e : (b * 128 + t) / 128 * 128 ≡ b * 128 = omega arith in
    let f : (b * 128 + t) % 128 ≡ t = omega arith in
    let s = (==_iff _ _).0 (holds_below-at _ 256 (b * 128 + t) (omega arith) join_table) in
    rw (e, f) at s

swap_table : holds_below (λ x. bit_or (x % 128) (x / 128 * 128) == x) 256 ≡ true
unfolding holds_below
swap_table = refl

pub bit_or-low : (b t : ℕ) → b < 2 → t < 128 → bit_or t (b * 128) ≡ b * 128 + t
bit_or-low b t hb ht =
    let e : (b * 128 + t) / 128 * 128 ≡ b * 128 = omega arith in
    let f : (b * 128 + t) % 128 ≡ t = omega arith in
    let s = (==_iff _ _).0 (holds_below-at _ 256 (b * 128 + t) (omega arith) swap_table) in
    rw (e, f) at s
