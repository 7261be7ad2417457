-- ===== src/Sbcp/Header/Laws.antt =====
-- What the getters of a header read after its constructor and its setters.
use computer_networking_tamu.Base.{
  ℕ, ◌+◌, ◌*◌, ◌/◌, ◌%◌, ◌<◌, ◌≡◌, refl, ◌∙◌, ntohs, ntohs-htons, htons-lt, arith,
}
use computer_networking_tamu.Sbcp.Header.Bits.{
  bit_and-high, bit_and-low, bit_and-one, bit_or-shift, bit_or-high, bit_or-low,
}
use computer_networking_tamu.Sbcp.Header.{
  Header, IsHeader, make_header, get_type, get_version, get_length, set_type, set_version,
  set_length,
}

-- The fields of a header whose two bytes are known as arithmetic.
abbrev Reads : Header → ℕ → ℕ → ℕ → Type 0
Reads h v t n = (get_version h ≡ v) × (get_type h ≡ t) × (get_length h ≡ n)

-- A valid header is read as arithmetic on its bytes.
pub Reads-of_bytes :
    (h : Header)
    → IsHeader h
    → Reads h
        (h.version_and_type_upper * 2 + h.version_and_type_lower / 128)
        (h.version_and_type_lower % 128)
        (ntohs h.length)
unfolding get_version get_type get_length
Reads-of_bytes h v = (
  bit_or-shift h.version_and_type_upper (h.version_and_type_lower / 128) v.upper
      (let l = v.lower in omega arith),
  bit_and-low h.version_and_type_lower v.lower,
  refl,
)

lower_make_header :
    (v t n : ℕ) → v < 512 → t < 128 → (make_header v t n).version_and_type_lower ≡ v % 2 * 128 + t
unfolding make_header
lower_make_header v t n hv ht =
    rw (bit_and-one v hv, bit_or-high (v % 2) t (omega arith) ht) (omega arith)

pub make_header-IsHeader : (v t n : ℕ) → v < 512 → t < 128 → IsHeader (make_header v t n)
make_header-IsHeader v t n hv ht = record {
  upper = unfold make_header in omega arith;
  lower = rw (lower_make_header v t n hv ht) (omega arith);
  length = unfold make_header in htons-lt n;
}

-- A header that is made of a version of nine bits, a type of seven and a length of sixteen is read
-- back as these three.
pub reads_make_header :
    (v t n : ℕ)
    → v < 512
    → t < 128
    → n < 65536
    → (get_version (make_header v t n) ≡ v)
      × (get_type (make_header v t n) ≡ t)
      × (get_length (make_header v t n) ≡ n)
reads_make_header v t n hv ht hn =
    let (a, b, c) = Reads-of_bytes (make_header v t n) (make_header-IsHeader v t n hv ht) in
    let l = lower_make_header v t n hv ht in
    (
      a ∙ rw l (unfold make_header in omega arith),
      b ∙ rw l (omega arith),
      c ∙ unfold make_header in ntohs-htons n hn,
    )

set_type_lower :
    (t : ℕ) (h : Header)
    → IsHeader h
    → t < 128
    → (set_type t h).version_and_type_lower ≡ h.version_and_type_lower / 128 * 128 + t
unfolding set_type
set_type_lower t h v ht =
    let l = v.lower in
    rw (bit_and-high h.version_and_type_lower l)
      (bit_or-high (h.version_and_type_lower / 128) t (omega arith) ht)

set_version_lower :
    (x : ℕ) (h : Header)
    → IsHeader h
    → x < 512
    → (set_version x h).version_and_type_lower ≡ x % 2 * 128 + h.version_and_type_lower % 128
unfolding set_version
set_version_lower x h v hx =
    rw (bit_and-low h.version_and_type_lower v.lower, bit_and-one x hx)
      (bit_or-low (x % 2) (h.version_and_type_lower % 128) (omega arith) (omega arith))

pub set_type-IsHeader : (t : ℕ) (h : Header) → IsHeader h → t < 128 → IsHeader (set_type t h)
set_type-IsHeader t h v ht =
    let l = v.lower in
    record {
      upper = unfold set_type in v.upper;
      lower = rw (set_type_lower t h v ht) (omega arith);
      length = unfold set_type in v.length;
    }

set_version-IsHeader : (x : ℕ) (h : Header) → IsHeader h → x < 512 → IsHeader (set_version x h)
set_version-IsHeader x h v hx = record {
  upper = unfold set_version in omega arith;
  lower = rw (set_version_lower x h v hx) (omega arith);
  length = unfold set_version in v.length;
}

-- `set_type` with a type of seven bits changes what `get_type` reads to that type, and neither the
-- version nor the length of a valid header.
pub reads_set_type :
    (t : ℕ) (h : Header)
    → IsHeader h
    → t < 128
    → (get_version (set_type t h) ≡ get_version h)
      × (get_type (set_type t h) ≡ t)
      × (get_length (set_type t h) ≡ get_length h)
reads_set_type t h v ht =
    let (a, b, c) = Reads-of_bytes (set_type t h) (set_type-IsHeader t h v ht) in
    let e = set_type_lower t h v ht in
    (
      a ∙ rw e (rw ((Reads-of_bytes h v).0) (unfold set_type in omega arith)),
      b ∙ rw e (omega arith),
      unfold get_length set_type in refl,
    )

-- `set_version` with a version of nine bits changes what `get_version` reads to that version, and
-- neither the type nor the length of a valid header.
pub reads_set_version :
    (x : ℕ) (h : Header)
    → IsHeader h
    → x < 512
    → (get_version (set_version x h) ≡ x)
      × (get_type (set_version x h) ≡ get_type h)
      × (get_length (set_version x h) ≡ get_length h)
reads_set_version x h v hx =
    let (a, b, c) = Reads-of_bytes (set_version x h) (set_version-IsHeader x h v hx) in
    let e = set_version_lower x h v hx in
    (
      a ∙ rw e (unfold set_version in omega arith),
      b ∙ rw e (rw ((Reads-of_bytes h v).1) (omega arith)),
      unfold get_length set_version in refl,
    )

pub set_length-IsHeader : (n : ℕ) (h : Header) → IsHeader h → IsHeader (set_length n h)
unfolding set_length
set_length-IsHeader n h v = record { upper = v.upper; lower = v.lower; length = htons-lt n }

pub reads_set_length :
    (n : ℕ) (h : Header)
    → n < 65536
    → (get_version (set_length n h) ≡ get_version h)
      × (get_type (set_length n h) ≡ get_type h)
      × (get_length (set_length n h) ≡ n)
unfolding set_length get_version get_type get_length
reads_set_length n h hn = (refl, refl, ntohs-htons n hn)
