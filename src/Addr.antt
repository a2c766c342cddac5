-- ===== src/Addr.antt =====
-- IP addresses: lib/utils/bgpstream_utils_addr.c and .h. An address is its version and its bytes in
-- memory, which is network order; an IPv4 `s_addr` is its four bytes.
pub mod Digits
pub mod Mask
pub mod Versions
use libbgpstream.Prelude.{
  ℕ, zero, suc, ◌+◌, ◌-◌, ◌*◌, ◌/◌, ◌%◌, ◌^◌, ◌≤◌, ◌<◌, ◌≡◌, ◌≢◌, Bool, true, false, not, ◌&&◌,
  Option, none, some, List, [], ◌∷◌, ◌++◌, bit_and, leb, ◌==◌, if◌then◌else◌, length, get_or, take,
  replicate, all_below,
}

pub data AddrVersion : Type 0 where
  unknown ipv4 ipv6 : AddrVersion

pub record Addr : Type 0 where
  pub version : AddrVersion
  pub bytes : List ℕ

abbrev pub version_eq : AddrVersion → AddrVersion → Bool
version_eq unknown unknown = true
version_eq ipv4 ipv4 = true
version_eq ipv6 ipv6 = true
version_eq _ _ = false

-- Bytes that an address of the version has.
abbrev pub width : AddrVersion → ℕ
width unknown = 0
width ipv4 = 4
width ipv6 = 16

-- `memcmp(a, b, n) == 0`.
abbrev pub memcmp_eq : List ℕ → List ℕ → ℕ → Bool
memcmp_eq a b n = all_below n (λ i. get_or a i 0 == get_or b i 0)

unfoldable pub ipv4_addr_equal : Addr → Addr → Bool
ipv4_addr_equal a b = memcmp_eq a.bytes b.bytes 4

unfoldable pub ipv6_addr_equal : Addr → Addr → Bool
ipv6_addr_equal a b = memcmp_eq a.bytes b.bytes 16

unfoldable pub equal_at : AddrVersion → Addr → Addr → Bool
equal_at ipv4 a b = ipv4_addr_equal a b
equal_at ipv6 a b = ipv6_addr_equal a b
equal_at unknown a b = false

unfoldable pub addr_equal : Addr → Addr → Bool
unfolding equal_at ipv4_addr_equal ipv6_addr_equal
addr_equal a b = if not (version_eq a.version b.version) then false else equal_at a.version a b

-- The bytes of a 32-bit word in network order: `htonl`.
abbrev pub htonl : ℕ → List ℕ
htonl w = (w / 2 ^ 24 % 256) ∷ (w / 2 ^ 16 % 256) ∷ (w / 2 ^ 8 % 256) ∷ (w % 256) ∷ []

abbrev pub and_bytes : List ℕ → List ℕ → List ℕ
and_bytes [] ys = []
and_bytes (x ∷ xs) [] = []
and_bytes (x ∷ xs) (y ∷ ys) = bit_and x y ∷ and_bytes xs ys

-- `~(~(uint32_t)0 >> mask_len)`
abbrev pub mask32 : ℕ → ℕ
mask32 mask_len = 2 ^ 32 - 1 - (2 ^ 32 - 1) / 2 ^ mask_len

unfoldable pub ipv4_addr_mask : List ℕ → ℕ → List ℕ
ipv4_addr_mask addr mask_len =
    if leb 32 mask_len then addr else and_bytes addr (htonl (mask32 mask_len))

unfoldable pub ipv6_addr_mask : List ℕ → ℕ → List ℕ
ipv6_addr_mask addr mask_len =
    let i = mask_len / 8 in
    if leb 128 mask_len
    then addr
    else take i addr
      ++ (bit_and (get_or addr i 0) (0xff * 2 ^ (8 - mask_len % 8)) ∷ replicate (16 - (i + 1)) 0)

mask_at : AddrVersion → List ℕ → ℕ → List ℕ
mask_at ipv4 addr mask_len = ipv4_addr_mask addr mask_len
mask_at ipv6 addr mask_len = ipv6_addr_mask addr mask_len
mask_at unknown addr mask_len = addr

-- The source returns a null pointer, and changes nothing, where the version is neither.
unfoldable pub addr_mask : Addr → ℕ → Addr
unfolding mask_at ipv4_addr_mask ipv6_addr_mask
addr_mask a mask_len = record a { bytes = mask_at a.version a.bytes mask_len }

-- Only a known version is copied over the destination.
unfoldable pub addr_copy : Addr → Addr → Addr
addr_copy dst src = elim src.version [ ipv4 ↦ src | ipv6 ↦ src | unknown ↦ dst ]

unfoldable pub ipv2idx : AddrVersion → Option ℕ
ipv2idx ipv4 = some 0
ipv2idx ipv6 = some 1
ipv2idx unknown = none

unfoldable pub idx2ipv : ℕ → Option AddrVersion
idx2ipv i = if i == 0 then some ipv4 else if i == 1 then some ipv6 else none

unfoldable pub ipv2number : AddrVersion → Option ℕ
ipv2number ipv4 = some 4
ipv2number ipv6 = some 6
ipv2number unknown = none

unfoldable pub idx2number : ℕ → Option ℕ
idx2number i = if i == 0 then some 4 else if i == 1 then some 6 else none

-- `BIT_ARRAY_TEST` of bgpstream_utils_patricia.c: the n-th bit from the most significant one.
unfoldable pub bit_array_test : List ℕ → ℕ → Bool
bit_array_test p n = not (bit_and (get_or p (n / 2 ^ 3) 0) (0x80 / 2 ^ bit_and n 0x07) == 0)

-- An address as the library keeps it.
pub record IsAddr (a : Addr) : Type 0 where
  pub known : a.version ≢ unknown
  pub full : length a.bytes ≡ width a.version
  pub bytes_fit : (i : ℕ) → get_or a.bytes i 0 < 256
