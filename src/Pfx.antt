-- ===== src/Pfx.antt =====
-- Prefixes: lib/utils/bgpstream_utils_pfx.c and .h. Text conversion and hashing are not here.
pub mod Keys
pub mod Contains
use libbgpstream.Prelude.{
  ℕ, zero, suc, ◌+◌, ◌*◌, ◌≤◌, ◌<◌, ◌≡◌, Bool, true, false, not, ◌&&◌, ◌||◌, List, [], ◌∷◌, ltb,
  ◌==◌, if◌then◌else◌,
}
use libbgpstream.Addr.{
  Addr, AddrVersion, unknown, ipv4, ipv6, IsAddr, version_eq, width, addr_equal, addr_copy,
  addr_mask, ipv4_addr_equal, ipv6_addr_equal, bit_array_test,
}
use libbgpstream.Key.{Key}

pub record Pfx : Type 0 where
  pub mask_len : ℕ
  pub allowed_matches : ℕ
  pub address : Addr

-- `BGPSTREAM_PREFIX_MATCH_ANY`, `_EXACT`, `_MORE` and `_LESS`.
abbrev pub match_any : ℕ
match_any = 0

abbrev pub match_exact : ℕ
match_exact = 1

abbrev pub match_more : ℕ
match_more = 2

abbrev pub match_less : ℕ
match_less = 3

unfoldable pub pfx_copy : Pfx → Pfx → Pfx
pfx_copy dst src = elim src.address.version [ ipv4 ↦ src | ipv6 ↦ src | unknown ↦ dst ]

unfoldable pub ipv4_pfx_equal : Pfx → Pfx → Bool
ipv4_pfx_equal p q = p.mask_len == q.mask_len && ipv4_addr_equal p.address q.address

unfoldable pub ipv6_pfx_equal : Pfx → Pfx → Bool
ipv6_pfx_equal p q = p.mask_len == q.mask_len && ipv6_addr_equal p.address q.address

unfoldable pub pfx_equal : Pfx → Pfx → Bool
pfx_equal p q = if p.mask_len == q.mask_len then addr_equal p.address q.address else false

-- `tmp` is what the uninitialised local holds.
unfoldable pub pfx_contains : Addr → Pfx → Pfx → Bool
pfx_contains tmp outer inner =
    if not (version_eq outer.address.version inner.address.version)
      || ltb inner.mask_len outer.mask_len
    then false
    else (let copied = addr_copy tmp inner.address in
        addr_equal (addr_mask copied outer.mask_len) outer.address)

-- The bits that a prefix fixes, from the i-th on.
unfoldable pub key_from : List ℕ → ℕ → ℕ → Key
key_from addr i zero = []
key_from addr i (suc n) = bit_array_test addr i ∷ key_from addr (i + 1) n

unfoldable pub key : Pfx → Key
unfolding key_from
key p = key_from p.address.bytes 0 p.mask_len

-- A prefix as the library keeps it.
pub record IsPfx (p : Pfx) : Type 0 where
  pub addr : IsAddr p.address
  pub fits : p.mask_len ≤ 8 * width p.address.version

-- A prefix with no bit set after its length: what `bgpstream_str2pfx` makes.
abbrev pub IsMasked : Pfx → Type 0
IsMasked p =
    (n : ℕ)
    → p.mask_len ≤ n
    → n < 8 * width p.address.version
    → bit_array_test p.address.bytes n ≡ false
