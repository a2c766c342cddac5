-- ===== src/Tests/Prefixes.antt =====
-- Addresses and prefixes.
use libbgpstream.Prelude.{
  ℕ, ◌<◌, ◌≡◌, ◌↔◌, refl, true, ◌&&◌, ◌||◌, ltb, [], ◌∷◌, arith, all_below, all_below_sound, not,
}
use libbgpstream.Addr.{bit_array_test, addr_mask, addr_equal}
use libbgpstream.Addr.Mask.{addr_mask_bit}
use libbgpstream.Key.{PrefixOf}
use libbgpstream.Pfx.{IsMasked, key, pfx_contains}
use libbgpstream.Pfx.Contains.{addr_equal_iff, pfx_contains_iff}
use libbgpstream.Tests.Data.{ten, ten_high, local, ten-IsPfx, ten_high-IsPfx, local-IsPfx}

addr_mask_bit_example :
    bit_array_test (addr_mask local.address 9).bytes 8
    ≡ (ltb 8 9 && bit_array_test local.address.bytes 8)
addr_mask_bit_example = addr_mask_bit local.address 9 8 local-IsPfx.addr (omega arith)

-- 192.168.0.0 loses all but its first bits.
mask_test : (addr_mask local.address 9).bytes ≡ (192 ∷ 128 ∷ 0 ∷ 0 ∷ [])
unfolding addr_mask
mask_test = refl

same_addresses :
    (addr_equal ten.address local.address ≡ true)
    ↔ ((n : ℕ) → n < 32 → bit_array_test ten.address.bytes n ≡ bit_array_test local.address.bytes n)
same_addresses = addr_equal_iff ten.address local.address ten-IsPfx.addr local-IsPfx.addr refl

ten_zeros : all_below 32 (λ i. ltb i 8 || not (bit_array_test ten.address.bytes i)) ≡ true
unfolding all_below bit_array_test
ten_zeros = refl

ten-IsMasked : IsMasked ten
ten-IsMasked n le lt = ground (
  arith,
  all_below_sound 32 (λ i. ltb i 8 || not (bit_array_test ten.address.bytes i)) n ten_zeros lt,
)

pfx_contains_iff_example :
    (pfx_contains ten.address ten ten_high ≡ true)
    ↔ ((ten.address.version ≡ ten_high.address.version) × PrefixOf (key ten) (key ten_high))
pfx_contains_iff_example =
    pfx_contains_iff ten.address ten ten_high ten-IsPfx ten_high-IsPfx ten-IsMasked
