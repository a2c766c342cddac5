-- ===== src/Pfx/Keys.antt =====
-- Prefixes that agree on their bits: bit tests, masked comparison and equality in terms of keys.
use libbgpstream.Prelude.{
  ℕ, zero, suc, ◌+◌, ◌*◌, ◌≤◌, ◌<◌, ◌≡◌, refl, sym, ap, ap₂, ◌∙◌, List, ◌∷◌, length, take, arith,
  lt→ltb,
}
use libbgpstream.Addr.{width, bit_array_test, addr_mask}
use libbgpstream.Addr.Mask.{addr_mask_bit}
use libbgpstream.Key.{bit_at}
use libbgpstream.Pfx.{Pfx, IsPfx, key, key_from}

length-key_from : (addr : List ℕ) (i n : ℕ) → length (key_from addr i n) ≡ n
unfolding key_from
length-key_from addr i zero = refl
length-key_from addr i (suc n) = ap suc (length-key_from addr (i + 1) n)

pub length-key : (p : Pfx) → length (key p) ≡ p.mask_len
unfolding key
length-key p = length-key_from p.address.bytes 0 p.mask_len

bit_at-key_from :
    (addr : List ℕ) (i n j : ℕ) → j < n → bit_at (key_from addr i n) j ≡ bit_array_test addr (i + j)
unfolding key_from
bit_at-key_from addr i zero j h = absurd (omega arith)
bit_at-key_from addr i (suc n) zero h = ap (bit_array_test addr) (omega arith)
bit_at-key_from addr i (suc n) (suc j) h =
    bit_at-key_from addr (i + 1) n j (omega arith) ∙ ap (bit_array_test addr) (omega arith)

-- A bit inside the prefix is that of the address.
pub bit_at-key :
    (p : Pfx) (j : ℕ) → j < p.mask_len → bit_at (key p) j ≡ bit_array_test p.address.bytes j
unfolding key
bit_at-key p j h =
    bit_at-key_from p.address.bytes 0 p.mask_len j h
    ∙ ap (bit_array_test p.address.bytes) (omega arith)

-- Keys with the same bits are one.
pub key_from_ext :
    (a b : List ℕ) (i n : ℕ)
    → ((j : ℕ) → i ≤ j → j < i + n → bit_array_test a j ≡ bit_array_test b j)
    → key_from a i n ≡ key_from b i n
unfolding key_from
key_from_ext a b i zero h = refl
key_from_ext a b i (suc n) h =
    ap₂ ◌∷◌ (h i (omega arith) (omega arith))
      (key_from_ext a b (i + 1) n (λ j p q. h j (omega arith) (omega arith)))

take-key_from : (addr : List ℕ) (i n d : ℕ) → d ≤ n → take d (key_from addr i n) ≡ key_from addr i d
unfolding key_from
take-key_from addr i n zero h = refl
take-key_from addr i zero (suc d) h = absurd (omega arith)
take-key_from addr i (suc n) (suc d) h =
    ap (λ k. bit_array_test addr i ∷ k) (take-key_from addr (i + 1) n d (omega arith))

-- A prefix shortened and masked fixes the first bits of the same address.
pub key-shorten :
    (p : Pfx) (d m : ℕ)
    → IsPfx p
    → d ≤ p.mask_len
    → key (record { mask_len = d; allowed_matches = m; address = addr_mask p.address d })
      ≡ take d (key p)
unfolding key
key-shorten p d m ok h =
    key_from_ext (addr_mask p.address d).bytes p.address.bytes 0 d same
    ∙ sym (take-key_from p.address.bytes 0 p.mask_len d h)
  where
    same :
        (j : ℕ)
        → 0 ≤ j
        → j < 0 + d
        → bit_array_test (addr_mask p.address d).bytes j ≡ bit_array_test p.address.bytes j
    same j z lt =
        let fits : p.mask_len ≤ 8 * width p.address.version = ok.fits in
        addr_mask_bit p.address d j ok.addr (omega arith) ∙ rw (lt→ltb j d (omega arith))
