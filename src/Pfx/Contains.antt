-- ===== src/Pfx/Contains.antt =====
-- bgpstream_addr_equal of lib/utils/bgpstream_utils_addr.c and bgpstream_pfx_contains of
-- lib/utils/bgpstream_utils_pfx.c, by the bits of the addresses.
use libbgpstream.Prelude.{
  ℕ, zero, suc, ◌+◌, ◌*◌, ◌/◌, ◌%◌, ◌≤◌, ◌<◌, ◌≡◌, ◌≢◌, ◌↔◌, ◌⊎◌, inl, inr, refl, sym, ap, subst,
  ◌∙◌, Bool, true, false, not, ◌&&◌, List, [], ◌∷◌, length, get_or, ltb, arith, Bool-cases, ==_iff,
  ltb→le, leb, leb→le, le→leb, ltb→lt, all_below_sound, all_below_complete, if◌then◌else◌,
}
use libbgpstream.Addr.{
  Addr, AddrVersion, unknown, ipv4, ipv6, IsAddr, width, version_eq, memcmp_eq, addr_equal,
  equal_at, addr_mask, addr_copy, ipv4_addr_equal, ipv6_addr_equal, bit_array_test,
}
use libbgpstream.Addr.Versions.{version_eq_refl, version_eq_sound}
use libbgpstream.Addr.Digits.{digit, byte_of_digits, digit_of_bit, bit_of_digit}
use libbgpstream.Addr.Mask.{addr_mask_bit, addr_mask-IsAddr}
use libbgpstream.Key.{Key, bit_at, PrefixOf, PrefixOf-le, PrefixOf-take}
use libbgpstream.Pfx.{Pfx, IsPfx, IsMasked, key, pfx_contains}
use libbgpstream.Pfx.Keys.{length-key, bit_at-key, key_from_ext, key-shorten}

equal_at-memcmp :
    (v : AddrVersion) (a b : Addr)
    → v ≢ unknown
    → equal_at v a b ≡ memcmp_eq a.bytes b.bytes (width v)
unfolding equal_at ipv4_addr_equal ipv6_addr_equal
equal_at-memcmp unknown a b known = absurd (known refl)
equal_at-memcmp ipv4 a b known = refl
equal_at-memcmp ipv6 a b known = refl

PrefixOf-bit : (p k : Key) (n : ℕ) → PrefixOf p k → n < length p → bit_at k n ≡ bit_at p n
PrefixOf-bit [] k n h lt = absurd (omega arith)
PrefixOf-bit (b ∷ p) [] n h lt = absurd h
PrefixOf-bit (b ∷ p) (c ∷ k) zero h lt = sym h.0
PrefixOf-bit (b ∷ p) (c ∷ k) (suc n) h lt = PrefixOf-bit p k n h.1 (omega arith)

and_parts : (a b : Bool) → (a && b) ≡ true → (a ≡ true) × (b ≡ true)
and_parts a b h = ground arith

and_all : (a b c : Bool) → a ≡ true → b ≡ true → c ≡ true → (a && (b && c)) ≡ true
and_all a b c h i j = ground arith

-- Two well-formed addresses of one version are equal exactly if all their bits are.
pub addr_equal_iff :
    (a b : Addr)
    → IsAddr a
    → IsAddr b
    → a.version ≡ b.version
    → (addr_equal a b ≡ true)
      ↔ ((n : ℕ) → n < 8 * width a.version → bit_array_test a.bytes n ≡ bit_array_test b.bytes n)
unfolding addr_equal
addr_equal_iff a b a_ok b_ok same = (sound, complete)
  where
    as_memcmp : addr_equal a b ≡ memcmp_eq a.bytes b.bytes (width a.version)
    as_memcmp =
        ap (λ w. if not (version_eq a.version w) then false else equal_at a.version a b) (sym same)
        ∙ rw (version_eq_refl a.version) (equal_at-memcmp a.version a b a_ok.known)

    sound :
        addr_equal a b ≡ true
        → (n : ℕ) → n < 8 * width a.version
        → bit_array_test a.bytes n ≡ bit_array_test b.bytes n
    sound e n lt = bit_of_digit a.bytes b.bytes n (
        ap (λ x. digit x (n % 8))
          ((==_iff _ _).0
            (all_below_sound (width a.version) _ (n / 8) (sym as_memcmp ∙ e) (omega arith))))

    complete :
        ((n : ℕ) → n < 8 * width a.version → bit_array_test a.bytes n ≡ bit_array_test b.bytes n)
        → addr_equal a b ≡ true
    complete h =
        as_memcmp
        ∙ all_below_complete (width a.version) _ (λ i lt. (==_iff _ _).1 (
            byte_of_digits (get_or a.bytes i 0) (get_or b.bytes i 0) (a_ok.bytes_fit i)
              (b_ok.bytes_fit i)
              (λ j lt'. digit_of_bit a.bytes b.bytes i j lt' (h (8 * i + j) (omega arith)))))

copied :
    (v : AddrVersion) (tmp : Addr) (bytes : List ℕ)
    → v ≢ unknown
    → addr_copy tmp (record { version = v; bytes = bytes }) ≡ record { version = v; bytes = bytes }
unfolding addr_copy
copied unknown tmp bytes known = absurd (known refl)
copied ipv4 tmp bytes known = refl
copied ipv6 tmp bytes known = refl

module _ (tmp : Addr) (outer inner : Pfx) (o_ok : IsPfx outer) (i_ok : IsPfx inner) where
  abbrev cut : Addr
  cut = addr_mask inner.address outer.mask_len

  pfx_contains-parts : pfx_contains tmp outer inner ≡ (
      version_eq outer.address.version inner.address.version
      && (leb outer.mask_len inner.mask_len && addr_equal cut outer.address))
  unfolding pfx_contains
  pfx_contains-parts =
      rw (copied inner.address.version tmp inner.address.bytes i_ok.addr.known) (ground arith)

  PrefixOf-cut :
      outer.mask_len ≤ inner.mask_len
      → ((n : ℕ)
          → n < outer.mask_len
          → bit_array_test cut.bytes n ≡ bit_array_test outer.address.bytes n)
      → PrefixOf (key outer) (key inner)
  unfolding key
  PrefixOf-cut le same =
      subst (λ k. PrefixOf k (key inner))
        (sym (key-shorten inner outer.mask_len 0 i_ok le)
          ∙ key_from_ext cut.bytes outer.address.bytes 0 outer.mask_len
              (λ j z lt. same j (omega arith)))
        (PrefixOf-take outer.mask_len (key inner))

  -- For well-formed prefixes, the outer one with no bit set after its length, the outer
  -- contains the inner exactly if they have one version and the outer's bits lead the inner's.
  pub pfx_contains_iff :
      IsMasked outer
      → (pfx_contains tmp outer inner ≡ true)
        ↔ ((outer.address.version ≡ inner.address.version) × PrefixOf (key outer) (key inner))
  pfx_contains_iff masked = (sound, complete)
    where
      fits : outer.mask_len ≤ 8 * width outer.address.version
      fits = o_ok.fits

      equal_iff :
          outer.address.version ≡ inner.address.version
          → (addr_equal cut outer.address ≡ true) ↔ (
              (n : ℕ)
              → n < 8 * width inner.address.version
              → bit_array_test cut.bytes n ≡ bit_array_test outer.address.bytes n)
      equal_iff same =
          unfold addr_mask in
          addr_equal_iff cut outer.address (addr_mask-IsAddr inner.address outer.mask_len i_ok.addr)
            o_ok.addr (sym same)

      sound :
          pfx_contains tmp outer inner ≡ true
          → (outer.address.version ≡ inner.address.version) × PrefixOf (key outer) (key inner)
      sound e =
          let (v, rest) = and_parts _ _ (sym pfx_contains-parts ∙ e) in
          let (le, equal) = and_parts _ _ rest in
          let same : outer.address.version ≡ inner.address.version = version_eq_sound _ _ v in
          (
            same,
            PrefixOf-cut (leb→le _ _ le)
                (λ n lt. (equal_iff same).0 equal n (omega (arith, fits, ap width same))),
          )

      bits :
          outer.address.version ≡ inner.address.version
          → PrefixOf (key outer) (key inner)
          → (n : ℕ) → n < 8 * width inner.address.version
          → bit_array_test cut.bytes n ≡ bit_array_test outer.address.bytes n
      bits same h n lt =
          addr_mask_bit inner.address outer.mask_len n i_ok.addr lt
          ∙ side (Bool-cases (ltb n outer.mask_len))
        where
          side :
              (ltb n outer.mask_len ≡ true) ⊎ (ltb n outer.mask_len ≡ false)
              → (ltb n outer.mask_len && bit_array_test inner.address.bytes n)
                ≡ bit_array_test outer.address.bytes n
          side (inl e) = rw e (
              sym (
                bit_at-key inner n (
                  omega
                    (arith, ltb→lt _ _ e, PrefixOf-le _ _ h, length-key outer, length-key inner)))
              ∙ PrefixOf-bit (key outer) (key inner) n h
                  (omega (arith, ltb→lt _ _ e, length-key outer))
              ∙ bit_at-key outer n (ltb→lt _ _ e))
          side (inr e) = rw e (sym (masked n (ltb→le _ _ e) (omega (arith, ap width same))))

      complete :
          (outer.address.version ≡ inner.address.version) × PrefixOf (key outer) (key inner)
          → pfx_contains tmp outer inner ≡ true
      complete (same, h) =
          pfx_contains-parts
          ∙ and_all _ _ _
              (ap (version_eq outer.address.version) (sym same)
                ∙ version_eq_refl outer.address.version)
              (le→leb outer.mask_len inner.mask_len
                (omega (arith, PrefixOf-le _ _ h, length-key outer, length-key inner)))
              ((equal_iff same).1 (bits same h))
