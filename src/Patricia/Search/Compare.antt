-- ===== src/Patricia/Search/Compare.antt =====
-- Comparing two prefixes byte by byte is comparing their keys.
use libbgpstream.Prelude.{
  ℕ, ◌+◌, ◌-◌, ◌*◌, ◌/◌, ◌%◌, ◌^◌, ◌≤◌, ◌<◌, ◌≡◌, inl, inr, refl, sym, ap, ◌∙◌, Bool, true, false,
  ◌&&◌, ◌||◌, bit_and, ◌==◌, ltb, get_or, arith, all_below, all_below_sound, all_below_complete,
  ==_iff, ==_ne, bit_and-mul_pow, bit_and_low, Bool-cases, if◌then◌else◌,
}
use native.Mathlib.Nat.{one-le-pow, mod-eq_of_lt, div-le_self, mul-div_cancel}
use libbgpstream.Addr.{Addr, IsAddr, bit_array_test, memcmp_eq}
use libbgpstream.Addr.Digits.{
  digit, quotient_of_digits, digits_of_quotient, byte_of_digits, digit_of_bit, bit_of_digit,
}
use libbgpstream.Patricia.Search.{comp_with_mask}

mask_table :
    all_below 9 (λ s.
      (2 ^ 32 - 2 ^ s == (2 ^ (32 - s) - 1) * 2 ^ s) && (2 ^ (32 - s) == 2 ^ (8 - s) * 2 ^ 24))
    ≡ true
unfolding all_below
mask_table = refl

mask_pattern :
    (s : ℕ)
    → s ≤ 8
    → (2 ^ 32 - 2 ^ s ≡ (2 ^ (32 - s) - 1) * 2 ^ s) × (2 ^ (32 - s) ≡ 2 ^ (8 - s) * 2 ^ 24)
mask_pattern s h = ground (arith, all_below_sound 9 _ s mask_table)

-- The mask of a partial byte keeps the quotient by what it cuts off.
masked_byte : (s x : ℕ) → s ≤ 8 → x < 256 → bit_and x (2 ^ 32 - 2 ^ s) ≡ x / 2 ^ s * 2 ^ s
masked_byte s x h hx =
    rw
      (
        (mask_pattern s h).0,
        bit_and-mul_pow s x (2 ^ (32 - s) - 1),
        bit_and_low (32 - s) (x / 2 ^ s),
      )
      (ap (λ t. t * 2 ^ s) small)
  where
    small : x / 2 ^ s % 2 ^ (32 - s) ≡ x / 2 ^ s
    small =
        rw (mask_pattern s h).1
          (mod-eq_of_lt (omega (arith, one-le-pow (8 - s) 2 (omega arith), div-le_self x (2 ^ s))))

cancel_pow : (s a b : ℕ) → a * 2 ^ s ≡ b * 2 ^ s → a ≡ b
cancel_pow s a b e =
    sym (mul-div_cancel a (one-le-pow s 2 (omega arith)))
    ∙ ap (λ (t : ℕ). t / 2 ^ s) e
    ∙ mul-div_cancel b (one-le-pow s 2 (omega arith))

masked_byte_cancel :
    (s x y : ℕ)
    → s ≤ 8
    → x < 256
    → y < 256
    → (bit_and x (2 ^ 32 - 2 ^ s) == bit_and y (2 ^ 32 - 2 ^ s)) ≡ true
    → x / 2 ^ s ≡ y / 2 ^ s
masked_byte_cancel s x y h hx hy e =
    cancel_pow s _ _ (rw (masked_byte s x h hx, masked_byte s y h hy) at ((==_iff _ _).0 e))

if_both : (c d : Bool) → (if c then d else false) ≡ true → (c ≡ true) × (d ≡ true)
if_both c d h = ground arith

or_of_ne : (c d : Bool) → (c || d) ≡ true → c ≡ false → d ≡ true
or_of_ne c d h e = ground arith

module _ (a b : Addr) (a_ok : IsAddr a) (b_ok : IsAddr b) where
  byte_agrees :
      (i : ℕ)
      → ((j : ℕ) → j < 8 → bit_array_test a.bytes (8 * i + j) ≡ bit_array_test b.bytes (8 * i + j))
      → get_or a.bytes i 0 ≡ get_or b.bytes i 0
  byte_agrees i same =
      byte_of_digits _ _ (a_ok.bytes_fit i) (b_ok.bytes_fit i)
        (λ j lt. digit_of_bit a.bytes b.bytes i j lt (same j lt))

  -- `comp_with_mask` succeeds exactly when the first `mask` bits agree.
  pub comp_with_mask_complete :
      (mask : ℕ)
      → ((n : ℕ) → n < mask → bit_array_test a.bytes n ≡ bit_array_test b.bytes n)
      → comp_with_mask a.bytes b.bytes mask ≡ true
  unfolding comp_with_mask
  comp_with_mask_complete mask same = rw (whole, partial)
    where
      whole : memcmp_eq a.bytes b.bytes (mask / 8) ≡ true
      whole =
          all_below_complete (mask / 8) _
            (λ i lt. (==_iff _ _).1 (byte_agrees i (λ j lj. same (8 * i + j) (omega arith))))

      partial :
          (mask % 8 == 0)
            || (bit_and (get_or a.bytes (mask / 8) 0) (2 ^ 32 - 2 ^ (8 - mask % 8))
                == bit_and (get_or b.bytes (mask / 8) 0) (2 ^ 32 - 2 ^ (8 - mask % 8)))
          ≡ true
      partial =
          let quotients =
            quotient_of_digits (mask % 8) (get_or a.bytes (mask / 8) 0)
              (get_or b.bytes (mask / 8) 0) (omega arith) (a_ok.bytes_fit (mask / 8))
              (b_ok.bytes_fit (mask / 8))
              (λ j lt.
                digit_of_bit a.bytes b.bytes (mask / 8) j (omega arith)
                  (same (8 * (mask / 8) + j) (omega arith))) in
          rw
            (
              masked_byte (8 - mask % 8) (get_or a.bytes (mask / 8) 0) (omega arith)
                  (a_ok.bytes_fit (mask / 8)),
              masked_byte (8 - mask % 8) (get_or b.bytes (mask / 8) 0) (omega arith)
                  (b_ok.bytes_fit (mask / 8)),
              quotients,
            )
            (ground arith)

  pub comp_with_mask_sound :
      (mask : ℕ)
      → comp_with_mask a.bytes b.bytes mask ≡ true
      → (n : ℕ) → n < mask
      → bit_array_test a.bytes n ≡ bit_array_test b.bytes n
  unfolding comp_with_mask
  comp_with_mask_sound mask h n lt =
      bit_of_digit a.bytes b.bytes n (elim (Bool-cases (ltb (n / 8) (mask / 8))) [
        | inl before ↦
            ap (λ x. digit x (n % 8))
              ((==_iff _ _).0
                (all_below_sound (mask / 8) _ (n / 8) (if_both _ _ h).0 (ground arith)))
        | inr last ↦
            let at : n / 8 ≡ mask / 8 = ground arith in
            let x : ℕ = get_or a.bytes (mask / 8) 0 in
            let y : ℕ = get_or b.bytes (mask / 8) 0 in
            let quotients : x / 2 ^ (8 - mask % 8) ≡ y / 2 ^ (8 - mask % 8) =
              masked_byte_cancel (8 - mask % 8) x y (omega arith) (a_ok.bytes_fit (mask / 8))
                (b_ok.bytes_fit (mask / 8))
                (or_of_ne _ _ (if_both _ _ h).1 (==_ne (mask % 8) 0 (λ z. omega arith))) in
            rw at (digits_of_quotient (mask % 8) x y (n % 8) (omega arith) quotients (omega arith))
      ])
