-- ===== src/Patricia/Search/Differ.antt =====
-- The first bit in which two prefixes differ is where their keys part.
use Prim.Native.Nat.{differ}
use libbgpstream.Prelude.{
  ℕ, zero, suc, ◌+◌, ◌-◌, ◌*◌, ◌/◌, ◌%◌, ◌≤◌, ◌<◌, ◌≡◌, ◌≢◌, ◌⊎◌, inl, inr, refl, sym, ap, ◌∙◌, not,
  bit_xor, ◌==◌, ltb, get_or, length, arith, ==_iff, ne_of_==, bit_xor_digit, bit_xor-lt,
  Bool-cases, if◌then◌else◌,
}
use libbgpstream.Addr.{Addr, IsAddr, bit_array_test}
use libbgpstream.Addr.Digits.{
  digit, zero_digit, bit_array_test_lem, bit_and_one_bit, byte_of_digits, bit_of_digit,
}
use libbgpstream.Key.{common, bit_at, common_unique}
use libbgpstream.Pfx.{Pfx, IsPfx, key}
use libbgpstream.Pfx.Keys.{length-key, bit_at-key}
use libbgpstream.Patricia.Search.{find_differ_bit, differ_loop, first_set}

-- The first set bit of a byte.
first_set_lem :
    (left j r : ℕ)
    → j + left ≡ 8
    → ((i : ℕ) → i < j → digit r i ≡ 0)
    → let k = first_set left j r in
      (k ≤ 8) × ((i : ℕ) → i < k → digit r i ≡ 0) × ((k ≡ 8) ⊎ ((k < 8) × (digit r k ≡ 1)))
unfolding first_set
first_set_lem zero j r e zeros = (omega arith, zeros, inl (omega arith))
first_set_lem (suc left) j r e zeros = elim (Bool-cases (digit r j == 0)) [
  | inl z ↦
      rw (bit_and_one_bit r j (omega arith), z)
        (first_set_lem left (j + 1) r (omega arith) (λ i lt. elim (Bool-cases (i == j)) [
          | inl at ↦ rw ((==_iff i j).0 at) ((==_iff _ _).0 z)
          | inr ne ↦ zeros i (ground arith)
        ]))
  | inr o ↦
      rw (bit_and_one_bit r j (omega arith), o)
        (omega arith, zeros, inr (omega arith, ground arith))
]

digit_zero-differ : (d e : ℕ) → d < 2 → e < 2 → differ d e ≡ 0 → d ≡ e
digit_zero-differ zero zero p q h = refl
digit_zero-differ zero (suc e) p q h = absurd (omega arith)
digit_zero-differ (suc d) zero p q h = absurd (omega arith)
digit_zero-differ (suc zero) (suc zero) p q h = refl
digit_zero-differ (suc zero) (suc (suc e)) p q h = absurd (omega arith)
digit_zero-differ (suc (suc d)) (suc e) p q h = absurd (omega arith)

digit_one-differ : (d e : ℕ) → d < 2 → e < 2 → differ d e ≡ 1 → not (d == 0) ≡ not (not (e == 0))
digit_one-differ zero zero p q h = absurd (omega arith)
digit_one-differ zero (suc e) p q h = ground arith
digit_one-differ (suc d) zero p q h = ground arith
digit_one-differ (suc zero) (suc zero) p q h = absurd (omega arith)
digit_one-differ (suc zero) (suc (suc e)) p q h = absurd (omega arith)
digit_one-differ (suc (suc d)) (suc e) p q h = absurd (omega arith)

module _ (a b : Addr) (a_ok : IsAddr a) (b_ok : IsAddr b) (check_bit : ℕ) where
  -- All bits before `d` agree, and `d` is past the end or at a difference.
  abbrev IsFirst : ℕ → Type 0
  IsFirst d =
      ((n : ℕ) → n < d → bit_array_test a.bytes n ≡ bit_array_test b.bytes n)
      × ((check_bit ≤ d) ⊎ (bit_array_test a.bytes d ≡ not (bit_array_test b.bytes d)))

  abbrev Agree : ℕ → Type 0
  Agree d = (n : ℕ) → n < d → bit_array_test a.bytes n ≡ bit_array_test b.bytes n

  xor_at : ℕ → ℕ
  xor_at i = bit_xor (get_or a.bytes i 0) (get_or b.bytes i 0)

  agree_where_zero :
      (n : ℕ)
      → digit (xor_at (n / 8)) (n % 8) ≡ 0
      → bit_array_test a.bytes n ≡ bit_array_test b.bytes n
  unfolding xor_at
  agree_where_zero n z = bit_of_digit a.bytes b.bytes n (
      digit_zero-differ _ _ (omega arith) (omega arith)
        (sym (bit_xor_digit (7 - n % 8) (get_or a.bytes (n / 8) 0) (get_or b.bytes (n / 8) 0)) ∙ z))

  differ_where_one :
      (n : ℕ)
      → digit (xor_at (n / 8)) (n % 8) ≡ 1
      → bit_array_test a.bytes n ≡ not (bit_array_test b.bytes n)
  unfolding xor_at
  differ_where_one n o =
      rw (bit_array_test_lem a.bytes n, bit_array_test_lem b.bytes n)
        (digit_one-differ _ _ (omega arith) (omega arith) (
          sym (bit_xor_digit (7 - n % 8) (get_or a.bytes (n / 8) 0) (get_or b.bytes (n / 8) 0))
          ∙ o))

  Agree-next : (i : ℕ) → Agree (i * 8) → xor_at i ≡ 0 → Agree ((i + 1) * 8)
  Agree-next i before z n lt = elim (Bool-cases (ltb n (i * 8))) [
    | inl e ↦ before n (ground arith)
    | inr e ↦ let at : n / 8 ≡ i = ground arith in agree_where_zero n (rw (at, z) (omega arith))
  ]

  byte_differs : (i : ℕ) → ((j : ℕ) → j < 8 → digit (xor_at i) j ≡ 0) → xor_at i ≡ 0
  unfolding xor_at
  byte_differs i zeros =
      byte_of_digits (xor_at i) 0 (bit_xor-lt 8 _ _ (a_ok.bytes_fit i) (b_ok.bytes_fit i))
        (omega arith) (λ j lt. zeros j lt ∙ sym (zero_digit j))

  found_in_byte :
      (i : ℕ) → Agree (i * 8) → xor_at i ≢ 0 → IsFirst (i * 8 + first_set 8 0 (xor_at i))
  found_in_byte i before ne =
      split (first_set_lem 8 0 (xor_at i) refl (λ j lt. absurd (omega arith)))
    where
      k : ℕ
      k = first_set 8 0 (xor_at i)

      agree : k ≤ 8 → ((j : ℕ) → j < k → digit (xor_at i) j ≡ 0) → Agree (i * 8 + k)
      agree le zeros n lt = elim (Bool-cases (ltb n (i * 8))) [
        | inl e ↦ before n (ground arith)
        | inr e ↦
            let at : n / 8 ≡ i = ground arith in
            agree_where_zero n (rw at (zeros (n % 8) (ground arith)))
      ]

      split :
          (k ≤ 8)
            × ((j : ℕ) → j < k → digit (xor_at i) j ≡ 0)
            × ((k ≡ 8) ⊎ ((k < 8) × (digit (xor_at i) k ≡ 1)))
          → IsFirst (i * 8 + k)
      split (le, zeros, inl e) = absurd (ne (byte_differs i (λ j lt. zeros j (omega arith))))
      split (le, zeros, inr (lt, one)) =
          let at : (i * 8 + k) / 8 ≡ i = omega arith in
          let within : (i * 8 + k) % 8 ≡ k = omega arith in
          (agree le zeros, inr (differ_where_one (i * 8 + k) (rw (at, within) one)))

  differ_loop-IsFirst :
      (rounds i : ℕ)
      → check_bit ≤ i * 8 + rounds * 8
      → Agree (i * 8)
      → IsFirst (differ_loop a.bytes b.bytes check_bit rounds i (i * 8))
  unfolding differ_loop xor_at
  differ_loop-IsFirst zero i enough before = (before, inl (omega arith))
  differ_loop-IsFirst (suc rounds) i enough before = elim (Bool-cases (ltb (i * 8) check_bit)) [
    | inr done ↦ rw done (before, inl (ground arith))
    | inl more ↦ elim (Bool-cases (xor_at i == 0)) [
      | inl z ↦
          rw (more, z)
            (differ_loop-IsFirst rounds (i + 1) (omega arith)
              (Agree-next i before ((==_iff _ _).0 z)))
      | inr d ↦ rw (more, d) (found_in_byte i before (ne_of_== _ _ d))
    ]
  ]

module _ (p n : Pfx) (p_ok : IsPfx p) (n_ok : IsPfx n) where
  abbrev check : ℕ
  check = if ltb n.mask_len p.mask_len then n.mask_len else p.mask_len

  first :
      IsFirst p.address n.address p_ok.addr n_ok.addr check
        (differ_loop p.address.bytes n.address.bytes check check 0 (0 * 8))
  first =
      differ_loop-IsFirst p.address n.address p_ok.addr n_ok.addr check check 0 (omega arith)
        (λ j lt. absurd (omega arith))

  keys-Agree :
      (d : ℕ)
      → d ≤ check
      → Agree p.address n.address p_ok.addr n_ok.addr check d
      → (j : ℕ) → j < d
      → bit_at (key p) j ≡ bit_at (key n) j
  keys-Agree d le agree j lt =
      bit_at-key p j (ground arith) ∙ agree j lt ∙ sym (bit_at-key n j (ground arith))

  min-stop : (d : ℕ) → d ≡ check → (d ≡ length (key p)) ⊎ (d ≡ length (key n))
  min-stop d e = ground (arith, length-key p, length-key n)

  check_stop :
      (d : ℕ)
      → d ≡ check
      → (d ≡ length (key p)) ⊎ ((d ≡ length (key n)) ⊎ (bit_at (key p) d ≡ not (bit_at (key n) d)))
  check_stop d e = ground (arith, min-stop d e)

  common_at :
      (d : ℕ)
      → d ≤ check
      → Agree p.address n.address p_ok.addr n_ok.addr check d
      → (d ≡ length (key p)) ⊎ ((d ≡ length (key n)) ⊎ (bit_at (key p) d ≡ not (bit_at (key n) d)))
      → common (key p) (key n) ≡ d
  common_at d le agree stop =
      common_unique (key p) (key n) d (ground (arith, length-key p)) (ground (arith, length-key n))
        (keys-Agree d le agree) stop

  stop_at :
      (d : ℕ)
      → d ≤ check
      → (check ≤ d) ⊎ (bit_array_test p.address.bytes d ≡ not (bit_array_test n.address.bytes d))
      → (d ≡ length (key p)) ⊎ ((d ≡ length (key n)) ⊎ (bit_at (key p) d ≡ not (bit_at (key n) d)))
  stop_at d le (inl e) = check_stop d (omega arith)
  stop_at d le (inr e) = elim (Bool-cases (ltb d check)) [
    | inl lt ↦
        inr (inr (bit_at-key p d (ground arith) ∙ e ∙ ap not (sym (bit_at-key n d (ground arith)))))
    | inr ge ↦ check_stop d (ground arith)
  ]

  capped :
      (d : ℕ)
      → IsFirst p.address n.address p_ok.addr n_ok.addr check d
      → (if ltb check d then check else d) ≡ common (key p) (key n)
  capped d (agree, stop) = elim (Bool-cases (ltb check d)) [
    | inl past ↦ rw past (
        sym
          (common_at check (omega arith) (λ j lt. agree j (ground arith)) (check_stop check refl)))
    | inr within ↦
        rw within (sym (common_at d (ground arith) agree (stop_at d (ground arith) stop)))
  ]

  -- For two well-formed prefixes, the bit that the code finds them to differ at is the length
  -- of the longest common prefix of their keys.
  pub find_differ_bit_lem : find_differ_bit p n ≡ common (key p) (key n)
  unfolding find_differ_bit
  find_differ_bit_lem = capped _ first
