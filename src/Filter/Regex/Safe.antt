-- ===== src/Filter/Regex/Safe.antt =====
-- Where the conversion of a Cisco expression stays in its arrays.
use libbgpstream.Prelude.{
  ℕ, zero, suc, ◌+◌, ◌-◌, ◌≤◌, ◌≡◌, ◌≢◌, refl, ap, inl, inr, false, ◌||◌, List, [], ◌∷◌, ◌++◌,
  arith, ltb, ◌==◌, if◌then◌else◌, length, get_or, replicate, length-append, Bool-cases, ltb→le,
  lt→ltb, le→leb,
}
use libbgpstream.Libc.{is_digit}
use libbgpstream.Filter.Regex.{
  Conversion, Converted, fault, start, write, set, underscore_re, open_paren, backreference,
  is_brace, plain, no_room, convert,
}

abbrev one_if_paren : ℕ → ℕ
one_if_paren c = if c == b'(' then 1 else 0

-- The opening parentheses that no backslash is before.
unfoldable pub groups : List ℕ → ℕ
groups [] = 0
groups (c ∷ []) = one_if_paren c
groups (c ∷ d ∷ s) = if c == b'\\' then groups s else one_if_paren c + groups (d ∷ s)

-- The arrays before a round that is not stopped, and the groups so far.
record Fits (st : Conversion) (n : ℕ) : Type 0 where
  room : length st.posix_re ≤ 254
  places : length st.c2p_parens ≡ 10
  counted : st.c_parens ≡ n

abbrev Goes : (Conversion → Converted) → ℕ → Type 0
Goes k n = (st : Conversion) → Fits st n → k st ≢ fault

length-set : (i v : ℕ) (xs : List ℕ) → length (set i v xs) ≡ length xs
length-set i v [] = refl
length-set zero v (x ∷ xs) = refl
length-set (suc i) v (x ∷ xs) = ap suc (length-set i v xs)

write-Goes :
    (st : Conversion) (n : ℕ) (t : List ℕ) (k : Conversion → Converted)
    → Fits st n
    → length st.posix_re ≤ 241
    → length t ≤ 2
    → Goes k n
    → write st t k ≢ fault
write-Goes st n t k f room short goes =
    let longer = length-append st.posix_re t in
    rw (le→leb (length st.posix_re + length t) 256 (omega arith)) (
      goes (record st { posix_re = st.posix_re ++ t })
        (record { room = omega (arith, longer); places = f.places; counted = f.counted }))

open_paren-Goes :
    (st : Conversion) (n : ℕ) (k : Conversion → Converted)
    → Fits st n
    → length st.posix_re ≤ 241
    → n + 1 ≤ 9
    → Goes k (n + 1)
    → open_paren st k ≢ fault
open_paren-Goes st n k f room few goes =
    let placed = length-set (st.c_parens + 1) (st.p_parens + 1) st.c2p_parens in
    rw (lt→ltb (st.c_parens + 1) (length st.c2p_parens) (omega (arith, f.places, f.counted))) (
      write-Goes
        (record st {
          c_parens = st.c_parens + 1;
          p_parens = st.p_parens + 1;
          c2p_parens = set (st.c_parens + 1) (st.p_parens + 1) st.c2p_parens;
        })
        (n + 1) (b'(' ∷ []) k
        (record {
          room = f.room;
          places = omega (arith, placed, f.places);
          counted = omega (arith, f.counted);
        })
        room (omega arith) goes)

plain-Goes :
    (st : Conversion) (n c : ℕ) (k : Conversion → Converted)
    → Fits st n
    → length st.posix_re ≤ 241
    → n + one_if_paren c ≤ 9
    → Goes k (n + one_if_paren c)
    → plain st c k ≢ fault
plain-Goes st n c k f room few goes = elim (Bool-cases (c == b'_')) [
  | inl underscore ↦
      let longer = length-append st.posix_re underscore_re in
      let none_more : n + one_if_paren c ≡ n = ground arith in
      rw (underscore, le→leb (length st.posix_re + 14) 256 (omega arith))
        (goes (record st { posix_re = st.posix_re ++ underscore_re; p_parens = st.p_parens + 1 })
          (record {
            room = omega (arith, longer);
            places = f.places;
            counted = omega (arith, f.counted, none_more);
          }))
  | inr other ↦ elim (Bool-cases (is_brace c)) [
    | inl brace ↦
        let none_more : n + one_if_paren c ≡ n = ground arith in
        rw (other, brace)
          (write-Goes st n (b'\\' ∷ c ∷ []) k f room (omega arith) (rw none_more at goes))
    | inr no_brace ↦ elim (Bool-cases (c == b'(')) [
      | inl paren ↦
          let one_more : n + one_if_paren c ≡ n + 1 = ground arith in
          rw (other, no_brace, paren)
            (open_paren-Goes st n k f room (omega (arith, one_more)) (rw one_more at goes))
      | inr no_paren ↦
          let none_more : n + one_if_paren c ≡ n = ground arith in
          rw (other, no_brace, no_paren)
            (write-Goes st n (c ∷ []) k f room (omega arith) (rw none_more at goes))
    ]
  ]
]

backreference-Goes :
    (st : Conversion) (n d : ℕ) (k : Conversion → Converted)
    → Fits st n
    → length st.posix_re ≤ 241
    → Goes k n
    → backreference st d k ≢ fault
backreference-Goes st n d k f room goes =
    elim (Bool-cases (ltb st.c_parens (d - b'0') || ltb 9 (get_or st.c2p_parens (d - b'0') 0))) [
      | inl bad ↦ rw bad (λ e. cc)
      | inr good ↦ rw good (
          write-Goes st n (b'\\' ∷ (b'0' + get_or st.c2p_parens (d - b'0') 0) ∷ []) k f room
            (omega arith) goes)
    ]

-- With at most nine groups in all, the rest of the loop makes no write outside the arrays.
convert-Goes : (s : List ℕ) (n : ℕ) → n + groups s ≤ 9 → Goes (convert s) n
unfolding convert groups
convert-Goes [] n few st f =
    let longer = length-append st.posix_re (0 ∷ []) in
    rw (le→leb (length st.posix_re + 1) 256 (omega (arith, f.room))) (λ e. cc)
convert-Goes (c ∷ []) n few st f = elim (Bool-cases (no_room st)) [
  | inl full ↦ rw full (λ e. cc)
  | inr room ↦ rw room (
      plain-Goes st n c (convert []) f (ltb→le 241 (length st.posix_re) room) few
        (convert-Goes [] (n + one_if_paren c) (omega arith)))
]
convert-Goes (c ∷ d ∷ s) n few st f = elim (Bool-cases (no_room st)) [
  | inl full ↦ rw full (λ e. cc)
  | inr room ↦
      let short = ltb→le 241 (length st.posix_re) room in
      elim (Bool-cases (c == b'\\')) [
        | inl backslash ↦
            let rest = convert-Goes s n (rw backslash at few) in
            elim (Bool-cases (is_digit d)) [
              | inl digit ↦
                  rw (room, backslash, digit) (backreference-Goes st n d (convert s) f short rest)
              | inr other ↦
                  rw (room, backslash, other)
                    (write-Goes st n (c ∷ d ∷ []) (convert s) f short (omega arith) rest)
            ]
        | inr other ↦
            let all : n + (one_if_paren c + groups (d ∷ s)) ≤ 9 = rw other at few in
            rw (room, other)
              (plain-Goes st n c (convert (d ∷ s)) f short (omega (arith, all))
                (convert-Goes (d ∷ s) (n + one_if_paren c) (omega (arith, all))))
      ]
]

tenth_group :
    (rest : List ℕ) (st : Conversion)
    → no_room st ≡ false
    → ltb (st.c_parens + 1) (length st.c2p_parens) ≡ false
    → convert (b'(' ∷ rest) st ≡ fault
unfolding convert
tenth_group [] st room last = rw (room, last)
tenth_group (c ∷ rest) st room last = rw (room, last)

-- Ten opening parentheses make a write outside `c2p_parens`, whatever follows them.
pub convert-tenth : (rest : List ℕ) → convert (replicate 10 b'(' ++ rest) start ≡ fault
unfolding convert
convert-tenth rest = tenth_group rest _ refl refl

-- An expression with at most nine groups is converted, or turned down, without a write outside the
-- two arrays.
pub convert-safe : (s : List ℕ) → groups s ≤ 9 → convert s start ≢ fault
convert-safe s few =
    convert-Goes s 0 (omega arith) start
      (record { room = omega arith; places = refl; counted = refl })
