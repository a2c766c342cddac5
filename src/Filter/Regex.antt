-- ===== src/Filter/Regex.antt =====
-- A Cisco expression made a POSIX one: the loop of BGPSTREAM_FILTER_TYPE_ELEM_ASPATH in
-- bgpstream_filter_mgr_filter_add of lib/bgpstream_filter.c.
pub mod Safe
use libbgpstream.Prelude.{
  ℕ, zero, suc, ◌+◌, ◌-◌, Bool, true, false, ◌&&◌, ◌||◌, Option, none, some, List, [], ◌∷◌, ◌++◌,
  ltb, leb, ◌==◌, if◌then◌else◌, length, get_or,
}
use libbgpstream.Libc.{is_digit, codes}

-- What is written of `posix_re`, and the numbers of parentheses. `c2p_parens` has ten places.
pub record Conversion : Type 0 where
  pub posix_re : List ℕ
  pub c_parens : ℕ
  pub p_parens : ℕ
  pub c2p_parens : List ℕ

-- `fault` is a write outside one of the two arrays.
pub data Converted : Type 0 where
  converted : List ℕ → Converted
  too_long bad_backreference fault : Converted

abbrev pub start : Conversion
start = record {
  posix_re = [];
  c_parens = 0;
  p_parens = 0;
  c2p_parens = 0 ∷ 0 ∷ 0 ∷ 0 ∷ 0 ∷ 0 ∷ 0 ∷ 0 ∷ 0 ∷ 0 ∷ [];
}

abbrev pub sizeof_posix_re : ℕ
sizeof_posix_re = 256

-- `t` at the end of `posix_re`, if it stays in the array, then the rest of the loop.
abbrev pub write : Conversion → List ℕ → (Conversion → Converted) → Converted
write st t k =
    if leb (length st.posix_re + length t) sizeof_posix_re
    then k (record st { posix_re = st.posix_re ++ t })
    else fault

abbrev pub set : ℕ → ℕ → List ℕ → List ℕ
set i v [] = []
set zero v (x ∷ xs) = v ∷ xs
set (suc i) v (x ∷ xs) = x ∷ set i v xs

-- "(^|$|[ {},_])", which strcpy writes with a NUL after it.
abbrev pub underscore_re : List ℕ
underscore_re = codes "(^|$|[ {},_])"

abbrev pub copy_underscore : Conversion → (Conversion → Converted) → Converted
copy_underscore st k =
    if leb (length st.posix_re + (length underscore_re + 1)) sizeof_posix_re
    then k (record st { posix_re = st.posix_re ++ underscore_re; p_parens = st.p_parens + 1 })
    else fault

-- `c2p_parens[++c_parens] = ++p_parens`
abbrev pub open_paren : Conversion → (Conversion → Converted) → Converted
open_paren st k =
    if ltb (st.c_parens + 1) (length st.c2p_parens)
    then write
        (record st {
          c_parens = st.c_parens + 1;
          p_parens = st.p_parens + 1;
          c2p_parens = set (st.c_parens + 1) (st.p_parens + 1) st.c2p_parens;
        })
        (b'(' ∷ []) k
    else fault

-- A backslash and a digit: the number of the group may have moved.
abbrev pub backreference : Conversion → ℕ → (Conversion → Converted) → Converted
backreference st d k =
    let n = d - b'0' in
    let to = get_or st.c2p_parens n 0 in
    if ltb st.c_parens n || ltb 9 to
    then bad_backreference
    else write st (b'\\' ∷ (b'0' + to) ∷ []) k

abbrev pub is_brace : ℕ → Bool
is_brace c = c == b'{' || c == b'}'

-- The character that is not a backslash with one after it.
abbrev pub plain : Conversion → ℕ → (Conversion → Converted) → Converted
plain st c k =
    if c == b'_'
    then copy_underscore st k
    else if is_brace c
    then write st (b'\\' ∷ c ∷ []) k
    else if c == b'('
    then open_paren st k
    else write st (c ∷ []) k

abbrev pub no_room : Conversion → Bool
no_room st = ltb (sizeof_posix_re - 15) (length st.posix_re)

unfoldable pub convert : List ℕ → Conversion → Converted
convert [] st = write st (0 ∷ []) (λ done. converted st.posix_re)
convert (c ∷ []) st = if no_room st then too_long else plain st c (convert [])
convert (c ∷ d ∷ s) st =
    let after_one = convert (d ∷ s) in
    let after_two = convert s in
    if no_room st
    then too_long
    else if c == b'\\' && is_digit d
    then backreference st d after_two
    else if c == b'\\'
    then write st (c ∷ d ∷ []) after_two
    else plain st c after_one
