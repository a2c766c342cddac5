-- ===== src/IpCounter/Wide.antt =====
-- The IPv6 queue of lib/utils/bgpstream_utils_ip_counter.c, with its two 64-bit halves, works as
-- the IPv4 one does on whole numbers.
use libbgpstream.Prelude.{
  ℕ, ◌+◌, ◌*◌, ◌^◌, ◌≤◌, ◌<◌, ◌≡◌, refl, ap, ◌∙◌, Bool, true, false, ◌||◌, List, [], ◌∷◌, map, ltb,
  leb, if◌then◌else◌, arith, All,
}
use libbgpstream.IpCounter.{
  V4pfxInt, V6pfxInt, is_below, not_above, one_step_merge4, one_step_merge6, stretch6,
  merge_in_sorted_queue4, merge_in_sorted_queue6,
}
use libbgpstream.IpCounter.Union.{within, covers, IsQueue, stretched, merge4-IsQueue, merge4-covers}

-- A 128-bit address.
abbrev pub value : ℕ → ℕ → ℕ
value ms ls = ms * 2 ^ 64 + ls

abbrev pub whole : V6pfxInt → V4pfxInt
whole c = record { start = value c.start_ms c.start_ls; end = value c.end_ms c.end_ls }

abbrev pub IsHalves : V6pfxInt → Type 0
IsHalves c = (c.start_ls < 2 ^ 64) × (c.end_ls < 2 ^ 64)

is_below-value :
    (a b c d : ℕ) → b < 2 ^ 64 → d < 2 ^ 64 → is_below a b c d ≡ ltb (value a b) (value c d)
is_below-value a b c d hb hd = ground arith

not_above-value :
    (a b c d : ℕ) → b < 2 ^ 64 → d < 2 ^ 64 → not_above a b c d ≡ leb (value a b) (value c d)
not_above-value a b c d hb hd = ground arith

choose :
    (b c : Bool) (x y z : List V6pfxInt) {x' y' z' : List V4pfxInt}
    → map whole x ≡ x'
    → map whole y ≡ y'
    → map whole z ≡ z'
    → map whole (if b then if c then x else y else z) ≡ (if b then if c then x' else y' else z')
choose true true x y z p q r = p
choose true false x y z p q r = q
choose false c x y z p q r = r

choose' :
    (b c : Bool) (x y z : List V6pfxInt) {x' y' z' : List V4pfxInt}
    → map whole x ≡ x'
    → map whole y ≡ y'
    → map whole z ≡ z'
    → map whole (if b then x else if c then y else z) ≡ (if b then x' else if c then y' else z')
choose' true c x y z p q r = p
choose' false true x y z p q r = q
choose' false false x y z p q r = r

one_step_merge6-whole :
    (p : V6pfxInt) (l : List V6pfxInt)
    → IsHalves p
    → All IsHalves l
    → map whole (one_step_merge6 p l) ≡ one_step_merge4 (whole p) (map whole l)
unfolding one_step_merge6 one_step_merge4
one_step_merge6-whole p [] hp hl = refl
one_step_merge6-whole p (c ∷ next) hp hl =
    rw
      (
        ← not_above-value c.start_ms c.start_ls p.end_ms p.end_ls hl.0.0 hp.1,
        ← is_below-value p.end_ms p.end_ls c.end_ms c.end_ls hp.1 hl.0.1,
      )
      (choose (not_above c.start_ms c.start_ls p.end_ms p.end_ls)
        (is_below p.end_ms p.end_ls c.end_ms c.end_ls) _ _ _
        (one_step_merge6-whole (record p { end_ms = c.end_ms; end_ls = c.end_ls }) next
          (hp.0, hl.0.1) hl.1)
        (one_step_merge6-whole p next hp hl.1) refl)

stretch6-whole :
    (c : V6pfxInt) (a b d e : ℕ)
    → IsHalves c
    → b < 2 ^ 64
    → e < 2 ^ 64
    → whole (stretch6 c a b d e) ≡ stretched (whole c) (value a b) (value d e)
unfolding stretch6
stretch6-whole c a b d e hc hb he =
    rw
      (
        ← is_below-value a b c.start_ms c.start_ls hb hc.0,
        ← is_below-value c.end_ms c.end_ls d e hc.1 he,
      )
      (cases (is_below a b c.start_ms c.start_ls) (is_below c.end_ms c.end_ls d e))
  where
    cases :
        (x y : Bool)
        → whole (
            let from = if x then record c { start_ms = a; start_ls = b } else c in
            if y then record from { end_ms = d; end_ls = e } else from)
          ≡ record {
            start = if x then value a b else value c.start_ms c.start_ls;
            end = if y then value d e else value c.end_ms c.end_ls;
          }
    cases true true = refl
    cases true false = refl
    cases false true = refl
    cases false false = refl

stretch6-IsHalves :
    (c : V6pfxInt) (a b d e : ℕ)
    → IsHalves c
    → b < 2 ^ 64
    → e < 2 ^ 64
    → IsHalves (stretch6 c a b d e)
unfolding stretch6
stretch6-IsHalves c a b d e hc hb he = (ground (arith, hc.0, hc.1), ground (arith, hc.0, hc.1))

-- The merge of 64-bit halves is the merge of the numbers that they make.
pub merge6-whole :
    (l : List V6pfxInt) (a b c d : ℕ)
    → All IsHalves l
    → b < 2 ^ 64
    → d < 2 ^ 64
    → map whole (merge_in_sorted_queue6 l a b c d)
      ≡ merge_in_sorted_queue4 (map whole l) (value a b) (value c d)
unfolding merge_in_sorted_queue6 merge_in_sorted_queue4
merge6-whole [] a b c d hl hb hd = refl
merge6-whole (x ∷ next) a b c d hl hb hd =
    rw
      (
        ← is_below-value x.end_ms x.end_ls a b hl.0.1 hb,
        ← is_below-value c d x.start_ms x.start_ls hd hl.0.0,
      )
      (choose' (is_below x.end_ms x.end_ls a b) (is_below c d x.start_ms x.start_ls) _ _ _
        (ap (λ t. whole x ∷ t) (merge6-whole next a b c d hl.1 hb hd)) refl
        (one_step_merge6-whole (stretch6 x a b c d) next (stretch6-IsHalves x a b c d hl.0 hb hd)
            hl.1
          ∙ ap (λ p. one_step_merge4 p (map whole next)) (stretch6-whole x a b c d hl.0 hb hd)))

-- An IPv6 queue in order, with halves below 2 ^ 64, stays in order when an interval that is
-- not empty is merged in, and then covers the 128-bit addresses that it covered and those of
-- the interval.
pub merge6-covers :
    (l : List V6pfxInt) (a b c d low : ℕ)
    → All IsHalves l
    → b < 2 ^ 64
    → d < 2 ^ 64
    → value a b ≤ value c d
    → low ≤ value a b
    → IsQueue low (map whole l)
    → IsQueue low (map whole (merge_in_sorted_queue6 l a b c d))
      × ((x : ℕ)
          → covers (map whole (merge_in_sorted_queue6 l a b c d)) x
            ≡ (covers (map whole l) x || within (value a b) (value c d) x))
merge6-covers l a b c d low hl hb hd ends from q = rw (merge6-whole l a b c d hl hb hd) (
  merge4-IsQueue (map whole l) (value a b) (value c d) low ends from q,
  λ x. merge4-covers (map whole l) (value a b) (value c d) low x ends q,
)
