-- ===== src/IpCounter/Overlap.antt =====
-- What bgpstream_ip_counter_is_overlapping of lib/utils/bgpstream_utils_ip_counter.c returns for an
-- IPv4 prefix.
use libbgpstream.Prelude.{
  ℕ, suc, ◌+◌, ◌-◌, ◌%◌, ◌^◌, ◌≤◌, ◌<◌, ◌≡◌, inl, inr, ap, ap₂, ◌∙◌, Bool, true, false, ◌&&◌, ◌||◌,
  List, [], ◌∷◌, ltb, leb, ◌==◌, if◌then◌else◌, arith, Bool-cases, ltb→lt, ltb→le,
}
use libbgpstream.IpCounter.{V4pfxInt}
use libbgpstream.IpCounter.Query.{overlap_loop4, size32}
use libbgpstream.IpCounter.Union.{within, covers, IsQueue}
use libbgpstream.IpCounter.Counting.{
  count_below, count_below-ext, count_below-within, count_below-apart, count_below-none,
  covers-from, IsPart,
}

-- Whether one interval holds all of another.
unfoldable pub holds : List V4pfxInt → V4pfxInt → Bool
holds [] p = false
holds (c ∷ next) p = (leb c.start p.start && leb p.end c.end) || holds next p

abbrev pub common_addresses : V4pfxInt → List V4pfxInt → ℕ → Bool
common_addresses p l x = within p.start p.end x && covers l x

holds-from :
    (low : ℕ) (l : List V4pfxInt) (p : V4pfxInt) → IsQueue low l → holds l p ≡ true → low ≤ p.start
unfolding holds
holds-from low [] p q h = cc
holds-from low (c ∷ next) p q h = ground (arith, q.0, q.1, holds-from (suc c.end) next p q.2)

module _ (p : V4pfxInt) (ends : p.start ≤ p.end) (part : IsPart p) where
  abbrev pub both : List V4pfxInt → ℕ
  both l = count_below (2 ^ 32) (common_addresses p l)

  abbrev pub Result : List V4pfxInt → ℕ → Bool → Type 0
  Result l count more = overlap_loop4 p l count more ≡ (count + both l, more || holds l p)

  both-none : (low : ℕ) (l : List V4pfxInt) → IsQueue low l → p.end < low → both l ≡ 0
  both-none low l q h =
      count_below-none (2 ^ 32) (common_addresses p l) (λ x. ground (arith, covers-from low l x q))

  -- The loop stops at an interval past the prefix.
  stops :
      (c : V4pfxInt) (next : List V4pfxInt) (low count : ℕ) (more : Bool)
      → IsQueue low (c ∷ next)
      → p.end < c.start
      → ◌≡◌ {A = ℕ × Bool} (count, more) (count + both (c ∷ next), more || holds (c ∷ next) p)
  stops c next low count more q past =
      ap₂ (λ a b. (a, b)) (omega (arith, both-none c.start (c ∷ next) q' past)) no_more
    where
      q' : IsQueue c.start (c ∷ next)
      q' = (omega arith, q.1, q.2)

      no_more : more ≡ (more || holds (c ∷ next) p)
      no_more = ground (arith, holds-from c.start (c ∷ next) p q')

  skips-both : (c : V4pfxInt) (next : List V4pfxInt) → c.end < p.start → both next ≡ both (c ∷ next)
  unfolding covers
  skips-both c next before =
      count_below-ext (2 ^ 32) (common_addresses p next) (common_addresses p (c ∷ next))
        (λ x. ground arith)

  -- It passes over one before the prefix.
  skips :
      (c : V4pfxInt) (next : List V4pfxInt) (count : ℕ) (more : Bool)
      → c.end < p.start
      → Result next count more
      → overlap_loop4 p next count more ≡ (count + both (c ∷ next), more || holds (c ∷ next) p)
  unfolding holds
  skips c next count more before rest =
      rest ∙ ap₂ (λ a b. (count + a, more || b)) same (ground arith)
    where
      same : both next ≡ both (c ∷ next)
      same = skips-both c next before

  abbrev int_start : V4pfxInt → ℕ
  int_start c = if ltb c.start p.start then p.start else c.start

  abbrev int_end : V4pfxInt → ℕ
  int_end c = if ltb p.end c.end then p.end else c.end

  module _ (c : V4pfxInt) (next : List V4pfxInt) (low : ℕ) (q : IsQueue low (c ∷ next))
      (not_past : c.start ≤ p.end) (not_before : p.start ≤ c.end) where
    int_ends : int_start c ≤ int_end c
    int_ends = ground (arith, q.1)

    size_lem : size32 (int_end c) (int_start c) ≡ suc (int_end c - int_start c)
    size_lem = ground (arith, q.1, part.0, part.1)

    size_whole : size32 p.end p.start ≡ suc (p.end - p.start)
    size_whole = omega (arith, part.0, part.1, ends)

    both-joined : both (c ∷ next) ≡ suc (int_end c - int_start c) + both next
    unfolding covers
    both-joined =
        count_below-ext (2 ^ 32) (common_addresses p (c ∷ next))
          (λ x. within (int_start c) (int_end c) x || common_addresses p next x) (λ x. ground arith)
        ∙ count_below-apart (2 ^ 32) (within (int_start c) (int_end c)) (common_addresses p next)
            (λ x. ground (arith, covers-from (suc c.end) next x q.2))
        ∙ omega (
          arith,
          int_ends,
          int_end_fits,
          count_below-within (2 ^ 32) (int_start c) (int_end c) int_ends,
        )
      where
        int_end_fits : int_end c < 2 ^ 32
        int_end_fits = ground (arith, part.0)

    whole_iff :
        (size32 (int_end c) (int_start c) == size32 p.end p.start)
        ≡ (leb c.start p.start && leb p.end c.end)
    whole_iff = rw (size_lem, size_whole) (ground (arith, q.1, ends))

  joined :
      (c : V4pfxInt) (next : List V4pfxInt) (low count : ℕ) (more : Bool)
      → IsQueue low (c ∷ next)
      → both (c ∷ next) ≡ suc (int_end c - int_start c) + both next
      → ◌≡◌ {A = ℕ × Bool}
          (
            count + suc (int_end c - int_start c) + both next,
            (more || (leb c.start p.start && leb p.end c.end)) || holds next p,
          )
          (count + both (c ∷ next), more || holds (c ∷ next) p)
  unfolding holds
  joined c next low count more q shared = ap₂ (λ a b. (a, b)) (omega (arith, shared)) (ground arith)

  -- The count grows by the number of addresses that the prefix shares with the queue, and the flag
  -- says whether one interval holds the prefix.
  pub overlap_loop4_lem :
      (l : List V4pfxInt) (low count : ℕ) (more : Bool)
      → IsQueue low l
      → count + both l < 2 ^ 32
      → Result l count more
  unfolding overlap_loop4
  overlap_loop4_lem [] low count more q h = none_left
    where
      none_left : Result [] count more
      none_left =
          unfold holds in
          ap₂ (λ a b. (a, b)) (omega (arith, both-none (suc p.end) [] tt (omega arith)))
            (ground arith)
  overlap_loop4_lem (c ∷ next) low count more q h = elim (Bool-cases (ltb p.end c.start)) [
    | inl past ↦ rw past (stops c next low count more q (ltb→lt _ _ past))
    | inr not_past ↦ elim (Bool-cases (ltb c.end p.start)) [
      | inl before ↦
          rw (not_past, before)
            (skips c next count more (ltb→lt _ _ before) (
              overlap_loop4_lem next (suc c.end) count more q.2
                (omega (arith, skips-both c next (ltb→lt _ _ before)))))
      | inr not_before ↦
          let shared : both (c ∷ next) ≡ suc (int_end c - int_start c) + both next =
            both-joined c next low q (ltb→le _ _ not_past) (ltb→le _ _ not_before) in
          let size : size32 (int_end c) (int_start c) ≡ suc (int_end c - int_start c) =
            size_lem c next low q (ltb→le _ _ not_past) (ltb→le _ _ not_before) in
          let added : (count + size32 (int_end c) (int_start c)) % 2 ^ 32
              ≡ count + suc (int_end c - int_start c) =
            omega (arith, shared, size, h) in
          rw (not_past, not_before)
            (ap₂ (overlap_loop4 p next) added (
                ap (λ b. more || b)
                  (whole_iff c next low q (ltb→le _ _ not_past) (ltb→le _ _ not_before)))
              ∙ overlap_loop4_lem next (suc c.end) (count + suc (int_end c - int_start c))
                  (more || (leb c.start p.start && leb p.end c.end)) q.2 (omega (arith, shared, h))
              ∙ joined c next low count more q shared)
    ]
  ]
