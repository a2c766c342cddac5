-- ===== src/IpCounter/Union.antt =====
-- Adding an interval to the queue of lib/utils/bgpstream_utils_ip_counter.c is the union of sets.
use libbgpstream.Prelude.{
  ℕ, ◌≤◌, ◌≡◌, inl, inr, refl, Bool, false, ◌&&◌, ◌||◌, List, [], ◌∷◌, ltb, leb, if◌then◌else◌,
  arith, Bool-cases, suc, leb→lt, ltb→lt,
}
use libbgpstream.IpCounter.{V4pfxInt, one_step_merge4, merge_in_sorted_queue4}

-- The addresses of an interval, and those of a queue.
abbrev pub within : ℕ → ℕ → ℕ → Bool
within start end x = leb start x && leb x end

unfoldable pub covers : List V4pfxInt → ℕ → Bool
covers [] x = false
covers (c ∷ next) x = within c.start c.end x || covers next x

-- No interval is empty, and each ends before the next one starts. All are from `low` on.
abbrev pub IsQueue : ℕ → List V4pfxInt → Type 0
IsQueue low [] = Unit {0}
IsQueue low (c ∷ next) = (low ≤ c.start) × (c.start ≤ c.end) × IsQueue (suc c.end) next

pub IsQueue-weaken :
    (low high : ℕ) (l : List V4pfxInt) → low ≤ high → IsQueue high l → IsQueue low l
IsQueue-weaken low high [] le q = tt
IsQueue-weaken low high (c ∷ next) le q = (omega (arith, q.0), q.1, q.2)

one_step_merge4-IsQueue :
    (p : V4pfxInt) (l : List V4pfxInt) (low : ℕ)
    → p.start ≤ p.end
    → low ≤ p.start
    → IsQueue (suc p.start) l
    → IsQueue low (one_step_merge4 p l)
unfolding one_step_merge4
one_step_merge4-IsQueue p [] low ends from q = (from, ends, tt)
one_step_merge4-IsQueue p (c ∷ next) low ends from q = elim (Bool-cases (leb c.start p.end)) [
  | inr apart ↦ rw apart (from, ends, (leb→lt _ _ apart, q.1, q.2))
  | inl meet ↦ elim (Bool-cases (ltb p.end c.end)) [
    | inl longer ↦
        rw (meet, longer)
          (one_step_merge4-IsQueue (record p { end = c.end }) next low (omega (arith, q.0, q.1))
            from (IsQueue-weaken _ _ next (omega (arith, q.0, q.1)) q.2))
    | inr shorter ↦
        rw (meet, shorter)
          (one_step_merge4-IsQueue p next low ends from
            (IsQueue-weaken _ _ next (omega (arith, q.0, q.1)) q.2))
  ]
]

one_step_merge4-covers :
    (p : V4pfxInt) (l : List V4pfxInt) (x : ℕ)
    → p.start ≤ p.end
    → IsQueue (suc p.start) l
    → covers (one_step_merge4 p l) x ≡ (within p.start p.end x || covers l x)
unfolding one_step_merge4 covers
one_step_merge4-covers p [] x ends q = refl
one_step_merge4-covers p (c ∷ next) x ends q = ground (
  arith,
  q.0,
  q.1,
  one_step_merge4-covers p next x ends (IsQueue-weaken _ _ next (omega (arith, q.0, q.1)) q.2),
  one_step_merge4-covers (record p { end = c.end }) next x (omega (arith, q.0, q.1))
      (IsQueue-weaken _ _ next (omega (arith, q.0, q.1)) q.2),
)

abbrev pub stretched : V4pfxInt → ℕ → ℕ → V4pfxInt
stretched c start end = record {
  start = if ltb start c.start then start else c.start;
  end = if ltb c.end end then end else c.end;
}

-- The queue stays a queue.
pub merge4-IsQueue :
    (l : List V4pfxInt) (start end low : ℕ)
    → start ≤ end
    → low ≤ start
    → IsQueue low l
    → IsQueue low (merge_in_sorted_queue4 l start end)
unfolding merge_in_sorted_queue4
merge4-IsQueue [] start end low ends from q = (from, ends, tt)
merge4-IsQueue (c ∷ next) start end low ends from q = elim (Bool-cases (ltb c.end start)) [
  | inl after ↦
      rw after (q.0, q.1, merge4-IsQueue next start end (suc c.end) ends (ltb→lt _ _ after) q.2)
  | inr not_after ↦ elim (Bool-cases (ltb end c.start)) [
    | inl before ↦ rw (not_after, before) (from, ends, (ltb→lt _ _ before, q.1, q.2))
    | inr meet ↦
        rw (not_after, meet)
          (one_step_merge4-IsQueue (stretched c start end) next low (ground (arith, q.1))
            (ground (arith, q.0)) (IsQueue-weaken _ _ next (ground (arith, q.1)) q.2))
  ]
]

-- The queue covers what it covered and the new interval.
pub merge4-covers :
    (l : List V4pfxInt) (start end low x : ℕ)
    → start ≤ end
    → IsQueue low l
    → covers (merge_in_sorted_queue4 l start end) x ≡ (covers l x || within start end x)
unfolding merge_in_sorted_queue4 covers
merge4-covers [] start end low x ends q = ground arith
merge4-covers (c ∷ next) start end low x ends q = ground (
  arith,
  q.1,
  merge4-covers next start end (suc c.end) x ends q.2,
  one_step_merge4-covers (stretched c start end) next x (ground (arith, q.1))
      (IsQueue-weaken _ _ next (ground (arith, q.1)) q.2),
)
