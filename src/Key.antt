-- ===== src/Key.antt =====
-- The bits that a prefix fixes, as a list: what the Patricia tree compares prefixes by.
use libbgpstream.Prelude.{
  ℕ, zero, suc, ◌≤◌, ◌<◌, ◌≡◌, refl, ap, ap₂, Bool, true, false, not, ◌&&◌, List, [], ◌∷◌, ◌++◌,
  length, get_or, take, arith, ◌⊎◌, inl, inr,
}

abbrev pub Key : Type 0
Key = List Bool

abbrev pub bit_at : Key → ℕ → Bool
bit_at k n = get_or k n false

abbrev pub PrefixOf : Key → Key → Type 0
PrefixOf [] k = Unit {0}
PrefixOf (b ∷ p) [] = ⊥
PrefixOf (b ∷ p) (c ∷ k) = (b ≡ c) × PrefixOf p k

abbrev pub bool_eq : Bool → Bool → Bool
bool_eq true b = b
bool_eq false b = not b

-- Length of the longest common prefix.
unfoldable pub common : Key → Key → ℕ
common [] k = 0
common (b ∷ a) [] = 0
common (b ∷ a) (c ∷ k) = elim (bool_eq b c) [ true ↦ suc (common a k) | false ↦ 0 ]

-- `p` and then the bit `b`.
abbrev pub branch : Key → Bool → Key
branch p b = p ++ (b ∷ [])

pub PrefixOf-refl : (k : Key) → PrefixOf k k
PrefixOf-refl [] = tt
PrefixOf-refl (b ∷ k) = (refl, PrefixOf-refl k)

pub PrefixOf-trans : (a b c : Key) → PrefixOf a b → PrefixOf b c → PrefixOf a c
PrefixOf-trans [] b c p q = tt
PrefixOf-trans (x ∷ a) [] c p q = absurd p
PrefixOf-trans (x ∷ a) (y ∷ b) [] p q = absurd q
PrefixOf-trans (x ∷ a) (y ∷ b) (z ∷ c) p q = (cc, PrefixOf-trans a b c p.1 q.1)

pub PrefixOf-le : (a b : Key) → PrefixOf a b → length a ≤ length b
PrefixOf-le [] b p = omega arith
PrefixOf-le (x ∷ a) [] p = absurd p
PrefixOf-le (x ∷ a) (y ∷ b) p = omega (arith, PrefixOf-le a b p.1)

pub PrefixOf-full : (a b : Key) → PrefixOf a b → length a ≡ length b → a ≡ b
PrefixOf-full [] [] p e = refl
PrefixOf-full [] (y ∷ b) p e = absurd (omega arith)
PrefixOf-full (x ∷ a) [] p e = absurd p
PrefixOf-full (x ∷ a) (y ∷ b) p e = ap₂ ◌∷◌ p.0 (PrefixOf-full a b p.1 (omega arith))

pub PrefixOf-branch : (p : Key) (b : Bool) → PrefixOf p (branch p b)
PrefixOf-branch [] b = tt
PrefixOf-branch (x ∷ p) b = (refl, PrefixOf-branch p b)

pub length-branch : (p : Key) (b : Bool) → length (branch p b) ≡ suc (length p)
length-branch [] b = refl
length-branch (x ∷ p) b = ap suc (length-branch p b)

-- What a key below a branch begins with.
pub branch-bit : (p k : Key) (b : Bool) → PrefixOf (branch p b) k → bit_at k (length p) ≡ b
branch-bit [] [] b h = absurd h
branch-bit [] (c ∷ k) b h = cc
branch-bit (x ∷ p) [] b h = absurd h
branch-bit (x ∷ p) (c ∷ k) b h = branch-bit p k b h.1

pub branch-parent : (p k : Key) (b : Bool) → PrefixOf (branch p b) k → PrefixOf p k
branch-parent p k b h = PrefixOf-trans p (branch p b) k (PrefixOf-branch p b) h

pub branch-lt : (p k : Key) (b : Bool) → PrefixOf (branch p b) k → length p < length k
branch-lt p k b h = omega (arith, PrefixOf-le (branch p b) k h, length-branch p b)

-- A longer key goes on with its next bit.
pub PrefixOf-next :
    (p k : Key) → PrefixOf p k → length p < length k → PrefixOf (branch p (bit_at k (length p))) k
PrefixOf-next [] [] h lt = absurd (omega arith)
PrefixOf-next [] (c ∷ k) h lt = (refl, tt)
PrefixOf-next (x ∷ p) [] h lt = absurd h
PrefixOf-next (x ∷ p) (c ∷ k) h lt = (h.0, PrefixOf-next p k h.1 (omega arith))

pub PrefixOf-take : (n : ℕ) (k : Key) → PrefixOf (take n k) k
PrefixOf-take zero k = tt
PrefixOf-take (suc n) [] = tt
PrefixOf-take (suc n) (b ∷ k) = (refl, PrefixOf-take n k)

pub length-take_le : (n : ℕ) (k : Key) → n ≤ length k → length (take n k) ≡ n
length-take_le zero k h = refl
length-take_le (suc n) [] h = absurd (omega arith)
length-take_le (suc n) (b ∷ k) h = ap suc (length-take_le n k (omega arith))

pub common-le_left : (a b : Key) → common a b ≤ length a
unfolding common
common-le_left [] b = omega arith
common-le_left (x ∷ a) [] = omega arith
common-le_left (x ∷ a) (y ∷ b) = ground (arith, common-le_left a b)

pub common-le_right : (a b : Key) → common a b ≤ length b
unfolding common
common-le_right [] b = omega arith
common-le_right (x ∷ a) [] = omega arith
common-le_right (x ∷ a) (y ∷ b) = ground (arith, common-le_right a b)

-- Both keys begin with their common bits.
pub common-take : (a b : Key) → PrefixOf (take (common a b) a) b
unfolding common
common-take [] b = tt
common-take (x ∷ a) [] = tt
common-take (true ∷ a) (true ∷ b) = (refl, common-take a b)
common-take (true ∷ a) (false ∷ b) = tt
common-take (false ∷ a) (true ∷ b) = tt
common-take (false ∷ a) (false ∷ b) = (refl, common-take a b)

-- And the next bits of both differ.
pub common_differ :
    (a b : Key)
    → common a b < length a
    → common a b < length b
    → bit_at a (common a b) ≡ not (bit_at b (common a b))
unfolding common
common_differ [] b p q = absurd (omega arith)
common_differ (x ∷ a) [] p q = absurd (omega arith)
common_differ (true ∷ a) (true ∷ b) p q = common_differ a b (omega arith) (omega arith)
common_differ (true ∷ a) (false ∷ b) p q = refl
common_differ (false ∷ a) (true ∷ b) p q = refl
common_differ (false ∷ a) (false ∷ b) p q = common_differ a b (omega arith) (omega arith)

pub common_all : (a b : Key) → PrefixOf b a → common a b ≡ length b
unfolding common
common_all [] [] h = refl
common_all [] (y ∷ b) h = absurd h
common_all (x ∷ a) [] h = refl
common_all (x ∷ a) (y ∷ b) h = ground (arith, common_all a b)

pub PrefixOf-of_common : (a b : Key) → common a b ≡ length b → PrefixOf b a
unfolding common
PrefixOf-of_common [] [] e = tt
PrefixOf-of_common [] (y ∷ b) e = absurd (omega arith)
PrefixOf-of_common (x ∷ a) [] e = tt
PrefixOf-of_common (true ∷ a) (true ∷ b) e = (refl, PrefixOf-of_common a b (omega arith))
PrefixOf-of_common (true ∷ a) (false ∷ b) e = absurd (omega arith)
PrefixOf-of_common (false ∷ a) (true ∷ b) e = absurd (omega arith)
PrefixOf-of_common (false ∷ a) (false ∷ b) e = (refl, PrefixOf-of_common a b (omega arith))

-- A shared prefix is common.
pub le-common : (p a b : Key) → PrefixOf p a → PrefixOf p b → length p ≤ common a b
unfolding common
le-common [] a b h k = omega arith
le-common (x ∷ p) [] b h k = absurd h
le-common (x ∷ p) (y ∷ a) [] h k = absurd k
le-common (x ∷ p) (y ∷ a) (z ∷ b) h k = ground (arith, le-common p a b h.1 k.1)

-- Where a key leaves `b` before its end, it leaves every longer key there too.
pub common_below : (k a b : Key) → PrefixOf a b → common k a < length a → common k b ≡ common k a
unfolding common
common_below k [] b h lt = absurd (omega arith)
common_below k (x ∷ a) [] h lt = absurd h
common_below [] (x ∷ a) (y ∷ b) h lt = refl
common_below (z ∷ k) (x ∷ a) (y ∷ b) h lt = ground (arith, common_below k a b h.1)

-- The common length is the one place where the keys agree before and one ends or both differ.
pub common_unique :
    (a b : Key) (d : ℕ)
    → d ≤ length a
    → d ≤ length b
    → ((j : ℕ) → j < d → bit_at a j ≡ bit_at b j)
    → (d ≡ length a) ⊎ ((d ≡ length b) ⊎ (bit_at a d ≡ not (bit_at b d)))
    → common a b ≡ d
unfolding common
common_unique [] b d p q same stop = omega arith
common_unique (x ∷ a) [] d p q same stop = omega arith
common_unique (x ∷ a) (y ∷ b) zero p q same (inl e) = absurd (omega arith)
common_unique (x ∷ a) (y ∷ b) zero p q same (inr (inl e)) = absurd (omega arith)
common_unique (x ∷ a) (y ∷ b) zero p q same (inr (inr e)) = ground arith
common_unique (x ∷ a) (y ∷ b) (suc d) p q same stop = ground (
  arith,
  same 0 (omega arith),
  common_unique a b d (omega arith) (omega arith) (λ j lt. same (suc j) (omega arith)) (shift stop),
)
  where
    shift :
        (suc d ≡ suc (length a)) ⊎ ((suc d ≡ suc (length b)) ⊎ (bit_at a d ≡ not (bit_at b d)))
        → (d ≡ length a) ⊎ ((d ≡ length b) ⊎ (bit_at a d ≡ not (bit_at b d)))
    shift (inl e) = inl (omega arith)
    shift (inr (inl e)) = inr (inl (omega arith))
    shift (inr (inr e)) = inr (inr e)

pub common_left : (a b : Key) → common a b ≡ length a → PrefixOf a b
unfolding common
common_left [] b e = tt
common_left (x ∷ a) [] e = absurd (omega arith)
common_left (true ∷ a) (true ∷ b) e = (refl, common_left a b (omega arith))
common_left (true ∷ a) (false ∷ b) e = absurd (omega arith)
common_left (false ∷ a) (true ∷ b) e = absurd (omega arith)
common_left (false ∷ a) (false ∷ b) e = (refl, common_left a b (omega arith))

pub PrefixOf-take_le : (p k : Key) (d : ℕ) → PrefixOf p k → length p ≤ d → PrefixOf p (take d k)
PrefixOf-take_le [] k d h le = tt
PrefixOf-take_le (x ∷ p) k zero h le = absurd (omega arith)
PrefixOf-take_le (x ∷ p) [] (suc d) h le = absurd h
PrefixOf-take_le (x ∷ p) (y ∷ k) (suc d) h le = (h.0, PrefixOf-take_le p k d h.1 (omega arith))

-- Two keys on different sides of a branch are not below one another.
pub not-PrefixOf-branch :
    (p k : Key) (b : Bool) → bit_at k (length p) ≡ not b → ¬ PrefixOf (branch p b) k
not-PrefixOf-branch p k true e h = cc (branch-bit p k true h)
not-PrefixOf-branch p k false e h = cc (branch-bit p k false h)

unfoldable pub key_eq : Key → Key → Bool
key_eq [] [] = true
key_eq [] (y ∷ b) = false
key_eq (x ∷ a) [] = false
key_eq (x ∷ a) (y ∷ b) = bool_eq x y && key_eq a b

pub key_eq_sound : (a b : Key) → key_eq a b ≡ true → a ≡ b
unfolding key_eq
key_eq_sound [] [] e = refl
key_eq_sound [] (y ∷ b) e = cc
key_eq_sound (x ∷ a) [] e = cc
key_eq_sound (true ∷ a) (true ∷ b) e = ap (λ k. true ∷ k) (key_eq_sound a b e)
key_eq_sound (true ∷ a) (false ∷ b) e = cc
key_eq_sound (false ∷ a) (true ∷ b) e = cc
key_eq_sound (false ∷ a) (false ∷ b) e = ap (λ k. false ∷ k) (key_eq_sound a b e)

pub key_eq_refl : (a : Key) → key_eq a a ≡ true
unfolding key_eq
key_eq_refl [] = refl
key_eq_refl (true ∷ a) = key_eq_refl a
key_eq_refl (false ∷ a) = key_eq_refl a
