-- ===== src/Filter/Parser/Ends.antt =====
-- bgpstream_parse_filter_string of lib/bgpstream_filter_parser.c comes to an end.
use libbgpstream.Prelude.{
  ℕ, zero, suc, ◌≤◌, ◌<◌, ◌≡◌, ◌≢◌, inl, inr, true, false, Option, none, some, List, [], ◌∷◌, arith,
  ◌==◌, length, Bool-cases,
}
use libbgpstream.Libc.{is_space, skip_space}
use libbgpstream.Filter.{FilterMgr}
use libbgpstream.Filter.Add.{FilterType, Added}
use libbgpstream.Filter.Parser.{
  State, term, prefixext, value, endvalue, Parser, start, cut_at, Taken, no_term, used_up, taken,
  take_term, after_quote, parse_value, prefix_word, parse_endvalue, is_supported, Step, failed,
  faulted, goes, Parsed, out_of_fuel, after_step, parse_filter_term, after_add, instantiate_filter,
  on_value, on_prefixext, retry, on_token, parse_round, parse_loop, parse_filter_string,
}

-- What is left after a step is at most `n` characters.
abbrev Leaves : ℕ → Step → Type 0
Leaves n (failed mgr) = Unit
Leaves n faulted = Unit
Leaves n (goes pr rest) = length rest ≤ n

length-cut_at : (c : ℕ) (s : List ℕ) → length (cut_at c s).1 ≤ length s
unfolding cut_at
length-cut_at c [] = omega arith
length-cut_at c (d ∷ s) = ground (arith, length-cut_at c s)

-- A token that starts with another character than a blank has that character.
length-cut_at_token :
    (c : ℕ) (s : List ℕ) → is_space c ≡ false → length (cut_at b' ' (c ∷ s)).1 ≤ length s
unfolding cut_at
length-cut_at_token c s e =
    let other : (c == b' ') ≡ false = ground (arith, e) in rw other (length-cut_at b' ' s)

-- The rest after a value.
abbrev LeavesValue : ℕ → Option (List ℕ × List ℕ) → Type 0
LeavesValue n none = Unit
LeavesValue n (some x) = length x.1 ≤ n

after_quote-LeavesValue :
    (n : ℕ) (x : List ℕ × List ℕ) → length x.1 ≤ n → LeavesValue n (after_quote x)
after_quote-LeavesValue n (inside, []) h = tt
after_quote-LeavesValue n (inside, quote ∷ []) h = omega arith
after_quote-LeavesValue n (inside, quote ∷ c ∷ rest) h = elim (Bool-cases (c == b' ')) [
  | inl blank ↦ rw blank (omega arith)
  | inr other ↦ rw other tt
]

parse_value-LeavesValue :
    (c : ℕ) (s : List ℕ) → is_space c ≡ false → LeavesValue (length s) (parse_value (c ∷ s))
unfolding parse_value
parse_value-LeavesValue c s e = elim (Bool-cases (c == b'"')) [
  | inl quote ↦ rw quote (after_quote-LeavesValue (length s) (cut_at b'"' s) (length-cut_at b'"' s))
  | inr other ↦ rw other (length-cut_at_token c s e)
]

module _ (add_filter : FilterMgr → FilterType → List ℕ → Option Added) where
  after_add-Leaves :
      (n : ℕ) (pr : Parser) (rest : List ℕ) (r : Option Added)
      → length rest ≤ n
      → Leaves n (after_add pr rest r)
  after_add-Leaves n pr rest none h = tt
  after_add-Leaves n pr rest (some (mgr, true)) h = h
  after_add-Leaves n pr rest (some (mgr, false)) h = tt

  instantiate_filter-Leaves :
      (n : ℕ) (pr : Parser) (val rest : List ℕ)
      → length rest ≤ n
      → Leaves n (instantiate_filter add_filter pr val rest)
  unfolding instantiate_filter
  instantiate_filter-Leaves n pr val rest h = elim (Bool-cases (is_supported pr.item_type)) [
    | inl known ↦ rw known (after_add-Leaves n pr rest (add_filter pr.mgr pr.item_type val) h)
    | inr other ↦ rw other tt
  ]

  module _ (c : ℕ) (s : List ℕ) (e : is_space c ≡ false) where
    on_value-Leaves : (pr : Parser) → Leaves (length s) (on_value add_filter pr (c ∷ s))
    unfolding on_value
    on_value-Leaves pr = by_value (parse_value (c ∷ s)) (parse_value-LeavesValue c s e)
      where
        by_value :
            (x : Option (List ℕ × List ℕ))
            → LeavesValue (length s) x
            → Leaves (length s) (elim x [
              | none ↦ failed pr.mgr
              | some (val, rest) ↦ instantiate_filter add_filter pr val rest
            ])
        by_value none h = tt
        by_value (some (val, rest)) h = instantiate_filter-Leaves (length s) pr val rest h

    on_prefixext-Leaves : (pr : Parser) → Leaves (length s) (on_prefixext add_filter pr (c ∷ s))
    unfolding on_prefixext
    on_prefixext-Leaves pr = by_word (prefix_word (cut_at b' ' (c ∷ s)).0)
      where
        by_word :
            (x : Option FilterType)
            → Leaves (length s) (elim x [
              | none ↦ on_value add_filter pr (c ∷ s)
              | some ty ↦ goes (record pr { state = value; item_type = ty }) (cut_at b' ' (c ∷ s)).1
            ])
        by_word none = on_value-Leaves pr
        by_word (some ty) = length-cut_at_token c s e

    parse_filter_term-Leaves :
        (pr : Parser) → Leaves (length s) (parse_filter_term pr (cut_at b' ' (c ∷ s)))
    unfolding parse_filter_term
    parse_filter_term-Leaves pr = by_term (take_term (cut_at b' ' (c ∷ s)).0 pr.rows)
      where
        by_term :
            (x : Taken)
            → Leaves (length s) (elim x [
              | no_term ↦ failed pr.mgr
              | used_up ↦ failed pr.mgr
              | taken ty st rows ↦
                  goes
                    (record pr { state = st; item_type = ty; rows = rows })
                    (cut_at b' ' (c ∷ s)).1
            ])
        by_term no_term = tt
        by_term used_up = tt
        by_term (taken ty st rows) = length-cut_at_token c s e

    retry-Leaves :
        (pr : Parser) (x : Option State) → Leaves (length s) (retry add_filter pr (c ∷ s) x)
    retry-Leaves pr none = tt
    retry-Leaves pr (some term) = length-cut_at_token c s e
    retry-Leaves pr (some prefixext) = on_prefixext-Leaves (record pr { state = prefixext })
    retry-Leaves pr (some value) = on_value-Leaves (record pr { state = value })
    retry-Leaves pr (some endvalue) = tt

    on_token-Leaves :
        (st : State) (pr : Parser) → Leaves (length s) (on_token add_filter st pr (c ∷ s))
    on_token-Leaves term pr = parse_filter_term-Leaves pr
    on_token-Leaves prefixext pr = on_prefixext-Leaves pr
    on_token-Leaves value pr = on_value-Leaves pr
    on_token-Leaves endvalue pr = retry-Leaves pr (parse_endvalue (cut_at b' ' (c ∷ s)).0 pr)

  after_step-ends :
      (k : Parser → List ℕ → Parsed) (n : ℕ) (x : Step)
      → Leaves n x
      → ((pr : Parser) (rest : List ℕ) → length rest ≤ n → k pr rest ≢ out_of_fuel)
      → after_step k x ≢ out_of_fuel
  after_step-ends k n (failed mgr) h go = λ e. cc
  after_step-ends k n faulted h go = λ e. cc
  after_step-ends k n (goes pr rest) h go = go pr rest h

  -- The text without its leading blanks is no longer and starts with another character.
  abbrev Skipped : ℕ → List ℕ → Type 0
  Skipped n [] = Unit
  Skipped n (c ∷ s) = (is_space c ≡ false) × (length s < n)

  skip_space-Skipped : (n : ℕ) (s : List ℕ) → length s ≤ n → Skipped n (skip_space s)
  unfolding skip_space
  skip_space-Skipped n [] h = tt
  skip_space-Skipped n (c ∷ s) h = elim (Bool-cases (is_space c)) [
    | inl blank ↦ rw blank (skip_space-Skipped n s (omega arith))
    | inr other ↦ rw other (other, omega arith)
  ]

  parse_round-ends :
      (k : Parser → List ℕ → Parsed) (f : ℕ) (pr : Parser) (t : List ℕ)
      → Skipped f t
      → ((pr' : Parser) (rest : List ℕ) → length rest < f → k pr' rest ≢ out_of_fuel)
      → parse_round add_filter k pr t ≢ out_of_fuel
  parse_round-ends k f pr [] b go = λ e. cc
  parse_round-ends k f pr (c ∷ t) b go =
      after_step-ends k (length t) _ (on_token-Leaves c t b.0 pr.state pr)
        (λ pr' rest le. go pr' rest (omega (arith, b.1)))

  parse_loop-ends :
      (f : ℕ) (pr : Parser) (s : List ℕ) → length s < f → parse_loop add_filter f pr s ≢ out_of_fuel
  unfolding parse_loop
  parse_loop-ends zero pr s h = absurd (omega arith)
  parse_loop-ends (suc f) pr s h =
      parse_round-ends (parse_loop add_filter f) f pr (skip_space s)
        (skip_space-Skipped f s (omega arith)) (λ pr' rest le. parse_loop-ends f pr' rest le)

  -- The parser of filter strings comes to an end on every string, whatever the calls that add the
  -- filters do: one round more than there are characters is enough.
  pub parse_filter_string-ends :
      (mgr : FilterMgr) (fstring : List ℕ)
      → parse_filter_string add_filter mgr fstring ≢ out_of_fuel
  unfolding parse_filter_string
  parse_filter_string-ends mgr fstring =
      parse_loop-ends (suc (length fstring)) (start mgr) fstring (omega arith)
