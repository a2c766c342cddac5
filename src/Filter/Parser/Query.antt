-- ===== src/Filter/Parser/Query.antt =====
-- Filter strings made of terms and their values, for lib/bgpstream_filter_parser.c.
use libbgpstream.Prelude.{
  ℕ, ◌≡◌, Bool, true, false, not, ◌&&◌, ◌||◌, Option, none, some, List, [], ◌∷◌, ◌++◌, ◌==◌, All,
}
use libbgpstream.Libc.{codes, is_space, strcmp_eq}
use libbgpstream.Filter.{FilterMgr}
use libbgpstream.Filter.Add.{FilterType, Added}
use libbgpstream.Filter.Parser.{
  value, Term, taken, take_term, repeat_state, is_supported, Parsed, parsed, parse_fault,
}

-- Some text without a blank.
unfoldable pub no_blank : List ℕ → Bool
no_blank [] = true
no_blank (c ∷ s) = not (c == b' ') && no_blank s

-- A token that is a value as it stands: it is not empty, has no blank, and starts with neither
-- white space nor a quote.
unfoldable pub is_plain : List ℕ → Bool
unfolding no_blank
is_plain [] = false
is_plain (c ∷ s) = not (is_space c) && (not (c == b'"') && no_blank (c ∷ s))

unfoldable pub is_conjunction : List ℕ → Bool
unfolding strcmp_eq
is_conjunction t = strcmp_eq t (codes "and") || strcmp_eq t (codes "or")

-- A term's word, the type of its filter, its first value and the others.
pub record Clause : Type 0 where
  pub word : List ℕ
  pub type : FilterType
  pub first : List ℕ
  pub more : List (List ℕ)

-- The tokens of the clauses that follow one, and of a query.
abbrev pub more_tokens : List Clause → List (List ℕ)
more_tokens [] = []
more_tokens (cl ∷ q) = codes "and" ∷ cl.word ∷ cl.first ∷ (cl.more ++ more_tokens q)

abbrev pub query_tokens : Clause → List Clause → List (List ℕ)
query_tokens cl q = cl.word ∷ cl.first ∷ (cl.more ++ more_tokens q)

-- Each token after a blank.
unfoldable pub tokens_text : List (List ℕ) → List ℕ
tokens_text [] = []
tokens_text (t ∷ ts) = b' ' ∷ (t ++ tokens_text ts)

abbrev pub IsPlain : List ℕ → Type 0
IsPlain t = is_plain t ≡ true

-- A value after another one, which could be taken for a conjunction.
abbrev pub IsFurther : List ℕ → Type 0
IsFurther t = (is_plain t ≡ true) × (is_conjunction t ≡ false)

abbrev pub Repeats : FilterType → List Term → List (List ℕ) → Type 0
Repeats ty rows [] = Unit
Repeats ty rows (v ∷ vs) = repeat_state ty rows ≡ some value

-- Each clause has a term that is still free in the rows and takes a value, with as many values as
-- the term allows, all of them plain.
abbrev pub IsQuery : List Term → List Clause → Type 0
IsQuery rows [] = Unit
IsQuery rows (cl ∷ q) =
    (rows' : List Term) × (take_term cl.word rows ≡ taken cl.type value rows')
    × (is_supported cl.type ≡ true)
    × IsPlain cl.word
    × IsPlain cl.first
    × All IsFurther cl.more
    × Repeats cl.type rows' cl.more
    × IsQuery rows' q

module _ (add_filter : FilterMgr → FilterType → List ℕ → Option Added) where
  -- What an added filter leads to.
  abbrev pub after_added : (FilterMgr → Parsed) → Option Added → Parsed
  after_added k none = parse_fault
  after_added k (some (mgr, true)) = k mgr
  after_added k (some (mgr, false)) = parsed (mgr, false)

  -- The values are added in order, up to the first that is refused.
  abbrev pub add_values : (FilterMgr → Parsed) → FilterMgr → FilterType → List (List ℕ) → Parsed
  add_values k mgr ty [] = k mgr
  add_values k mgr ty (v ∷ vs) = after_added (λ m. add_values k m ty vs) (add_filter mgr ty v)

  unfoldable pub run_query : FilterMgr → List Clause → Parsed
  run_query mgr [] = parsed (mgr, true)
  run_query mgr (cl ∷ q) = add_values (λ m. run_query m q) mgr cl.type (cl.first ∷ cl.more)
