-- ===== src/Filter/Parser/Values.antt =====
-- bgpstream_parse_filter_string of lib/bgpstream_filter_parser.c on a query of terms and their values.
use libbgpstream.Prelude.{
  ℕ, zero, suc, ◌≤◌, ◌<◌, ◌≡◌, refl, ap, ◌∙◌, true, false, Option, none, some, List, [], ◌∷◌, ◌++◌,
  arith, ◌==◌, length, All, length-append,
}
use libbgpstream.Libc.{codes, is_space, skip_space, strcmp_eq}
use libbgpstream.Filter.{FilterMgr}
use libbgpstream.Filter.Add.{FilterType, project, Added}
use libbgpstream.Filter.Parser.{
  State, term, value, endvalue, Term, terms, Parser, cut_at, taken, take_term, parse_value,
  repeat_state, parse_endvalue, is_supported, goes, Parsed, after_step, parse_filter_term,
  after_add, instantiate_filter, on_value, on_token, parse_loop, parse_filter_string,
}
use libbgpstream.Filter.Parser.Query.{
  no_blank, is_plain, is_conjunction, Clause, more_tokens, query_tokens, tokens_text, IsPlain,
  IsFurther, Repeats, IsQuery, after_added, add_values, run_query,
}

module _ (add_filter : FilterMgr → FilterType → List ℕ → Option Added) where
  abbrev at : State → FilterType → List Term → FilterMgr → Parser
  at st ty rows mgr = record { state = st; item_type = ty; rows = rows; mgr = mgr }

  cut_at-token :
      (t : List ℕ) (ts : List (List ℕ))
      → no_blank t ≡ true
      → cut_at b' ' (t ++ tokens_text ts) ≡ (t, tokens_text ts)
  unfolding cut_at no_blank tokens_text
  cut_at-token [] [] h = refl
  cut_at-token [] (u ∷ ts) h = refl
  cut_at-token (c ∷ t) ts h =
      let other : (c == b' ') ≡ false = ground (arith, h) in
      let rest : no_blank t ≡ true = ground (arith, h) in rw (other, cut_at-token t ts rest)

  -- A round on a token that is plain.
  parse_loop-token :
      (f : ℕ) (st : State) (ty : FilterType) (rows : List Term) (mgr : FilterMgr) (c : ℕ)
      (t : List ℕ) (ts : List (List ℕ))
      → is_space c ≡ false
      → parse_loop add_filter (suc f) (at st ty rows mgr) (tokens_text ((c ∷ t) ∷ ts))
        ≡ after_step
            (parse_loop add_filter f)
            (on_token add_filter st (at st ty rows mgr) ((c ∷ t) ++ tokens_text ts))
  unfolding parse_loop tokens_text skip_space
  parse_loop-token f st ty rows mgr c t ts e = rw e

  parse_value-plain :
      (v : List ℕ) (ts : List (List ℕ))
      → IsPlain v
      → parse_value (v ++ tokens_text ts) ≡ some (v, tokens_text ts)
  unfolding parse_value is_plain
  parse_value-plain [] ts h = cc
  parse_value-plain (c ∷ t) ts h =
      let bare : (c == b'"') ≡ false = ground (arith, h) in
      let whole : no_blank (c ∷ t) ≡ true = ground (arith, h) in
      rw bare (ap some (cut_at-token (c ∷ t) ts whole))

  -- A plain value is read whole, and its filter added.
  on_value-plain :
      (pr : Parser) (v : List ℕ) (ts : List (List ℕ))
      → IsPlain v
      → is_supported pr.item_type ≡ true
      → on_value add_filter pr (v ++ tokens_text ts)
        ≡ after_add pr (tokens_text ts) (add_filter pr.mgr pr.item_type v)
  unfolding on_value instantiate_filter
  on_value-plain pr v ts h known =
      rw (on_value, parse_value-plain v ts h, instantiate_filter, known)

  after_add-added :
      (f : ℕ) (st : State) (ty : FilterType) (rows : List Term) (mgr : FilterMgr)
      (ts : List (List ℕ)) (k : FilterMgr → Parsed) (r : Option Added)
      → ((m : FilterMgr) → parse_loop add_filter f (at endvalue ty rows m) (tokens_text ts) ≡ k m)
      → after_step (parse_loop add_filter f) (after_add (at st ty rows mgr) (tokens_text ts) r)
        ≡ after_added add_filter k r
  after_add-added f st ty rows mgr ts k none go = refl
  after_add-added f st ty rows mgr ts k (some (m, true)) go = go m
  after_add-added f st ty rows mgr ts k (some (m, false)) go = refl

  module _ (ty : FilterType) (rows : List Term) (known : is_supported ty ≡ true) where
    -- The first value of a term.
    first_value :
        (f : ℕ) (mgr : FilterMgr) (v : List ℕ) (ts : List (List ℕ)) (k : FilterMgr → Parsed)
        → IsPlain v
        → ((m : FilterMgr) → parse_loop add_filter f (at endvalue ty rows m) (tokens_text ts) ≡ k m)
        → parse_loop add_filter (suc f) (at value ty rows mgr) (tokens_text (v ∷ ts))
          ≡ after_added add_filter k (add_filter mgr ty v)
    unfolding is_plain
    first_value f mgr [] ts k h go = cc
    first_value f mgr (c ∷ t) ts k h go =
        let bare : is_space c ≡ false = ground (arith, h) in
        parse_loop-token f value ty rows mgr c t ts bare
        ∙ ap (after_step (parse_loop add_filter f))
            (on_value-plain (at value ty rows mgr) (c ∷ t) ts h known)
        ∙ after_add-added f value ty rows mgr ts k (add_filter mgr ty (c ∷ t)) go

    retry-further :
        (mgr : FilterMgr) (v : List ℕ) (ts : List (List ℕ))
        → IsFurther v
        → repeat_state ty rows ≡ some value
        → on_token add_filter endvalue (at endvalue ty rows mgr) (v ++ tokens_text ts)
          ≡ on_value add_filter (at value ty rows mgr) (v ++ tokens_text ts)
    unfolding is_plain is_conjunction parse_endvalue
    retry-further mgr [] ts h again = cc
    retry-further mgr (c ∷ t) ts h again =
        let whole : no_blank (c ∷ t) ≡ true = ground (arith, h.0) in
        let not_and : strcmp_eq (c ∷ t) (codes "and") ≡ false = ground (arith, h.1) in
        let not_or : strcmp_eq (c ∷ t) (codes "or") ≡ false = ground (arith, h.1) in
        rw (cut_at-token (c ∷ t) ts whole, not_and, not_or, again)

    further_value :
        (f : ℕ) (mgr : FilterMgr) (v : List ℕ) (ts : List (List ℕ)) (k : FilterMgr → Parsed)
        → IsFurther v
        → repeat_state ty rows ≡ some value
        → ((m : FilterMgr) → parse_loop add_filter f (at endvalue ty rows m) (tokens_text ts) ≡ k m)
        → parse_loop add_filter (suc f) (at endvalue ty rows mgr) (tokens_text (v ∷ ts))
          ≡ after_added add_filter k (add_filter mgr ty v)
    unfolding is_plain
    further_value f mgr [] ts k h again go = cc
    further_value f mgr (c ∷ t) ts k h again go =
        let bare : is_space c ≡ false = ground (arith, h.0) in
        parse_loop-token f endvalue ty rows mgr c t ts bare
        ∙ ap (after_step (parse_loop add_filter f)) (
            retry-further mgr (c ∷ t) ts h again
            ∙ on_value-plain (at value ty rows mgr) (c ∷ t) ts h.0 known)
        ∙ after_add-added f value ty rows mgr ts k (add_filter mgr ty (c ∷ t)) go

    -- The further values of a term, before the tokens `ts`, which come to `k`.
    further_values :
        (vs : List (List ℕ)) (f : ℕ) (mgr : FilterMgr) (ts : List (List ℕ)) (k : FilterMgr → Parsed)
        → All IsFurther vs
        → Repeats ty rows vs
        → length (vs ++ ts) < f
        → ((g : ℕ) (m : FilterMgr)
            → length ts < g
            → parse_loop add_filter g (at endvalue ty rows m) (tokens_text ts) ≡ k m)
        → parse_loop add_filter f (at endvalue ty rows mgr) (tokens_text (vs ++ ts))
          ≡ add_values add_filter k mgr ty vs
    further_values [] f mgr ts k h again enough go = go f mgr enough
    further_values (v ∷ vs) zero mgr ts k h again enough go = absurd (omega arith)
    further_values (v ∷ vs) (suc f) mgr ts k h again enough go =
        further_value f mgr v (vs ++ ts) (λ m. add_values add_filter k m ty vs) h.0 again
          (λ m. further_values vs f m ts k h.1 (all_repeat vs) (omega arith) go)
      where
        all_repeat : (ws : List (List ℕ)) → Repeats ty rows ws
        all_repeat [] = tt
        all_repeat (w ∷ ws) = again

  parse_filter_term-taken :
      (pr : Parser) (t : List ℕ) (ts : List (List ℕ)) (ty : FilterType) (rows : List Term)
      → take_term t pr.rows ≡ taken ty value rows
      → parse_filter_term pr (t, tokens_text ts) ≡ goes (at value ty rows pr.mgr) (tokens_text ts)
  unfolding parse_filter_term
  parse_filter_term-taken pr t ts ty rows found = rw (parse_filter_term, found)

  term_round :
      (f : ℕ) (ty ty' : FilterType) (rows rows' : List Term) (mgr : FilterMgr) (t : List ℕ)
      (ts : List (List ℕ))
      → IsPlain t
      → take_term t rows ≡ taken ty' value rows'
      → parse_loop add_filter (suc f) (at term ty rows mgr) (tokens_text (t ∷ ts))
        ≡ parse_loop add_filter f (at value ty' rows' mgr) (tokens_text ts)
  unfolding is_plain
  term_round f ty ty' rows rows' mgr [] ts h found = cc
  term_round f ty ty' rows rows' mgr (c ∷ t) ts h found =
      let bare : is_space c ≡ false = ground (arith, h) in
      let whole : no_blank (c ∷ t) ≡ true = ground (arith, h) in
      parse_loop-token f term ty rows mgr c t ts bare
      ∙ ap (after_step (parse_loop add_filter f)) (
          ap (parse_filter_term (at term ty rows mgr)) (cut_at-token (c ∷ t) ts whole)
          ∙ parse_filter_term-taken (at term ty rows mgr) (c ∷ t) ts ty' rows' found)

  and_round :
      (f : ℕ) (ty : FilterType) (rows : List Term) (mgr : FilterMgr) (ts : List (List ℕ))
      → parse_loop add_filter (suc f) (at endvalue ty rows mgr) (tokens_text (codes "and" ∷ ts))
        ≡ parse_loop add_filter f (at term ty rows mgr) (tokens_text ts)
  unfolding parse_endvalue
  and_round f ty rows mgr ts =
      let whole = cut_at-token (codes "and") ts (unfold no_blank in refl) in
      parse_loop-token f endvalue ty rows mgr b'a' (b'n' ∷ b'd' ∷ []) ts refl
      ∙ rw whole (ap (λ x. parse_loop add_filter f (at term ty rows mgr) x.1) whole)

  -- A clause from its word on, where the clauses after it come to what they are to.
  clause_rounds :
      (cl : Clause) (q : List Clause) (f : ℕ) (ty : FilterType) (rows : List Term) (mgr : FilterMgr)
      → IsQuery rows (cl ∷ q)
      → length (query_tokens cl q) < f
      → ((ty' : FilterType) (rows' : List Term) (g : ℕ) (m : FilterMgr)
          → IsQuery rows' q
          → length (more_tokens q) < g
          → parse_loop add_filter g (at endvalue ty' rows' m) (tokens_text (more_tokens q))
            ≡ run_query add_filter m q)
      → parse_loop add_filter f (at term ty rows mgr) (tokens_text (query_tokens cl q))
        ≡ run_query add_filter mgr (cl ∷ q)
  unfolding run_query
  clause_rounds cl q zero ty rows mgr ok enough go = absurd (omega arith)
  clause_rounds cl q (suc zero) ty rows mgr ok enough go = absurd (omega arith)
  clause_rounds cl q (suc (suc f)) ty rows mgr (rows', found, known, w, v, vs, again, rest) enough
        go =
      term_round (suc f) ty cl.type rows rows' mgr cl.word (cl.first ∷ (cl.more ++ more_tokens q)) w
        found
      ∙ first_value cl.type rows' known f mgr cl.first (cl.more ++ more_tokens q)
          (λ m. add_values add_filter (λ n. run_query add_filter n q) m cl.type cl.more) v
          (λ m.
            further_values cl.type rows' known cl.more f m (more_tokens q)
              (λ n. run_query add_filter n q) vs again (omega arith)
              (λ g n. go cl.type rows' g n rest))

  more_rounds :
      (q : List Clause) (ty : FilterType) (rows : List Term) (f : ℕ) (mgr : FilterMgr)
      → IsQuery rows q
      → length (more_tokens q) < f
      → parse_loop add_filter f (at endvalue ty rows mgr) (tokens_text (more_tokens q))
        ≡ run_query add_filter mgr q
  unfolding parse_loop run_query tokens_text
  more_rounds q ty rows zero mgr ok enough = absurd (omega arith)
  more_rounds [] ty rows (suc f) mgr ok enough = refl
  more_rounds (cl ∷ q) ty rows (suc f) mgr ok enough =
      and_round f ty rows mgr (query_tokens cl q)
      ∙ clause_rounds cl q f ty rows mgr ok (omega arith)
          (λ ty' rows' g m. more_rounds q ty' rows' g m)

  length-tokens_text : (ts : List (List ℕ)) → length ts ≤ length (tokens_text ts)
  unfolding tokens_text
  length-tokens_text [] = omega arith
  length-tokens_text (t ∷ ts) =
      omega (arith, length-tokens_text ts, length-append t (tokens_text ts))

  -- Take a query of clauses, each of them a term that is free and takes values, and its values, more
  -- than one only where the term allows it, all plain and no further one a conjunction. Parsing its
  -- text, with "and" between the clauses, adds the filters of all values in order, and succeeds,
  -- unless one is refused: then those before it were added, and the parsing fails.
  pub parse_filter_string-query :
      (mgr : FilterMgr) (cl : Clause) (q : List Clause)
      → IsQuery terms (cl ∷ q)
      → parse_filter_string add_filter mgr (tokens_text (query_tokens cl q))
        ≡ run_query add_filter mgr (cl ∷ q)
  unfolding parse_filter_string
  parse_filter_string-query mgr cl q ok =
      clause_rounds cl q (suc (length (tokens_text (query_tokens cl q)))) project terms mgr ok
        (omega (arith, length-tokens_text (query_tokens cl q)))
        (λ ty rows g m. more_rounds q ty rows g m)
