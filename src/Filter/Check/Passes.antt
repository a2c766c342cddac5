-- ===== src/Filter/Check/Passes.antt =====
-- elem_check_filters of lib/bgpstream_record.c, by what each filter asks of an elem.
use libbgpstream.Prelude.{
  ℕ, ◌≡◌, refl, ◌↔◌, inl, inr, Bool, true, false, not, ◌&&◌, some, List, [], ◌∷◌, arith,
  if◌then◌else◌, take, All, Bool-cases,
}
use libbgpstream.Community.Set.Match.{IsHashed}
use libbgpstream.AsPath.{Seg}
use libbgpstream.AsPath.Fields.{IsPath, walk-IsPath}
use libbgpstream.AsPath.Text.{segs_text, path_text}
use libbgpstream.Filter.{Elem, AspathExpr, FilterMgr}
use libbgpstream.Filter.Check.{
  has_no_path, check_communities, check_exprs, before_aspath, check_aspath, elem_check_filters,
}
use libbgpstream.Filter.Check.Wanted.{
  Wanted, TypeWanted, CarriesPath, OriginWanted, VersionWanted, PrefixWanted, PrefixesRight,
  CommunityWanted, check_type_iff, carries_iff, check_origin_iff, check_ipversion_iff,
  check_prefixes_iff, check_communities_iff, both_iff, check_peer_iff, check_not_peer_iff,
}

module _ (regexec : List ℕ → List ℕ → Bool) where
  abbrev pub ExprsWanted : List AspathExpr → Elem → List Seg → Type 0
  ExprsWanted [] elem l = Unit
  ExprsWanted (e ∷ es) elem l =
      CarriesPath elem × All (λ x. regexec x.re (take 65535 (segs_text l)) ≡ not x.negate) (e ∷ es)

  -- What the filters ask of an elem whose path holds the segments: its type, its peer, the last
  -- segment of its path, the version of its prefix, a prefix of the filter that asks for its own, each expression on the
  -- path's text, and one of the communities.
  pub record Passes (mgr : FilterMgr) (elem : Elem) (l : List Seg) : Type 0 where
    pub type_wanted : TypeWanted mgr.elemtype_mask elem.elem_type
    pub peer_wanted : Wanted mgr.peer_asns (λ f. f elem.peer_asn ≡ true)
    pub not_peer_wanted : Wanted mgr.not_peer_asns (λ f. f elem.peer_asn ≡ false)
    pub origin_wanted : OriginWanted mgr.origin_asns elem l
    pub version_wanted : VersionWanted mgr.ipversion elem
    pub prefix_wanted : PrefixWanted mgr.prefixes elem
    pub exprs_wanted : ExprsWanted mgr.aspath_exprs elem l
    pub community_wanted : CommunityWanted mgr.communities elem

  expr_iff :
      (e : AspathExpr) (text : List ℕ)
      → ((if e.negate then not (regexec e.re text) else regexec e.re text) ≡ true)
        ↔ (regexec e.re text ≡ not e.negate)
  expr_iff e text = (λ h. ground arith, λ h. ground arith)

  check_exprs_iff :
      (es : List AspathExpr) (text : List ℕ)
      → (check_exprs regexec es text ≡ true) ↔ All (λ x. regexec x.re text ≡ not x.negate) es
  unfolding check_exprs
  check_exprs_iff [] text = (λ e. tt, λ h. refl)
  check_exprs_iff (e ∷ es) text = both_iff _ _ (expr_iff e text) (check_exprs_iff es text)

  check_aspath_iff :
      (es : List AspathExpr) (elem : Elem) (l : List Seg)
      → IsPath elem.as_path l
      → (b : Bool) × (check_aspath regexec es elem ≡ some b) × ((b ≡ true) ↔ ExprsWanted es elem l)
  unfolding check_aspath path_text
  check_aspath_iff [] elem l p = (true, refl, (λ e. tt, λ h. refl))
  check_aspath_iff (e ∷ es) elem l p = elim (Bool-cases (has_no_path elem.elem_type)) [
    | inl bare ↦ (false, rw bare, (λ e. cc, λ h. cc ((carries_iff elem.elem_type).1 h.0)))
    | inr carries ↦ (
      check_exprs regexec (e ∷ es) (take 65535 (segs_text l)),
      rw (carries, (walk-IsPath elem.as_path l p).0),
      (
        λ h. (
          (carries_iff elem.elem_type).0 carries,
          (check_exprs_iff (e ∷ es) (take 65535 (segs_text l))).0 h,
        ),
        λ h. (check_exprs_iff (e ∷ es) (take 65535 (segs_text l))).1 h.1,
      ),
    )
  ]

  abbrev BeforePath : FilterMgr → Elem → List Seg → Type 0
  BeforePath mgr elem l =
      TypeWanted mgr.elemtype_mask elem.elem_type
      × (Wanted mgr.peer_asns (λ f. f elem.peer_asn ≡ true)
          × (Wanted mgr.not_peer_asns (λ f. f elem.peer_asn ≡ false)
              × (OriginWanted mgr.origin_asns elem l
                  × (VersionWanted mgr.ipversion elem × PrefixWanted mgr.prefixes elem))))

  before_aspath_iff :
      (mgr : FilterMgr) (elem : Elem) (l : List Seg)
      → IsPath elem.as_path l
      → PrefixesRight mgr.prefixes elem
      → (before_aspath mgr elem ≡ true) ↔ BeforePath mgr elem l
  unfolding before_aspath
  before_aspath_iff mgr elem l p right =
      both_iff _ _ (check_type_iff mgr.elemtype_mask elem.elem_type) (
        both_iff _ _ (check_peer_iff mgr.peer_asns elem.peer_asn) (
          both_iff _ _ (check_not_peer_iff mgr.not_peer_asns elem.peer_asn) (
            both_iff _ _ (check_origin_iff mgr.origin_asns elem l p) (
              both_iff _ _ (check_ipversion_iff mgr.ipversion elem)
                (check_prefixes_iff mgr.prefixes elem right)))))

  -- Where the elem's path holds segments, its communities have a right hash and, if there is a
  -- prefix filter, its trees are in shape and the elem's prefix is well-formed, the check comes to an
  -- answer, and the answer is yes exactly if the elem is what the filters ask for: its type, its
  -- peer, its origin, its version, its path's text, one of its communities, and its prefix, where there is a
  -- filter for it. A prefix of the filter asks for the same prefix, for those that its bits lead if it
  -- allows any or more specific matches, and for those whose bits lead its own if it allows any or
  -- less specific ones.
  pub elem_check_filters_iff :
      (mgr : FilterMgr) (elem : Elem) (l : List Seg)
      → IsPath elem.as_path l
      → IsHashed elem.communities
      → PrefixesRight mgr.prefixes elem
      → (b : Bool) × (elem_check_filters regexec mgr elem ≡ some b)
        × ((b ≡ true) ↔ Passes mgr elem l)
  unfolding elem_check_filters
  elem_check_filters_iff mgr elem l p h right =
      let (matched, run, exprs) = check_aspath_iff mgr.aspath_exprs elem l p in
      let first = before_aspath_iff mgr elem l p right in
      let rest = both_iff matched _ exprs (check_communities_iff mgr.communities elem h) in
      elim (Bool-cases (before_aspath mgr elem)) [
        | inr out ↦ (
          false,
          rw out,
          (
            λ e. cc,
            λ w. cc (
                first.1 (
                  w.type_wanted,
                  (
                    w.peer_wanted,
                    (w.not_peer_wanted, (w.origin_wanted, (w.version_wanted, w.prefix_wanted))),
                  ),
                )),
          ),
        )
        | inl in_front ↦ (
          matched && check_communities mgr.communities elem,
          rw (in_front, run),
          (
            λ e.
                let f = first.0 in_front in
                let (x, c) = rest.0 e in
                record {
                  type_wanted = f.0;
                  peer_wanted = f.1.0;
                  not_peer_wanted = f.1.1.0;
                  origin_wanted = f.1.1.1.0;
                  version_wanted = f.1.1.1.1.0;
                  prefix_wanted = f.1.1.1.1.1;
                  exprs_wanted = x;
                  community_wanted = c;
                },
            λ w. rest.1 (w.exprs_wanted, w.community_wanted),
          ),
        )
      ]
