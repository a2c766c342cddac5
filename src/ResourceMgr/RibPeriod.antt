-- ===== src/ResourceMgr/RibPeriod.antt =====
-- wanted_resource of lib/bgpstream_resource_mgr.c: how far apart the RIBs of a collector are.
use libbgpstream.Prelude.{
  ℕ, Bool, ◌∷◌, ◌++◌, take, ◌+◌, ◌%◌, ◌^◌, ◌≡◌, ◌⊎◌, inl, inr, refl, sym, ap, ◌∙◌, true, false, not,
  Option, none, some, ltb, ◌==◌, if◌then◌else◌, arith, Bool-cases,
}
use libbgpstream.Libc.{strcmp_eq}
use libbgpstream.ResourceMgr.{rib, Resource}
use libbgpstream.ResourceMgr.Queue.{
  RibFilter, last_ts, set_ts, by_last_ts, wanted_at, wanted_resource, ts_key,
}

wanted_rib :
    (res : Resource) (f : RibFilter)
    → res.record_type ≡ rib
    → (f.rib_period == 0) ≡ false
    → wanted_resource res f ≡ by_last_ts res f (last_ts f.last_processed_ts (ts_key res))
unfolding wanted_resource wanted_at
wanted_rib res f e period = ap (λ r. wanted_at r res f) e ∙ rw period

kept-set_ts :
    (res : Resource) (f : RibFilter) (o : Option ℕ)
    → (by_last_ts res f o).0 ≡ true
    → (by_last_ts res f o).1 ≡ set_ts f res
unfolding by_last_ts
kept-set_ts res f none h = refl
kept-set_ts res f (some ts) h =
    elim (Bool-cases (ltb res.initial_time ((ts + f.rib_period) % 2 ^ 32))) [
      | inl early ↦ absurd (early_lost early h)
      | inr late ↦ rw late
    ]
  where
    early_lost :
        ltb res.initial_time ((ts + f.rib_period) % 2 ^ 32) ≡ true
        → (by_last_ts res f (some ts)).0 ≡ true
        → ⊥
    early_lost early h = ground arith

by_time :
    (res : Resource) (f : RibFilter) (ts : ℕ)
    → (by_last_ts res f (some ts)).0 ≡ not (ltb res.initial_time ((ts + f.rib_period) % 2 ^ 32))
unfolding by_last_ts
by_time res f ts = elim (Bool-cases (ltb res.initial_time ((ts + f.rib_period) % 2 ^ 32))) [
  | inl early ↦ rw early
  | inr late ↦ rw late
]

same_period :
    (next : Resource) (f : RibFilter) (res : Resource) (o : Option ℕ)
    → (by_last_ts next (set_ts f res) o).0 ≡ (by_last_ts next f o).0
unfolding by_last_ts set_ts
same_period next f res none = refl
same_period next f res (some ts) = by_time next (set_ts f res) ts ∙ sym (by_time next f ts)

-- The projects and collectors, joined by a point and cut to 1023 characters, are the same text.
abbrev pub same_text : Resource → Resource → Bool
same_text res next =
    strcmp_eq (take 1023 (res.project ++ (46 ∷ res.collector)))
      (take 1023 (next.project ++ (46 ∷ next.collector)))

-- If there is a period and a RIB is kept, then a next RIB whose project and collector,
-- joined by a point and cut to 1023 characters, are the same text is kept exactly if its time is not
-- below that one's plus the period, on 32 bits, and a RIB with another such text is kept as it would
-- have been before.
pub wanted_resource-period :
    (res next : Resource) (f : RibFilter)
    → res.record_type ≡ rib
    → next.record_type ≡ rib
    → (f.rib_period == 0) ≡ false
    → (wanted_resource res f).0 ≡ true
    → (wanted_resource next (wanted_resource res f).1).0 ≡ (
        if same_text res next
        then not (ltb next.initial_time ((res.initial_time + f.rib_period) % 2 ^ 32))
        else (wanted_resource next f).0)
unfolding set_ts last_ts by_last_ts
wanted_resource-period res next f is_rib next_rib period kept =
    ap (λ g. (wanted_resource next g).0) left
    ∙ ap (λ r. r.0) (wanted_rib next (set_ts f res) next_rib period)
    ∙ judged (Bool-cases (same_text res next))
  where
    o : Option ℕ
    o = last_ts f.last_processed_ts (ts_key res)

    left : (wanted_resource res f).1 ≡ set_ts f res
    left =
        ap (λ r. r.1) (wanted_rib res f is_rib period)
        ∙ kept-set_ts res f o (sym (ap (λ r. r.0) (wanted_rib res f is_rib period)) ∙ kept)

    judged :
        ((same_text res next) ≡ true) ⊎ ((same_text res next) ≡ false)
        → (by_last_ts next
            (set_ts f res)
            (last_ts (set_ts f res).last_processed_ts (ts_key next))).0
          ≡ (if same_text res next
              then not (ltb next.initial_time ((res.initial_time + f.rib_period) % 2 ^ 32))
              else (wanted_resource next f).0)
    judged (inl same) = rw same (by_time next (set_ts f res) res.initial_time)
    judged (inr other) = rw other (
        same_period next f res (last_ts f.last_processed_ts (ts_key next))
        ∙ sym (ap (λ r. r.0) (wanted_rib next f next_rib period)))
