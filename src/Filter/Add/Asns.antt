-- ===== src/Filter/Add/Asns.antt =====
-- Filters on ASNs: the text of a number adds that number and no other.
use libbgpstream.Prelude.{
  ℕ, ◌≤◌, ◌≡◌, refl, Bool, true, false, ◌||◌, Option, none, some, List, [], arith, ltb, ◌==◌,
}
use mathlib.Core.List.{append-nil}
use libbgpstream.Libc.{decimal}
use libbgpstream.Libc.Decimal.{strtoul-decimal}
use libbgpstream.Addr.{AddrVersion}
use libbgpstream.Community.{Community}
use libbgpstream.Filter.{FilterMgr}
use libbgpstream.Filter.Add.{
  elem_peer_asn, elem_not_peer_asn, elem_origin_asn, Added, id_set_insert, read_asn, filter_add,
}

-- Membership; a filter that is off has no members.
abbrev pub has : Option (ℕ → Bool) → ℕ → Bool
has none x = false
has (some ids) x = ids x

read_asn-decimal : (n : ℕ) → n ≤ 4294967295 → read_asn (decimal n) ≡ some n
unfolding read_asn
read_asn-decimal n h =
    let small : ltb 4294967295 n ≡ false = ground arith in
    rw (← append-nil (decimal n), strtoul-decimal n [] (omega arith) refl, small)

has-id_set_insert :
    (ids : Option (ℕ → Bool)) (n x : ℕ) → id_set_insert ids n x ≡ (x == n || has ids x)
unfolding id_set_insert
has-id_set_insert none n x = ground arith
has-id_set_insert (some ids) n x = refl

module _ (inet_pton : AddrVersion → List ℕ → Option (List ℕ)) (regcomp : List ℕ → Bool)
    (held : Community) where
  -- The call succeeded and left filters of which this holds.
  abbrev pub Adds : Option Added → (FilterMgr → Type 0) → Type 0
  Adds result P = (mgr : FilterMgr) × (result ≡ some (mgr, true)) × P mgr

  -- The decimal text of a 32-bit number is accepted by each of the three filters on ASNs, and adds
  -- that number, and no other, to the numbers of the filter.
  pub filter_add-asn :
      (mgr : FilterMgr) (n : ℕ)
      → n ≤ 4294967295
      → Adds
          (filter_add inet_pton regcomp mgr elem_peer_asn (decimal n) held)
          (λ m. (x : ℕ) → has m.peer_asns x ≡ (x == n || has mgr.peer_asns x))
        × Adds
            (filter_add inet_pton regcomp mgr elem_not_peer_asn (decimal n) held)
            (λ m. (x : ℕ) → has m.not_peer_asns x ≡ (x == n || has mgr.not_peer_asns x))
        × Adds
            (filter_add inet_pton regcomp mgr elem_origin_asn (decimal n) held)
            (λ m. (x : ℕ) → has m.origin_asns x ≡ (x == n || has mgr.origin_asns x))
  unfolding filter_add
  filter_add-asn mgr n h =
      let reads = read_asn-decimal n h in
      (
        (
          record mgr { peer_asns = some (id_set_insert mgr.peer_asns n) },
          rw reads,
          has-id_set_insert mgr.peer_asns n,
        ),
        (
          record mgr { not_peer_asns = some (id_set_insert mgr.not_peer_asns n) },
          rw reads,
          has-id_set_insert mgr.not_peer_asns n,
        ),
        (
          record mgr { origin_asns = some (id_set_insert mgr.origin_asns n) },
          rw reads,
          has-id_set_insert mgr.origin_asns n,
        ),
      )
