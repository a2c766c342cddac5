-- ===== src/IpCounter/Laws.antt =====
-- What bgpstream_ip_counter_add and bgpstream_ip_counter_is_overlapping of
-- lib/utils/bgpstream_utils_ip_counter.c do with an IPv4 prefix.
use libbgpstream.Prelude.{
  ℕ, ◌+◌, ◌-◌, ◌/◌, ◌^◌, ◌≤◌, ◌<◌, ◌≡◌, refl, sym, ap, ap₂, subst, ◌∙◌, false, ◌&&◌, ◌||◌, ◌==◌,
  arith,
}
use libbgpstream.Addr.{ipv4, width}
use libbgpstream.Pfx.{Pfx, IsPfx}
use libbgpstream.IpCounter.{IpCounter, add, add_at, ntohl, merge_in_sorted_queue4}
use libbgpstream.IpCounter.Query.{is_overlapping, overlapping_at, is_overlapping4, overlap_loop4}
use libbgpstream.IpCounter.Union.{within, covers, IsQueue, merge4-IsQueue, merge4-covers}
use libbgpstream.IpCounter.Counting.{
  count_below, count_below_mono, count_below-within, count_below-ext, IsPart,
}
use libbgpstream.IpCounter.Overlap.{holds, common_addresses, overlap_loop4_lem}
use libbgpstream.IpCounter.Range.{
  block, range4_lem, shifted_range4_lem, ntohl-lt, within-block, block-IsPart,
}

module _ (ipc : IpCounter) (pfx : Pfx) (ok : IsPfx pfx) (is_v4 : pfx.address.version ≡ ipv4)
    (q : IsQueue 0 ipc.v4list) where
  abbrev n : ℕ
  n = ntohl pfx.address.bytes

  abbrev k : ℕ
  k = 32 - pfx.mask_len

  short : pfx.mask_len ≤ 32
  short = omega (arith, ok.fits, ap width is_v4)

  added : (add ipc pfx).v4list ≡ merge_in_sorted_queue4 ipc.v4list (block n k).start (block n k).end
  unfolding add add_at
  added =
      ap (λ v. (add_at v ipc pfx).v4list) is_v4
      ∙ ap (λ r. merge_in_sorted_queue4 ipc.v4list r.start r.end)
          (range4_lem pfx short (ntohl-lt pfx.address.bytes ok.addr.bytes_fit))

  ends : (block n k).start ≤ (block n k).end
  ends = omega arith

  -- Adding a well-formed IPv4 prefix to a queue that is in order leaves it in order: its
  -- intervals sorted, not empty, and with no address in common.
  pub add-IsQueue : IsQueue 0 (add ipc pfx).v4list
  add-IsQueue =
      subst (IsQueue 0) (sym added)
        (merge4-IsQueue ipc.v4list (block n k).start (block n k).end 0 ends (omega arith) q)

  -- Adding a well-formed IPv4 prefix to a queue that is in order adds the addresses with the
  -- prefix's leading bits to those that the queue covers, and no others.
  pub add-covers :
      (x : ℕ) → covers (add ipc pfx).v4list x ≡ (covers ipc.v4list x || (x / 2 ^ k == n / 2 ^ k))
  add-covers x =
      ap (λ l. covers l x) added
      ∙ merge4-covers ipc.v4list (block n k).start (block n k).end 0 x ends q
      ∙ ap (λ b. covers ipc.v4list x || b) (within-block n k x)

  -- For a well-formed IPv4 prefix of length above 0 and a queue in order, the overlap is the
  -- number of addresses with the prefix's leading bits that the queue covers, and the flag
  -- says whether a single interval of the queue holds them all.
  pub is_overlapping_lem :
      0 < pfx.mask_len
      → is_overlapping ipc pfx ≡ (
        count_below (2 ^ 32) (λ x. (x / 2 ^ k == n / 2 ^ k) && covers ipc.v4list x),
        holds ipc.v4list (block n k),
      )
  unfolding is_overlapping overlapping_at is_overlapping4
  is_overlapping_lem long =
      ap (λ v. overlapping_at v ipc pfx) is_v4
      ∙ ap (λ r. overlap_loop4 r ipc.v4list 0 false) (shifted_range4_lem pfx short)
      ∙ overlap_loop4_lem (block n k) ends part ipc.v4list 0 0 false q few
      ∙ ap₂ (λ a b. (a, b)) (omega (arith, same)) refl
    where
      part : IsPart (block n k)
      part = block-IsPart n pfx.mask_len long short (ntohl-lt pfx.address.bytes ok.addr.bytes_fit)

      few : 0 + count_below (2 ^ 32) (common_addresses (block n k) ipc.v4list) < 2 ^ 32
      few = omega (
        arith,
        part.0,
        part.1,
        ends,
        count_below_mono (2 ^ 32) (common_addresses (block n k) ipc.v4list)
            (within (block n k).start (block n k).end) (λ x h. ground arith),
        count_below-within (2 ^ 32) (block n k).start (block n k).end ends,
      )

      same :
          count_below (2 ^ 32) (common_addresses (block n k) ipc.v4list)
          ≡ count_below (2 ^ 32) (λ x. (x / 2 ^ k == n / 2 ^ k) && covers ipc.v4list x)
      same =
          count_below-ext (2 ^ 32) (common_addresses (block n k) ipc.v4list)
            (λ x. (x / 2 ^ k == n / 2 ^ k) && covers ipc.v4list x)
            (λ x. ap (λ b. b && covers ipc.v4list x) (within-block n k x))
