-- ===== src/AsPath/Append.antt =====
-- bgpstream_as_path_append puts segments at the end of a path.
use libbgpstream.Prelude.{
  ℕ, ◌+◌, ◌*◌, ◌%◌, ◌^◌, ◌≤◌, ◌<◌, ◌≡◌, ◌≢◌, refl, sym, ap, ◌∙◌, if◌then◌else◌, false, Option, some,
  List, [], ◌∷◌, ◌++◌, map, arith, ◌==◌, ltb, leb, length, All, All-append, length-append,
  Bool-cases, ==_iff, ==_ne, inl, inr,
}
use mathlib.Core.List.{append_assoc, append-nil}
use libbgpstream.AsPath.{
  Seg, asn, asn_set, AsPath, type_asn, uint16_max, sizeof_seg, append_asns, append_set, append,
}
use libbgpstream.AsPath.Segments.{
  IsSeg, IsWord, seg_bytes, segs_bytes, segs_bytes-append, length-seg_bytes,
}
use libbgpstream.AsPath.Walk.{origin_from-snoc}
use libbgpstream.AsPath.Fields.{IsPath}

-- The segments that a type and its ASNs stand for.
unfoldable pub new_segs : ℕ → List ℕ → List Seg
new_segs type xs = if type == type_asn then map asn xs else asn_set type xs ∷ []

-- One more segment, with its bytes at the end and the fields set.
pub add_seg : AsPath → Seg → AsPath
add_seg path s = record path {
  data_bytes = path.data_bytes ++ seg_bytes s;
  origin_offset = length path.data_bytes;
  seg_cnt = (path.seg_cnt + 1) % 2 ^ 16;
}

add_seg-IsPath :
    (path : AsPath) (l : List Seg) (s : Seg)
    → IsPath path l
    → IsSeg s
    → length path.data_bytes + sizeof_seg s < 65536
    → IsPath (add_seg path s) (l ++ (s ∷ []))
unfolding add_seg
add_seg-IsPath path l s p v short = record {
  held =
      ap (λ b. b ++ seg_bytes s) p.held
      ∙ ap (λ b. segs_bytes l ++ b) (sym (append-nil (seg_bytes s)))
      ∙ sym (segs_bytes-append l (s ∷ []) ∙ unfold segs_bytes in refl);
  valid = All-append IsSeg l (s ∷ []) p.valid (v, tt);
  short = omega (arith, length-append path.data_bytes (seg_bytes s), length-seg_bytes s);
  counted = omega (arith, p.counted, length-append l (s ∷ []));
  origin = omega (arith, ap length p.held, origin_from-snoc 0 uint16_max l s);
}

append_asns-IsPath :
    (xs : List ℕ) (path : AsPath) (l : List Seg)
    → IsPath path l
    → All IsWord xs
    → length path.data_bytes + 5 * length xs < 65536
    → IsPath (append_asns path xs) (l ++ map asn xs)
      × (length (append_asns path xs).data_bytes ≡ length path.data_bytes + 5 * length xs)
      × ((append_asns path xs).data_alloc_len ≡ path.data_alloc_len)
unfolding append_asns seg_bytes add_seg
append_asns-IsPath [] path l p v short = (rw (append-nil l) p, omega arith, refl)
append_asns-IsPath (x ∷ xs) path l p v short =
    let longer = length-append path.data_bytes (seg_bytes (asn x)) in
    let further =
      append_asns-IsPath xs (add_seg path (asn x)) (l ++ (asn x ∷ []))
        (add_seg-IsPath path l (asn x) p v.0 (omega arith)) v.1 (omega (arith, longer)) in
    let all : IsPath (append_asns (add_seg path (asn x)) xs) ((l ++ (asn x ∷ [])) ++ map asn xs) =
      further.0 in
    (
      rw (append_assoc l (asn x ∷ []) (map asn xs)) at all,
      omega (arith, further.1, longer),
      further.2,
    )

-- The memory is the path's own, and what is in use fits.
abbrev pub IsOwned : AsPath → Type 0
IsOwned path = (path.data_alloc_len ≢ uint16_max) × (length path.data_bytes ≤ path.data_alloc_len)

abbrev pub added_bytes : ℕ → List ℕ → ℕ
added_bytes type xs = if type == type_asn then 5 * length xs else 2 + 4 * length xs

-- The result is a path in its own memory that holds the segments.
abbrev pub Makes : Option AsPath → List Seg → Type 0
Makes result l = (path : AsPath) × (result ≡ some path) × IsPath path l × IsOwned path

abbrev with_room : AsPath → ℕ → AsPath
with_room path new_len = record path {
  data_alloc_len = if ltb path.data_alloc_len new_len then new_len else path.data_alloc_len;
}

IsPath-with_room :
    (path : AsPath) (n : ℕ) (l : List Seg) → IsPath path l → IsPath (with_room path n) l
IsPath-with_room path n l p = record {
  held = p.held;
  valid = p.valid;
  short = p.short;
  counted = p.counted;
  origin = p.origin;
}

pub append-asns_Makes :
    (path : AsPath) (l : List Seg) (xs : List ℕ)
    → IsPath path l
    → IsOwned path
    → All IsWord xs
    → 0 < length xs
    → length path.data_bytes + 5 * length xs < uint16_max
    → Makes (append path type_asn xs) (l ++ map asn xs)
unfolding append
append-asns_Makes path l xs p o v some_xs short =
    let n : ℕ = length path.data_bytes + 5 * length xs in
    let (all, size, alloc) =
      append_asns-IsPath xs (with_room path n) l (IsPath-with_room path n l p) v (omega arith) in
    let fits : leb uint16_max n ≡ false = ground arith in
    let own : (path.data_alloc_len == uint16_max) ≡ false = ==_ne _ _ o.0 in
    let room : ltb (if ltb path.data_alloc_len n then n else path.data_alloc_len)
          (length path.data_bytes + (if (5 * length xs) == 0 then 1 else 5 * length xs))
        ≡ false =
      ground (arith, some_xs) in
    (
      append_asns (with_room path n) xs,
      rw (fits, own, room),
      all,
      (ground (arith, alloc, o.0), ground (arith, alloc, size)),
    )

append-set_Makes :
    (path : AsPath) (l : List Seg) (type : ℕ) (xs : List ℕ)
    → IsPath path l
    → IsOwned path
    → IsSeg (asn_set type xs)
    → length path.data_bytes + (2 + 4 * length xs) < uint16_max
    → Makes (append path type xs) (l ++ (asn_set type xs ∷ []))
unfolding append append_set
append-set_Makes path l type xs p o v short =
    let n : ℕ = length path.data_bytes + (2 + 4 * length xs) in
    let all =
      add_seg-IsPath (with_room path n) l (asn_set type xs) (IsPath-with_room path n l p) v
        (omega arith) in
    let fits : leb uint16_max n ≡ false = ground arith in
    let own : (path.data_alloc_len == uint16_max) ≡ false = ==_ne _ _ o.0 in
    let no_asn : (type == type_asn) ≡ false = ==_ne _ _ v.0 in
    let count : length xs % 256 ≡ length xs = omega (arith, v.1) in
    let byte : type % 256 ≡ type = omega (arith, v.3) in
    let room : ltb (if ltb path.data_alloc_len n then n else path.data_alloc_len)
          (length path.data_bytes + (if (2 + 4 * length xs) == 0 then 1 else 2 + 4 * length xs))
        ≡ false =
      ground arith in
    let longer = length-append path.data_bytes (seg_bytes (asn_set type xs)) in
    (
      add_seg (with_room path n) (asn_set type xs),
      rw (no_asn, fits, own, room, count, byte) (unfold add_seg seg_bytes in refl),
      all,
      unfold add_seg in
          (ground (arith, o.0), ground (arith, longer, length-seg_bytes (asn_set type xs))),
    )

words_of_segs : (xs : List ℕ) → All IsSeg (map asn xs) → All IsWord xs
words_of_segs [] v = tt
words_of_segs (x ∷ xs) v = (v.0, words_of_segs xs v.1)

length-map_asn : (xs : List ℕ) → length (map asn xs) ≡ length xs
length-map_asn [] = refl
length-map_asn (x ∷ xs) = omega (arith, length-map_asn xs)

-- Take a path in its own memory that holds some segments, a type and ASNs that fit their fields,
-- at least one of them for a sequence, and fewer than 2 ^ 16 - 1 bytes in all. Then the append
-- succeeds and leaves such a path, with the new segments after those it held: one for each ASN of
-- a sequence, or one with all of them.
pub append-Makes :
    (path : AsPath) (l : List Seg) (type : ℕ) (xs : List ℕ)
    → IsPath path l
    → IsOwned path
    → All IsSeg (new_segs type xs)
    → 0 < length (new_segs type xs)
    → length path.data_bytes + added_bytes type xs < uint16_max
    → Makes (append path type xs) (l ++ new_segs type xs)
unfolding new_segs
append-Makes path l type xs p o v some_new short = elim (Bool-cases (type == type_asn)) [
  | inl sequence ↦
      let words : All IsSeg (map asn xs) = rw sequence at v in
      let some_xs : 0 < length (map asn xs) = rw sequence at some_new in
      let room : length path.data_bytes + 5 * length xs < uint16_max = rw sequence at short in
      rw ((==_iff type type_asn).0 sequence) (
        append-asns_Makes path l xs p o (words_of_segs xs words)
          (omega (arith, some_xs, length-map_asn xs)) room)
  | inr other ↦
      let seg : All IsSeg (asn_set type xs ∷ []) = rw other at v in
      let room : length path.data_bytes + (2 + 4 * length xs) < uint16_max = rw other at short in
      rw other (append-set_Makes path l type xs p o seg.0 room)
]
