-- ===== src/AsPath/Merge/Sequences.antt =====
-- handle_as_paths of lib/formats/bgpstream_parsebgp_common.c on paths of sequences.
use libbgpstream.Prelude.{
  ℕ, zero, suc, ◌+◌, ◌-◌, ◌*◌, ◌≤◌, ◌<◌, ◌≡◌, ◌≢◌, refl, ap, subst, ◌∙◌, inl, inr, true, false,
  some, List, [], ◌∷◌, ◌++◌, map, arith, ltb, leb, ◌==◌, length, take, All, Bool-cases, ==_iff,
  length-append, ◌>>=◌,
}
use mathlib.Core.List.{append_assoc, append-nil}
use libbgpstream.AsPath.{Seg, asn, AsPath, clear, type_asn, uint16_max}
use libbgpstream.AsPath.Segments.{IsWord, seg_bytes, segs_bytes, segs_bytes-append}
use libbgpstream.AsPath.Walk.{origin_from}
use libbgpstream.AsPath.Fields.{IsPath}
use libbgpstream.AsPath.Append.{IsOwned, append-asns_Makes}
use libbgpstream.AsPath.Merge.Lists.{take-within, take-beyond, take-all, length-take, All-take}
use libbgpstream.AsPath.Merge.{
  as_seq, PbgpSeg, PbgpPath, Handled, append_seg, after_append, append_typed, to_append,
  append_loop, append_segments, append_all, then_all, handle_as_paths,
}

abbrev pub flat : List (List ℕ) → List ℕ
flat [] = []
flat (xs ∷ rest) = xs ++ flat rest

abbrev pub sequences : List (List ℕ) → List PbgpSeg
sequences [] = []
sequences (xs ∷ rest) = record { type = as_seq; asns = xs } ∷ sequences rest

-- A path of sequences, with the number of its ASNs.
abbrev pub of_sequences : List (List ℕ) → PbgpPath
of_sequences seqs = record { path_segs = sequences seqs; asns_cnt = length (flat seqs) }

-- A sequence is not empty, and its ASNs fit 32 bits.
abbrev pub IsSequence : List ℕ → Type 0
IsSequence xs = (0 < length xs) × All IsWord xs

length-asns : (xs : List ℕ) → length (segs_bytes (map asn xs)) ≡ 5 * length xs
unfolding segs_bytes seg_bytes
length-asns [] = omega arith
length-asns (x ∷ xs) = omega (arith, length-asns xs)

map-append : (xs ys : List ℕ) → map asn (xs ++ ys) ≡ map asn xs ++ map asn ys
map-append [] ys = refl
map-append (x ∷ xs) ys = ap (λ l. asn x ∷ l) (map-append xs ys)

-- The call succeeds, and leaves a path in its own memory that holds these segments.
abbrev pub Leaves : Handled → List Seg → Type 0
Leaves result l = (path : AsPath) × (result ≡ some (path, true)) × IsPath path l × IsOwned path

length-longer :
    (path longer : AsPath) (l : List Seg) (xs : List ℕ)
    → IsPath path l
    → IsPath longer (l ++ map asn xs)
    → length longer.data_bytes ≡ length path.data_bytes + 5 * length xs
length-longer path longer l xs p p' =
    ap length p'.held
    ∙ ap length (segs_bytes-append l (map asn xs))
    ∙ length-append (segs_bytes l) (segs_bytes (map asn xs))
    ∙ omega (arith, ap length p.held, length-asns xs)

-- A sequence is appended, and then the rest of the loop comes to its segments.
append_typed-Leaves :
    (path : AsPath) (l more : List Seg) (xs : List ℕ) (k : AsPath → Handled)
    → IsPath path l
    → IsOwned path
    → IsSequence xs
    → length path.data_bytes + 5 * length xs < uint16_max
    → ((longer : AsPath)
        → IsPath longer (l ++ map asn xs)
        → IsOwned longer
        → length longer.data_bytes ≡ length path.data_bytes + 5 * length xs
        → Leaves (k longer) ((l ++ map asn xs) ++ more))
    → Leaves (append_typed path (some type_asn) xs k) ((l ++ map asn xs) ++ more)
append_typed-Leaves path l more xs k p o s short go =
    let (longer, run, holds, own) = append-asns_Makes path l xs p o s.1 s.0 short in
    let (end_path, further, end_holds, end_own) =
      go longer holds own (length-longer path longer l xs p holds) in
    (end_path, ap (λ r. r >>= k) run ∙ further, end_holds, end_own)

append_all-Leaves :
    (seqs : List (List ℕ)) (path : AsPath) (l : List Seg)
    → IsPath path l
    → IsOwned path
    → All IsSequence seqs
    → length path.data_bytes + 5 * length (flat seqs) < uint16_max
    → Leaves (append_all (sequences seqs) path) (l ++ map asn (flat seqs))
unfolding append_all
append_all-Leaves [] path l p o s short = (path, refl, rw (append-nil l) p, o)
append_all-Leaves (xs ∷ rest) path l p o s short =
    let size = length-append xs (flat rest) in
    rw (map-append xs (flat rest), ← append_assoc l (map asn xs) (map asn (flat rest)))
      (append_typed-Leaves path l (map asn (flat rest)) xs (append_all (sequences rest)) p o s.0
        (omega (arith, size))
        (λ longer p' o' e.
          append_all-Leaves rest longer (l ++ map asn xs) p' o' s.1 (omega (arith, size, e))))

-- A sequence with fewer ASNs than are wanted is taken whole, another one up to what is wanted.
append_seg-whole :
    (path : AsPath) (xs : List ℕ) (left : ℕ) (k : AsPath → ℕ → Handled)
    → 0 < length xs
    → length xs ≤ left
    → append_seg path (record { type = as_seq; asns = xs }) left k
      ≡ append_typed path (some type_asn) xs (after_append (length xs) left k)
append_seg-whole path xs left k some_xs fits =
    let whole : leb (length xs) left ≡ true = ground arith in
    let n : to_append (record { type = as_seq; asns = xs }) left ≡ length xs =
      ground (arith, whole) in
    let positive : (length xs == 0) ≡ false = ground arith in rw (n, positive, take-all xs)

append_seg-part :
    (path : AsPath) (xs : List ℕ) (left : ℕ) (k : AsPath → ℕ → Handled)
    → 0 < left
    → left < length xs
    → append_seg path (record { type = as_seq; asns = xs }) left k
      ≡ append_typed path (some type_asn) (take left xs) (after_append left left k)
append_seg-part path xs left k some_left short =
    let n : to_append (record { type = as_seq; asns = xs }) left ≡ left = ground arith in
    let positive : (left == 0) ≡ false = ground arith in rw (n, positive)

done :
    (n left : ℕ) (k : AsPath → ℕ → Handled) (path : AsPath)
    → n ≡ left
    → after_append n left k path ≡ some (path, true)
done n left k path e = let same : (n == left) ≡ true = ground arith in rw same

on :
    (n left : ℕ) (k : AsPath → ℕ → Handled) (path : AsPath)
    → n < left
    → after_append n left k path ≡ k path (left - n)
on n left k path lt =
    let differs : (n == left) ≡ false = ground arith in
    let below : ltb left n ≡ false = ground arith in rw (differs, below)

-- After a sequence that was taken whole.
after_append-Leaves :
    (n left : ℕ) (k : AsPath → ℕ → Handled) (longer : AsPath) (m : List Seg) (f : List ℕ)
    → n ≤ left
    → IsPath longer m
    → IsOwned longer
    → (n < left → Leaves (k longer (left - n)) (m ++ map asn (take (left - n) f)))
    → Leaves (after_append n left k longer) (m ++ map asn (take (left - n) f))
after_append-Leaves n left k longer m f fits p o go = elim (Bool-cases (n == left)) [
  | inl same ↦
      let nothing : left - n ≡ 0 = ground (arith, same) in
      (longer, done n left k longer ((==_iff n left).0 same), rw (nothing, append-nil m) p, o)
  | inr differs ↦
      let below : n < left = ground (arith, differs) in rw (on n left k longer below) (go below)
]

append_loop-Leaves :
    (seqs : List (List ℕ)) (path : AsPath) (l : List Seg) (left : ℕ)
    → IsPath path l
    → IsOwned path
    → All IsSequence seqs
    → 0 < left
    → left ≤ length (flat seqs)
    → length path.data_bytes + 5 * left < uint16_max
    → Leaves (append_loop (sequences seqs) path left) (l ++ map asn (take left (flat seqs)))
unfolding append_loop
append_loop-Leaves [] path l left p o s some_left enough short = absurd (omega arith)
append_loop-Leaves (xs ∷ rest) path l left p o s some_left enough short =
    elim (Bool-cases (ltb left (length xs))) [
      | inl part ↦
          let less : left < length xs = ground arith in
          rw
            (
              append_seg-part path xs left (append_loop (sequences rest)) some_left less,
              take-within left xs (flat rest) (omega arith),
            )
            (subst (Leaves _) (append-nil (l ++ map asn (take left xs))) (
              append_typed-Leaves path l [] (take left xs) _ p o
                (omega (arith, length-take left xs (omega arith)), All-take left xs s.0.1)
                (omega (arith, length-take left xs (omega arith)))
                (λ longer p' o' e. (
                  longer,
                  done left left (append_loop (sequences rest)) longer refl,
                  rw (append-nil (l ++ map asn (take left xs))) p',
                  o',
                ))))
      | inr whole ↦
          let fits : length xs ≤ left = ground arith in
          rw
            (
              append_seg-whole path xs left (append_loop (sequences rest)) s.0.0 fits,
              take-beyond left xs (flat rest) fits,
              map-append xs (take (left - length xs) (flat rest)),
              ← append_assoc l (map asn xs) (map asn (take (left - length xs) (flat rest))),
            )
            (append_typed-Leaves path l (map asn (take (left - length xs) (flat rest))) xs _ p o s.0
              (omega arith)
              (λ longer p' o' e.
                after_append-Leaves (length xs) left (append_loop (sequences rest)) longer
                  (l ++ map asn xs) (flat rest) fits p' o'
                  (λ below.
                    append_loop-Leaves rest longer (l ++ map asn xs) (left - length xs) p' o' s.1
                      (omega arith) (omega (arith, length-append xs (flat rest)))
                      (omega (arith, e)))))
    ]

clear-IsPath : (path : AsPath) → IsPath (clear path) []
clear-IsPath path = record {
  held = unfold segs_bytes in refl;
  valid = tt;
  short = omega arith;
  counted = refl;
  origin = unfold origin_from in refl;
}

append_segments-Leaves :
    (seqs : List (List ℕ)) (path : AsPath) (n : ℕ)
    → path.data_alloc_len ≢ uint16_max
    → All IsSequence seqs
    → n ≤ length (flat seqs)
    → 5 * n < uint16_max
    → Leaves (append_segments (clear path) (of_sequences seqs) n) (map asn (take n (flat seqs)))
unfolding append_segments
append_segments-Leaves seqs path zero own s enough short =
    (clear path, refl, clear-IsPath path, (own, omega arith))
append_segments-Leaves seqs path (suc n) own s enough short =
    let some_left : (suc n == 0) ≡ false = ground arith in
    rw some_left (
      append_loop-Leaves seqs (clear path) [] (suc n) (clear-IsPath path) (own, omega arith) s
        (omega arith) enough (omega arith))

-- Let AS_PATH and AS4_PATH be sequences that are not empty, of ASNs of 32 bits, AS4_PATH with no
-- more ASNs than AS_PATH, so few that the path stays below 2 ^ 16 - 1 bytes, and the path's memory
-- its own. Then the path is as long as AS_PATH: it comes to hold one segment for each of the first
-- ASNs of AS_PATH, those that AS4_PATH does not replace, and then one for each ASN of AS4_PATH.
pub handle_as_paths-merged :
    (path : AsPath) (seqs seqs4 : List (List ℕ))
    → path.data_alloc_len ≢ uint16_max
    → All IsSequence seqs
    → All IsSequence seqs4
    → length (flat seqs4) ≤ length (flat seqs)
    → 5 * length (flat seqs) < uint16_max
    → Leaves (handle_as_paths path (some (of_sequences seqs)) (some (of_sequences seqs4))) (
        map asn (take (length (flat seqs) - length (flat seqs4)) (flat seqs))
        ++ map asn (flat seqs4))
unfolding handle_as_paths
handle_as_paths-merged path seqs seqs4 own s s4 fewer short =
    let n : ℕ = length (flat seqs) - length (flat seqs4) in
    let trusted : leb (length (flat seqs4)) (length (flat seqs)) ≡ true = ground arith in
    let (first, run, holds, first_own) =
      append_segments-Leaves seqs path n own s (omega arith) (omega arith) in
    let size : length first.data_bytes ≡ 5 * n =
      ap length holds.held
      ∙ length-asns (take n (flat seqs))
      ∙ ap (λ k. 5 * k) (length-take n (flat seqs) (omega arith)) in
    let (merged, further, merged_holds, merged_own) =
      append_all-Leaves seqs4 first (map asn (take n (flat seqs))) holds first_own s4
        (omega (arith, size)) in
    (
      merged,
      rw trusted (ap (λ r. then_all r (of_sequences seqs4)) run ∙ further),
      merged_holds,
      merged_own,
    )
