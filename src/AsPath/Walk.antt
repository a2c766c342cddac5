-- ===== src/AsPath/Walk.antt =====
-- What an iterator and the origin meet on a path made of segments.
use libbgpstream.Prelude.{
  ℕ, zero, suc, ◌+◌, ◌%◌, ◌^◌, ◌≤◌, ◌<◌, ◌≡◌, sym, ap, ◌∙◌, false, some, List, [], ◌∷◌, ◌++◌, arith,
  ◌==◌, leb, length, drop, length-append, All,
}
use mathlib.Core.List.{append_assoc}
use libbgpstream.AsPath.{
  Seg, asn, asn_set, AsPath, end, seg, read_seg, sizeof_seg, get_next_seg, segs_from, update_loop,
}
use libbgpstream.AsPath.Segments.{
  IsSeg, seg_bytes, segs_bytes, read_seg-bytes, length-seg_bytes, drop-append,
}

pub sizeof_seg_pos : (s : Seg) → 2 ≤ sizeof_seg s
sizeof_seg_pos (asn x) = omega arith
sizeof_seg_pos (asn_set type xs) = omega arith

abbrev pub length_of : List Seg → ℕ
length_of l = length (segs_bytes l)

pub length_of_cons : (s : Seg) (l : List Seg) → length_of (s ∷ l) ≡ sizeof_seg s + length_of l
unfolding segs_bytes
length_of_cons s l = length-append (seg_bytes s) (segs_bytes l) ∙ omega (arith, length-seg_bytes s)

-- At the end of the data there is no segment.
get_next_seg-end : (path : AsPath) (o : ℕ) → length path.data_bytes ≡ o → get_next_seg path o ≡ end
unfolding get_next_seg
get_next_seg-end path o e = ground (arith, e)

-- Past the bytes `pre`, the next segment is the one that starts there.
get_next_seg-seg :
    (path : AsPath) (pre : List ℕ) (s : Seg) (l : List Seg)
    → path.data_bytes ≡ pre ++ segs_bytes (s ∷ l)
    → IsSeg s
    → length path.data_bytes < 65536
    → get_next_seg path (length pre) ≡ seg s (length pre + sizeof_seg s)
unfolding get_next_seg segs_bytes
get_next_seg-seg path pre s l e v short =
    let size : length path.data_bytes ≡ length pre + (sizeof_seg s + length_of l) =
      ap length e
      ∙ length-append pre (segs_bytes (s ∷ l))
      ∙ ap (λ n. length pre + n) (length_of_cons s l) in
    let some_data : (length path.data_bytes == 0) ≡ false =
      ground (arith, size, sizeof_seg_pos s) in
    let before_end : leb (length path.data_bytes) (length pre) ≡ false =
      ground (arith, size, sizeof_seg_pos s) in
    let no_wrap : (length pre + sizeof_seg s) % 2 ^ 16 ≡ length pre + sizeof_seg s =
      omega (arith, size) in
    rw (
      some_data,
      before_end,
      e,
      drop-append pre (segs_bytes (s ∷ l)),
      read_seg-bytes s (segs_bytes l) v,
      no_wrap,
    )

-- The same with the offset as a variable, and what the next round starts from.
get_next_seg-at :
    (path : AsPath) (pre : List ℕ) (o : ℕ) (s : Seg) (l : List Seg)
    → path.data_bytes ≡ pre ++ segs_bytes (s ∷ l)
    → length pre ≡ o
    → IsSeg s
    → length path.data_bytes < 65536
    → get_next_seg path o ≡ seg s (o + sizeof_seg s)
get_next_seg-at path pre o s l e at v short = rw (← at) (get_next_seg-seg path pre s l e v short)

next_bytes :
    (path : AsPath) (pre : List ℕ) (s : Seg) (l : List Seg)
    → path.data_bytes ≡ pre ++ segs_bytes (s ∷ l)
    → path.data_bytes ≡ (pre ++ seg_bytes s) ++ segs_bytes l
unfolding segs_bytes
next_bytes path pre s l e = e ∙ sym (append_assoc pre (seg_bytes s) (segs_bytes l))

next_offset :
    (pre : List ℕ) (o : ℕ) (s : Seg)
    → length pre ≡ o
    → length (pre ++ seg_bytes s) ≡ o + sizeof_seg s
next_offset pre o s at = length-append pre (seg_bytes s) ∙ omega (arith, length-seg_bytes s)

pub segs_from-bytes :
    (f : ℕ) (path : AsPath) (pre : List ℕ) (o : ℕ) (l : List Seg)
    → path.data_bytes ≡ pre ++ segs_bytes l
    → length pre ≡ o
    → All IsSeg l
    → length path.data_bytes < 65536
    → length_of l < f
    → segs_from f path o ≡ some l
unfolding segs_from
segs_from-bytes zero path pre o l e at v short h = absurd (omega arith)
segs_from-bytes (suc f) path pre o [] e at v short h =
    let ends : length path.data_bytes ≡ o =
      ap length e ∙ length-append pre (segs_bytes []) ∙ unfold segs_bytes in omega arith in
    rw (get_next_seg-end path o ends, segs_from)
segs_from-bytes (suc f) path pre o (s ∷ l) e at v short h =
    let further =
      segs_from-bytes f path (pre ++ seg_bytes s) (o + sizeof_seg s) l (next_bytes path pre s l e)
        (next_offset pre o s at) v.1 short (omega (arith, length_of_cons s l, sizeof_seg_pos s)) in
    rw (get_next_seg-at path pre o s l e at v.0 short, segs_from, further)

-- Where the last of the segments starts, if they start at `o`; `old` where there is none.
unfoldable pub origin_from : ℕ → ℕ → List Seg → ℕ
origin_from o old [] = old
origin_from o old (s ∷ l) = origin_from (o + sizeof_seg s) o l

pub update_loop-bytes :
    (f : ℕ) (path : AsPath) (pre : List ℕ) (o : ℕ) (l : List Seg)
    → path.data_bytes ≡ pre ++ segs_bytes l
    → length pre ≡ o
    → All IsSeg l
    → length path.data_bytes < 65536
    → length_of l < f
    → path.seg_cnt < 65536
    → update_loop f path o o
      ≡ some (record path {
        seg_cnt = (path.seg_cnt + length l) % 2 ^ 16;
        origin_offset = origin_from o path.origin_offset l;
      })
unfolding update_loop origin_from
update_loop-bytes zero path pre o l e at v short h c = absurd (omega arith)
update_loop-bytes (suc f) path pre o [] e at v short h c =
    let ends : length path.data_bytes ≡ o =
      ap length e ∙ length-append pre (segs_bytes []) ∙ unfold segs_bytes in omega arith in
    let same : (path.seg_cnt + 0) % 2 ^ 16 ≡ path.seg_cnt = omega arith in
    rw (get_next_seg-end path o ends, update_loop)
      (ap (λ n. some (record path { seg_cnt = n })) (sym same))
update_loop-bytes (suc f) path pre o (s ∷ l) e at v short h c =
    let size : length path.data_bytes ≡ o + (sizeof_seg s + length_of l) =
      ap length e
      ∙ length-append pre (segs_bytes (s ∷ l))
      ∙ ap (λ n. length pre + n) (length_of_cons s l)
      ∙ omega arith in
    let no_wrap : (o + sizeof_seg s) % 2 ^ 16 ≡ o + sizeof_seg s = omega (arith, size) in
    let path' : AsPath = record path { origin_offset = o; seg_cnt = (path.seg_cnt + 1) % 2 ^ 16 } in
    let further =
      update_loop-bytes f path' (pre ++ seg_bytes s) (o + sizeof_seg s) l
        (next_bytes path pre s l e) (next_offset pre o s at) v.1 short
        (omega (arith, length_of_cons s l, sizeof_seg_pos s)) (omega arith) in
    rw (get_next_seg-at path pre o s l e at v.0 short, update_loop, no_wrap, further)
      (ap
        (λ n.
          some (record path { seg_cnt = n; origin_offset = origin_from (o + sizeof_seg s) o l }))
        (omega arith))

abbrev pub last_of : Seg → List Seg → Seg
last_of s [] = s
last_of s (t ∷ l) = last_of t l

-- The origin's offset leads to the last segment.
pub read_seg-origin :
    (bytes pre : List ℕ) (o old : ℕ) (s : Seg) (l : List Seg)
    → bytes ≡ pre ++ segs_bytes (s ∷ l)
    → length pre ≡ o
    → All IsSeg (s ∷ l)
    → read_seg (drop (origin_from o old (s ∷ l)) bytes) ≡ some (last_of s l)
unfolding origin_from segs_bytes
read_seg-origin bytes pre o old s [] e at v =
    rw (e, ← at, drop-append pre (segs_bytes (s ∷ []))) (read_seg-bytes s [] v.0)
read_seg-origin bytes pre o old s (t ∷ l) e at v =
    read_seg-origin bytes (pre ++ seg_bytes s) (o + sizeof_seg s) o t l
      (e ∙ sym (append_assoc pre (seg_bytes s) (segs_bytes (t ∷ l)))) (next_offset pre o s at) v.1

pub origin_from-snoc :
    (o old : ℕ) (l : List Seg) (s : Seg) → origin_from o old (l ++ (s ∷ [])) ≡ o + length_of l
unfolding origin_from
origin_from-snoc o old [] s = unfold segs_bytes in omega arith
origin_from-snoc o old (t ∷ l) s =
    origin_from-snoc (o + sizeof_seg t) o l s ∙ omega (arith, length_of_cons t l)
