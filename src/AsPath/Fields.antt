-- ===== src/AsPath/Fields.antt =====
-- The fields of an AS path agree with its bytes: what the iterator, the origin and the filling from
-- data of lib/utils/bgpstream_utils_as_path.c come to.
use libbgpstream.Prelude.{
  ℕ, suc, ◌%◌, ◌≤◌, ◌<◌, ◌≡◌, ◌≢◌, inl, inr, Bool-cases, ne_of_==, refl, sym, ap, ◌∙◌, ◌↔◌,
  if◌then◌else◌, true, false, Option, none, some, List, [], ◌∷◌, arith, ◌==◌, ltb, length, All,
}
use libbgpstream.AsPath.{
  Seg, AsPath, uint16_max, segs, get_origin_seg, update_fields, populate_from_data,
  populate_from_data_zc, clear,
}
use libbgpstream.AsPath.Equal.{bytes_equal, path_equal}
use libbgpstream.AsPath.Segments.{IsSeg, segs_bytes}
use libbgpstream.AsPath.Walk.{
  origin_from, segs_from-bytes, update_loop-bytes, read_seg-origin, last_of, sizeof_seg_pos,
  length_of_cons,
}

-- The path holds these segments, and its fields say so.
pub record IsPath (path : AsPath) (l : List Seg) : Type 0 where
  pub held : path.data_bytes ≡ segs_bytes l
  pub valid : All IsSeg l
  pub short : length path.data_bytes < 65536
  pub counted : path.seg_cnt ≡ length l % 65536
  pub origin : path.origin_offset ≡ origin_from 0 uint16_max l

abbrev pub last? : List Seg → Option Seg
last? [] = none
last? (s ∷ l) = some (last_of s l)

segs-bytes :
    (path : AsPath) (l : List Seg)
    → path.data_bytes ≡ segs_bytes l
    → All IsSeg l
    → length path.data_bytes < 65536
    → segs path ≡ some l
unfolding segs
segs-bytes path l e v short =
    segs_from-bytes (suc (length path.data_bytes)) path [] 0 l e refl v short
      (omega (arith, ap length e))

segs-IsPath : (path : AsPath) (l : List Seg) → IsPath path l → segs path ≡ some l
segs-IsPath path l p = segs-bytes path l p.held p.valid p.short

get_origin_seg-IsPath :
    (path : AsPath) (l : List Seg) → IsPath path l → get_origin_seg path ≡ last? l
unfolding get_origin_seg
get_origin_seg-IsPath path [] p =
    let none_left : (length path.data_bytes == 0) ≡ true = rw p.held (unfold segs_bytes in refl) in
    rw none_left
get_origin_seg-IsPath path (s ∷ l) p =
    let some_left : (length path.data_bytes == 0) ≡ false =
      ground (arith, ap length p.held, length_of_cons s l, sizeof_seg_pos s) in
    rw (some_left, p.origin)
      (read_seg-origin path.data_bytes [] 0 uint16_max s l p.held refl p.valid)

-- A walk goes from the first segment to the last, the length is their number, on 16 bits, and the
-- origin is the last of them, if there is one.
abbrev pub Walks : AsPath → List Seg → Type 0
Walks path l =
    (segs path ≡ some l) × (get_origin_seg path ≡ last? l) × (path.seg_cnt ≡ length l % 65536)

pub walk-IsPath : (path : AsPath) (l : List Seg) → IsPath path l → Walks path l
walk-IsPath path l p = (segs-IsPath path l p, get_origin_seg-IsPath path l p, p.counted)

update_fields-IsPath :
    (path : AsPath) (l : List Seg)
    → path.data_bytes ≡ segs_bytes l
    → All IsSeg l
    → length path.data_bytes < 65536
    → path.origin_offset ≡ uint16_max
    → (path' : AsPath) × (update_fields path ≡ some path')
      × IsPath path' l
      × (path'.data_alloc_len ≡ path.data_alloc_len)
unfolding update_fields
update_fields-IsPath path l e v short o = (
  record path { seg_cnt = length l % 65536; origin_offset = origin_from 0 path.origin_offset l },
  update_loop-bytes (suc (length path.data_bytes)) (record path { seg_cnt = 0 }) [] 0 l e refl v
        short (omega (arith, ap length e)) (omega arith)
      ∙ ap
          (λ n.
            some (record path { seg_cnt = n; origin_offset = origin_from 0 path.origin_offset l }))
          (omega arith),
  record { held = e; valid = v; short = short; counted = refl; origin = rw o },
  refl,
)

-- Data that is a run of segments and shorter than 2 ^ 16 - 1 bytes fills a path, copied or not, with
-- those segments; the copy is in memory of the path's own, which is not marked as external and holds
-- it.
pub populate_from_data-IsPath :
    (path : AsPath) (l : List Seg)
    → All IsSeg l
    → length (segs_bytes l) < 65535
    → ((path' : AsPath) × (populate_from_data path (segs_bytes l) ≡ some path')
        × IsPath path' l
        × (length path'.data_bytes ≤ path'.data_alloc_len)
        × (path'.data_alloc_len ≢ uint16_max))
      × ((path' : AsPath) × (populate_from_data_zc path (segs_bytes l) ≡ some path')
          × IsPath path' l)
unfolding populate_from_data populate_from_data_zc
populate_from_data-IsPath path l v short = (copied, borrowed)
  where
    own : ℕ
    own = if path.data_alloc_len == uint16_max then 0 else path.data_alloc_len

    enough : ℕ
    enough = if ltb own (length (segs_bytes l)) then length (segs_bytes l) else own

    not_external : enough ≢ uint16_max
    not_external z = elim (Bool-cases (path.data_alloc_len == uint16_max)) [
      | inl outside ↦ ground arith
      | inr inside ↦ ground (arith, ne_of_== path.data_alloc_len uint16_max inside)
    ]

    copied :
        (path' : AsPath) × (populate_from_data path (segs_bytes l) ≡ some path')
        × IsPath path' l
        × (length path'.data_bytes ≤ path'.data_alloc_len)
        × (path'.data_alloc_len ≢ uint16_max)
    copied =
        let (path', e, p, same) =
          update_fields-IsPath
            (record (clear path) { data_alloc_len = enough; data_bytes = segs_bytes l }) l refl v
            (omega arith) refl in
        (path', e, p, rw (same, p.held) (ground arith), λ z. not_external (sym same ∙ z))

    borrowed :
        (path' : AsPath) × (populate_from_data_zc path (segs_bytes l) ≡ some path') × IsPath path' l
    borrowed =
        let (path', e, p, same) =
          update_fields-IsPath
            (record (clear path) { data_alloc_len = uint16_max; data_bytes = segs_bytes l }) l refl
            v (omega arith) refl in
        (path', e, p)

-- A path that is filled, copied or not, with data that is a run of segments and shorter than
-- 2 ^ 16 - 1 bytes, is walked from the first of those segments to the last, its length is their
-- number, on 16 bits, and its origin is the last of them, if there is one.
pub populate_from_data-walk :
    (path : AsPath) (l : List Seg)
    → All IsSeg l
    → length (segs_bytes l) < 65535
    → ((path' : AsPath) × (populate_from_data path (segs_bytes l) ≡ some path') × Walks path' l)
      × ((path' : AsPath) × (populate_from_data_zc path (segs_bytes l) ≡ some path')
          × Walks path' l)
populate_from_data-walk path l v short =
    let ((copy, e, p, room, own), (view, f, q)) = populate_from_data-IsPath path l v short in
    ((copy, e, walk-IsPath copy l p), (view, f, walk-IsPath view l q))

bytes_equal_iff : (xs ys : List ℕ) → (bytes_equal xs ys ≡ true) ↔ (xs ≡ ys)
unfolding bytes_equal
bytes_equal_iff [] [] = (λ e. refl, λ e. refl)
bytes_equal_iff [] (y ∷ ys) = (λ e. cc, λ e. cc)
bytes_equal_iff (x ∷ xs) [] = (λ e. cc, λ e. cc)
bytes_equal_iff (x ∷ xs) (y ∷ ys) =
    let rest = bytes_equal_iff xs ys in (λ e. ground (arith, rest), λ e. ground (arith, rest))

-- Two paths that hold segments are equal exactly if they hold the same ones.
pub path_equal_iff :
    (path1 path2 : AsPath) (l1 l2 : List Seg)
    → IsPath path1 l1
    → IsPath path2 l2
    → (path_equal path1 path2 ≡ true) ↔ (l1 ≡ l2)
unfolding path_equal
path_equal_iff path1 path2 l1 l2 p1 p2 = (to, from)
  where
    to : path_equal path1 path2 ≡ true → l1 ≡ l2
    to e =
        let equal : bytes_equal path1.data_bytes path2.data_bytes ≡ true = ground (arith, e) in
        let same = (bytes_equal_iff path1.data_bytes path2.data_bytes).0 equal in
        let other : segs path1 ≡ some l2 = segs-bytes path1 l2 (same ∙ p2.held) p2.valid p1.short in
        cc (segs-IsPath path1 l1 p1, other)

    from : l1 ≡ l2 → path_equal path1 path2 ≡ true
    from e =
        let same : path1.data_bytes ≡ path2.data_bytes = p1.held ∙ ap segs_bytes e ∙ sym p2.held in
        ground (arith, ap length same, (bytes_equal_iff path1.data_bytes path2.data_bytes).1 same)
