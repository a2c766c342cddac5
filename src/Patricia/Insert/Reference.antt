-- ===== src/Patricia/Insert/Reference.antt =====
-- Insertion from the head down, with no way back: what the code is compared with. It decides at
-- each node by the number of leading bits that the keys share.
use libbgpstream.Prelude.{ℕ, ◌≡◌, sym, ◌∙◌, true, ◌||◌, ◌==◌, if◌then◌else◌, arith}
use libbgpstream.Key.{Key, common, PrefixOf-full, PrefixOf-of_common, key_eq}
use libbgpstream.Pfx.{Pfx, key}
use libbgpstream.Pfx.Keys.{length-key}
use libbgpstream.Patricia.Tree.{Node, Tree, null, node}
use libbgpstream.Patricia.Tree.Shape.{member}
use libbgpstream.Patricia.Insert.{node_create, gluenode_create, bit_of}

-- A node for the prefix beside or above the node, which it is not below.
unfoldable pub part : Pfx → ℕ → Node → Tree → Tree → Tree
part pfx d i l r =
    if pfx.mask_len == d
    then if bit_of i.prefix pfx.mask_len
      then node (node_create pfx) null (node i l r)
      else node (node_create pfx) (node i l r) null
    else if bit_of pfx d
    then node (gluenode_create pfx d) (node i l r) (node (node_create pfx) null null)
    else node (gluenode_create pfx d) (node (node_create pfx) null null) (node i l r)

unfoldable pub ins : Pfx → Tree → Tree
ins pfx null = node (node_create pfx) null null
ins pfx (node i l r) =
    let d = common (key pfx) (key i.prefix) in
    let below =
      if bit_of pfx i.prefix.mask_len then node i l (ins pfx r) else node i (ins pfx l) r in
    if d == i.prefix.mask_len
    then if pfx.mask_len == d then node (record i { actual = true }) l r else below
    else part pfx d i l r

member-part :
    (pfx : Pfx) (d : ℕ) (i : Node) (l r : Tree) (k : Key)
    → member k (part pfx d i l r) ≡ (member k (node i l r) || key_eq (key pfx) k)
unfolding part gluenode_create member
member-part pfx d i l r k = ground arith

pub same_key :
    (p q : Pfx) → common (key p) (key q) ≡ q.mask_len → p.mask_len ≡ q.mask_len → key q ≡ key p
same_key p q c e =
    PrefixOf-full (key q) (key p) (PrefixOf-of_common (key p) (key q) (c ∙ sym (length-key q)))
      (length-key q ∙ sym e ∙ sym (length-key p))

-- After an insertion the tree holds what it held and the new prefix, and no other.
pub member-ins :
    (pfx : Pfx) (t : Tree) (k : Key) → member k (ins pfx t) ≡ (member k t || key_eq (key pfx) k)
unfolding ins member
member-ins pfx null k = ground arith
member-ins pfx (node i l r) k = ground (
  arith,
  member-part pfx (common (key pfx) (key i.prefix)) i l r k,
  same_key pfx i.prefix,
  member-ins pfx l k,
  member-ins pfx r k,
)
