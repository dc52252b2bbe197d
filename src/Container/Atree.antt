-- ===== src/Container/Atree.antt =====
-- sys/container/atree.c: Andersson's balanced search trees. The nodes are a tree of values, since no
-- two links of the code lead to one node but `nil`; keys and data are addresses, and 0 is NULL.
pub mod Entries
pub mod Balance
pub mod Order
pub mod Insert
pub mod Table
pub mod Remove
mod Tests
use Prim.Native.Nat.{Ordering}
use firedrake.Common.{
  ℕ, zero, suc, ◌+◌, ◌-◌, ◌*◌, Bool, true, false, Option, none, some, List, [], ◌∷◌, ◌&&◌, ◌||◌,
  ltb, ◌==◌, if◌then◌else◌, length, add32, sub32,
}

-- `atree_node_t`: the key, the data, the level and the two links. `nil` is the tree's node `nil`, of
-- level 0, whose links lead to itself.
pub data Node : Type 0 where
  nil : Node
  node : (key object level : ℕ) → (link0 link1 : Node) → Node

-- `atree_compare_t`: the sign of the int that it returns
abbrev pub Comparison : Type 0
Comparison = ℕ → ℕ → Ordering

pub record Atree : Type 0 where
  pub root : Node
  pub comparison : Comparison
  pub nodes : ℕ

-- `kAtreeMaxHeight`
abbrev pub max_height : ℕ
max_height = 64

abbrev pub level : Node → ℕ
level nil = 0
level (node k d v a b) = v

abbrev pub link1 : Node → Node
link1 nil = nil
link1 (node k d v a b) = b

abbrev pub is_nil : Node → Bool
is_nil nil = true
is_nil (node k d v a b) = false

-- `atree_skew`
pub skew : Node → Node
skew (node k d v (node k' d' v' a' b') b) =
    if v' == v && ltb 0 v
    then node k' d' v' a' (node k d v b' b)
    else node k d v (node k' d' v' a' b') b
skew n = n

-- `atree_split`
pub split : Node → Node
split (node k d v a (node k' d' v' a' b')) =
    if level b' == v && ltb 0 v
    then node k' d' (v' + 1) (node k d v a a') b'
    else node k d v a (node k' d' v' a' b')
split n = n

-- `atree_create`: whether `halloc` has memory for the tree, and for its node `nil`
pub create : (memory memory_nil : Bool) → Comparison → Option Atree
create memory memory_nil cmp =
    if memory && memory_nil then some (record { root = nil; comparison = cmp; nodes = 0 }) else none

-- `atree_count`
pub atree_count : Atree → ℕ
atree_count t = t.nodes

-- the loop of `atree_find` from a node on
pub find_from : Comparison → Node → ℕ → ℕ
find_from cmp nil key = 0
find_from cmp (node k d v a b) key = elim (cmp k key) [
  | Ordering.eq ↦ d
  | Ordering.lt ↦ find_from cmp b key
  | Ordering.gt ↦ find_from cmp a key
]

-- `atree_find`
pub find : Atree → ℕ → ℕ
find t key = find_from t.comparison t.root key

-- A node on the way down, with the link that was not taken, and whether link 1 was.
pub data Frame : Type 0 where
  frame : (key object level : ℕ) → (other : Node) → (direction : Bool) → Frame

-- `path[top - 1]->link[direction] = n`
pub plug : Frame → Node → Node
plug (frame k d v other true) n = node k d v other n
plug (frame k d v other false) n = node k d v n other

-- the first loop of `atree_insert`: the path, last node first
pub descend : Comparison → ℕ → Node → List Frame → List Frame
descend cmp key nil path = path
descend cmp key (node k d v a b) path = elim (cmp k key) [
  | Ordering.lt ↦ descend cmp key b (frame k d v a true ∷ path)
  | Ordering.eq ↦ descend cmp key a (frame k d v b false ∷ path)
  | Ordering.gt ↦ descend cmp key a (frame k d v b false ∷ path)
]

-- the second loop of `atree_insert`
pub climb : List Frame → Node → Node
climb [] n = n
climb (f ∷ path) n = climb path (split (skew (plug f n)))

-- `atree_createNode`, with memory
pub create_node : (object key : ℕ) → Node
create_node object key = node key object 1 nil nil

-- `atree_insert`, with memory for the node or without. `none` is a path that the array on the stack
-- cannot hold. The path of an empty tree is empty.
pub insert : (memory : Bool) → Atree → (object key : ℕ) → Option Atree
insert memory t object key =
    let path = descend t.comparison key t.root [] in
    if ltb max_height (length path)
    then none
    else if memory
    then some (record t { root = climb path (create_node object key); nodes = add32 t.nodes 1 })
    else some t

-- Where the first loop of `atree_remove` ends: at `nil`, with `depth` nodes above it, or at a node
-- with the key, and the path to it.
pub data Walk : Type 0 where
  missing : (depth : ℕ) → Walk
  found : List Frame → (key object level : ℕ) → (link0 link1 : Node) → Walk

pub walk : Comparison → ℕ → Node → List Frame → Walk
walk cmp key nil path = missing (length path)
walk cmp key (node k d v a b) path = elim (cmp k key) [
  | Ordering.eq ↦ found path k d v a b
  | Ordering.lt ↦ walk cmp key b (frame k d v a true ∷ path)
  | Ordering.gt ↦ walk cmp key a (frame k d v b false ∷ path)
]

-- the loop that looks for the heir, from a node that is given by its parts: the path, the heir's data
-- and its link 1
pub heir : (key object level : ℕ) → (link0 link1 : Node) → List Frame → List Frame × ℕ × Node
heir k d v nil b path = (path, d, b)
heir k d v (node k' d' v' a' b') b path = heir k' d' v' a' b' (frame k d v b false ∷ path)

abbrev pub set_level : Node → ℕ → Node
set_level nil v = nil
set_level (node k d _ a b) v = node k d v a b

-- `n->link[1] = f(n->link[1])`
abbrev pub on_link1 : (Node → Node) → Node → Node
on_link1 f nil = nil
on_link1 f (node k d v a b) = node k d v a (f b)

-- the `if` of the last loop of `atree_remove`
pub rebalance : Node → Node
rebalance nil = nil
rebalance (node k d v a b) =
    if ltb (level a) (v - 1) || ltb (level b) (v - 1)
    then on_link1 split (
        split (
          on_link1 (on_link1 skew) (
            on_link1 skew (
              skew
                (node k d (v - 1) a (if ltb (v - 1) (level b) then set_level b (v - 1) else b))))))
    else node k d v a b

-- the last loop of `atree_remove`
pub climb_back : List Frame → Node → Node
climb_back [] n = n
climb_back (f ∷ path) n = climb_back path (rebalance (plug f n))

-- The removal of a node without one of its links: `path` leads to it.
pub remove_single : List Frame → (link0 link1 : Node) → Node
remove_single [] a b = b
remove_single (f ∷ path) a b = climb_back (f ∷ path) (if is_nil a then b else a)

-- The removal of a node with both links: it takes the heir's data, and the heir goes.
pub remove_double : List Frame × ℕ × Node → Node
remove_double (path, object, rest) = climb_back path rest

-- the root after the removal of a node, and the number of entries that `path` held
pub unlink : List Frame → (key object level : ℕ) → (link0 link1 : Node) → Node × ℕ
unlink path k d v nil b = (remove_single path nil b, suc (length path))
unlink path k d v (node k1 d1 v1 a1 b1) nil =
    (remove_single path (node k1 d1 v1 a1 b1) nil, suc (length path))
unlink path k d v (node k1 d1 v1 a1 b1) (node k2 d2 v2 a2 b2) =
    let object = (heir k2 d2 v2 a2 b2 []).1 in
    let h = heir k2 d2 v2 a2 b2 (frame k object v (node k1 d1 v1 a1 b1) true ∷ path) in
    (remove_double h, length h.0)

-- what follows the first loop of `atree_remove`
pub finish : Atree → Walk → Option Atree
finish t (missing depth) =
    if is_nil t.root then some t else if ltb max_height (suc depth) then none else some t
finish t (found path k d v a b) =
    let done = unlink path k d v a b in
    if ltb max_height done.1
    then none
    else some (record t { root = done.0; nodes = sub32 t.nodes 1 })

-- `atree_remove`. `none` is a path that the array on the stack cannot hold.
pub remove : Atree → (key : ℕ) → Option Atree
remove t key = finish t (walk t.comparison key t.root [])

-- the loop of `atree_destroy`: the nodes that it frees, each by its key and data
pub destroy_from : (fuel : ℕ) → Node → List (ℕ × ℕ)
destroy_from fuel nil = []
destroy_from zero (node k d v a b) = []
destroy_from (suc fuel) (node k d v nil b) = (k, d) ∷ destroy_from fuel b
destroy_from (suc fuel) (node k d v (node k' d' v' a' b') b) =
    destroy_from fuel (node k' d' v' a' (node k d v b' b))

-- the number of nodes
pub size : Node → ℕ
size nil = 0
size (node k d v a b) = size a + size b + 1

-- `atree_destroy`. A node is turned to the right or freed, each once at most, so that twice the
-- number of nodes is fuel enough.
pub destroy : Atree → List (ℕ × ℕ)
destroy t = destroy_from (2 * size t.root) t.root
