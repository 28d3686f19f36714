-- ===== src/Artifacts/Tree.antt =====
-- Directory trees: the paths below a root, as lists of parts, with what is there.
use comm_guard.Prelude.{
  ◌≡◌, refl, String, Bool, true, false, ◌&&◌, Option, none, some, List, [], ◌∷◌, ◌++◌, ◌==◌,
  str_eq→eq, Bool-cases, Option-cases, inl, inr, eq_refl, arith, if◌then◌else◌, Exception, Result,
  ok, err,
}

abbrev pub FilePath : Type 0
FilePath = List String

pub data Node : Type 0 where
  file : String → Node
  folder : Node

abbrev pub Tree : Type 0
Tree = List (FilePath × Node)

unfoldable pub same_path : FilePath → FilePath → Bool
same_path [] [] = true
same_path (a ∷ rest) (b ∷ others) = a == b && same_path rest others
same_path _ _ = false

unfoldable pub find : Tree → FilePath → Option Node
unfolding same_path
find [] path = none
find ((p, n) ∷ rest) path = let found = find rest path in if same_path p path then some n else found

-- The root is a folder.
unfoldable pub node_at : Tree → FilePath → Option Node
unfolding find
node_at t [] = some folder
node_at t (p ∷ path) = find t (p ∷ path)

-- `open` of a path that must not exist, with the content that is written.
unfoldable pub create : Tree → FilePath → String → Result Tree
unfolding node_at
create t path content = elim (node_at t path) [
  | none ↦ ok ((path, file content) ∷ t)
  | some n ↦ err (Exception.file_exists_error "file exists")
]

-- `mkdir(parents=True, exist_ok=True)` of the folders from `made` on.
unfoldable pub make_dirs : Tree → FilePath → FilePath → Result Tree
unfolding node_at
make_dirs t made [] = ok t
make_dirs t made (p ∷ rest) =
    let path = made ++ (p ∷ []) in
    let existing = make_dirs t path rest in
    let added = make_dirs ((path, folder) ∷ t) path rest in
    elim (node_at t path) [
      | none ↦ added
      | some folder ↦ existing
      | some (file content) ↦ err (Exception.file_exists_error "file exists")
    ]

-- `path.parent`
abbrev pub parent : FilePath → FilePath
parent [] = []
parent (p ∷ []) = []
parent (p ∷ q ∷ rest) = p ∷ parent (q ∷ rest)

-- What was there is there still.
abbrev pub Extends : Tree → Tree → Type 0
Extends t t' = (path : FilePath) (n : Node) → node_at t path ≡ some n → node_at t' path ≡ some n

same_path→eq : (a b : FilePath) → same_path a b ≡ true → a ≡ b
unfolding same_path
same_path→eq [] [] h = refl
same_path→eq [] (b ∷ bs) h = cc
same_path→eq (a ∷ rest) [] h = cc
same_path→eq (a ∷ rest) (b ∷ bs) h =
    let first : a ≡ b = str_eq→eq a b (ground arith) in
    let others = same_path→eq rest bs (ground arith) in rw (first, others) refl

pub same_path_self : (a : FilePath) → same_path a a ≡ true
unfolding same_path
same_path_self [] = refl
same_path_self (a ∷ rest) = rw (eq_refl a) (same_path_self rest)

-- A new entry at a path where nothing is.
add-Extends :
    (t : Tree) (path : FilePath) (n : Node) → node_at t path ≡ none → Extends t ((path, n) ∷ t)
unfolding node_at find
add-Extends t path n free [] k h = h
add-Extends t path n free (q ∷ rest) k h = elim (Bool-cases (same_path path (q ∷ rest))) [
  | inl same ↦ let e : path ≡ q ∷ rest = same_path→eq path (q ∷ rest) same in cc (rw e at free, h)
  | inr other ↦ rw other h
]

pub create-Extends :
    (t t' : Tree) (path : FilePath) (content : String)
    → create t path content ≡ ok t'
    → Extends t t'
unfolding create
create-Extends t t' path content h = elim (Option-cases (node_at t path)) [
  | inl free ↦
      let same : (path, file content) ∷ t ≡ t' = cc (rw (free, create) at h) in
      rw (← same) (add-Extends t path (file content) free)
  | inr (n, taken) ↦ cc (rw (taken, create) at h)
]

-- The new file has its content, and nothing was there before.
pub create-file :
    (t t' : Tree) (path : FilePath) (content : String)
    → create t path content ≡ ok t'
    → (node_at t path ≡ none) × (node_at t' path ≡ some (file content))
unfolding create node_at find
create-file t t' [] content h = cc
create-file t t' (p ∷ path) content h = elim (Option-cases (find t (p ∷ path))) [
  | inl free ↦
      let same : (p ∷ path, file content) ∷ t ≡ t' = cc (rw (free, create) at h) in
      (free, rw (← same) (rw (same_path_self (p ∷ path)) refl))
  | inr (n, taken) ↦ cc (rw (taken, create) at h)
]

pub make_dirs-Extends :
    (t t' : Tree) (made rest : FilePath) → make_dirs t made rest ≡ ok t' → Extends t t'
unfolding make_dirs
make_dirs-Extends t t' made [] h = let same : t ≡ t' = cc h in rw (← same) (λ path n e. e)
make_dirs-Extends t t' made (p ∷ rest) h =
    let path = made ++ (p ∷ []) in
    elim (Option-cases (node_at t path)) [
      | inl free ↦
          let later =
            make_dirs-Extends ((path, folder) ∷ t) t' path rest (rw (free, make_dirs) at h) in
          λ q n e. later q n (add-Extends t path folder free q n e)
      | inr (folder, taken) ↦ make_dirs-Extends t t' path rest (rw (taken, make_dirs) at h)
      | inr (file content, taken) ↦ cc (rw (taken, make_dirs) at h)
    ]
