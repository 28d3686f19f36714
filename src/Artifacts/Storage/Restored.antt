-- ===== src/Artifacts/Storage/Restored.antt =====
-- What `restore_archive` leaves.
use comm_guard.Prelude.{
  ◌≡◌, refl, ◌⊎◌, inl, inr, ℕ, ◌≤◌, String, true, false, not, Option, none, some, List, [], ◌∷◌,
  ◌==◌, str_eq→eq, Bool-cases, arith, All, length, is_empty, contains, ltb, Exception, ok, err,
  ◌>>=◌, >>=-eq-ok, raise_if-then, Result-cases,
}
use comm_guard.Artifacts.Tree.{
  FilePath, Tree, file, node_at, make_dirs, parent, Extends, create-Extends, create-file,
  make_dirs-Extends,
}
use comm_guard.Artifacts.Storage.{
  Kind, regular, directory, symlink, hardlink, device, Member, Archives, Limits, total_size,
  is_link, is_supported, is_unsafe, invalid, check_members, extract_member, extract_members,
  restore_members, restore_archive,
}

-- A regular member was read and is at its path with its content.
abbrev Holds : Tree → FilePath → Kind → Type 0
Holds t path (regular size content) =
    (c : String) × (content ≡ some c) × (node_at t path ≡ some (file c))
Holds t path _ = Unit {0}

Holds-Extends :
    (t t' : Tree) (path : FilePath) (k : Kind) → Extends t t' → Holds t path k → Holds t' path k
Holds-Extends t t' path (regular size content) h (c, read, there) = (c, read, h path (file c) there)
Holds-Extends t t' path directory h there = tt
Holds-Extends t t' path symlink h there = tt
Holds-Extends t t' path hardlink h there = tt
Holds-Extends t t' path device h there = tt

module _ (lib : Archives) where
  -- The path of a member stays below the destination, and the member is a file or a directory.
  pub record IsSafe (m : Member) : Type 0 where
    pub relative : lib.is_absolute m.name ≡ false
    pub below : contains (lib.parts m.name) ".." ≡ false
    pub supported : is_supported m.kind ≡ true

  check_members-IsSafe :
      (seen : List FilePath) (ms : List Member) {u : Unit {0}}
      → check_members lib seen ms ≡ ok u
      → All IsSafe ms
  unfolding check_members
  check_members-IsSafe seen [] h = tt
  check_members-IsSafe seen (m ∷ rest) h =
      let (safe, h1) = raise_if-then (is_unsafe lib seen m) _ _ h in
      let (_, h2) = raise_if-then (is_link m.kind) _ _ h1 in
      let (known, h3) = raise_if-then (not (is_supported m.kind)) _ _ h2 in
      (
        record { relative = ground arith; below = ground arith; supported = ground arith },
        check_members-IsSafe (lib.parts m.name ∷ seen) rest h3,
      )

  extract_file :
      (t t' : Tree) (name : String) (size : ℕ) (content : Option String)
      → extract_member lib t (record { name = name; kind = regular size content }) ≡ ok t'
      → Extends t t' × Holds t' (lib.parts name) (regular size content)
  unfolding extract_member
  extract_file t t' name size none h =
      let (made, e, h1) = >>=-eq-ok (make_dirs t [] (parent (lib.parts name))) _ h in cc h1
  extract_file t t' name size (some c) h =
      let path = lib.parts name in
      let (made, e, h1) = >>=-eq-ok (make_dirs t [] (parent path)) _ h in
      let grown = make_dirs-Extends t made [] (parent path) e in
      let (_, there) = create-file made t' path c h1 in
      (λ q n k. create-Extends made t' path c h1 q n (grown q n k), (c, refl, there))

  extract_other :
      (t t' : Tree) (path : FilePath) (e : Exception)
      → (make_dirs t [] path >>= λ (made : Tree). err e) ≡ ok t'
      → Extends t t'
  extract_other t t' path e h = let (made, _, h1) = >>=-eq-ok (make_dirs t [] path) _ h in cc h1

  extract_kind-Holds :
      (t t' : Tree) (name : String) (k : Kind)
      → extract_member lib t (record { name = name; kind = k }) ≡ ok t'
      → Extends t t' × Holds t' (lib.parts name) k
  unfolding extract_member
  extract_kind-Holds t t' name (regular size content) h = extract_file t t' name size content h
  extract_kind-Holds t t' name directory h = (make_dirs-Extends t t' [] (lib.parts name) h, tt)
  extract_kind-Holds t t' name symlink h = (extract_other t t' (parent (lib.parts name)) _ h, tt)
  extract_kind-Holds t t' name hardlink h = (extract_other t t' (parent (lib.parts name)) _ h, tt)
  extract_kind-Holds t t' name device h = (extract_other t t' (parent (lib.parts name)) _ h, tt)

  extract_members-Holds :
      (t t' : Tree) (ms : List Member)
      → extract_members lib t ms ≡ ok t'
      → Extends t t' × All (λ m. Holds t' (lib.parts m.name) m.kind) ms
  unfolding extract_members
  extract_members-Holds t t' [] h = let same : t ≡ t' = cc h in (rw (← same) (λ q n k. k), tt)
  extract_members-Holds t t' (m ∷ rest) h =
      let (mid, e, h1) = >>=-eq-ok (extract_member lib t m) _ h in
      let (grown, holds) = extract_kind-Holds t mid m.name m.kind e in
      let (later, others) = extract_members-Holds mid t' rest h1 in
      (
        λ q n k. later q n (grown q n k),
        (Holds-Extends mid t' (lib.parts m.name) m.kind later holds, others),
      )

  -- The archive has the expected digest and keeps the limits, each of its members is safe, and each
  -- of its regular members is in the tree.
  pub record IsRestored (limits : Limits lib) (expected : String) (archive : Option String)
      (t : Tree) : Type 0 where
    pub content : String
    pub found : archive ≡ some content
    pub digest : lib.sha256 content ≡ expected
    pub members : List Member
    pub listed : lib.members content ≡ ok members
    pub few : length members ≤ limits.maximum_members
    pub small : total_size members ≤ limits.maximum_uncompressed_bytes
    pub safe : All IsSafe members
    pub placed : All (λ m. Holds t (lib.parts m.name) m.kind) members

  restore_members-IsRestored :
      (limits : Limits lib) (expected content : String) (t : Tree)
      → lib.sha256 content == expected ≡ true
      → restore_members lib limits content ≡ ok t
      → IsRestored limits expected (some content) t
  unfolding restore_members
  restore_members-IsRestored limits expected content t same h =
      let (members, listed, h1) = >>=-eq-ok (lib.members content) _ h in
      let (_, h2) = raise_if-then (is_empty members) _ _ h1 in
      let (few, h3) = raise_if-then (ltb limits.maximum_members (length members)) _ _ h2 in
      let (small, h4) =
        raise_if-then (ltb limits.maximum_uncompressed_bytes (total_size members)) _ _ h3 in
      let (_, checked, h5) = >>=-eq-ok (check_members lib [] members) _ h4 in
      record {
        content = content;
        found = refl;
        digest = str_eq→eq (lib.sha256 content) expected same;
        members = members;
        listed = listed;
        few = ground arith;
        small = ground arith;
        safe = check_members-IsSafe [] members checked;
        placed = (extract_members-Holds [] t members h5).1;
      }

  -- Either the call raises and leaves the destination as it was, or the destination did not exist, and
  -- is now a tree with every regular file of an archive that has the expected digest, keeps both limits,
  -- and whose paths are relative, do not go up, and name files and directories only.
  pub restore_archive-IsRestored :
      (limits : Limits lib) (expected : String) (archive : Option String)
      (destination : Option Tree)
      → ((e : Exception) × (restore_archive lib limits expected archive destination
            ≡ (destination, err e)))
        ⊎ ((t : Tree) × (restore_archive lib limits expected archive destination ≡ (some t, ok tt))
            × (destination ≡ none)
            × IsRestored limits expected archive t)
  unfolding restore_archive
  restore_archive-IsRestored limits expected archive (some t) = inl (_, refl)
  restore_archive-IsRestored limits expected none none = inl (_, refl)
  restore_archive-IsRestored limits expected (some content) none =
      elim (Bool-cases (lib.sha256 content == expected)) [
        | inl same ↦ elim (Result-cases (restore_members lib limits content)) [
          | inl (e, failed) ↦ inl (e, rw (same, failed) refl)
          | inr (t, done) ↦ inr (
            t,
            rw (same, done) refl,
            refl,
            restore_members-IsRestored limits expected content t same done,
          )
        ]
        | inr other ↦ inl (invalid "archive SHA-256 mismatch", rw other refl)
      ]
