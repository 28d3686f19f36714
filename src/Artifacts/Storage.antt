-- ===== src/Artifacts/Storage.antt =====
-- src/commguard/artifacts/storage.py: the create-only store and the restoration of an archive. A directory
-- tree maps the paths below its root, as lists of parts, to what is there; file contents are texts.
pub mod Records
pub mod Restored
pub mod Written
use comm_guard.Prelude.{
  ℕ, ◌+◌, String, Bool, true, false, not, ◌&&◌, ◌||◌, Option, none, some, List, [], ◌∷◌, ◌==◌, ltb,
  length, is_empty, some_of, contains, if◌then◌else◌, Exception, Result, ok, err, ◌>>=◌, ◌>>◌,
  raise_if,
}
use comm_guard.Artifacts.Tree.{FilePath, Tree, same_path, create, make_dirs, parent}

-- What a member of a tar archive is: `size` and what `extractfile` reads, or another type.
pub data Kind : Type 0 where
  regular : (size : ℕ) → (content : Option String) → Kind
  directory symlink hardlink device : Kind

pub record Member : Type 0 where
  pub name : String
  pub kind : Kind

-- `PurePosixPath` of a name, with `is_absolute`; `tarfile.open` with `getmembers`; SHA-256 in hexadecimal.
pub record Archives : Type 0 where
  pub parts : String → FilePath
  pub is_absolute : String → Bool
  pub members : String → Result (List Member)
  pub sha256 : String → String

-- `sum(member.size for member in members if member.isfile())`
unfoldable pub total_size : List Member → ℕ
total_size [] = 0
total_size (m ∷ rest) = elim m.kind [
  | regular size content ↦ size + total_size rest
  | _ ↦ total_size rest
]

abbrev pub is_link : Kind → Bool
is_link symlink = true
is_link hardlink = true
is_link _ = false

abbrev pub is_supported : Kind → Bool
is_supported (regular size content) = true
is_supported directory = true
is_supported _ = false

abbrev pub invalid : String → Exception
invalid message = Exception.validation_error message

module _ (lib : Archives) where
  -- `not member.name or relative.is_absolute() or ".." in relative.parts or relative in seen`
  abbrev pub is_unsafe : List FilePath → Member → Bool
  is_unsafe seen m =
      m.name == ""
      || (lib.is_absolute m.name
          || (contains (lib.parts m.name) ".." || some_of (same_path (lib.parts m.name)) seen))

  -- The first loop over the members.
  unfoldable pub check_members : List FilePath → List Member → Result (Unit {0})
  check_members seen [] = ok tt
  check_members seen (m ∷ rest) = do
    raise_if (is_unsafe seen m) (invalid "unsafe or duplicate archive path")
    raise_if (is_link m.kind) (invalid "archive links are prohibited")
    raise_if (not (is_supported m.kind)) (invalid "unsupported archive member")
    check_members (lib.parts m.name ∷ seen) rest

  -- The body of the second loop.
  unfoldable pub extract_member : Tree → Member → Result Tree
  unfolding make_dirs create
  extract_member t m = elim m.kind [
    | directory ↦ make_dirs t [] (lib.parts m.name)
    | regular size content ↦ make_dirs t [] (parent (lib.parts m.name)) >>= λ made. elim content [
      | none ↦ err (invalid "archive file cannot be read")
      | some c ↦ create made (lib.parts m.name) c
    ]
    | _ ↦ make_dirs t [] (parent (lib.parts m.name)) >>= λ made.
        err (invalid "archive file cannot be read")
  ]

  unfoldable pub extract_members : Tree → List Member → Result Tree
  unfolding extract_member
  extract_members t [] = ok t
  extract_members t (m ∷ rest) = extract_member t m >>= λ t'. extract_members t' rest

  -- The limits of `restore_archive`.
  pub record Limits : Type 0 where
    pub maximum_uncompressed_bytes : ℕ
    pub maximum_members : ℕ

  -- The `try` block.
  unfoldable pub restore_members : Limits → String → Result Tree
  unfolding total_size check_members extract_members
  restore_members limits archive = do
    members ← lib.members archive
    raise_if (is_empty members) (invalid "archive contains no members")
    raise_if (ltb limits.maximum_members (length members)) (invalid "archive member limit exceeded")
    raise_if (ltb limits.maximum_uncompressed_bytes (total_size members))
        (invalid "archive uncompressed-size limit exceeded")
    check_members [] members
    extract_members [] members

  -- `except BaseException`: the destination is removed.
  abbrev pub cleaned : Result Tree → Option Tree × Result (Unit {0})
  cleaned (err e) = (none, err e)
  cleaned (ok t) = (some t, ok tt)

  abbrev from_file : Limits → String → Option String → Option Tree × Result (Unit {0})
  from_file limits expected none = (none, err (invalid "archive does not exist"))
  from_file limits expected (some archive) =
      if not (lib.sha256 archive == expected)
      then (none, err (invalid "archive SHA-256 mismatch"))
      else cleaned (restore_members limits archive)

  -- `restore_archive`: the destination, if it exists, and the file of the archive; the destination after
  -- the call, and what the call does.
  unfoldable pub restore_archive :
      Limits → String → Option String → Option Tree → Option Tree × Result (Unit {0})
  unfolding restore_members
  restore_archive limits expected archive (some t) = (
    some t,
    err (Exception.artifact_exists_error "refusing to restore into an existing destination"),
  )
  restore_archive limits expected archive none = from_file limits expected archive

-- `ArtifactStore.resolve` on the resolved path: its part below the root.
unfoldable pub below : FilePath → FilePath → Option FilePath
below [] path = some path
below (r ∷ root) [] = none
below (r ∷ root) (p ∷ path) = let rest = below root path in if r == p then rest else none

abbrev pub resolve : FilePath → FilePath → Result FilePath
resolve root path = elim (below root path) [
  | none ↦ err (invalid "artifact path escapes root")
  | some relative ↦ ok relative
]

abbrev pub with_tree : Tree → Result Tree → Tree × Result (Unit {0})
with_tree t (err e) = (t, err e)
with_tree t (ok t') = (t', ok tt)

-- The `open` with `O_EXCL` and the write; `failure` is what the write raises, and removes the file.
abbrev pub write_at : Tree → FilePath → String → Option Exception → Tree × Result (Unit {0})
write_at t target content failure = elim (create t target content) [
  | err e ↦ (t, err (Exception.artifact_exists_error "refusing to overwrite artifact"))
  | ok t' ↦ elim failure [ none ↦ (t', ok tt) | some e ↦ (t, err e) ]
]

abbrev pub write_below :
    Tree → Result FilePath → String → Option Exception → Tree × Result (Unit {0})
write_below t (err e) content failure = (t, err e)
write_below t (ok target) content failure = elim (make_dirs t [] (parent target)) [
  | err e ↦ (t, err e)
  | ok made ↦ write_at made target content failure
]

-- `ArtifactStore._exclusive_write`, with `write_text`: the path after `Path.resolve`.
unfoldable pub exclusive_write :
    FilePath → Tree → FilePath → String → Option Exception → Tree × Result (Unit {0})
unfolding below create make_dirs
exclusive_write root t path content failure = write_below t (resolve root path) content failure
