-- ===== src/Artifacts/Storage/Written.antt =====
-- What a write to the artifact store leaves.
use comm_guard.Prelude.{
  ◌≡◌, refl, ◌⊎◌, inl, inr, String, Option, none, some, [], ◌∷◌, ◌++◌, ◌==◌, str_eq→eq, Bool-cases,
  Option-cases, Exception, Result, err, Result-cases,
}
use comm_guard.Artifacts.Tree.{
  FilePath, Tree, file, node_at, create, make_dirs, parent, Extends, create-Extends, create-file,
  make_dirs-Extends,
}
use comm_guard.Artifacts.Storage.{below, resolve, write_at, write_below, exclusive_write, invalid}

below-eq : (root path rest : FilePath) → below root path ≡ some rest → path ≡ root ++ rest
unfolding below
below-eq [] path rest h = cc h
below-eq (r ∷ root) [] rest h = cc
below-eq (r ∷ root) (p ∷ path) rest h = elim (Bool-cases (r == p)) [
  | inl same ↦
      let e : r ≡ p = str_eq→eq r p same in
      let tail = below-eq root path rest (rw (same, below) at h) in rw (e, tail) refl
  | inr other ↦ cc (rw (other, below) at h)
]

-- The path lies below the root, where there was nothing, and has the content now.
pub record IsWritten (root path : FilePath) (before after : Tree) (content : String) : Type 0 where
  pub relative : FilePath
  pub inside : path ≡ root ++ relative
  pub there : node_at after relative ≡ some (file content)
  pub new : node_at before relative ≡ none

-- Nothing that was there is removed or changed; a call that returns has written a new file.
pub record IsExclusive (root path : FilePath) (before : Tree) (content : String)
    (outcome : Tree × Result (Unit {0})) : Type 0 where
  pub kept : Extends before outcome.0
  pub written :
      ((e : Exception) × (outcome.1 ≡ err e)) ⊎ IsWritten root path before outcome.0 content

module _ (root path : FilePath) (t : Tree) (content : String) (failure : Option Exception) where
  raised : (t' : Tree) (e : Exception) → Extends t t' → IsExclusive root path t content (t', err e)
  raised t' e grown = record { kept = grown; written = inl (e, refl) }

  was_new :
      (made : Tree) (relative : FilePath)
      → Extends t made
      → node_at made relative ≡ none
      → node_at t relative ≡ none
  was_new made relative grown free = elim (Option-cases (node_at t relative)) [
    | inl absent ↦ absent
    | inr (n, there) ↦ cc (free, grown relative n there)
  ]

  write_at-IsExclusive :
      (made : Tree) (relative : FilePath)
      → path ≡ root ++ relative
      → Extends t made
      → IsExclusive root path t content (write_at made relative content failure)
  write_at-IsExclusive made relative inside grown =
      elim (Result-cases (create made relative content)) [
        | inl (e, taken) ↦
            rw (taken, write_at)
              (raised made (Exception.artifact_exists_error "refusing to overwrite artifact") grown)
        | inr (t', done) ↦
            let (free, there) = create-file made t' relative content done in
            let later = create-Extends made t' relative content done in
            elim (Option-cases failure) [
              | inl fine ↦
                  rw (done, fine, write_at)
                    (record {
                      kept = λ q n k. later q n (grown q n k);
                      written = inr (record {
                        relative = relative;
                        inside = inside;
                        there = there;
                        new = was_new made relative grown free;
                      });
                    })
              | inr (e, failed) ↦ rw (done, failed, write_at) (raised made e grown)
            ]
      ]

  -- `_exclusive_write` never removes or changes what is in the store, whatever it raises and whether or
  -- not the write fails; if it returns, the path lies below the root, nothing was there before, and the
  -- file has the content.
  pub exclusive_write-IsExclusive :
      IsExclusive root path t content (exclusive_write root t path content failure)
  unfolding exclusive_write
  exclusive_write-IsExclusive = elim (Option-cases (below root path)) [
    | inl outside ↦
        rw (outside, resolve, write_below)
          (raised t (invalid "artifact path escapes root") (λ q n k. k))
    | inr (relative, found) ↦
        let inside = below-eq root path relative found in
        elim (Result-cases (make_dirs t [] (parent relative))) [
          | inl (e, failed) ↦ rw (found, failed, resolve, write_below) (raised t e (λ q n k. k))
          | inr (made, done) ↦
              rw (found, done, resolve, write_below)
                (write_at-IsExclusive made relative inside
                  (make_dirs-Extends t made [] (parent relative) done))
        ]
  ]
