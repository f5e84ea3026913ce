-- ===== src/Sdk/Paths.antt =====
-- packages/emulator-sdk/src/lib.rs: what is started lies below its root. The file system resolves a path
-- to its components, with no link, `.` or `..` left.
use open_cade.Prelude.{
  ◌≡◌, refl, arith, Bool, true, false, ◌||◌, ◌&&◌, not, Option, none, some, List, [], ◌∷◌, ◌++◌,
}
use open_cade.Prelude.Text.{Text, codes, text_eq, text_eq_iff}
use open_cade.Prelude.Outcome.{
  Outcome, err, ok, ◌>>=◌, fail_if, or_fail, through_first, fail_if-ok, or_fail-ok,
}
use open_cade.Sdk.{AdapterError, validation_error, io_error}

abbrev pub PathBuf : Type 0
PathBuf = List Text

-- `Path::canonicalize`, with the text of its error
abbrev pub FileSystem : Type 0
FileSystem = PathBuf → Outcome Text PathBuf

pub record LaunchSpec : Type 0 where
  pub executable : PathBuf
  pub current_dir : PathBuf
  pub args : List (List Text)

-- `Path::starts_with`
unfoldable pub starts_with : PathBuf → PathBuf → Bool
starts_with path [] = true
starts_with [] (r ∷ root) = false
starts_with (p ∷ path) (r ∷ root) = text_eq p r && starts_with path root

unfoldable pub path_eq : PathBuf → PathBuf → Bool
path_eq [] [] = true
path_eq [] (q ∷ qs) = false
path_eq (p ∷ ps) [] = false
path_eq (p ∷ ps) (q ∷ qs) = text_eq p q && path_eq ps qs

-- `Path::parent`
unfoldable pub parent : PathBuf → Option PathBuf
parent [] = none
parent (p ∷ []) = some []
parent (p ∷ q ∷ rest) = elim (parent (q ∷ rest)) [ none ↦ none | some front ↦ some (p ∷ front) ]

abbrev pub or_io {ℓ} : {A : Type ℓ} → Outcome Text A → Outcome AdapterError A
or_io (ok value) = ok value
or_io (err message) = err (io_error message)

module _ (canonicalize : FileSystem) where
  unfoldable pub canonicalize_below : PathBuf → PathBuf → Outcome AdapterError PathBuf
  unfolding starts_with path_eq
  canonicalize_below path root = do
    root ← or_io (canonicalize root)
    path ← or_io (canonicalize path)
    done ←
        fail_if (path_eq path root || not (starts_with path root))
          (validation_error (codes "path must resolve below the configured root"))
    ok path

  module _ {Handle : Type 0} (spawn : LaunchSpec → Outcome AdapterError Handle) where
    unfoldable pub spawn_validated :
        (executable executable_root rom rom_root : PathBuf) (additional_args : List (List Text))
        → Outcome AdapterError Handle
    unfolding canonicalize_below parent
    spawn_validated executable executable_root rom rom_root additional_args = do
      executable ← canonicalize_below executable executable_root
      rom ← canonicalize_below rom rom_root
      current_dir ←
          or_fail (parent executable) (validation_error (codes "emulator has no parent directory"))
      spawn (record {
        executable = executable;
        current_dir = current_dir;
        args = additional_args ++ rom ∷ [];
      })

-- Strictly below: the root's components, and at least one more.
abbrev pub IsBelow : PathBuf → PathBuf → Type 0
IsBelow path root = (name : Text) × (rest : PathBuf) × (path ≡ root ++ name ∷ rest)

starts_with-IsBelow :
    (path root : PathBuf)
    → path_eq path root ≡ false
    → starts_with path root ≡ true
    → IsBelow path root
unfolding starts_with path_eq
starts_with-IsBelow [] [] other h = cc
starts_with-IsBelow (p ∷ path) [] other h = (p, path, refl)
starts_with-IsBelow [] (r ∷ root) other h = cc
starts_with-IsBelow (p ∷ path) (r ∷ root) other h =
    let same = (text_eq_iff p r).0 (ground arith) in
    let (name, rest, e) =
      starts_with-IsBelow path root (ground (arith, text_eq_iff p r)) (ground arith) in
    (name, rest, cc)

or_io-ok : (o : Outcome Text PathBuf) {path : PathBuf} → or_io o ≡ ok path → o ≡ ok path
or_io-ok (ok value) e = cc
or_io-ok (err message) e = cc

canonicalize_below-IsBelow :
    (canonicalize : FileSystem) (path root : PathBuf) {answer : PathBuf}
    → canonicalize_below canonicalize path root ≡ ok answer
    → (top : PathBuf) × (canonicalize root ≡ ok top)
      × (canonicalize path ≡ ok answer)
      × IsBelow answer top
unfolding canonicalize_below
canonicalize_below-IsBelow canonicalize path root {answer = answer} run =
    let (top, e, h) = through_first (or_io (canonicalize root)) _ run in
    let (below, e₁, h₁) = through_first (or_io (canonicalize path)) _ h in
    let (_, e₂, h₂) =
      through_first (fail_if (path_eq below top || not (starts_with below top)) _) _ h₁ in
    let inside = fail_if-ok (path_eq below top || not (starts_with below top)) _ e₂ in
    let same : below ≡ answer = cc in
    let (name, rest, split) = starts_with-IsBelow below top (ground arith) (ground arith) in
    (
      top,
      or_io-ok (canonicalize root) e,
      cc (same, or_io-ok (canonicalize path) e₁),
      (name, rest, cc),
    )

-- Only a file below its root is started, with a ROM below the other root as its last argument: if a
-- process starts, then by a specification whose executable is what the file system resolves the given
-- path to, and whose arguments are the given ones and what it resolves the given ROM to. Both lie
-- strictly below the resolved roots, and the directory is the executable's.
pub spawn_validated-IsBelow :
    (canonicalize : FileSystem) {Handle : Type 0} (spawn : LaunchSpec → Outcome AdapterError Handle)
    (executable executable_root rom rom_root : PathBuf) (additional_args : List (List Text))
    (handle : Handle)
    → spawn_validated canonicalize spawn executable executable_root rom rom_root additional_args
      ≡ ok handle
    → (spec : LaunchSpec) × (game : PathBuf) × (top : PathBuf) × (games : PathBuf) × (spawn spec
        ≡ ok handle)
      × (canonicalize executable_root ≡ ok top)
      × (canonicalize rom_root ≡ ok games)
      × (canonicalize executable ≡ ok spec.executable)
      × (canonicalize rom ≡ ok game)
      × IsBelow spec.executable top
      × IsBelow game games
      × (parent spec.executable ≡ some spec.current_dir)
      × (spec.args ≡ additional_args ++ game ∷ [])
unfolding spawn_validated
spawn_validated-IsBelow canonicalize spawn executable executable_root rom rom_root additional_args
      handle run =
    let (program, e, h) =
      through_first (canonicalize_below canonicalize executable executable_root) _ run in
    let (game, e₁, h₁) = through_first (canonicalize_below canonicalize rom rom_root) _ h in
    let (dir, e₂, h₂) = through_first (or_fail (parent program) _) _ h₁ in
    let (top, at, real, below) =
      canonicalize_below-IsBelow canonicalize executable executable_root e in
    let (games, at₁, real₁, below₁) = canonicalize_below-IsBelow canonicalize rom rom_root e₁ in
    (
      record { executable = program; current_dir = dir; args = additional_args ++ game ∷ [] },
      game,
      top,
      games,
      h₂,
      at,
      at₁,
      real,
      real₁,
      below,
      below₁,
      or_fail-ok (parent program) _ e₂,
      refl,
    )
