-- ===== src/Application/Runtime.antt =====
-- internal/application/runtime.go: the private directory of a run. The file system, filepath.Join and
-- the decimal text of a number are parameters.
pub mod Private
use airjail.Base.{
  ℕ, ◌%◌, Bool, true, false, not, ◌&&◌, ◌||◌, Option, none, some, List, [], ◌∷◌, ◌++◌,
  if◌then◌else◌, Result, ok, err, ltb, ◌==◌, list_eq, nat_eq, length,
}
use airjail.Base.Bytes.{Bytes, codes}

abbrev pub max_unix_socket_path : ℕ
max_unix_socket_path = 107

pub record RuntimeDir : Type 0 where
  pub directory : Bytes
  pub http_socket : Bytes
  pub socks_socket : Bytes

pub data MkdirResult : Type 0 where
  made already_exists mkdir_failed : MkdirResult

-- os.FileInfo; the owner is none where Sys() is no syscall.Stat_t
pub record FileInfo : Type 0 where
  pub is_dir : Bool
  pub is_symlink : Bool
  pub owner : Option ℕ
  pub permissions : ℕ

pub record FileSystem : Type 0 where
  pub join : Bytes → Bytes → Bytes
  pub decimal : ℕ → Bytes
  pub mkdir : Bytes → MkdirResult
  pub lstat : Bytes → Option FileInfo
  pub mkdir_temp : Bytes → Option Bytes
  pub chmod : Bytes → Bool
  -- whether os.RemoveAll works; createRuntimeDir does not look at its error
  pub remove_all : Bytes → Bool

pub data RuntimeError : Type 0 where
  not_created not_inspected not_a_real_directory owner_unavailable other_owner not_private :
      Bytes → RuntimeError
  no_session_directory no_session_permissions path_too_long : Bytes → RuntimeError

-- what is done in the file system below the base directory; a session is left where os.RemoveAll fails
pub data Act : Type 0 where
  session_made session_removed session_left : Bytes → Act

-- `permissions & 0o077 != 0`
unfoldable pub open_to_others : ℕ → Bool
open_to_others permissions = not (permissions % 64 == 0)

-- ensurePrivateDirectory, for a path that exists
unfoldable pub check_private : Bytes → ℕ → FileInfo → Result RuntimeError (Unit {0})
unfolding open_to_others
check_private path uid info =
    if not info.is_dir || info.is_symlink
    then err (not_a_real_directory path)
    else elim info.owner [
      | none ↦ err (owner_unavailable path)
      | some owner ↦
          if not (owner == uid)
          then err (other_owner path)
          else if open_to_others info.permissions
          then err (not_private path)
          else ok tt
    ]

-- ensurePrivateDirectory
unfoldable pub ensure_private_directory : FileSystem → Bytes → ℕ → Result RuntimeError (Unit {0})
unfolding check_private
ensure_private_directory system path uid = elim (system.mkdir path) [
  | made ↦ ok tt
  | mkdir_failed ↦ err (not_created path)
  | already_exists ↦ elim (system.lstat path) [
    | none ↦ err (not_inspected path)
    | some info ↦ check_private path uid info
  ]
]

unfoldable pub base_directory : FileSystem → ℕ → Bytes → Bytes
base_directory system uid runtime_directory =
    if runtime_directory == []
    then system.join (codes "/tmp") (codes "airjail-" ++ system.decimal uid)
    else system.join runtime_directory (codes "airjail")

unfoldable pub runtime_dir : FileSystem → Bytes → RuntimeDir
runtime_dir system directory = record {
  directory = directory;
  http_socket = system.join directory (codes "http.sock");
  socks_socket = system.join directory (codes "socks.sock");
}

-- `_ = os.RemoveAll(directory)`
unfoldable pub remove_session : FileSystem → Bytes → Act
remove_session system directory =
    if system.remove_all directory then session_removed directory else session_left directory

-- createRuntimeDir, from MkdirTemp on
unfoldable pub create_session : FileSystem → Bytes → List Act × Result RuntimeError RuntimeDir
unfolding runtime_dir remove_session
create_session system base = elim (system.mkdir_temp base) [
  | none ↦ ([], err (no_session_directory base))
  | some directory ↦
      let removed = session_made directory ∷ remove_session system directory ∷ [] in
      let dir = runtime_dir system directory in
      if not (system.chmod directory)
      then (removed, err (no_session_permissions base))
      else if ltb max_unix_socket_path (length dir.http_socket)
          || ltb max_unix_socket_path (length dir.socks_socket)
      then (removed, err (path_too_long base))
      else (session_made directory ∷ [], ok dir)
]

-- createRuntimeDir
unfoldable pub create_runtime_dir :
    FileSystem → ℕ → Bytes → List Act × Result RuntimeError RuntimeDir
unfolding ensure_private_directory base_directory create_session
create_runtime_dir system uid runtime_directory =
    let base = base_directory system uid runtime_directory in
    elim (ensure_private_directory system base uid) [
      | err e ↦ ([], err e)
      | ok _ ↦ create_session system base
    ]
