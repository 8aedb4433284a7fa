-- ===== src/Application/Runtime/Private.antt =====
-- The directory of a run is nobody else's, and its sockets can be bound.
use airjail.Base.{
  ℕ, ◌%◌, ◌≤◌, true, false, some, List, [], ◌∷◌, ◌++◌, ◌≢◌, ◌≡◌, ◌⊎◌, ◌↔◌, refl, arith, ok, ==_iff,
  list_eq, nat_eq, length, Option-cases, inl, inr,
}
use airjail.Base.Bytes.{Bytes, codes}
use airjail.Application.Runtime.{
  RuntimeDir, MkdirResult, made, already_exists, mkdir_failed, FileInfo, FileSystem, Act,
  session_made, session_removed, session_left, open_to_others, check_private,
  ensure_private_directory,
}

-- A real directory of the user, which neither its group nor others may use.
pub record IsPrivate (uid : ℕ) (info : FileInfo) : Type 0 where
  pub directory : info.is_dir ≡ true
  pub real : info.is_symlink ≡ false
  pub own : info.owner ≡ some uid
  pub unshared : info.permissions % 64 ≡ 0

check_private_sound :
    (path : Bytes) (uid : ℕ) (info : FileInfo)
    → check_private path uid info ≡ ok tt
    → IsPrivate uid info
unfolding check_private open_to_others
check_private_sound path uid info h = elim (Option-cases info.owner) [
  | inl e ↦ absurd (ground (arith, e))
  | inr (owner, e) ↦ record {
    directory = ground (arith, e);
    real = ground (arith, e);
    own = ground (arith, e, ==_iff owner uid);
    unshared = ground (arith, e);
  }
]

check_private_complete :
    (path : Bytes) (uid : ℕ) (info : FileInfo)
    → IsPrivate uid info
    → check_private path uid info ≡ ok tt
unfolding check_private open_to_others
check_private_complete path uid info p =
    ground (arith, p.directory, p.real, p.own, p.unshared, ==_iff uid uid)

MkdirResult-cases : (r : MkdirResult) → (r ≡ made) ⊎ ((r ≡ mkdir_failed) ⊎ (r ≡ already_exists))
MkdirResult-cases made = inl refl
MkdirResult-cases mkdir_failed = inr (inl refl)
MkdirResult-cases already_exists = inr (inr refl)

-- ensurePrivateDirectory accepts a path exactly if it has made the directory, with the mode 0700, or
-- there is a real directory of the user's there that neither its group nor others may use.
pub ensure_private_directory_iff :
    (system : FileSystem) (path : Bytes) (uid : ℕ)
    → (ensure_private_directory system path uid ≡ ok tt) ↔ (
        (system.mkdir path ≡ made)
        ⊎ ((system.mkdir path ≡ already_exists)
            × ((info : FileInfo) × (system.lstat path ≡ some info) × IsPrivate uid info)))
unfolding ensure_private_directory
ensure_private_directory_iff system path uid = elim (MkdirResult-cases (system.mkdir path)) [
  | inl e ↦ ((λ h. inl e), (λ h. ground (arith, e)))
  | inr (inl e) ↦ (
    (λ h. absurd (ground (arith, e))),
    (λ h. absurd (elim h [ inl m ↦ ground (arith, e, m) | inr m ↦ ground (arith, e, m.0) ])),
  )
  | inr (inr e) ↦ elim (Option-cases (system.lstat path)) [
    | inl missing ↦ (
      (λ h. absurd (ground (arith, e, missing))),
      (λ h. absurd (elim h [
        | inl m ↦ ground (arith, e, m)
        | inr (_, (info, found, _)) ↦ ground (arith, missing, found)
      ])),
    )
    | inr (info, found) ↦ (
      (λ h. inr (e, (info, found, check_private_sound path uid info (ground (arith, e, found))))),
      (λ h. elim h [
        | inl m ↦ absurd (ground (arith, e, m))
        | inr (_, (same, again, p)) ↦
            ground (arith, e, again, check_private_complete path uid same p)
      ]),
    )
  ]
]

-- The base directory: below the user's runtime directory, or below /tmp if there is none.
abbrev pub IsBase : FileSystem → ℕ → Bytes → Bytes → Type 0
IsBase system uid runtime_directory base =
    ((runtime_directory ≡ [])
      × (base ≡ system.join (codes "/tmp") (codes "airjail-" ++ system.decimal uid)))
    ⊎ ((runtime_directory ≢ []) × (base ≡ system.join runtime_directory (codes "airjail")))

-- A base directory that nobody else can use: made with the mode 0700, or there already.
abbrev pub Accepted : FileSystem → ℕ → Bytes → Type 0
Accepted system uid base =
    (system.mkdir base ≡ made)
    ⊎ ((system.mkdir base ≡ already_exists)
        × ((info : FileInfo) × (system.lstat base ≡ some info) × IsPrivate uid info))

-- A session of a run: a fresh directory below the base, whose mode was set, with both sockets in it.
pub record IsSession (system : FileSystem) (base : Bytes) (acts : List Act) (dir : RuntimeDir)
    : Type 0 where
  pub fresh : system.mkdir_temp base ≡ some dir.directory
  pub private_mode : system.chmod dir.directory ≡ true
  pub http : dir.http_socket ≡ system.join dir.directory (codes "http.sock")
  pub socks : dir.socks_socket ≡ system.join dir.directory (codes "socks.sock")
  pub http_short : length dir.http_socket ≤ 107
  pub socks_short : length dir.socks_socket ≤ 107
  pub stays : acts ≡ session_made dir.directory ∷ []

-- A session that was made below the base is removed again, unless os.RemoveAll fails.
abbrev pub Undone : FileSystem → Bytes → List Act → Type 0
Undone system base acts =
    (directory : Bytes) × (system.mkdir_temp base ≡ some directory)
    × (((system.remove_all directory ≡ true)
          × (acts ≡ session_made directory ∷ session_removed directory ∷ []))
        ⊎ ((system.remove_all directory ≡ false)
            × (acts ≡ session_made directory ∷ session_left directory ∷ [])))
