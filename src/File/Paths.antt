-- ===== src/File/Paths.antt =====
-- src/file.c: directories, and files by their paths. A path is the bytes of a string; a string in a buffer
-- has its NUL.
pub mod Made
pub mod Dirs
mod PathTests
use trace_server.Base.{
  ℕ, zero, suc, ◌+◌, ◌≡◌, Bool, true, false, ◌&&◌, not, Option, none, some, List, [], ◌∷◌, ltb,
  ◌==◌, if◌then◌else◌, ◌>>=◌, get_elem?, length, replicate,
}
use trace_server.Base.Int.{ℤ, pos, minus_one}
use trace_server.Libc.{cstr, strlen, strncpy, write}
use trace_server.File.{Kernel, File, io_normal}

-- O_CREAT; O_CREAT | O_RDWR | O_TRUNC; O_RDWR
pub data OpenFlags : Type 0 where
  create_only create_truncate read_write : OpenFlags

pub data Whence : Type 0 where
  seek_set seek_cur seek_end : Whence

-- The kernel's calls on paths, each with the disk afterwards: access(path, F_OK) == 0, whether mkdir returned
-- 0, the descriptor that open returned, close, and lseek.
pub record FileSystem : Type 1 where
  pub kernel : Kernel
  pub exists : kernel.Disk → List ℕ → Bool
  pub mkdir : kernel.Disk → List ℕ → Bool × kernel.Disk
  pub open_fd : kernel.Disk → List ℕ → OpenFlags → Option ℕ × kernel.Disk
  pub close_fd : kernel.Disk → ℕ → kernel.Disk
  pub lseek : kernel.Disk → ℕ → ℤ → Whence → ℤ × kernel.Disk
  pub mkdir_lem :
      (d : kernel.Disk) (p : List ℕ) → (mkdir d p).0 ≡ true → exists (mkdir d p).1 p ≡ true
  pub mkdir_keeps :
      (d : kernel.Disk) (p q : List ℕ) → exists d q ≡ true → exists (mkdir d p).1 q ≡ true

-- `_file_node_create`, with the results of both calls of calloc.
unfoldable pub file_node_create : Bool → Bool → ℕ → List ℕ → Option File
file_node_create node_ok name_ok fd file =
    if node_ok && name_ok then some (record { fd = fd; file = file; status = io_normal }) else none

module _ (F : FileSystem) where
  abbrev pub Disk : Type 0
  Disk = F.kernel.Disk

  unfoldable pub file_fd_close : Disk → ℕ → Disk
  file_fd_close d fd = if ltb 0 fd then F.close_fd d fd else d

  -- The node's memory is released too.
  unfoldable pub file_close : Disk → Option File → Disk
  unfolding file_fd_close
  file_close d none = d
  file_close d (some f) = if ltb 0 f.fd then file_fd_close d f.fd else d

  -- Whether there is a directory or mkdir made it.
  abbrev pub make_missing : Disk → List ℕ → Bool × Disk
  make_missing d path = if F.exists d path then (true, d) else F.mkdir d path

  -- The loop of `create_dir` from index `i` on: false after a mkdir that failed. str[i] is '/' again at the
  -- end of a round.
  unfoldable pub dirs_loop : ℕ → Disk → List ℕ → ℕ → Option (Bool × Disk)
  dirs_loop zero d str i = some (true, d)
  dirs_loop (suc left) d str i = do
    c ← get_elem? str i
    let next : Disk → Option (Bool × Disk) = λ d'. dirs_loop left d' str (i + 1) in
        if not (c == b'/')
        then next d
        else (write str i (0 ∷ []) >>= λ cut.
            let path = cstr cut in
            let made = if ltb 0 (length path) then make_missing d path else (true, d) in
            if not made.0 then some (false, made.1) else next made.1)

  unfoldable pub create_dir : Disk → List ℕ → Option (Bool × Disk)
  unfolding dirs_loop
  create_dir d dir = do
    str ← strncpy (replicate 512 0) dir 511
    len ← strlen str
    (ok, d') ← dirs_loop len d str 0
    let made = if ltb 0 len then make_missing d' (cstr str) else (true, d') in
        if not ok
        then some (false, d')
        else if not made.0
        then some (false, made.1)
        else some (F.exists made.1 (cstr dir), made.1)

  -- `create_file` and the next ones, with a path that is not NULL.
  unfoldable pub create_file : Disk → List ℕ → Bool × Disk
  unfolding file_fd_close
  create_file d file =
      if F.exists d file
      then (true, d)
      else let r = F.open_fd d file create_only in
        elim r.0 [
          | none ↦ (false, r.1)
          | some fd ↦ let d' = file_fd_close r.1 fd in (F.exists d' file, d')
        ]

  unfoldable pub clear_file : Disk → List ℕ → Bool × Disk
  unfolding file_fd_close
  clear_file d file =
      if not (F.exists d file)
      then (false, d)
      else let r = F.open_fd d file create_truncate in
        elim r.0 [ none ↦ (false, r.1) | some fd ↦ (true, file_fd_close r.1 fd) ]

  unfoldable pub open_file : Bool → Bool → Disk → List ℕ → Option File × Disk
  unfolding file_node_create
  open_file node_ok name_ok d file =
      if not (F.exists d file)
      then (none, d)
      else let r = F.open_fd d file read_write in
        elim r.0 [ none ↦ (none, r.1) | some fd ↦ (file_node_create node_ok name_ok fd file, r.1) ]

  abbrev seek_from : Whence → Disk → Option File → ℤ → ℤ × Disk
  seek_from whence d none offset = (minus_one, d)
  seek_from whence d (some f) offset =
      if ltb 0 f.fd then F.lseek d f.fd offset whence else (minus_one, d)

  unfoldable pub lseek_from_head : Disk → Option File → ℤ → ℤ × Disk
  lseek_from_head = seek_from seek_set

  unfoldable pub lseek_from_current : Disk → Option File → ℤ → ℤ × Disk
  lseek_from_current = seek_from seek_cur

  unfoldable pub lseek_from_end : Disk → Option File → ℤ → ℤ × Disk
  lseek_from_end = seek_from seek_end

  unfoldable pub get_file_size : Bool → Bool → Disk → List ℕ → ℤ × Disk
  unfolding lseek_from_head lseek_from_end open_file file_close
  get_file_size node_ok name_ok d file =
      let opened = open_file node_ok name_ok d file in
      let at_end = lseek_from_end opened.1 opened.0 (pos 0) in
      let at_head = lseek_from_head at_end.1 opened.0 (pos 0) in
      (at_end.0, file_close at_head.1 opened.0)
