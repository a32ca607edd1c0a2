-- ===== src/File.antt =====
-- src/file.c: files, over the kernel's read and write, whose documented behaviour is an interface. A
-- `file_t *` is NULL or a record; a descriptor that is not positive is 0. Loops take fuel; an outer
-- `none` is a read or write outside the caller's buffer, or fuel that ran out.
pub mod Laws
pub mod Reads
pub mod Paths
pub mod Memory
mod Tests
use trace_server.Base.{
  ℕ, zero, suc, ◌+◌, ◌-◌, ◌≤◌, ◌<◌, ◌≡◌, Bool, true, false, ◌&&◌, not, Option, none, some, List, [],
  ◌∷◌, ◌++◌, ltb, leb, ◌==◌, min, if◌then◌else◌, ◌>>=◌, take, drop, length,
}
use trace_server.Base.Int.{ℤ, pos, negsuc, minus_one}
use trace_server.Libc.{read, write}

-- What `read(2)` and `write(2)` do: the bytes of each descriptor that are still to be read, and those that
-- were written. `none` is -1.
pub record Kernel : Type 1 where
  pub Disk : Type 0
  pub unread : Disk → ℕ → List ℕ
  pub written : Disk → ℕ → List ℕ
  pub read_fd : Disk → ℕ → ℕ → Option (List ℕ) × Disk
  pub write_fd : Disk → ℕ → List ℕ → Option ℕ × Disk
  pub read_lem :
      (d : Disk) (fd n : ℕ) (bytes : List ℕ) (d' : Disk)
      → read_fd d fd n ≡ (some bytes, d')
      → (bytes ++ unread d' fd ≡ unread d fd)
        × (length bytes ≤ n)
        × (bytes ≡ [] → 0 < n → unread d fd ≡ [])
  pub read_error :
      (d : Disk) (fd n : ℕ) (d' : Disk) → read_fd d fd n ≡ (none, d') → unread d' fd ≡ unread d fd
  pub write_lem :
      (d : Disk) (fd : ℕ) (bytes : List ℕ) (n : ℕ) (d' : Disk)
      → write_fd d fd bytes ≡ (some n, d')
      → (written d' fd ≡ written d fd ++ take n bytes) × (n ≤ length bytes)
  pub write_error :
      (d : Disk) (fd : ℕ) (bytes : List ℕ) (d' : Disk)
      → write_fd d fd bytes ≡ (none, d')
      → written d' fd ≡ written d fd

-- file_io_status_t
pub data FileStatus : Type 0 where
  io_read_error io_write_error io_normal : FileStatus

pub record File : Type 0 where
  pub fd : ℕ
  pub file : List ℕ
  pub status : FileStatus

module _ (K : Kernel) where
  -- The loop of `write_file`: what it returns, the file and the disk.
  unfoldable pub write_loop : ℕ → K.Disk → File → List ℕ → ℕ → ℕ → Option (ℤ × File × K.Disk)
  write_loop zero d f buf write_len offset = none
  write_loop (suc fuel) d f buf write_len offset =
      let write_min_len = min (write_len - offset) 1024 in
      (read buf offset write_min_len >>= λ bytes.
      let r = K.write_fd d f.fd bytes in
      let next : ℕ → Option (ℤ × File × K.Disk) =
        λ n. write_loop fuel r.1 f buf write_len (offset + n) in
      elim r.0 [
        | none ↦ some (minus_one, record f { status = io_write_error }, r.1)
        | some n ↦
            if not (n == write_min_len)
            then some (minus_one, record f { status = io_write_error }, r.1)
            else if leb write_len (offset + n)
            then some (pos (offset + n), record f { status = io_write_error }, r.1)
            else next n
      ])

  -- With a buffer that is not NULL.
  unfoldable pub write_file : K.Disk → Option File → List ℕ → ℕ → Option (ℤ × Option File × K.Disk)
  write_file d none buf write_len = some (pos 0, none, d)
  write_file d (some f) buf write_len =
      if ltb 0 f.fd && ltb 0 write_len
      then (write_loop (write_len + 1) d f buf write_len 0 >>= λ (n, f', d'). some (n, some f', d'))
      else some (pos 0, some f, d)

  -- The loop of `read_file`: what it returns, the caller's buffer, the file and the disk.
  unfoldable pub read_loop :
      ℕ → K.Disk → File → List ℕ → ℕ → ℕ → Option (ℕ × List ℕ × File × K.Disk)
  read_loop zero d f buf read_len offset = none
  read_loop (suc fuel) d f buf read_len offset =
      let r = K.read_fd d f.fd (min (read_len - offset) 1024) in
      elim r.0 [
        | none ↦ some (offset, buf, record f { status = io_read_error }, r.1)
        | some [] ↦ some (offset, buf, record f { status = io_normal }, r.1)
        | some (c ∷ more) ↦ write buf offset (c ∷ more) >>= λ buf'.
            let offset' = offset + length (c ∷ more) in
            let next : Option (ℕ × List ℕ × File × K.Disk) =
              read_loop fuel r.1 f buf' read_len offset' in
            if leb read_len offset'
            then some (offset', buf', record f { status = io_normal }, r.1)
            else next
      ]

  unfoldable pub read_file :
      K.Disk → Option File → List ℕ → ℕ → Option (ℕ × List ℕ × Option File × K.Disk)
  read_file d none buf read_len = some (0, buf, none, d)
  read_file d (some f) buf read_len =
      if ltb 0 f.fd && ltb 0 read_len
      then (read_loop (read_len + 1) d f buf read_len 0 >>= λ (n, b, f', d').
          some (n, b, some f', d'))
      else some (0, buf, some f, d)
