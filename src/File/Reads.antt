-- ===== src/File/Reads.antt =====
-- What `read_file` of src/file.c reads.
use trace_server.Base.{
  ℕ, zero, suc, ◌+◌, ◌-◌, ◌≤◌, ◌<◌, ◌≡◌, refl, ap, ◌∙◌, ◌⊎◌, inl, inr, Option, none, some, List, [],
  ◌∷◌, ◌++◌, arith, lt→ltb, leb, leb-true, leb-false, min, drop, length-append, length, length-drop,
  append_assoc, Bool-cases,
}
use trace_server.Libc.Laws.{write_after}
use trace_server.File.{Kernel, FileStatus, File, io_read_error, io_normal, read_loop, read_file}

module _ (K : Kernel) where
  -- How a call ends that read from the descriptor `fd`, of which `stream` was to be read, into a buffer
  -- that was `old`.
  pub record WasRead (stream : List ℕ) (fd : ℕ) (old : List ℕ) (read_len : ℕ)
      (o : Option (ℕ × List ℕ × File × K.Disk)) : Type 0 where
    pub got : List ℕ
    pub rest : List ℕ
    pub file : File
    pub disk : K.Disk
    pub returned : o ≡ some (length got, got ++ rest, file, disk)
    pub conserved : got ++ K.unread disk fd ≡ stream
    pub bounded : length got ≤ read_len
    pub length_eq : length got + length rest ≡ length old
    pub outcome :
        (file.status ≡ io_read_error)
        ⊎ ((file.status ≡ io_normal) × ((length got ≡ read_len) ⊎ (K.unread disk fd ≡ [])))

  -- An end of the call, by what was read.
  WasRead-some :
      (stream old got rest : List ℕ) (read_len : ℕ) (status : FileStatus) (f : File) (d : K.Disk)
      → got ++ K.unread d f.fd ≡ stream
      → length got ≤ read_len
      → length got + length rest ≡ length old
      → (status ≡ io_read_error)
        ⊎ ((status ≡ io_normal) × ((length got ≡ read_len) ⊎ (K.unread d f.fd ≡ [])))
      → WasRead stream f.fd old read_len
          (some (length got, got ++ rest, record f { status = status }, d))
  WasRead-some stream old got rest read_len status f d e bounded total outcome = record {
    got = got;
    rest = rest;
    file = record f { status = status };
    disk = d;
    returned = refl;
    conserved = e;
    bounded = bounded;
    length_eq = total;
    outcome = outcome;
  }

  loop-WasRead :
      (stream old : List ℕ) (fuel : ℕ) (d : K.Disk) (f : File) (read_len : ℕ) (got rest : List ℕ)
      → length got + length rest ≡ length old
      → read_len ≤ length old
      → length got < read_len
      → read_len < length got + fuel
      → got ++ K.unread d f.fd ≡ stream
      → WasRead stream f.fd old read_len (read_loop K fuel d f (got ++ rest) read_len (length got))
  unfolding read_loop
  loop-WasRead stream old zero d f read_len got rest total room more enough e = absurd (omega arith)
  loop-WasRead stream old (suc fuel) d f read_len got rest total room more enough e =
      go (loop-WasRead stream old fuel) (K.read_fd d f.fd m).0 refl
    where
      m : ℕ
      m = min (read_len - length got) 1024

      disk' : K.Disk
      disk' = (K.read_fd d f.fd m).1

      go :
          ((d : K.Disk) (f : File) (read_len : ℕ) (got rest : List ℕ)
            → length got + length rest ≡ length old
            → read_len ≤ length old
            → length got < read_len
            → read_len < length got + fuel
            → got ++ K.unread d f.fd ≡ stream
            → WasRead stream f.fd old read_len
                (read_loop K fuel d f (got ++ rest) read_len (length got)))
          → (r : Option (List ℕ)) → (K.read_fd d f.fd m).0 ≡ r
          → WasRead stream f.fd old read_len
              (read_loop K (suc fuel) d f (got ++ rest) read_len (length got))
      go again none er =
          rw (read_loop, er)
            (WasRead-some stream old got rest read_len io_read_error f disk'
              (ap (◌++◌ got) (K.read_error d f.fd m disk' (ap (λ x. (x, disk')) er)) ∙ e)
              (omega arith) total (inl refl))
      go again (some []) er =
          let (same, _, end) = K.read_lem d f.fd m [] disk' (ap (λ x. (x, disk')) er) in
          rw (read_loop, er)
            (WasRead-some stream old got rest read_len io_normal f disk' (ap (◌++◌ got) same ∙ e)
              (omega arith) total (inr (refl, inr (same ∙ end refl (omega arith)))))
      go again (some (c ∷ more')) er =
          let bytes = c ∷ more' in
          let (same, le, _) = K.read_lem d f.fd m bytes disk' (ap (λ x. (x, disk')) er) in
          let fits : length bytes ≤ length rest = omega arith in
          let put = write_after got rest bytes (length got) refl fits in
          let n : length got + length bytes ≡ length (got ++ bytes) =
            omega (arith, length-append got bytes) in
          let rest' = drop (length bytes) rest in
          let total' : length (got ++ bytes) + length rest' ≡ length old =
            omega (arith, length-drop (length bytes) rest, length-append got bytes) in
          let kept : (got ++ bytes) ++ K.unread disk' f.fd ≡ stream =
            append_assoc got bytes (K.unread disk' f.fd) ∙ ap (◌++◌ got) same ∙ e in
          elim (Bool-cases (leb read_len (length (got ++ bytes)))) [
            | inl done ↦
                rw (read_loop, er, put, n, done)
                  (WasRead-some stream old (got ++ bytes) rest' read_len io_normal f disk' kept
                    (omega (arith, length-append got bytes)) total'
                    (inr (refl, inl (omega (arith, leb-true done, length-append got bytes)))))
            | inr on ↦
                rw (read_loop, er, put, n, on)
                  (again disk' f read_len (got ++ bytes) rest' total' room (leb-false on)
                    (omega (arith, length-append got bytes)) kept)
          ]

  -- `read_file` of `read_len` bytes, with an open file and a buffer that has room for them, returns,
  -- whatever the kernel gives at a time: the number of bytes it has put at the buffer's start. These and
  -- what is then still to be read are, in order, what was to be read. It stops at an error of the
  -- kernel, which the status says, and otherwise only when it has them all or the file has ended.
  pub read_file-WasRead :
      (d : K.Disk) (f : File) (buf : List ℕ) (read_len : ℕ)
      → 0 < f.fd
      → 0 < read_len
      → read_len ≤ length buf
      → (w : WasRead
          (K.unread d f.fd)
          f.fd
          buf
          read_len
          (read_loop K (read_len + 1) d f buf read_len 0))
        × (read_file K d (some f) buf read_len
            ≡ some (length w.got, w.got ++ w.rest, some w.file, w.disk))
  unfolding read_file
  read_file-WasRead d f buf read_len is_open some_bytes room =
      let w =
        loop-WasRead (K.unread d f.fd) buf (read_len + 1) d f read_len [] buf (omega arith) room
          some_bytes (omega arith) refl in
      (w, rw (lt→ltb 0 f.fd is_open, lt→ltb 0 read_len some_bytes, w.returned) refl)
