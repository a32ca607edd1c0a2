-- ===== src/File/Laws.antt =====
-- What the loops of src/file.c write and read.
use trace_server.Base.{
  ℕ, zero, suc, ◌+◌, ◌-◌, ◌≤◌, ◌<◌, ◌≡◌, refl, sym, ap, ◌∙◌, ◌⊎◌, inl, inr, Option, none, some,
  List, [], ◌∷◌, ◌++◌, arith, lt→ltb, ltb, ltb-true, true, leb, leb-true, leb-false, ◌==◌, ==_iff,
  min, take, drop, take-take, take-nil, length, length-take, length-drop, append_assoc, Bool-cases,
  false, append-nil,
}
use trace_server.Base.Int.{ℤ, pos, minus_one, is_count}
use trace_server.Libc.{read}
use trace_server.Libc.Laws.{read_lem}
use trace_server.File.{Kernel, File, io_write_error, write_loop, write_file}

take_add : (i n : ℕ) (xs : List ℕ) → take i xs ++ take n (drop i xs) ≡ take (i + n) xs
take_add zero n xs = ap (λ m. take m xs) (omega arith)
take_add (suc i) n [] = take-nil n ∙ sym (take-nil (suc i + n))
take_add (suc i) n (x ∷ xs) =
    let e : suc i + n ≡ suc (i + n) = omega arith in
    ap (λ t. x ∷ t) (take_add i n xs) ∙ ap (λ m. take m (x ∷ xs)) (sym e)

module _ (K : Kernel) where
  -- How a call ends that wrote to the descriptor `fd`, which held `before`.
  pub record Wrote (before : List ℕ) (fd : ℕ) (buf : List ℕ) (write_len : ℕ)
      (o : Option (ℤ × File × K.Disk)) : Type 0 where
    pub result : ℤ
    pub file : File
    pub disk : K.Disk
    pub count : ℕ
    pub returned : o ≡ some (result, file, disk)
    pub written_eq : K.written disk fd ≡ before ++ take count buf
    pub outcome :
        ((result ≡ pos write_len) × (count ≡ write_len))
        ⊎ ((result ≡ minus_one) × (count < write_len))
    pub status_eq : file.status ≡ io_write_error
    pub same_fd : file.fd ≡ fd

  -- An end of the call, by what was written.
  Wrote-some :
      (before buf : List ℕ) (write_len count : ℕ) (result : ℤ) (f : File) (d : K.Disk)
      → K.written d f.fd ≡ before ++ take count buf
      → ((result ≡ pos write_len) × (count ≡ write_len))
        ⊎ ((result ≡ minus_one) × (count < write_len))
      → Wrote before f.fd buf write_len (some (result, record f { status = io_write_error }, d))
  Wrote-some before buf write_len count result f d e outcome = record {
    result = result;
    file = record f { status = io_write_error };
    disk = d;
    count = count;
    returned = refl;
    written_eq = e;
    outcome = outcome;
    status_eq = refl;
    same_fd = refl;
  }

  loop-Wrote :
      (before : List ℕ) (fuel : ℕ) (d : K.Disk) (f : File) (buf : List ℕ) (write_len offset : ℕ)
      → write_len ≤ length buf
      → offset < write_len
      → write_len < offset + fuel
      → K.written d f.fd ≡ before ++ take offset buf
      → Wrote before f.fd buf write_len (write_loop K fuel d f buf write_len offset)
  unfolding write_loop
  loop-Wrote before zero d f buf write_len offset room more enough e = absurd (omega arith)
  loop-Wrote before (suc fuel) d f buf write_len offset room more enough e =
      go (loop-Wrote before fuel) (K.write_fd d f.fd bytes).0 refl
    where
      m : ℕ
      m = min (write_len - offset) 1024

      bytes : List ℕ
      bytes = take m (drop offset buf)

      disk' : K.Disk
      disk' = (K.write_fd d f.fd bytes).1

      bytes_len : length bytes ≡ m
      bytes_len = omega (arith, length-take m (drop offset buf), length-drop offset buf)

      chunk : read buf offset m ≡ some bytes
      chunk = read_lem buf offset m (omega arith)

      grown :
          (n : ℕ)
          → (K.write_fd d f.fd bytes).0 ≡ some n
          → (K.written disk' f.fd ≡ before ++ take (offset + n) buf) × (n ≤ m)
      grown n ew =
          let (w, le) = K.write_lem d f.fd bytes n disk' (ap (λ x. (x, disk')) ew) in
          (
            w
                ∙ ap (λ xs. xs ++ take n bytes) e
                ∙ append_assoc before (take offset buf) (take n bytes)
                ∙ ap (◌++◌ before) (
                    ap (λ xs. take offset buf ++ xs)
                      (take-take n m (drop offset buf) (omega (arith, bytes_len)))
                    ∙ take_add offset n buf),
            omega (arith, bytes_len),
          )

      go :
          ((d : K.Disk) (f : File) (buf : List ℕ) (write_len offset : ℕ)
            → write_len ≤ length buf
            → offset < write_len
            → write_len < offset + fuel
            → K.written d f.fd ≡ before ++ take offset buf
            → Wrote before f.fd buf write_len (write_loop K fuel d f buf write_len offset))
          → (r : Option ℕ) → (K.write_fd d f.fd bytes).0 ≡ r
          → Wrote before f.fd buf write_len (write_loop K (suc fuel) d f buf write_len offset)
      go again none ew =
          rw (write_loop, chunk, ew)
            (Wrote-some before buf write_len offset minus_one f disk'
              (K.write_error d f.fd bytes disk' (ap (λ x. (x, disk')) ew) ∙ e) (inr (refl, more)))
      go again (some n) ew = elim (Bool-cases (n == m)) [
        | inr short ↦
            rw (write_loop, chunk, ew, short)
              (Wrote-some before buf write_len (offset + n) minus_one f disk' (grown n ew).0
                (inr (refl, grind (arith, (grown n ew).1))))
        | inl whole ↦
            let full : n ≡ m = (==_iff n m).0 whole in
            elim (Bool-cases (leb write_len (offset + n))) [
              | inl done ↦
                  let end : offset + n ≡ write_len = omega (arith, leb-true done) in
                  rw (write_loop, chunk, ew, whole, done)
                    (Wrote-some before buf write_len (offset + n) (pos (offset + n)) f disk'
                      (grown n ew).0 (inl (ap pos end, end)))
              | inr on ↦
                  rw (write_loop, chunk, ew, whole, on)
                    (again disk' f buf write_len (offset + n) room (leb-false on) (omega arith)
                      (grown n ew).0)
            ]
      ]

  -- `write_file` of `write_len` bytes, with an open file and a buffer that holds them, returns, whatever
  -- the kernel accepts at a time: either the length, with all the bytes written in order behind what
  -- the descriptor held, or -1 after a proper prefix of them. The file's status is the write error in
  -- both cases, the success included.
  pub write_file-Wrote :
      (d : K.Disk) (f : File) (buf : List ℕ) (write_len : ℕ)
      → 0 < f.fd
      → 0 < write_len
      → write_len ≤ length buf
      → (w : Wrote
          (K.written d f.fd)
          f.fd
          buf
          write_len
          (write_loop K (write_len + 1) d f buf write_len 0))
        × (write_file K d (some f) buf write_len ≡ some (w.result, some w.file, w.disk))
  unfolding write_file
  write_file-Wrote d f buf write_len is_open some_bytes room =
      let w =
        loop-Wrote (K.written d f.fd) (write_len + 1) d f buf write_len 0 room some_bytes
          (omega arith) (sym (append-nil (K.written d f.fd))) in
      (w, rw (lt→ltb 0 f.fd is_open, lt→ltb 0 write_len some_bytes, w.returned) refl)

  -- A write of a file, open or not: what it wrote, which is all if it returns the length, and less otherwise.
  pub write_file-ends :
      (d : K.Disk) (f : File) (bytes : List ℕ) (n : ℕ)
      → 0 < n
      → n ≤ length bytes
      → (k : ℤ) × (f' : File) × (d' : K.Disk) × (count : ℕ) × (write_file K d (some f) bytes n
          ≡ some (k, some f', d'))
        × (K.written d' f.fd ≡ K.written d f.fd ++ take count bytes)
        × (f'.fd ≡ f.fd)
        × (((is_count k n ≡ true) × (count ≡ n)) ⊎ ((is_count k n ≡ false) × (count < n)))
  unfolding write_file
  write_file-ends d f bytes n some_bytes room = elim (Bool-cases (ltb 0 f.fd)) [
    | inr closed ↦ (
      pos 0,
      f,
      d,
      0,
      rw closed refl,
      sym (append-nil (K.written d f.fd)),
      refl,
      inr (ground arith, some_bytes),
    )
    | inl is_open ↦
        let (w, ew) = write_file-Wrote d f bytes n (ltb-true is_open) some_bytes room in
        (
          w.result,
          w.file,
          w.disk,
          w.count,
          ew,
          w.written_eq,
          w.same_fd,
          elim w.outcome [
            | inl (whole, all) ↦ inl (ap (λ r. is_count r n) whole ∙ (==_iff n n).1 refl, all)
            | inr (failed, less) ↦ inr (ap (λ r. is_count r n) failed, less)
          ],
        )
  ]

  -- A write that returned the length wrote all.
  pub write_file-whole :
      (d : K.Disk) (f : File) (bytes : List ℕ) (n : ℕ)
      → 0 < n
      → n ≤ length bytes
      → (k : ℤ) × (f' : File) × (d' : K.Disk) × (write_file K d (some f) bytes n
          ≡ some (k, some f', d'))
        × (is_count k n ≡ true → K.written d' f'.fd ≡ K.written d f'.fd ++ take n bytes)
  write_file-whole d f bytes n some_bytes room =
      let (k, f', d', count, e, written, same, end) = write_file-ends d f bytes n some_bytes room in
      (
        k,
        f',
        d',
        e,
        λ ok. elim end [
          | inl (_, all) ↦ rw same (written ∙ ap (λ m. K.written d f.fd ++ take m bytes) all)
          | inr (bad, _) ↦ absurd (cc)
        ],
      )
