-- ===== src/File/Tests.antt =====
-- Tests of the loops on files, over a disk with one descriptor that takes and gives 2 bytes at a time.
use trace_server.Base.{
  ℕ, ◌≤◌, ◌<◌, ◌≡◌, refl, sym, ap, ◌∙◌, Option, some, List, [], ◌∷◌, ◌++◌, arith, min, length, take,
  drop, length-take, take-append-drop,
}
use trace_server.File.{Kernel, File, io_normal, write_loop, write_file, read_loop, read_file}
use trace_server.File.Laws.{Wrote, write_file-Wrote}
use trace_server.File.Reads.{WasRead, read_file-WasRead}

-- What is to be read, and what was written.
abbrev Bytes : Type 0
Bytes = List ℕ × List ℕ

give : Bytes → ℕ → ℕ → Option (List ℕ) × Bytes
give d fd n = (some (take (min n 2) d.0), (drop (min n 2) d.0, d.1))

accept : Bytes → ℕ → List ℕ → Option ℕ × Bytes
accept d fd bytes = (some (min (length bytes) 2), (d.0, d.1 ++ take (min (length bytes) 2) bytes))

nil_of_take : (n : ℕ) (xs : List ℕ) → take (min n 2) xs ≡ [] → 0 < n → xs ≡ []
nil_of_take n [] e h = refl
nil_of_take n (x ∷ xs) e h =
    absurd (let l = ap length e in omega (arith, length-take (min n 2) (x ∷ xs)))

give_lem :
    (d : Bytes) (fd n : ℕ) (bytes : List ℕ) (d' : Bytes)
    → give d fd n ≡ (some bytes, d')
    → (bytes ++ d'.0 ≡ d.0) × (length bytes ≤ n) × (bytes ≡ [] → 0 < n → d.0 ≡ [])
unfolding give
give_lem d fd n bytes d' e =
    let front : take (min n 2) d.0 ≡ bytes = cc in
    let back : drop (min n 2) d.0 ≡ d'.0 = ap (λ x. x.1.0) e in
    (
      rw (← front, ← back) (take-append-drop (min n 2) d.0),
      omega (arith, ap length front, length-take (min n 2) d.0),
      λ z h. nil_of_take n d.0 (front ∙ z) h,
    )

accept_lem :
    (d : Bytes) (fd : ℕ) (bytes : List ℕ) (n : ℕ) (d' : Bytes)
    → accept d fd bytes ≡ (some n, d')
    → (d'.1 ≡ d.1 ++ take n bytes) × (n ≤ length bytes)
unfolding accept
accept_lem d fd bytes n d' e =
    let count : min (length bytes) 2 ≡ n = cc in
    (sym (ap (λ x. x.1.1) e) ∙ ap (λ m. d.1 ++ take m bytes) count, omega arith)

abbrev twos : Kernel
unfolding give accept
twos = record {
  Disk = Bytes;
  unread = λ d fd. d.0;
  written = λ d fd. d.1;
  read_fd = give;
  write_fd = accept;
  read_lem = give_lem;
  read_error = λ d fd n d' e. absurd (let e' = ap (λ x. x.0) e in cc);
  write_lem = accept_lem;
  write_error = λ d fd bytes d' e. absurd (let e' = ap (λ x. x.0) e in cc);
}

abbrev disk : twos.Disk
unfolding twos
disk = (7 ∷ 8 ∷ 9 ∷ [], 1 ∷ [])

abbrev log_file : File
log_file = record { fd = 3; file = b'f' ∷ 0 ∷ []; status = io_normal }

write_file-Wrote_example :
    (w : Wrote twos
      (twos.written disk 3)
      3
      (5 ∷ 6 ∷ [])
      2
      (write_loop twos 3 disk log_file (5 ∷ 6 ∷ []) 2 0))
    × (write_file twos disk (some log_file) (5 ∷ 6 ∷ []) 2 ≡ some (w.result, some w.file, w.disk))
write_file-Wrote_example =
    write_file-Wrote twos disk log_file (5 ∷ 6 ∷ []) 2 (omega arith) (omega arith) (omega arith)

read_file-WasRead_example :
    (w : WasRead twos
      (twos.unread disk 3)
      3
      (0 ∷ 0 ∷ 0 ∷ [])
      3
      (read_loop twos 4 disk log_file (0 ∷ 0 ∷ 0 ∷ []) 3 0))
    × (read_file twos disk (some log_file) (0 ∷ 0 ∷ 0 ∷ []) 3
        ≡ some (length w.got, w.got ++ w.rest, some w.file, w.disk))
read_file-WasRead_example =
    read_file-WasRead twos disk log_file (0 ∷ 0 ∷ 0 ∷ []) 3 (omega arith) (omega arith)
      (omega arith)
