-- ===== src/File/Memory.antt =====
-- A file system in memory, which meets the interface of src/file.c's calls: paths that exist, and what was
-- written, of one open file.
use trace_server.Base.{
  ℕ, ◌≡◌, refl, sym, ap, ◌∙◌, Bool, true, false, ◌&&◌, Option, none, some, List, [], ◌∷◌, ◌++◌,
  ◌==◌, if◌then◌else◌, arith, length, take, take-length, ◌≤◌, ◌<◌,
}
use trace_server.File.{Kernel}
use trace_server.File.Paths.{FileSystem}

pub record Memory : Type 0 where
  pub paths : List (List ℕ)
  pub log : List ℕ

abbrev pub same_path : List ℕ → List ℕ → Bool
same_path [] [] = true
same_path [] (y ∷ ys) = false
same_path (x ∷ xs) [] = false
same_path (x ∷ xs) (y ∷ ys) = (x == y) && same_path xs ys

pub same_path_refl : (p : List ℕ) → same_path p p ≡ true
same_path_refl [] = refl
same_path_refl (x ∷ xs) = let e : (x == x) ≡ true = ground arith in rw (e, same_path_refl xs) refl

abbrev pub has_path : List (List ℕ) → List ℕ → Bool
has_path [] p = false
has_path (q ∷ paths) p = if same_path q p then true else has_path paths p

pub has_path_again :
    (paths : List (List ℕ)) (p q : List ℕ) → has_path paths q ≡ true → has_path (p ∷ paths) q ≡ true
has_path_again paths p q h = ground arith

abbrev pub append_path : Memory → List ℕ → Memory
append_path m p = record m { paths = p ∷ m.paths }

-- Nothing is ever left to read.
abbrev pub unread_bytes : List ℕ
unread_bytes = []

abbrev pub give : Memory → ℕ → ℕ → Option (List ℕ) × Memory
give m fd n = (some [], m)

abbrev pub accept : Memory → ℕ → List ℕ → Option ℕ × Memory
accept m fd bytes = (some (length bytes), record m { log = m.log ++ bytes })

pub give_lem :
    (m : Memory) (fd n : ℕ) (bytes : List ℕ) (m' : Memory)
    → give m fd n ≡ (some bytes, m')
    → (bytes ++ unread_bytes ≡ unread_bytes)
      × (length bytes ≤ n)
      × (bytes ≡ [] → 0 < n → unread_bytes ≡ [])
give_lem m fd n bytes m' e =
    let nothing : [] ≡ bytes = cc in
    (ap (λ b. b ++ []) (sym nothing), omega (arith, ap length nothing), λ z h. refl)

pub accept_lem :
    (m : Memory) (fd : ℕ) (bytes : List ℕ) (n : ℕ) (m' : Memory)
    → accept m fd bytes ≡ (some n, m')
    → (m'.log ≡ m.log ++ take n bytes) × (n ≤ length bytes)
accept_lem m fd bytes n m' e =
    let count : length bytes ≡ n = cc in
    (
      sym (ap (λ x. x.1.log) e)
          ∙ ap (λ b. m.log ++ b) (sym (take-length bytes))
          ∙ ap (λ k. m.log ++ take k bytes) count,
      omega arith,
    )

pub accept_error :
    (m : Memory) (fd : ℕ) (bytes : List ℕ) (m' : Memory)
    → accept m fd bytes ≡ (none, m')
    → m'.log ≡ m.log
accept_error m fd bytes m' e = absurd (let e' = ap (λ x. x.0) e in cc)

abbrev pub memory_kernel : Kernel
memory_kernel = record {
  Disk = Memory;
  unread = λ m fd. unread_bytes;
  written = λ m fd. m.log;
  read_fd = give;
  write_fd = accept;
  read_lem = give_lem;
  read_error = λ m fd n m' e. refl;
  write_lem = accept_lem;
  write_error = accept_error;
}

abbrev pub memory : FileSystem
memory = record {
  kernel = memory_kernel;
  exists = λ m p. has_path m.paths p;
  mkdir = λ m p. (true, append_path m p);
  open_fd = λ m p flags. (some 3, append_path m p);
  close_fd = λ m fd. m;
  lseek = λ m fd offset whence. (offset, m);
  mkdir_lem = λ m p e. rw (same_path_refl p) refl;
  mkdir_keeps = λ m p q h. has_path_again m.paths p q h;
}
