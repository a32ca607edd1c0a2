-- ===== src/File/Paths/Dirs.antt =====
-- What `create_dir` of src/file.c makes.
use trace_server.Base.{
  ℕ, zero, suc, ◌+◌, ◌-◌, ◌≤◌, ◌<◌, ◌≡◌, ◌≢◌, refl, ap, ◌∙◌, ◌⊎◌, inl, inr, Bool, true, false,
  Option, some, List, [], ◌∷◌, ◌++◌, arith, ltb, ◌==◌, ◌>>=◌, Bool-cases, get_elem?, length, take,
  drop, replicate, All-take, get_elem?_lem, get_elem?-lt, get_elem?-append_left, length-append,
  length-take, take-append_left, ltb-true, ltb-false,
}
use trace_server.Libc.{cstr, strlen, write}
use trace_server.Libc.Laws.{
  NoNul, cstr-NoNul, cstr-append, strncpy_fits, strlen-append, strlen_lem, write_lem,
}
use trace_server.File.Paths.{FileSystem, Disk, make_missing, dirs_loop, create_dir}
use trace_server.File.Paths.Made.{Made, Made-iff, Made-none, Made-then, Made-bind, then_on}

-- The paths that end before a '/' of `s` at an index from `i` on, but the empty one.
abbrev pub Parent : List ℕ → ℕ → List ℕ → Type 0
Parent s i p = (j : ℕ) × (i ≤ j) × (0 < j) × (get_elem? s j ≡ some b'/') × (p ≡ take j s)

module _ (F : FileSystem) where
  next_index :
      (s : List ℕ) (i j c : ℕ)
      → i ≤ j
      → get_elem? s i ≡ some c
      → (c == b'/') ≡ false
      → get_elem? s j ≡ some b'/'
      → i + 1 ≤ j
  next_index s i j c low ec other slash = grind arith

  here_or_later :
      (s : List ℕ) (i : ℕ) (p : List ℕ) → Parent s i p → (p ≡ take i s) ⊎ Parent s (i + 1) p
  here_or_later s i p (j, low, up, slash, ep) = elim (Bool-cases (ltb i j)) [
    | inl above ↦ inr (j, omega (arith, ltb-true above), up, slash, ep)
    | inr same ↦ let ej : j ≡ i = omega (arith, ltb-false same) in inl (ep ∙ ap (λ k. take k s) ej)
  ]

  -- A string of `create_dir`'s buffer, cut at an index.
  cut_lem :
      (s zeros : List ℕ) (i : ℕ)
      → NoNul s
      → i < length s
      → (rest : List ℕ) × (write (s ++ (0 ∷ zeros)) i (0 ∷ []) ≡ some (take i s ++ (0 ∷ rest)))
        × (cstr (take i s ++ (0 ∷ rest)) ≡ take i s)
        × (length (take i s) ≡ i)
  cut_lem s zeros i nn h =
      let rest = drop (i + 1) (s ++ (0 ∷ zeros)) in
      (
        rest,
        write_lem (s ++ (0 ∷ zeros)) i (0 ∷ []) (omega (arith, length-append s (0 ∷ zeros)))
            ∙ ap (λ t. some (t ++ (0 ∷ rest))) (take-append_left i s (0 ∷ zeros) (omega arith)),
        cstr-append (take i s) rest (All-take (λ c. c ≢ 0) i s nn),
        omega (arith, length-take i s),
      )

  loop-Made :
      (s zeros : List ℕ) (left i : ℕ) (d : Disk F)
      → NoNul s
      → i + left ≡ length s
      → Made F (Parent s i) d (dirs_loop F left d (s ++ (0 ∷ zeros)) i)
  unfolding dirs_loop
  loop-Made s zeros zero i d nn e =
      Made-none F (Parent s i) d
        (λ p (j, low, up, slash, ep). omega (arith, get_elem?-lt s j b'/' slash))
  loop-Made s zeros (suc left) i d nn e =
      let (c, ec) = get_elem?_lem s i (omega arith) in
      let ec' : get_elem? (s ++ (0 ∷ zeros)) i ≡ some c =
        get_elem?-append_left s (0 ∷ zeros) i (omega arith) ∙ ec in
      let rest : (d' : Disk F)
          → Made F (Parent s (i + 1)) d' (dirs_loop F left d' (s ++ (0 ∷ zeros)) (i + 1)) =
        λ d'. loop-Made s zeros left (i + 1) d' nn (omega arith) in
      let (tail, ew, path, len) = cut_lem s zeros i nn (omega arith) in
      let later : (p : List ℕ) → Parent s (i + 1) p → Parent s i p =
        λ p (j, low, up, slash, ep). (j, omega arith, up, slash, ep) in
      elim (Bool-cases (c == b'/')) [
        | inr other ↦
            rw (ec', other)
              (Made-iff F (Parent s (i + 1)) (Parent s i) d _ later
                (λ p (j, low, up, slash, ep).
                  (j, next_index s i j c low ec other slash, up, slash, ep))
                (rest d))
        | inl slash ↦ elim (Bool-cases (ltb 0 i)) [
          | inl deep ↦
              rw (ec', slash, ew, path, len, deep)
                (Made-iff F (λ p. (p ≡ take i s) ⊎ Parent s (i + 1) p) (Parent s i) d _
                  (λ p h. elim h [
                    | inl same ↦ (i, omega arith, ltb-true deep, ground (arith, ec, slash), same)
                    | inr h' ↦ later p h'
                  ])
                  (here_or_later s i)
                  (Made-then F (Parent s (i + 1)) d (take i s)
                    (λ d'. dirs_loop F left d' (s ++ (0 ∷ zeros)) (i + 1)) rest))
          | inr first ↦
              rw (ec', slash, ew, path, len, first)
                (Made-iff F (Parent s (i + 1)) (Parent s i) d _ later
                  (λ p (j, low, up, slash, ep). (j, omega (arith, ltb-false first), up, slash, ep))
                  (rest d))
        ]
      ]

  -- The last directory, which `create_dir` asks for again once it has made it.
  abbrev last : List ℕ → Disk F → Option (Bool × Disk F)
  last s d = then_on F (make_missing F d s) (λ d'. some (F.exists d' s, d'))

  last_exists :
      (s : List ℕ) (d : Disk F) → last s d ≡ then_on F (make_missing F d s) (λ d'. some (true, d'))
  last_exists s d = elim (Bool-cases (F.exists d s)) [
    | inl there ↦ rw there (ap (λ b. some (b, d)) there)
    | inr missing ↦ elim (Bool-cases (F.mkdir d s).0) [
      | inl done ↦ rw (missing, done) (ap (λ b. some (b, (F.mkdir d s).1)) (F.mkdir_lem d s done))
      | inr failed ↦ rw (missing, failed) refl
    ]
  ]

  last-Made : (s : List ℕ) (d : Disk F) → Made F (λ p. p ≡ s) d (last s d)
  last-Made s d = rw (last_exists s d) (
      Made-iff F (λ p. (p ≡ s) ⊎ ⊥) (λ p. p ≡ s) d _
        (λ p h. elim h [ inl e ↦ e | inr never ↦ absurd never ]) (λ p e. inl e)
        (Made-then F (λ p. ⊥) d s (λ d'. some (true, d'))
          (λ d'. Made-none F (λ p. ⊥) d' (λ p h. h))))

  -- `create_dir` of a path that is not empty and fits its buffer does not fault. When it returns true, the
  -- path and the paths before each '/' in it exist; when it returns false, mkdir refused one of them that did
  -- not exist. Whatever existed before exists afterwards.
  pub create_dir-Made :
      (d : Disk F) (dir : List ℕ) (n : ℕ)
      → strlen dir ≡ some n
      → 0 < n
      → n < 512
      → Made F (λ p. Parent (cstr dir) 0 p ⊎ (p ≡ cstr dir)) d (create_dir F d dir)
  unfolding create_dir
  create_dir-Made d dir n e some_path h =
      let s = cstr dir in
      let zeros : List ℕ = replicate (511 - n) 0 in
      let nn = cstr-NoNul dir in
      let len : length s ≡ n = strlen_lem dir n e in
      let all : Made F (λ p. Parent s 0 p ⊎ (p ≡ s)) d
          (dirs_loop F (length s) d (s ++ (0 ∷ zeros)) 0 >>= λ r. then_on F r (last s)) =
        Made-bind F (Parent s 0) (λ p. p ≡ s) d (dirs_loop F (length s) d (s ++ (0 ∷ zeros)) 0)
          (last s) (loop-Made s zeros (length s) 0 d nn (omega arith)) (last-Made s) in
      let deep : ltb 0 (length s) ≡ true = ground arith in
      rw
        (
          strncpy_fits dir n 511 e (omega arith),
          strlen-append s zeros nn,
          cstr-append s zeros nn,
          deep,
        )
        all
