-- ===== src/File/Paths/Made.antt =====
-- How directories come to exist one after the other, as in `create_dir` of src/file.c.
use trace_server.Base.{
  ℕ, ◌≡◌, refl, ap, ◌∙◌, ◌⊎◌, inl, inr, Bool, true, false, not, Option, some, List, if◌then◌else◌,
  ◌>>=◌, Bool-cases,
}
use trace_server.File.Paths.{FileSystem, Disk, make_missing}

module _ (F : FileSystem) where
  -- How a call ends that makes the directories of `P`: true, and they all exist; or false, and mkdir
  -- refused one that did not exist. No path has gone.
  pub record Made (P : List ℕ → Type 0) (d : Disk F) (o : Option (Bool × Disk F)) : Type 0 where
    pub ok : Bool
    pub disk : Disk F
    pub returned : o ≡ some (ok, disk)
    pub kept : (q : List ℕ) → F.exists d q ≡ true → F.exists disk q ≡ true
    pub made : ok ≡ true → (p : List ℕ) → P p → F.exists disk p ≡ true
    pub refused :
        ok ≡ false
        → (d' : Disk F) × (p : List ℕ) × P p × (F.exists d' p ≡ false) × ((F.mkdir d' p).0 ≡ false)

  pub Made-iff :
      (P Q : List ℕ → Type 0) (d : Disk F) (o : Option (Bool × Disk F))
      → ((p : List ℕ) → P p → Q p)
      → ((p : List ℕ) → Q p → P p)
      → Made P d o
      → Made Q d o
  Made-iff P Q d o to from m = record {
    ok = m.ok;
    disk = m.disk;
    returned = m.returned;
    kept = m.kept;
    made = λ e p q. m.made e p (from p q);
    refused = λ e. let (d', p, h, gone, failed) = m.refused e in (d', p, to p h, gone, failed);
  }

  -- Nothing is asked for.
  pub Made-none :
      (P : List ℕ → Type 0) (d : Disk F) → ((p : List ℕ) → P p → ⊥) → Made P d (some (true, d))
  Made-none P d nothing = record {
    ok = true;
    disk = d;
    returned = refl;
    kept = λ q e. e;
    made = λ e p h. absurd (nothing p h);
    refused = λ e. absurd (cc);
  }

  -- Once `path` exists, what is left to make.
  pub Made-after :
      (P : List ℕ → Type 0) (d d' : Disk F) (path : List ℕ) (o : Option (Bool × Disk F))
      → ((q : List ℕ) → F.exists d q ≡ true → F.exists d' q ≡ true)
      → F.exists d' path ≡ true
      → Made P d' o
      → Made (λ p. (p ≡ path) ⊎ P p) d o
  Made-after P d d' path o keep there m = record {
    ok = m.ok;
    disk = m.disk;
    returned = m.returned;
    kept = λ q e. m.kept q (keep q e);
    made = λ e p h. elim h [
      | inl same ↦ ap (F.exists m.disk) same ∙ m.kept path there
      | inr h' ↦ m.made e p h'
    ];
    refused = λ e. let (d2, p, h, gone, failed) = m.refused e in (d2, p, inr h, gone, failed);
  }

  -- The step that `create_dir` makes of a path, and what goes on behind it.
  abbrev pub then_on : Bool × Disk F → (Disk F → Option (Bool × Disk F)) → Option (Bool × Disk F)
  then_on r next = if not r.0 then some (false, r.1) else next r.1

  pub Made-then :
      (P : List ℕ → Type 0) (d : Disk F) (path : List ℕ) (next : Disk F → Option (Bool × Disk F))
      → ((d' : Disk F) → Made P d' (next d'))
      → Made (λ p. (p ≡ path) ⊎ P p) d (then_on (make_missing F d path) next)
  Made-then P d path next rest = elim (Bool-cases (F.exists d path)) [
    | inl there ↦ rw there (Made-after P d d path (next d) (λ q e. e) there (rest d))
    | inr missing ↦ elim (Bool-cases (F.mkdir d path).0) [
      | inl done ↦
          let d' = (F.mkdir d path).1 in
          rw (missing, done)
            (Made-after P d d' path (next d') (F.mkdir_keeps d path) (F.mkdir_lem d path done)
              (rest d'))
      | inr failed ↦
          rw (missing, failed)
            (record {
              ok = false;
              disk = (F.mkdir d path).1;
              returned = refl;
              kept = F.mkdir_keeps d path;
              made = λ e. absurd (cc);
              refused = λ e. (d, path, inl refl, missing, failed);
            })
    ]
  ]

  -- Two parts, of which the second is left out when the first was refused.
  pub Made-bind :
      (P Q : List ℕ → Type 0) (d : Disk F) (o : Option (Bool × Disk F))
      (next : Disk F → Option (Bool × Disk F))
      → Made P d o
      → ((d' : Disk F) → Made Q d' (next d'))
      → Made (λ p. P p ⊎ Q p) d (o >>= λ r. then_on r next)
  Made-bind P Q d o next m rest = elim (Bool-cases m.ok) [
    | inl went ↦
        let n = rest m.disk in
        rw (m.returned, went)
          (record {
            ok = n.ok;
            disk = n.disk;
            returned = n.returned;
            kept = λ q e. n.kept q (m.kept q e);
            made =
                λ e p h. elim h [ inl h' ↦ n.kept p (m.made went p h') | inr h' ↦ n.made e p h' ];
            refused =
                λ e. let (d2, p, h, gone, failed) = n.refused e in (d2, p, inr h, gone, failed);
          })
    | inr stopped ↦
        rw (m.returned, stopped)
          (record {
            ok = false;
            disk = m.disk;
            returned = refl;
            kept = m.kept;
            made = λ e. absurd (cc);
            refused = λ e.
                let (d2, p, h, gone, failed) = m.refused stopped in (d2, p, inl h, gone, failed);
          })
  ]
