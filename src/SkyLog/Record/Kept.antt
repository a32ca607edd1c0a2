-- ===== src/SkyLog/Record/Kept.antt =====
-- What `skylog_record` of src/skylog_record.c returns.
use trace_server.Base.{
  ℕ, ◌+◌, ◌≤◌, ◌<◌, ◌≡◌, refl, inl, inr, Bool, true, false, not, ◌&&◌, Option, none, some, List,
  ◌∷◌, ◌++◌, arith, lt→ltb, if◌then◌else◌, ◌>>=◌, Bool-cases, is_some, length, length-take, take,
  drop, replicate,
}
use trace_server.Base.Int.{pos, is_count}
use trace_server.Libc.{cstr, strlen, memcpy}
use trace_server.Libc.Laws.{
  IsTerminated, IsTerminated-append, snprintf_fits, strlen-lt, strcmp_eq-returns, drop-IsTerminated,
  read_lem, write_lem,
}
use trace_server.File.{File}
use trace_server.File.Laws.{write_file-whole}
use trace_server.File.Paths.{FileSystem, Disk, create_file, open_file, file_close, lseek_from_end}
use trace_server.File.Paths.Dirs.{create_dir-Made}
use trace_server.SkyLog.Record.{
  Opening, SkylogRecord, no_record, record_dir, record_name, record_refresh, record_exit,
  record_open, record_create_and_open_file, record_write, skylog_record,
}

-- The name of the record's file is a string.
abbrev pub IsRecord : SkylogRecord → Type 0
IsRecord r = IsTerminated r.filename

no_record-IsRecord : IsRecord no_record
no_record-IsRecord = (0, refl)

-- The copy of the name that the record keeps.
name_kept :
    (filename : List ℕ) (n : ℕ)
    → length filename ≡ 128
    → strlen filename ≡ some n
    → (kept : List ℕ) × (memcpy (replicate 128 0) 0 filename 0 n ≡ some kept) × IsTerminated kept
name_kept filename n len en =
    let short : n < 128 = omega (arith, strlen-lt filename n en) in
    let copy = take n filename in
    let copied : length copy ≡ n = omega (arith, length-take n filename) in
    (
      copy ++ drop (0 + length copy) (replicate 128 0),
      rw (read_lem filename 0 n (omega arith)) (write_lem (replicate 128 0) 0 copy (omega arith)),
      IsTerminated-append copy _ (drop-IsTerminated (0 + length copy) 128 (omega arith)),
    )

module _ (F : FileSystem) where
  abbrev pub Outcome : Type 0
  Outcome = Bool × SkylogRecord × Disk F

  -- A call that returns.
  record Ready (o : Option Outcome) : Type 0 where
    ok : Bool
    rec : SkylogRecord
    disk : Disk F
    returned : o ≡ some (ok, rec, disk)
    wf : IsRecord rec

  failed-Ready : (d : Disk F) → Ready (some (false, no_record, d))
  failed-Ready d = record { ok = _; rec = _; disk = _; returned = refl; wf = no_record-IsRecord }

  -- What an opening keeps of the file.
  keep_open : List ℕ → Disk F → Option File → Option Outcome
  keep_open filename d none = some (false, no_record, d)
  keep_open filename d (some f) =
      let sought = lseek_from_end F d (some f) (pos 0) in
      strlen filename >>= λ n. memcpy (replicate 128 0) 0 filename 0 n >>= λ kept.
      some (true, record { filename = kept; f = some f }, sought.1)

  keep_open-Ready :
      (filename : List ℕ) (d : Disk F) (f : Option File)
      → length filename ≡ 128
      → IsTerminated filename
      → Ready (keep_open filename d f)
  unfolding keep_open
  keep_open-Ready filename d none len term = failed-Ready d
  keep_open-Ready filename d (some f) len (n, en) =
      let (kept, ek, term) = name_kept filename n len en in
      rw (en, ek) (record { ok = _; rec = _; disk = _; returned = refl; wf = term })

  record_open-Ready :
      (o : Opening) (d : Disk F) (filename : List ℕ)
      → length filename ≡ 128
      → IsTerminated filename
      → Ready (record_open F o d filename)
  unfolding record_open keep_open
  record_open-Ready o d filename len term =
      let dir : List ℕ = take 8 record_dir ++ drop 8 (replicate 255 0) in
      let (path, ep, lp, tp, shape) =
        snprintf_fits dir 8 246 (b'/' ∷ cstr filename) (omega arith) (omega arith) in
      let created = create_file F d (cstr path) in
      let opened = open_file F o.node_ok o.name_ok created.1 (cstr path) in
      elim (Bool-cases created.0) [
        | inl there ↦ rw (ep, there) (keep_open-Ready filename opened.1 opened.0 len term)
        | inr failed ↦ rw (ep, failed) (failed-Ready created.1)
      ]

  refresh-Ready :
      (o : Opening) (d : Disk F) (r : SkylogRecord) → IsRecord r → Ready (record_refresh F o d r)
  unfolding record_refresh record_exit
  refresh-Ready o d r h =
      let m = create_dir-Made F d record_dir 8 refl (omega arith) (omega arith) in
      let (filename, ef, len, term, shape) =
        snprintf_fits (replicate 128 0) 0 127 (record_name o.date) (omega arith) (omega arith) in
      let (same, es) = strcmp_eq-returns filename r.filename term h in
      let left : Disk F = file_close F m.disk r.f in
      elim (Bool-cases m.ok) [
        | inr refused ↦ rw (m.returned, ef, es, refused) (failed-Ready left)
        | inl made ↦ elim (Bool-cases (same && is_some r.f)) [
          | inl current ↦
              rw (m.returned, ef, es, made, current)
                (record { ok = true; rec = r; disk = m.disk; returned = refl; wf = h })
          | inr other_day ↦
              rw (m.returned, ef, es, made, other_day) (record_open-Ready o left filename len term)
        ]
      ]

  pick-Ready : (b : Bool) (x y : Option Outcome) → Ready x → Ready y → Ready (if b then x else y)
  pick-Ready true x y h k = h
  pick-Ready false x y h k = k

  open-Ready :
      (o : Opening) (d : Disk F) (r : SkylogRecord)
      → IsRecord r
      → Ready (record_create_and_open_file F o d r)
  unfolding record_create_and_open_file record_exit
  open-Ready o d r h =
      pick-Ready (not (is_some r.f)) (record_refresh F o (file_close F d r.f) no_record)
        (record_refresh F o d r) (refresh-Ready o (file_close F d r.f) no_record no_record-IsRecord)
        (refresh-Ready o d r h)

  -- How a call ends that records data: true, with the data behind what was written to the record's file; or
  -- false, and then the record has no file.
  pub record Recorded (bytes : List ℕ) (n : ℕ) (o : Option Outcome) : Type 0 where
    pub ok : Bool
    pub rec : SkylogRecord
    pub disk : Disk F
    pub returned : o ≡ some (ok, rec, disk)
    pub wf : IsRecord rec
    pub kept :
        ok ≡ true
        → (f : File) × (d : Disk F) × (rec.f ≡ some f)
          × (F.kernel.written disk f.fd ≡ F.kernel.written d f.fd ++ take n bytes)
    pub dropped : ok ≡ false → rec ≡ no_record

  -- A failure, after which the record has no file.
  failed-Recorded :
      (bytes : List ℕ) (n : ℕ) (d : Disk F) → Recorded bytes n (some (false, no_record, d))
  failed-Recorded bytes n d = record {
    ok = false;
    rec = no_record;
    disk = d;
    returned = refl;
    wf = no_record-IsRecord;
    kept = λ e. absurd (cc);
    dropped = λ e. refl;
  }

  -- A write, and what follows it.
  then_drop : Bool × SkylogRecord × Disk F → Option Outcome
  then_drop (wrote, r, d) =
      let after = record_exit F d r in
      if not wrote then some (false, after.0, after.1) else some (true, r, d)

  written-Recorded :
      (d : Disk F) (r : SkylogRecord) (bytes : List ℕ) (n : ℕ) (f : Option File)
      → r.f ≡ f
      → IsRecord r
      → 0 < n
      → n ≤ length bytes
      → Recorded bytes n (record_write F d r bytes n >>= then_drop)
  unfolding record_write then_drop record_exit
  written-Recorded d r bytes n none e h some_bytes room = rw e (failed-Recorded bytes n d)
  written-Recorded d r bytes n (some f) e h some_bytes room =
      let (k, f', d', ew, whole) = write_file-whole F.kernel d f bytes n some_bytes room in
      elim (Bool-cases (is_count k n)) [
        | inr short ↦ rw (e, ew, short) (failed-Recorded bytes n (file_close F d' (some f')))
        | inl all ↦
            rw (e, ew, all)
              (record {
                ok = true;
                rec = record r { f = some f' };
                disk = d';
                returned = refl;
                wf = h;
                kept = λ ok. (f', d, refl, whole all);
                dropped = λ no_way. absurd (cc);
              })
      ]

  -- `skylog_record` of data, with a record whose name is a string, returns: true, and the data stand behind
  -- what was written to the file of the record; or false, and the record has no file and no name. The
  -- record's name is a string again.
  pub skylog_record-Recorded :
      (o : Opening) (d : Disk F) (r : SkylogRecord) (bytes : List ℕ) (n : ℕ)
      → IsRecord r
      → 0 < n
      → n ≤ length bytes
      → Recorded bytes n (skylog_record F o d r bytes n)
  unfolding skylog_record then_drop record_exit
  skylog_record-Recorded o d r bytes n h some_bytes room =
      let t = open-Ready o d r h in
      elim (Bool-cases t.ok) [
        | inl opened ↦
            rw (lt→ltb 0 n some_bytes, t.returned, opened)
              (written-Recorded t.disk t.rec bytes n t.rec.f refl t.wf some_bytes room)
        | inr refused ↦
            rw (lt→ltb 0 n some_bytes, t.returned, refused)
              (failed-Recorded bytes n (file_close F t.disk t.rec.f))
      ]
