-- ===== src/SkyLog/Record.antt =====
-- src/skylog_record.c: the record of the logs that were saved, in a file for each day. Its static variables are
-- a `SkylogRecord`. What the clock and the calls of calloc give an opening is an `Opening`.
pub mod Kept
mod RecordTests
use trace_server.Base.{
  ℕ, ◌+◌, ◌-◌, Bool, true, false, ◌&&◌, not, Option, none, some, List, [], ◌∷◌, ◌++◌, ltb, ◌==◌,
  if◌then◌else◌, ◌>>=◌, replicate, is_some, take, length, get_elem?,
}
use trace_server.Base.Int.{ℤ, pos, is_count}
use trace_server.Libc.{cstr, strlen, strcmp_eq, snprintf, write, memcpy}
use trace_server.Libc.Print.{int_text, two_places}
use trace_server.UserTime.{Date}
use trace_server.File.{File, write_file}
use trace_server.File.Paths.{
  FileSystem, Disk, file_close, create_dir, create_file, open_file, lseek_from_end,
}

-- The variables that `GetSystemUTCTime` sets, what `GetTimestrip_us` returns, and the calls of calloc.
pub record Opening : Type 0 where
  pub date : Date
  pub us : ℕ
  pub node_ok : Bool
  pub name_ok : Bool

-- "20%d-%02d-%02d"
abbrev pub day_text : Date → List ℕ
day_text t =
    b'2' ∷ b'0' ∷ (int_text t.year ++ (b'-' ∷ (two_places t.mon ++ (b'-' ∷ two_places t.day))))

pub record SkylogRecord : Type 0 where
  pub filename : List ℕ
  pub f : Option File

abbrev pub no_record : SkylogRecord
no_record = record { filename = replicate 128 0; f = none }

-- SKYLOG_RECORD_DIR
abbrev pub record_dir : List ℕ
record_dir = b'.' ∷ b'/' ∷ b'r' ∷ b'e' ∷ b'c' ∷ b'o' ∷ b'r' ∷ b'd' ∷ 0 ∷ []

-- "skylog_record_20%d-%02d-%02d.txt"
abbrev pub record_name : Date → List ℕ
record_name t =
    b's'
    ∷ b'k'
    ∷ b'y'
    ∷ b'l'
    ∷ b'o'
    ∷ b'g'
    ∷ b'_'
    ∷ b'r'
    ∷ b'e'
    ∷ b'c'
    ∷ b'o'
    ∷ b'r'
    ∷ b'd'
    ∷ b'_'
    ∷ (day_text t ++ (b'.' ∷ b't' ∷ b'x' ∷ b't' ∷ []))

module _ (F : FileSystem) where
  unfoldable pub record_exit : Disk F → SkylogRecord → SkylogRecord × Disk F
  unfolding file_close
  record_exit d r = (no_record, file_close F d r.f)

  -- The path of the record's file, and the file, in a record that has none.
  unfoldable pub record_open : Opening → Disk F → List ℕ → Option (Bool × SkylogRecord × Disk F)
  unfolding create_file open_file lseek_from_end
  record_open o d filename = do
    len ← strlen record_dir
    dir ← memcpy (replicate 255 0) 0 record_dir 0 len
    last ← get_elem? dir (len - 1)
    path ←
        snprintf dir len (255 - len - 1) ((if last == b'/' then [] else b'/' ∷ []) ++ cstr filename)
    let created = create_file F d (cstr path) in
        if not created.0
        then some (false, no_record, created.1)
        else let opened = open_file F o.node_ok o.name_ok created.1 (cstr path) in
          elim opened.0 [
            | none ↦ some (false, no_record, opened.1)
            | some f ↦
                let sought = lseek_from_end F opened.1 (some f) (pos 0) in
                strlen filename >>= λ n. memcpy (replicate 128 0) 0 filename 0 n >>= λ kept.
                some (true, record { filename = kept; f = some f }, sought.1)
          ]

  -- The record of a day that is still open, or a new one.
  unfoldable pub record_refresh :
      Opening → Disk F → SkylogRecord → Option (Bool × SkylogRecord × Disk F)
  unfolding record_exit record_open create_dir
  record_refresh o d r = do
    (made, d1) ← create_dir F d record_dir
    filename ← snprintf (replicate 128 0) 0 127 (record_name o.date)
    same ← strcmp_eq filename r.filename
    let (r2, d2) = record_exit d1 r in
        if not made
        then some (false, r2, d2)
        else if same && is_some r.f
        then some (true, r, d1)
        else record_open o d2 filename

  unfoldable pub record_create_and_open_file :
      Opening → Disk F → SkylogRecord → Option (Bool × SkylogRecord × Disk F)
  unfolding record_exit record_refresh
  record_create_and_open_file o d r =
      if not (is_some r.f)
      then (let (r1, d1) = record_exit d r in record_refresh o d1 r1)
      else record_refresh o d r

  unfoldable pub record_write :
      Disk F → SkylogRecord → List ℕ → ℕ → Option (Bool × SkylogRecord × Disk F)
  unfolding write_file
  record_write d r bytes data_len = elim r.f [
    | none ↦ some (false, r, d)
    | some f ↦ write_file F.kernel d (some f) bytes data_len >>= λ (n, f', d').
        some (is_count n data_len, record r { f = f' }, d')
  ]

  -- With data that are not NULL.
  unfoldable pub skylog_record :
      Opening → Disk F → SkylogRecord → List ℕ → ℕ → Option (Bool × SkylogRecord × Disk F)
  unfolding record_create_and_open_file record_write record_exit
  skylog_record o d r bytes data_len = if not (ltb 0 data_len) then some (false, r, d) else do
    (opened, r1, d1) ← record_create_and_open_file o d r
    let left = record_exit d1 r1 in
        if not opened then some (false, left.0, left.1) else do
          (wrote, r2, d2) ← record_write d1 r1 bytes data_len
          let after = record_exit d2 r2 in
              if not wrote then some (false, after.0, after.1) else some (true, r2, d2)
