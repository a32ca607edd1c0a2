-- ===== src/Trace.antt =====
-- src/log_trace.c: the files that the program's output goes to. Its static variables are a `Trace`. The dup2 of a
-- descriptor onto a terminal is an effect; the umask is left out.
mod Tests
use trace_server.Base.{
  ℕ, ◌-◌, Bool, true, false, not, Option, none, some, List, [], ◌∷◌, ◌++◌, ltb, ◌==◌, if◌then◌else◌,
  ◌>>=◌, replicate, get_elem?,
}
use trace_server.Base.Int.{pos}
use trace_server.Libc.{cstr, strlen, snprintf}
use trace_server.File.{File}
use trace_server.File.Paths.{
  FileSystem, Disk, file_close, create_dir, create_file, open_file, lseek_from_end,
}

-- terminal_no_t
pub data Terminal : Type 0 where
  terminal_stdout terminal_stderr : Terminal

pub record Trace : Type 0 where
  pub trace_f : Option File
  pub stderr_f : Option File

-- dup2 of a descriptor
pub data Redirect : Type 0 where
  redirect : ℕ → Terminal → Redirect

-- The last byte of a string; of an empty one, a read before the string.
abbrev pub last_byte : List ℕ → Option ℕ
last_byte s = strlen s >>= λ n. if n == 0 then none else get_elem? s (n - 1)

module _ (F : FileSystem) where
  abbrev pub Opened : Type 0
  Opened = Option File × List Redirect × Disk F

  -- The end of `_log_trace_init`, with the file that was opened.
  unfoldable pub take_over : Terminal → Disk F → Option File → Opened
  unfolding file_close
  take_over terminal d none = (none, [], d)
  take_over terminal d (some f) =
      if ltb 0 f.fd
      then (some f, redirect f.fd terminal ∷ [], d)
      else (none, [], file_close F d (some f))

  -- With names that are not NULL, and the calls of calloc.
  unfoldable pub log_trace_init : Bool → Bool → Terminal → Disk F → List ℕ → List ℕ → Option Opened
  unfolding take_over create_dir create_file open_file lseek_from_end
  log_trace_init node_ok name_ok terminal d log_dir_path log_file_name = do
    (made, d1) ← create_dir F d log_dir_path
    if not made then some (none, [], d1) else do
      last ← last_byte log_dir_path
      path ←
          snprintf (replicate 1024 0) 0 1023
            (cstr log_dir_path ++ ((if last == b'/' then [] else b'/' ∷ []) ++ cstr log_file_name))
      let created = create_file F d1 (cstr path) in
          let opened = open_file F node_ok name_ok created.1 (cstr path) in
          let sought = lseek_from_end F opened.1 opened.0 (pos 0) in
          some (take_over terminal sought.1 opened.0)

  unfoldable pub log_trace_stdout_init :
      Bool → Bool → Trace → Disk F → List ℕ → List ℕ → Option (Trace × List Redirect × Disk F)
  unfolding log_trace_init
  log_trace_stdout_init node_ok name_ok t d log_dir_path log_file_name =
      log_trace_init node_ok name_ok terminal_stdout d log_dir_path log_file_name
      >>= λ (f, effects, d'). some (record t { trace_f = f }, effects, d')

  unfoldable pub log_trace_stderr_init :
      Bool → Bool → Trace → Disk F → List ℕ → List ℕ → Option (Trace × List Redirect × Disk F)
  unfolding log_trace_init
  log_trace_stderr_init node_ok name_ok t d log_dir_path log_file_name =
      log_trace_init node_ok name_ok terminal_stderr d log_dir_path log_file_name
      >>= λ (f, effects, d'). some (record t { stderr_f = f }, effects, d')

  -- The variables keep their pointers.
  unfoldable pub log_trace_stdout_exit : Trace → Disk F → Disk F
  unfolding file_close
  log_trace_stdout_exit t d = file_close F d t.trace_f

  unfoldable pub log_trace_stderr_exit : Trace → Disk F → Disk F
  unfolding file_close
  log_trace_stderr_exit t d = file_close F d t.stderr_f
