-- ===== src/File/Paths/PathTests.antt =====
-- Tests of directories and of files by their paths, in memory.
use trace_server.Base.{ℕ, ◌≡◌, ◌⊎◌, refl, true, false, none, some, List, [], ◌∷◌, arith}
use trace_server.Base.Int.{pos, minus_one}
use trace_server.Libc.{cstr}
use trace_server.File.{File, io_normal}
use trace_server.File.Paths.{
  file_node_create, file_fd_close, file_close, dirs_loop, create_dir, create_file, clear_file,
  open_file, lseek_from_head, lseek_from_current, lseek_from_end, get_file_size,
}
use trace_server.File.Paths.Made.{Made}
use trace_server.File.Paths.Dirs.{Parent, create_dir-Made}
use trace_server.File.Memory.{memory, Memory}

-- "/a/b"
abbrev dir : List ℕ
dir = b'/' ∷ b'a' ∷ b'/' ∷ b'b' ∷ 0 ∷ []

abbrev empty : Memory
empty = record { paths = []; log = [] }

abbrev with_file : Memory
with_file = record { paths = (b'f' ∷ []) ∷ []; log = [] }

abbrev opened : File
opened = record { fd = 3; file = b'f' ∷ []; status = io_normal }

dirs_made :
    create_dir memory empty dir
    ≡ some (
      true,
      record { paths = (b'/' ∷ b'a' ∷ b'/' ∷ b'b' ∷ []) ∷ (b'/' ∷ b'a' ∷ []) ∷ []; log = [] },
    )
unfolding create_dir dirs_loop
dirs_made = refl

files :
    (create_file memory empty (b'f' ∷ []) ≡ (true, with_file))
    × (clear_file memory empty (b'f' ∷ []) ≡ (false, empty))
    × (open_file memory true true with_file (b'f' ∷ [])
        ≡ (some opened, record { paths = (b'f' ∷ []) ∷ (b'f' ∷ []) ∷ []; log = [] }))
    × (open_file memory true true empty (b'f' ∷ []) ≡ (none, empty))
    × (lseek_from_current memory empty none (pos 1) ≡ (minus_one, empty))
    × (get_file_size memory true true with_file (b'f' ∷ [])
        ≡ (pos 0, record { paths = (b'f' ∷ []) ∷ (b'f' ∷ []) ∷ []; log = [] }))
unfolding create_file clear_file open_file file_node_create file_fd_close file_close
    lseek_from_current lseek_from_head lseek_from_end get_file_size
files = (refl, refl, refl, refl, refl, refl)

create_dir-Made_example :
    Made memory (λ p. Parent (cstr dir) 0 p ⊎ (p ≡ cstr dir)) empty (create_dir memory empty dir)
create_dir-Made_example = create_dir-Made memory empty dir 4 refl (omega arith) (omega arith)
