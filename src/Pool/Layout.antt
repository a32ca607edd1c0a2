-- ===== src/Pool/Layout.antt =====
-- A layout of jobs in memory that meets the interface: a list of seven numbers.
use trace_server.Base.{
  ℕ, ◌==◌, ◌≡◌, refl, Bool, true, false, none, some, List, [], ◌∷◌, arith, get_elem?, if◌then◌else◌,
}
use trace_server.Base.Int.{ℤ, pos, negsuc, pos_part, neg_part, sub_ℕ}
use trace_server.Pool.{Job, JobLayout}

-- The sign and the size of the descriptor, the flag and the four callbacks.
abbrev at : List ℕ → ℕ → ℕ
at bytes i = elim (get_elem? bytes i) [ none ↦ 0 | some b ↦ b ]

abbrev job_bytes : Job → List ℕ
job_bytes j =
    pos_part j.connect_fd
    ∷ neg_part j.connect_fd
    ∷ (if j.processing then 1 else 0)
    ∷ j.callbacks.timer_callback
    ∷ j.callbacks.read_callback
    ∷ j.callbacks.write_callback
    ∷ j.callbacks.error_callback
    ∷ []

abbrev job_of : List ℕ → Job
job_of bytes = record {
  connect_fd = sub_ℕ (at bytes 0) (at bytes 1);
  processing = at bytes 2 == 1;
  callbacks = record {
    timer_callback = at bytes 3;
    read_callback = at bytes 4;
    write_callback = at bytes 5;
    error_callback = at bytes 6;
  };
}

same_fd : (fd : ℤ) → sub_ℕ (pos_part fd) (neg_part fd) ≡ fd
same_fd (pos n) = ground arith
same_fd (negsuc n) = ground arith

same_flag : (b : Bool) → ((if b then 1 else 0) == 1) ≡ b
same_flag true = refl
same_flag false = refl

pub job_of-bytes : (j : Job) → job_of (job_bytes j) ≡ j
job_of-bytes j = rw (same_fd j.connect_fd, same_flag j.processing) refl

abbrev pub layout : JobLayout
layout = record {
  size = 7;
  bytes = job_bytes;
  length-bytes = λ j. refl;
  read_job = job_of;
  read_job-bytes = job_of-bytes;
}
