-- ===== src/UserTime.antt =====
-- src/user_time.c: the clock and the texts of times. What the C library and the kernel return is an
-- argument. The variables behind the pointers are a `Date`; a call that fails leaves them 0.
mod Tests
pub mod Year
pub mod Laws
use trace_server.Base.{
  ℕ, ◌+◌, ◌-◌, ◌*◌, ◌/◌, ◌%◌, ◌^◌, Bool, true, false, not, Option, none, some, List, [], ◌∷◌, ◌++◌,
  ltb, ◌==◌, if◌then◌else◌, ◌>>=◌, drop, replicate,
}
use trace_server.Base.Int.{ℤ, pos, negsuc, ◌+ℤ◌, ltb_ℤ, minus_one, neg_part, pos_part, sub_ℕ}
use trace_server.Libc.{cstr, strchr, memcpy, snprintf}
use trace_server.Libc.Print.{decimal, int_text, quot_ten, rem_ten, as_int, strtol}

pub record Timespec : Type 0 where
  pub tv_sec : ℕ
  pub tv_nsec : ℕ

pub record Tm : Type 0 where
  pub tm_year : ℤ
  pub tm_mon : ℤ
  pub tm_mday : ℤ
  pub tm_hour : ℤ
  pub tm_min : ℤ
  pub tm_sec : ℤ

pub record Date : Type 0 where
  pub year : ℤ
  pub mon : ℤ
  pub day : ℤ
  pub hour : ℤ
  pub minute : ℤ
  pub sec : ℤ

abbrev pub no_date : Date
no_date = record {
  year = pos 0;
  mon = pos 0;
  day = pos 0;
  hour = pos 0;
  minute = pos 0;
  sec = pos 0;
}

-- `_start_sec` afterwards
unfoldable pub time_init : Timespec → ℕ
time_init start = start.tv_sec + start.tv_nsec / 1000000000

unfoldable pub get_system_sec : ℕ → Timespec → ℕ
get_system_sec start_sec now =
    let current = now.tv_sec + now.tv_nsec / 1000000000 in (current + 2 ^ 64 - start_sec) % 2 ^ 32

unfoldable pub get_timestrip_us : ℕ → ℕ → ℕ
get_timestrip_us tv_sec tv_usec = (1000000 * tv_sec + tv_usec) % 2 ^ 64

-- `GetSystemTime`, with what localtime returns.
unfoldable pub get_system_time : Tm → Date
get_system_time tm = record {
  year = tm.tm_year +ℤ negsuc 99;
  mon = tm.tm_mon +ℤ pos 1;
  day = tm.tm_mday;
  hour = tm.tm_hour;
  minute = tm.tm_min;
  sec = tm.tm_sec;
}

-- `GetSystemUTCTime`, with what time and gmtime_r return: what it returns, and the variables.
unfoldable pub get_system_utc_time : ℤ → Option Tm → ℤ × Date
unfolding get_system_time
get_system_utc_time cur_time utc =
    if ltb_ℤ cur_time (pos 0)
    then (minus_one, no_date)
    else elim utc [ none ↦ (minus_one, no_date) | some tm ↦ (pos 0, get_system_time tm) ]

-- %d%d, of a number's tens and ones
abbrev pub tens_and_ones : ℤ → List ℕ
tens_and_ones n = int_text (quot_ten n) ++ int_text (rem_ten n)

abbrev pub label : Option (List ℕ) → List ℕ
label none = b'*' ∷ []
label (some str) = cstr str

-- "%s: 20%d%d-%d%d-%d%d %d%d:%d%d:%d%d "
unfoldable pub time_text : Option (List ℕ) → Date → List ℕ
unfolding int_text
time_text str d =
    label str
    ++ (b':'
        ∷ b' '
        ∷ b'2'
        ∷ b'0'
        ∷ (tens_and_ones d.year
            ++ (b'-'
                ∷ (tens_and_ones d.mon
                    ++ (b'-'
                        ∷ (tens_and_ones d.day
                            ++ (b' '
                                ∷ (tens_and_ones d.hour
                                    ++ (b':'
                                        ∷ (tens_and_ones d.minute
                                            ++ (b':'
                                                ∷ (tens_and_ones d.sec ++ (b' ' ∷ [])))))))))))))

-- bufsize - 1 as a size_t
abbrev pub size_before : ℕ → ℕ
size_before bufsize = if bufsize == 0 then 2 ^ 64 - 1 else bufsize - 1

-- With the result of `GetSystemUTCTime` and SYSTEM_SEC; the buffer afterwards.
unfoldable pub gmt_time : Option (List ℕ) → List ℕ → ℕ → ℤ × Date → ℕ → Option (List ℕ)
unfolding time_text
gmt_time str gmt bufsize utc system_sec =
    snprintf gmt 0 (size_before bufsize) (time_text str utc.1 ++ int_text (as_int system_sec))

-- The local time, and SYSTEM_SEC as %u.
unfoldable pub system_time : Option (List ℕ) → List ℕ → ℕ → Tm → ℕ → Option (List ℕ)
unfolding time_text
system_time str sys_time bufsize tm system_sec =
    snprintf sys_time 0 (size_before bufsize)
      (time_text str (get_system_time tm) ++ decimal system_sec)

-- The variables whose pointers are not NULL.
unfoldable pub gmt_time_field : ℤ × Date → ℕ → Date × ℕ
gmt_time_field utc system_sec = (utc.1, system_sec)

-- With what time and gmtime_r return, and timegm of it.
unfoldable pub gmt_sec_time : ℤ → Option Tm → (Tm → ℤ) → ℤ
gmt_sec_time cur_time utc timegm =
    if ltb_ℤ cur_time (pos 0)
    then minus_one
    else elim utc [ none ↦ minus_one | some tm ↦ timegm tm ]

-- `gmt_sync`, with the results of `GetSystemUTCTime` and `gmt_sec_time`, and with gmtime_r: what it returns,
-- and the buffer.
unfoldable pub gmt_sync :
    (ℤ → Tm) → Option (List ℕ) → List ℕ → ℕ → ℤ → ℤ × Date → ℤ → ℕ → Option (ℤ × List ℕ)
unfolding time_text get_system_time
gmt_sync gmtime str gmt bufsize base_time utc gmt_ts system_sec =
    if ltb_ℤ utc.1.year (pos 17)
    then some (minus_one, gmt)
    else if not (ltb_ℤ (pos 0) gmt_ts)
    then some (minus_one, gmt)
    else let d = get_system_time (
        gmtime
          (sub_ℕ (pos_part gmt_ts + neg_part base_time) (neg_part gmt_ts + pos_part base_time))) in
      if ltb_ℤ d.year (pos 17)
      then some (minus_one, gmt)
      else (snprintf gmt 0 (size_before bufsize)
            (time_text str d ++ (int_text (as_int system_sec) ++ (b'\n' ∷ [])))
          >>= λ gmt'. some (pos 0, gmt'))

-- The year that `check_gmt_time` reads: `none` where it returns at once. str_y is a copy of four bytes.
unfoldable pub year_read : List ℕ → Option (Option ℤ)
year_read gmt = do
  p ← strchr gmt b' '
  q ← strchr gmt b'-'
  elim p [
    | none ↦ some (some (pos 0))
    | some space ↦ elim q [
      | none ↦ some (some (pos 0))
      | some dash ↦
          if not (dash == space + 1 + 4)
          then some none
          else (memcpy (replicate 10 0) 0 gmt (space + 1) 4 >>= λ str_y. some (some (strtol str_y)))
    ]
  ]

-- `check_gmt_time`, with what `gmt_sync` would do to the buffer.
unfoldable pub check_gmt_time : List ℕ → Option (ℤ × List ℕ) → Option (List ℕ)
unfolding year_read
check_gmt_time gmt synced = do
  y ← year_read gmt
  elim y [
    | none ↦ some gmt
    | some year ↦ if ltb_ℤ year (pos 2017) then (synced >>= λ r. some r.1) else some gmt
  ]
