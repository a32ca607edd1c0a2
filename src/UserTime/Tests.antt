-- ===== src/UserTime/Tests.antt =====
-- Tests of the clock's texts.
use trace_server.Base.{
  ℕ, ◌≡◌, refl, Option, none, some, List, [], ◌∷◌, replicate, if◌then◌else◌, ltb, ◌>>=◌, arith,
}
use trace_server.Base.Int.{ℤ, pos, minus_one}
use trace_server.Libc.Print.{digits_of, decimal, int_text}
use trace_server.UserTime.{
  Tm, Date, no_date, time_init, get_system_sec, get_timestrip_us, get_system_time,
  get_system_utc_time, gmt_time, time_text, year_read, check_gmt_time, gmt_sync, gmt_time_field,
  gmt_sec_time, system_time,
}
use trace_server.UserTime.Laws.{check_gmt_time-gmt_time}

-- 2016-03-05 10:20:30
abbrev leap_year : Tm
leap_year = record {
  tm_year = pos 116;
  tm_mon = pos 2;
  tm_mday = pos 5;
  tm_hour = pos 10;
  tm_min = pos 20;
  tm_sec = pos 30;
}

abbrev date : Date
date = record {
  year = pos 16;
  mon = pos 3;
  day = pos 5;
  hour = pos 10;
  minute = pos 20;
  sec = pos 30;
}

abbrev name : List ℕ
name = b'T' ∷ 0 ∷ []

date_read :
    (get_system_utc_time (pos 5) (some leap_year) ≡ (pos 0, date))
    × (get_system_utc_time (pos 5) none ≡ (minus_one, no_date))
unfolding get_system_utc_time get_system_time
date_read = (refl, refl)

-- "T: 2016-03-05 10:20:30 "
text :
    time_text (some name) date
    ≡ b'T' ∷ b':' ∷ b' ' ∷ b'2' ∷ b'0' ∷ b'1' ∷ b'6' ∷ b'-' ∷ b'0' ∷ b'3' ∷ b'-' ∷ b'0' ∷ b'5'
      ∷ b' ' ∷ b'1' ∷ b'0' ∷ b':' ∷ b'2' ∷ b'0' ∷ b':' ∷ b'3' ∷ b'0' ∷ b' ' ∷ []
unfolding time_text int_text decimal digits_of
text = refl

clock :
    (get_system_sec
        (time_init (record { tv_sec = 7; tv_nsec = 999999999 }))
        (record { tv_sec = 17; tv_nsec = 0 })
      ≡ 10)
    × (get_timestrip_us 2 5 ≡ 2000005)
unfolding get_system_sec time_init get_timestrip_us
clock = (refl, refl)

seconds :
    (gmt_sec_time (pos 9) none (λ tm. pos 4) ≡ minus_one)
    × (gmt_sec_time (pos 9) (some leap_year) (λ tm. pos 4) ≡ pos 4)
    × (gmt_time_field (pos 0, date) 6 ≡ (date, 6))
unfolding gmt_sec_time gmt_time_field
seconds = (refl, refl, refl)

too_early :
    gmt_sync (λ t. leap_year) (some name) [] 0 (pos 1) (pos 0, date) (pos 9) 3
    ≡ some (minus_one, [])
unfolding gmt_sync
too_early = refl

-- "T: 20" of the local time, cut to the buffer
local :
    system_time (some name) (replicate 8 1) 8 leap_year 3
    ≡ some (b'T' ∷ b':' ∷ b' ' ∷ b'2' ∷ b'0' ∷ b'1' ∷ 0 ∷ 1 ∷ [])
unfolding system_time time_text get_system_time int_text decimal digits_of
local = refl

check_gmt_time-gmt_time_example :
    (r : List ℕ) × (gmt_time (some name) (replicate 12 0) 12 (pos 0, date) 3 ≡ some r)
    × (year_read r ≡ some (some (pos 2016)))
    × ((synced : Option (ℤ × List ℕ))
        → check_gmt_time r synced ≡ (if ltb 16 17 then (synced >>= λ s. some s.1) else some r))
check_gmt_time-gmt_time_example =
    check_gmt_time-gmt_time name (replicate 12 0) 12 16 3 (pos 0, date) ((λ e. omega arith), tt)
      ((λ e. omega arith), tt) refl (omega arith) (omega arith) (omega arith)
