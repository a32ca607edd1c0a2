-- ===== src/UserTime/Laws.antt =====
-- The year that src/user_time.c prints and reads back.
use Prim.Native.Nat.add
use trace_server.Base.{
  ℕ, suc, ◌+◌, ◌-◌, ◌*◌, ◌/◌, ◌%◌, ◌≤◌, ◌<◌, ◌≡◌, ◌≢◌, sym, ap, ◌∙◌, false, Option, some, List, [],
  ◌∷◌, ◌++◌, All, arith, ltb, ◌==◌, length, length-append, length-take, take, drop, append_assoc,
  if◌then◌else◌, ◌>>=◌,
}
use trace_server.Base.Int.{ℤ, pos, ltb_ℤ}
use trace_server.Libc.{cstr, snprintf}
use trace_server.Libc.Laws.{cstr-NoNul, write_lem}
use trace_server.Libc.Print.{as_int, decimal_digit, int_text}
use trace_server.UserTime.{
  Date, size_before, tens_and_ones, time_text, gmt_time, year_read, check_gmt_time,
}
use trace_server.UserTime.Year.{before_dash, year_text, year_read-year}

-- The text of a time behind its year.
abbrev after_year : Date → List ℕ
after_year d =
    tens_and_ones d.mon
    ++ (b'-'
        ∷ (tens_and_ones d.day
            ++ (b' '
                ∷ (tens_and_ones d.hour
                    ++ (b':'
                        ∷ (tens_and_ones d.minute
                            ++ (b':' ∷ (tens_and_ones d.sec ++ (b' ' ∷ [])))))))))

text_shape :
    (str tail : List ℕ) (d : Date) (n : ℕ)
    → d.year ≡ pos n
    → n < 100
    → time_text (some str) d ++ tail ≡ year_text (cstr str) (n / 10) (n % 10) (after_year d ++ tail)
unfolding time_text year_text int_text
text_shape str tail d n ey h =
    rw (ey, decimal_digit (n / 10) (omega arith), decimal_digit (n % 10) (omega arith))
      (append_assoc (cstr str) (before_dash (n / 10) (n % 10) ++ (b'-' ∷ after_year d)) tail)

take_prefix : (pre more : List ℕ) (k : ℕ) → take (length pre + k) (pre ++ more) ≡ pre ++ take k more
take_prefix [] more k = ap (λ m. take m more) (omega arith)
take_prefix (c ∷ pre) more k =
    ap (λ m. take m (c ∷ (pre ++ more))) (add.suc (length pre) k)
    ∙ ap (λ t. c ∷ t) (take_prefix pre more k)

-- What snprintf writes of a text that begins with `pre`.
snprintf_prefix :
    (gmt pre more : List ℕ) (k : ℕ)
    → length pre + k < length gmt
    → (rest : List ℕ) × (snprintf gmt 0 (suc (length pre + k)) (pre ++ more) ≡ some (pre ++ rest))
snprintf_prefix gmt pre more k room =
    let out = (pre ++ take k more) ++ (0 ∷ []) in
    let fits : 0 + length out ≤ length gmt = omega (
      arith,
      length-append (pre ++ take k more) (0 ∷ []),
      length-append pre (take k more),
      length-take k more,
    ) in
    let some_room : (suc (length pre + k) == 0) ≡ false = ground arith in
    let before : suc (length pre + k) - 1 ≡ length pre + k = omega arith in
    let old = drop (0 + length out) gmt in
    (
      take k more ++ (0 ∷ old),
      rw (some_room, before, take_prefix pre more k)
          (write_lem gmt 0 out fits
            ∙ ap some (
                append_assoc (pre ++ take k more) (0 ∷ []) old
                ∙ append_assoc pre (take k more) (0 ∷ old))),
    )

-- The prefix of `year_text` up to its dash.
year_text_prefix :
    (lab more : List ℕ) (tens ones : ℕ)
    → year_text lab tens ones more ≡ (lab ++ (before_dash tens ones ++ (b'-' ∷ []))) ++ more
unfolding year_text
year_text_prefix lab more tens ones =
    sym (append_assoc lab (before_dash tens ones ++ (b'-' ∷ [])) more)

-- What `gmt_time` leaves in the buffer, whatever it cuts off behind the year.
gmt_time-year_text :
    (str gmt : List ℕ) (bufsize n system_sec : ℕ) (utc : ℤ × Date)
    → utc.1.year ≡ pos n
    → n < 100
    → length (cstr str) + 9 ≤ bufsize
    → bufsize ≤ length gmt
    → (rest : List ℕ) × (gmt_time (some str) gmt bufsize utc system_sec
        ≡ some (year_text (cstr str) (n / 10) (n % 10) rest))
unfolding gmt_time
gmt_time-year_text str gmt bufsize n system_sec utc ey h room size =
    let pre = cstr str ++ (before_dash (n / 10) (n % 10) ++ (b'-' ∷ [])) in
    let tail = int_text (as_int system_sec) in
    let more = after_year utc.1 ++ tail in
    let long : length pre ≡ length (cstr str) + 7 =
      length-append (cstr str) (before_dash (n / 10) (n % 10) ++ (b'-' ∷ [])) in
    let k = bufsize - 2 - length pre in
    let (rest, e) = snprintf_prefix gmt pre more k (omega arith) in
    let size_eq : size_before bufsize ≡ suc (length pre + k) = ground arith in
    (
      rest,
      rw
          (
            text_shape str tail utc.1 n ey h,
            year_text_prefix (cstr str) more (n / 10) (n % 10),
            size_eq,
          )
          (e ∙ ap some (sym (year_text_prefix (cstr str) rest (n / 10) (n % 10)))),
    )

-- `check_gmt_time` reads the year that `gmt_time` wrote. In a buffer with room for the label and the year,
-- behind a label that has no space and no dash, that is 2000 and the two digits of the year; the buffer
-- stays as it is from 2017 on, and before that it becomes what `gmt_sync` makes of it.
pub check_gmt_time-gmt_time :
    (str gmt : List ℕ) (bufsize n system_sec : ℕ) (utc : ℤ × Date)
    → All (λ c. c ≢ b' ') (cstr str)
    → All (λ c. c ≢ b'-') (cstr str)
    → utc.1.year ≡ pos n
    → n < 100
    → length (cstr str) + 9 ≤ bufsize
    → bufsize ≤ length gmt
    → (r : List ℕ) × (gmt_time (some str) gmt bufsize utc system_sec ≡ some r)
      × (year_read r ≡ some (some (pos (2000 + n))))
      × ((synced : Option (ℤ × List ℕ))
          → check_gmt_time r synced ≡ (if ltb n 17 then (synced >>= λ s. some s.1) else some r))
unfolding check_gmt_time
check_gmt_time-gmt_time str gmt bufsize n system_sec utc ns nd ey h room size =
    let (rest, e) = gmt_time-year_text str gmt bufsize n system_sec utc ey h room size in
    let r = year_text (cstr str) (n / 10) (n % 10) rest in
    let value : 2000 + (n / 10 * 10 + n % 10) ≡ 2000 + n = omega arith in
    let y : year_read r ≡ some (some (pos (2000 + n))) =
      year_read-year (cstr str) rest (n / 10) (n % 10) (cstr-NoNul str) ns nd (omega arith)
        (omega arith)
      ∙ ap (λ m. some (some (pos m))) value in
    let same : ltb_ℤ (pos (2000 + n)) (pos 2017) ≡ ltb n 17 = ground arith in
    (
      r,
      e,
      y,
      λ synced. rw y (ap (λ early. if early then (synced >>= λ s. some s.1) else some r) same),
    )
