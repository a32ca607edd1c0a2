-- ===== src/SkyLog/Save/Parsed.antt =====
-- A log that `parse_skylog_info` of src/sky_log.c returned can be saved.
use trace_server.Base.{
  ℕ, ◌≡◌, refl, sym, ap, ◌∙◌, subst, Bool, true, false, Option, none, some, List, [], ◌∷◌, arith,
  if◌then◌else◌, ◌>>=◌, Result, Result-bind, Result-some, Result-of, Result-none, Result-last,
  length, replicate,
}
use trace_server.Libc.{snprintf, cstr}
use trace_server.Libc.Laws.{IsTerminated, snprintf_fits}
use trace_server.Http.{HttpRequest}
use trace_server.Http.Field.{find_field}
use trace_server.SkyLog.{
  Skylog, skylog_info_init, parse_skylog_info, parse_create_data, parse_parameters, home_name,
  name_parameter, number_parameter, get_skylog_type_name,
}
use trace_server.SkyLog.Save.Ready.{IsLog}

-- The arrays that `skylog_info_init` leaves zeroed.
Zeroed : Skylog → Type 0
Zeroed log = (log.file_path ≡ replicate 255 0) × (log.create_data ≡ replicate 32 0)

init-Zeroed : Result Zeroed skylog_info_init
unfolding skylog_info_init Zeroed
init-Zeroed = Result-of Zeroed _ (refl, refl)

-- What the arrays are after the parse.
HasArrays : Skylog → Type 0
HasArrays log =
    (length log.file_path ≡ 255)
    × IsTerminated log.file_path
    × (length log.create_data ≡ 32)
    × IsTerminated log.create_data

-- An array of a creation date.
IsDate : List ℕ → Type 0
IsDate t = (length t ≡ 32) × IsTerminated t

-- The creation date that was found, or none.
found_or_none :
    (found : Bool) (old value : List ℕ)
    → old ≡ replicate 32 0
    → Result IsDate (if found then snprintf old 0 31 (cstr value) else some old)
unfolding IsDate
found_or_none true old value eo =
    let (r, e, len, term, shape) =
      snprintf_fits old 0 31 (cstr value) (omega arith) (omega (arith, ap length eo)) in
    subst (Result IsDate) (sym e) (Result-of IsDate r (len ∙ ap length eo, term))
found_or_none false old value eo =
    Result-of IsDate old (ap length eo, subst IsTerminated (sym eo) (0, refl))

-- A chain whose last step holds whatever its first steps give.
chain {ℓ} :
    {A B C D E : Type ℓ} (P : Skylog → Type 0) (a : Option A) (b : Option B) (c : Option C)
    (d : Option D) (e : Option E) (g : A → Option A) (build : A → B → C → D → E → Skylog)
    → ((x : A) → (y : B) → (z : C) → (u : D) → (v : E) → P (build x y z u v))
    → Result P (
        a >>= λ x.
        b >>= λ y. c >>= λ z. d >>= λ u. e >>= λ v. g x >>= λ x'. some (build x' y z u v))
chain P none b c d e g build h = Result-none P
chain P (some x) none c d e g build h = Result-none P
chain P (some x) (some y) none d e g build h = Result-none P
chain P (some x) (some y) (some z) none e g build h = Result-none P
chain P (some x) (some y) (some z) (some u) none g build h = Result-none P
chain P (some x) (some y) (some z) (some u) (some v) g build h =
    Result-last P (g x) (λ x'. build x' y z u v) (λ x'. h x' y z u v)

parameters-HasArrays :
    (r : HttpRequest) (old : Skylog) → HasArrays old → Result HasArrays (parse_parameters r old)
unfolding parse_parameters HasArrays
parameters-HasArrays r old h =
    chain HasArrays (name_parameter r (b'H' ∷ b'w' ∷ 0 ∷ []) 2 old.hw)
      (name_parameter r (b'V' ∷ b'e' ∷ b'r' ∷ 0 ∷ []) 3 old.ver)
      (name_parameter r (b'S' ∷ b'n' ∷ 0 ∷ []) 2 old.sn)
      (number_parameter r (b'C' ∷ b'h' ∷ 0 ∷ []) 2 old.ch)
      (number_parameter r (b'T' ∷ b'y' ∷ b'p' ∷ b'e' ∷ 0 ∷ []) 4 old.type_code) home_name
      (λ hw ver sn ch type_code. record old {
        hw = hw;
        ver = ver;
        sn = sn;
        ch = ch;
        type_code = type_code;
      })
      (λ hw ver sn ch type_code. h)

create_data-IsDate :
    (r : HttpRequest) (old : List ℕ)
    → old ≡ replicate 32 0
    → Result IsDate (parse_create_data r old)
unfolding parse_create_data
create_data-IsDate r old eo =
    Result-bind IsDate
      (find_field r
        (b'C' ∷ b'r' ∷ b'e' ∷ b'a' ∷ b't' ∷ b'e' ∷ b'-' ∷ b'D' ∷ b'a' ∷ b't' ∷ b'a' ∷ 0 ∷ [])
        (replicate 1024 0) 1023)
      (λ (found, value). if found then snprintf old 0 31 (cstr value) else some old)
      (λ (found, value) e. found_or_none found old value eo)

parse-HasArrays : (r : HttpRequest) → Result HasArrays (parse_skylog_info r)
unfolding parse_skylog_info HasArrays IsDate Zeroed
parse-HasArrays r =
    Result-bind HasArrays skylog_info_init
      (λ fresh. parse_create_data r fresh.create_data >>= λ create_data.
        parse_parameters r (record fresh { create_data = create_data }))
      (λ fresh e0.
        let zeroed = Result-some Zeroed skylog_info_init fresh e0 init-Zeroed in
        Result-bind HasArrays (parse_create_data r fresh.create_data)
          (λ create_data. parse_parameters r (record fresh { create_data = create_data }))
          (λ create_data e1.
            let date =
              Result-some IsDate (parse_create_data r fresh.create_data) create_data e1
                (create_data-IsDate r fresh.create_data zeroed.1) in
            parameters-HasArrays r (record fresh { create_data = create_data })
              (ap length zeroed.0, subst IsTerminated (sym zeroed.0) (0, refl), date.0, date.1)))

pub parse_skylog_info-IsLog :
    (r : HttpRequest) (log : Skylog) (name : List ℕ)
    → parse_skylog_info r ≡ some log
    → get_skylog_type_name log.type_code ≡ some name
    → IsLog log
unfolding HasArrays
parse_skylog_info-IsLog r log name e en =
    let (path_len, path_term, date_len, date_term) =
      Result-some HasArrays (parse_skylog_info r) log e (parse-HasArrays r) in
    (path_len, path_term, date_len, date_term, (name, en))
