-- ===== src/SkyLog/Tests.antt =====
-- Tests of what is parsed from a request, on a short header.
use trace_server.Base.{◌≡◌, refl, some, none, [], ◌∷◌, ltb, omap, take}
use trace_server.Base.Int.{pos}
use trace_server.Bm.{sunday, sunday_case, bm_cmp}
use trace_server.Text.{straddr, straddr_case, addr_by, find_str, find_str_case}
use trace_server.Text.Edit.{isdigit_str}
use trace_server.Http.{HttpRequest, http_request_new}
use trace_server.Http.Field.{find_field}
use trace_server.Http.Url.{get_url_parmer_value}
use trace_server.SkyLog.{
  Skylog, get_skylog_type_name, skylog_info_init, parameter, name_parameter, number_parameter,
  parse_skylog_info, parse_create_data, parse_parameters, home_name, check_create_data,
}
use trace_server.SkyLog.Laws.{check_create_data_lem}

check_create_data_lem_example : check_create_data (b'.' ∷ b'.' ∷ 0 ∷ []) ≡ some (ltb 0 2)
check_create_data_lem_example = check_create_data_lem (b'.' ∷ b'.' ∷ 0 ∷ []) 2 refl

-- "GET /index?Hw=A&Ch=2&Type=9 HTTP", and a creation date that is none
abbrev request : HttpRequest
unfolding http_request_new
request = record http_request_new {
  header =
      b'G' ∷ b'E' ∷ b'T' ∷ b' ' ∷ b'/' ∷ b'i' ∷ b'n' ∷ b'd' ∷ b'e' ∷ b'x' ∷ b'?' ∷ b'H' ∷ b'w'
      ∷ b'=' ∷ b'A' ∷ b'&' ∷ b'C' ∷ b'h' ∷ b'=' ∷ b'2' ∷ b'&' ∷ b'T' ∷ b'y' ∷ b'p' ∷ b'e' ∷ b'='
      ∷ b'9' ∷ b' ' ∷ b'H' ∷ b'T' ∷ b'T' ∷ b'P' ∷ b'\r' ∷ b'\n' ∷ b'C' ∷ b'r' ∷ b'e' ∷ b'a' ∷ b't'
      ∷ b'e' ∷ b'-' ∷ b'D' ∷ b'a' ∷ b't' ∷ b'a' ∷ b':' ∷ b' ' ∷ b'x' ∷ b'\r' ∷ b'\n' ∷ b'\r' ∷ b'\n'
      ∷ 0 ∷ [];
  header_len = 52;
}

hw_read : omap (λ (s : Skylog). take 2 s.hw) (parse_skylog_info request) ≡ some (b'A' ∷ 0 ∷ [])
unfolding parse_skylog_info parse_create_data parse_parameters home_name skylog_info_init parameter
    name_parameter number_parameter request get_url_parmer_value find_field straddr straddr_case
    addr_by find_str find_str_case sunday sunday_case bm_cmp isdigit_str
hw_read = refl

type_read : omap (λ (s : Skylog). s.type_code) (parse_skylog_info request) ≡ some (pos 9)
unfolding parse_skylog_info parse_create_data parse_parameters home_name skylog_info_init parameter
    name_parameter number_parameter request get_url_parmer_value find_field straddr straddr_case
    addr_by find_str find_str_case sunday sunday_case bm_cmp isdigit_str
type_read = refl

no_name : get_skylog_type_name (pos 9) ≡ none
unfolding get_skylog_type_name
no_name = refl
