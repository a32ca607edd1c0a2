-- ===== src/Talk/StoredTests.antt =====
-- A request whose log is stored in memory.
use trace_server.Base.{ℕ, ◌+◌, ◌≡◌, refl, true, false, none, some, List, [], ◌∷◌, replicate, arith}
use trace_server.Base.Int.{pos}
use trace_server.Libevent.{lists}
use trace_server.File.Paths.{Disk, file_close}
use trace_server.File.Memory.{memory}
use trace_server.SkyLog.{
  Skylog, zeroed, parse_skylog_info, parse_create_data, parse_parameters, home_name,
  skylog_info_init, parameter, name_parameter, number_parameter, get_skylog_type_name,
}
use trace_server.SkyLog.Record.{Opening, no_record}
use trace_server.SkyLog.Record.Kept.{IsRecord}
use trace_server.SkyLog.Save.{save_loop}
use trace_server.SkyLog.Save.Saved.{Saved, After}
use trace_server.Http.Field.{find_field}
use trace_server.Http.Url.{get_url_parmer_value}
use trace_server.Talk.{ClientOption, read_header, talk_skylog_save}
use trace_server.Talk.Files.{FileStore, Givens, files}
use trace_server.Talk.Stored.{talk_skylog_save-stores}

abbrev opening : Opening
opening = record {
  date = record {
    year = pos 20;
    mon = pos 1;
    day = pos 2;
    hour = pos 3;
    minute = pos 4;
    sec = pos 5;
  };
  us = 7;
  node_ok = true;
  name_ok = true;
}

abbrev given : Givens memory
given i = ((λ j. opening), opening)

abbrev store : FileStore memory
store = record {
  disk = record { paths = []; log = [] };
  saved = no_record;
  calls = 0;
  faulted = false;
}

-- A gzip header, a byte, and the 46 that are left out.
abbrev content : List ℕ
content = 0x1f ∷ 0x8b ∷ 8 ∷ 0 ∷ replicate 47 1

abbrev request : ClientOption
request = record {
  skylog = zeroed;
  http_request = record {
    header = 0 ∷ [];
    header_len = 0;
    context_buf = some content;
    context_len = pos 51;
    data_len = 51;
  };
  step = read_header;
}

-- What `skylog_info_init` leaves, of the type 6.
abbrev parsed : Skylog
parsed = record zeroed {
  hw =
      b'U'
      ∷ b'n'
      ∷ b'k'
      ∷ b'o'
      ∷ b'w'
      ∷ b'n'
      ∷ b'P'
      ∷ b'r'
      ∷ b'o'
      ∷ b'd'
      ∷ b'u'
      ∷ b'c'
      ∷ b't'
      ∷ replicate 51 0;
  ver =
      b'U'
      ∷ b'n'
      ∷ b'k'
      ∷ b'o'
      ∷ b'w'
      ∷ b'n'
      ∷ b'V'
      ∷ b'e'
      ∷ b'r'
      ∷ b's'
      ∷ b'i'
      ∷ b'o'
      ∷ b'n'
      ∷ replicate 51 0;
  sn = b'U' ∷ b'n' ∷ b'k' ∷ b'o' ∷ b'w' ∷ b'n' ∷ b'S' ∷ b'n' ∷ replicate 56 0;
  ch = pos 1;
  type_code = pos 6;
}

request_parsed : parse_skylog_info request.http_request ≡ some parsed
unfolding parse_skylog_info parse_create_data parse_parameters home_name skylog_info_init parameter
    name_parameter number_parameter find_field get_url_parmer_value
request_parsed = refl

parsed_name :
    get_skylog_type_name parsed.type_code
    ≡ some (b'U' ∷ b'n' ∷ b'k' ∷ b'o' ∷ b'w' ∷ b'n' ∷ b'T' ∷ b'y' ∷ b'p' ∷ b'e' ∷ 0 ∷ [])
unfolding get_skylog_type_name
parsed_name = refl

talk_skylog_save-stores_example :
    (s : Saved memory content 5
      (λ j. opening)
      3
      0
      store.disk
      parsed
      (save_loop memory 3 0 (λ j. opening) store.disk parsed content 5))
    × (disk : Disk memory) × (o' : ClientOption) × (w' : FileStore memory) × (talk_skylog_save lists
          (FileStore memory)
          (files memory given)
          store
          request
        ≡ some (true, o', w'))
    × After memory opening store.saved s.out w'.saved disk
    × (w'.disk ≡ file_close memory disk s.out.1.f)
    × (o'.skylog ≡ record s.out.1 { f = none })
    × (w'.calls ≡ store.calls + 1)
    × (w'.faulted ≡ store.faulted)
    × IsRecord w'.saved
talk_skylog_save-stores_example =
    talk_skylog_save-stores lists memory given store request content
      (b'U' ∷ b'n' ∷ b'k' ∷ b'o' ∷ b'w' ∷ b'n' ∷ b'T' ∷ b'y' ∷ b'p' ∷ b'e' ∷ 0 ∷ []) parsed 0 refl
      (omega arith) request_parsed parsed_name refl (omega arith) (0, refl)
