-- ===== src/Talk/Tests.antt =====
-- Tests of the state machine, on buffers that are lists and a store that counts its calls and fails.
use trace_server.Base.{ℕ, ◌+◌, ◌≡◌, refl, true, false, some, none, [], ◌∷◌, omap}
use trace_server.Base.Int.{pos}
use trace_server.Bm.{sunday}
use trace_server.Text.{straddr, addr_by, find_str}
use trace_server.Libevent.{lists}
use trace_server.Client.{recv_client, take_bytes}
use trace_server.Http.{http_request_new}
use trace_server.Http.Recv.{recv_header, recv_header_loop}
use trace_server.SkyLog.{zeroed}
use trace_server.Talk.{
  ClientOption, read_header, SkylogStore, TalkClient, talk_continue, client_talk, talk_loop,
  client_option_step, header_step, client_option_arg_init, option_new, talk_skylog_save,
  client_option_free,
}
use trace_server.Talk.Answer.{Quiet}
use trace_server.Talk.Once.{fresh, TalkedAfter, client_talk-TalkedAfter}
use trace_server.Talk.Runs.{Runs}
use trace_server.Talk.Steps.{talk_loop-enough}
use trace_server.Talk.Save.{accepts, talk_skylog_save-accepts}

abbrev failing : SkylogStore ℕ
failing = record {
  save = λ w log bytes len. (false, log, w + 1);
  save_finished = λ w log. (record log { f = none }, w);
}

abbrev visitor : TalkClient lists ℕ failing
unfolding lists
visitor = record {
  fd = 7;
  time_count = 0;
  timeout = 10;
  evbase = some 1;
  buf_ev = some (record { in_bytes = b'x' ∷ []; out_bytes = [] });
  input_buffer = some [];
  output_buffer = some [];
  has_free_callback = false;
  in_tpool = true;
  worker = some 2;
  arg = none;
}

visitor-Quiet : Quiet lists ℕ failing [] visitor
unfolding lists visitor
visitor-Quiet = record { sent_eq = refl; pending_eq = refl }

visitor-new : visitor.arg ≡ none
unfolding visitor
visitor-new = refl

client_talk-TalkedAfter_example :
    TalkedAfter lists ℕ failing [] true
      (client_option_arg_init lists ℕ failing true visitor).1
      0
      (client_talk lists ℕ failing true visitor 0)
client_talk-TalkedAfter_example =
    client_talk-TalkedAfter lists ℕ failing [] true visitor 0 (fresh visitor-new visitor-Quiet)

abbrev received : ClientOption
received = record {
  skylog = zeroed;
  http_request = record {
    header = 0 ∷ [];
    header_len = 0;
    context_buf = some (0x1f ∷ 0x8b ∷ 8 ∷ 0 ∷ []);
    context_len = pos 4;
    data_len = 4;
  };
  step = read_header;
}

abbrev returning : TalkClient lists ℕ failing
returning = record visitor { arg = some received }

talk_loop-enough_example :
    Runs lists ℕ failing true returning 0 (talk_loop lists ℕ failing true 5 returning 0)
    × (talk_loop lists ℕ failing true (5 + 1) returning 0
        ≡ talk_loop lists ℕ failing true 5 returning 0)
talk_loop-enough_example = talk_loop-enough lists ℕ failing true 1 returning 0 received refl

talk_skylog_save-accepts_example :
    omap (λ r. r.0) (talk_skylog_save lists ℕ failing 0 received) ≡ accepts received
talk_skylog_save-accepts_example = talk_skylog_save-accepts lists ℕ failing 0 received

freed : (client_option_free lists ℕ failing 0 received).1 ≡ 0
unfolding client_option_free
freed = refl

waits : omap (λ r. r.0) (client_talk lists ℕ failing true visitor 0) ≡ some talk_continue
unfolding client_talk client_option_arg_init option_new talk_loop client_option_step header_step
    recv_header recv_header_loop recv_client take_bytes lists visitor http_request_new straddr
    addr_by find_str sunday
waits = refl
