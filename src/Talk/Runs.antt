-- ===== src/Talk/Runs.antt =====
-- The loop of `client_talk` in src/client_talk.c as it is written, without a bound: its runs.
use trace_server.Base.{◌≡◌, Bool, Option, none, some}
use trace_server.Libevent.{Libevent}
use trace_server.Talk.{
  once, again, all_finished, TalkResult, talk_continue, talk_finished, ClientOption, SkylogStore,
  TalkClient, client_option_step,
}

module _ (L : Libevent) (Store : Type 0) (S : SkylogStore Store) (calloc_ok : Bool) where
  -- `Runs c w out`: from the client `c` the loop ends, with `out`; `none` is a fault of one of its steps. A
  -- loop that goes on for ever has no run.
  pub data Runs
      : TalkClient L Store S
        → Store
        → Option (TalkResult × TalkClient L Store S × Store)
        → Type 0 where
    run_faults :
        (c : TalkClient L Store S) (w : Store) (o : ClientOption)
        → c.arg ≡ some o
        → client_option_step L Store S calloc_ok c o w ≡ none
        → Runs c w none
    run_once :
        (c : TalkClient L Store S) (w : Store) (o : ClientOption) (c' : TalkClient L Store S)
        (w' : Store)
        → c.arg ≡ some o
        → client_option_step L Store S calloc_ok c o w ≡ some (once, c', w')
        → Runs c w (some (talk_continue, c', w'))
    run_finishes :
        (c : TalkClient L Store S) (w : Store) (o : ClientOption) (c' : TalkClient L Store S)
        (w' : Store)
        → c.arg ≡ some o
        → client_option_step L Store S calloc_ok c o w ≡ some (all_finished, c', w')
        → Runs c w (some (talk_finished, c', w'))
    run_again :
        (c : TalkClient L Store S) (w : Store) (o : ClientOption) (c' : TalkClient L Store S)
        (w' : Store) (out : Option (TalkResult × TalkClient L Store S × Store))
        → c.arg ≡ some o
        → client_option_step L Store S calloc_ok c o w ≡ some (again, c', w')
        → Runs c' w' out
        → Runs c w out
