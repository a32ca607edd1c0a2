-- ===== src/Client/Tests.antt =====
-- Tests of the connection, on buffers that are lists.
use trace_server.Base.{
  is_some, if◌then◌else◌, ◌<◌, arith, ℕ, ◌≡◌, refl, false, true, some, none, List, [], ◌∷◌, ◌++◌,
  ◌⊎◌,
}
use trace_server.Libevent.{lists}
use trace_server.Client.{
  client_new, Client, recv_client, send_client, take_bytes, client_free, client_exit,
  client_base_exit, client_release, socket_close,
}
use trace_server.Client.Send.{sent_bytes, pending, send_client_lem}
use trace_server.Client.Release.{closes, client_release-closes}
use trace_server.Client.Recv.{IsOpen, Received, recv_client_lem}

abbrev connection : List ℕ → Client lists ℕ
unfolding lists
connection arrived = record {
  fd = 7;
  time_count = 0;
  timeout = 10;
  evbase = some 1;
  buf_ev = some (record { in_bytes = arrived; out_bytes = [] });
  input_buffer = some [];
  output_buffer = some [];
  has_free_callback = false;
  in_tpool = true;
  worker = some 2;
  arg = none;
}

connection-IsOpen : (arrived : List ℕ) → IsOpen lists ℕ (connection arrived)
unfolding lists connection
connection-IsOpen arrived = record { socket = (_, refl); buffer = (_, refl) }

recv_client_lem_example :
    Received lists ℕ
      (connection (5 ∷ 6 ∷ []))
      1
      (recv_client lists ℕ (connection (5 ∷ 6 ∷ [])) 1).0
      (recv_client lists ℕ (connection (5 ∷ 6 ∷ [])) 1).1
recv_client_lem_example =
    recv_client_lem lists ℕ (connection (5 ∷ 6 ∷ [])) 1 (connection-IsOpen (5 ∷ 6 ∷ []))

connection-pending : pending lists ℕ (connection []) ≡ []
unfolding lists connection
connection-pending = refl

send_client_lem_example :
    (((send_client lists ℕ (connection []) (5 ∷ [])).0 ≡ true)
      × (sent_bytes lists ℕ (send_client lists ℕ (connection []) (5 ∷ [])).1
          ≡ sent_bytes lists ℕ (connection []) ++ (5 ∷ []))
      × (pending lists ℕ (send_client lists ℕ (connection []) (5 ∷ [])).1 ≡ []))
    ⊎ (((send_client lists ℕ (connection []) (5 ∷ [])).0 ≡ false)
        × (sent_bytes lists ℕ (send_client lists ℕ (connection []) (5 ∷ [])).1
            ≡ sent_bytes lists ℕ (connection [])))
send_client_lem_example = send_client_lem lists ℕ (connection []) (5 ∷ []) connection-pending

connection-fd : 0 < (connection []).fd
unfolding connection
connection-fd = omega arith

client_release-closes_example :
    closes ℕ (connection []).fd (client_release lists ℕ (some (connection [])))
    ≡ (if is_some (connection []).buf_ev then 2 else 1)
client_release-closes_example = client_release-closes lists ℕ (connection []) connection-fd

takes_one : (recv_client lists ℕ (connection (5 ∷ 6 ∷ [])) 1).0 ≡ some (5 ∷ [])
unfolding recv_client take_bytes lists connection
takes_one = refl

sends : (send_client lists ℕ (connection []) (5 ∷ [])).0 ≡ true
unfolding send_client lists connection
sends = refl

created :
    (client_new lists ℕ
      (record {
        calloc_ok = false;
        new_input = none;
        new_output = none;
        event_assign_ok = true;
        event_add_ok = true;
        new_bufev = none;
        enable_ok = true;
        system_sec = 5;
      })
      (some 1)
      true
      (some 2)
      7
      true).0
    ≡ none
unfolding client_new lists
created = refl

exits : client_exit lists ℕ none ≡ []
unfolding client_exit client_base_exit client_release client_free socket_close
exits = refl
