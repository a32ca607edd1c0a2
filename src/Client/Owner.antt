-- ===== src/Client/Owner.antt =====
-- Receiving and sending leave a client's descriptor and its worker alone.
use trace_server.Base.{ℕ, ◌≡◌, refl, List, arith, is_some}
use trace_server.Libevent.{Libevent}
use trace_server.Client.{Client, recv_client, send_client}

module _ (L : Libevent) (A : Type 0) where
  pub record SameOwner (c c' : Client L A) : Type 0 where
    pub same_fd : c'.fd ≡ c.fd
    pub same_tpool : c'.in_tpool ≡ c.in_tpool
    pub same_bufev : is_some c'.buf_ev ≡ is_some c.buf_ev

  pub SameOwner-refl : (c : Client L A) → SameOwner c c
  SameOwner-refl c = record { same_fd = refl; same_tpool = refl; same_bufev = refl }

  pub recv_client-SameOwner : (c : Client L A) (n : ℕ) → SameOwner c (recv_client L A c n).1
  unfolding recv_client
  recv_client-SameOwner c n = record {
    same_fd = ground arith;
    same_tpool = ground arith;
    same_bufev = ground arith;
  }

  pub send_client-SameOwner :
      (c : Client L A) (msg : List ℕ) → SameOwner c (send_client L A c msg).1
  unfolding send_client
  send_client-SameOwner c msg = record {
    same_fd = ground arith;
    same_tpool = ground arith;
    same_bufev = ground arith;
  }
