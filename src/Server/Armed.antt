-- ===== src/Server/Armed.antt =====
-- Which callbacks of a connection libevent may still call, after the calls that were made on its events: an
-- interface with the documented behaviour of event_del, which takes the timer off its base, and of
-- bufferevent_free, after which none of the bufferevent's callbacks is called.
use trace_server.Base.{
  ℕ, ◌≡◌, refl, sym, ap, ◌∙◌, Bool, true, false, not, ◌&&◌, none, some, List, [], ◌∷◌, ◌++◌,
  is_some, if◌then◌else◌, append_assoc,
}
use trace_server.Libevent.{Libevent}
use trace_server.Client.{
  Effect, event_del, free_callback, evbuffer_free, bufferevent_disable, bufferevent_free,
  event_base_free, free_client, Client, client_free, client_release, socket_close,
}

pub record Armed (A : Type 0) : Type 0 where
  -- Whether the timer's callback may be called, and whether those of the bufferevent may.
  pub timer_set : List (Effect A) → Bool
  pub bufev_set : List (Effect A) → Bool
  pub timer_deleted : (xs ys : List (Effect A)) → timer_set (xs ++ (event_del ∷ ys)) ≡ false
  pub bufev_freed :
      (n : ℕ) (xs ys : List (Effect A)) → bufev_set (xs ++ (bufferevent_free n ∷ ys)) ≡ false

module _ {A : Type 0} where
  deletes_event : Effect A → Bool
  deletes_event event_del = true
  deletes_event _ = false

  frees_bufev : Effect A → Bool
  frees_bufev (bufferevent_free _) = true
  frees_bufev _ = false

  unfoldable pub none_is : (Effect A → Bool) → List (Effect A) → Bool
  none_is test [] = true
  none_is test (e ∷ es) = not (test e) && none_is test es

  pub none_is-later :
      (test : Effect A → Bool) (xs : List (Effect A)) (e : Effect A) (ys : List (Effect A))
      → test e ≡ true
      → none_is test (xs ++ (e ∷ ys)) ≡ false
  unfolding none_is
  none_is-later test [] e ys h = rw h refl
  none_is-later test (x ∷ xs) e ys h = go (not (test x)) (none_is-later test xs e ys h)
    where
      go : (b : Bool) {r : Bool} → r ≡ false → (b && r) ≡ false
      go true h = h
      go false h = refl

  -- The interface, filled by the list of the calls.
  unfoldable pub listed : Armed A
  unfolding deletes_event frees_bufev none_is
  listed = record {
    timer_set = none_is deletes_event;
    bufev_set = none_is frees_bufev;
    timer_deleted = λ xs ys. none_is-later deletes_event xs event_del ys refl;
    bufev_freed = λ n xs ys. none_is-later frees_bufev xs (bufferevent_free n) ys refl;
  }

  -- A place in a list, seen from the end of a longer one.
  moved :
      (before xs ys rest fs : List (Effect A))
      → xs ++ fs ≡ ys ++ rest
      → (before ++ xs) ++ fs ≡ (before ++ ys) ++ rest
  moved before xs ys rest fs e =
      append_assoc before xs fs ∙ ap (λ zs. before ++ zs) e ∙ sym (append_assoc before ys rest)

  -- The calls of a release, with the three lists before those on the bufferevent, and those behind.
  release-bufev_set :
      (R : Armed A) (n : ℕ) (called input output base closed : List (Effect A))
      → R.bufev_set (
          (event_del
            ∷ (called ++ (input ++ (output ++ (bufferevent_disable ∷ bufferevent_free n ∷ base)))))
          ++ closed)
        ≡ false
  release-bufev_set R n called input output base closed =
      let freed = bufferevent_free n ∷ base in
      let last = bufferevent_disable ∷ [] in
      let rest = freed ++ closed in
      let one = moved output (bufferevent_disable ∷ freed) last rest closed refl in
      let two =
        moved input (output ++ (bufferevent_disable ∷ freed)) (output ++ last) rest closed one in
      let three =
        moved called (input ++ (output ++ (bufferevent_disable ∷ freed)))
          (input ++ (output ++ last)) rest closed two in
      ap (λ es. R.bufev_set (event_del ∷ es)) three
      ∙ R.bufev_freed n (event_del ∷ (called ++ (input ++ (output ++ last)))) (base ++ closed)

module _ (L : Libevent) (A : Type 0) (R : Armed A) where
  -- A released client is called back by neither.
  pub client_release-timer_set :
      (c : Client L A) → R.timer_set (client_release L A (some c)) ≡ false
  unfolding client_release client_free
  client_release-timer_set c = R.timer_deleted [] _

  pub client_release-bufev_set :
      (c : Client L A) → is_some c.buf_ev ≡ true → R.bufev_set (client_release L A (some c)) ≡ false
  unfolding client_release client_free
  client_release-bufev_set c has = rw has (
      release-bufev_set R c.fd (if c.has_free_callback then free_callback c.arg ∷ [] else [])
        (if is_some c.input_buffer then evbuffer_free ∷ [] else [])
        (if is_some c.output_buffer then evbuffer_free ∷ [] else [])
        ((elim c.evbase [
          | none ↦ []
          | some b ↦ if not c.in_tpool then event_base_free b ∷ [] else []
        ])
          ++ (free_client ∷ []))
        (socket_close c.fd))
