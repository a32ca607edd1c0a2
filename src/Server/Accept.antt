-- ===== src/Server/Accept.antt =====
-- What becomes of a connection that was accepted.
use trace_server.Base.{
  ℕ, ◌+◌, ◌%◌, ◌^◌, ◌<◌, ◌≡◌, refl, sym, ap, ◌∙◌, Bool, true, false, not, ◌&&◌, Option, some, List,
  [], ◌∷◌, ◌++◌, if◌then◌else◌, ◌>>=◌, append-nil, map, length, get_elem?_lem, subst,
}
use native.Mathlib.Nat.{mod-lt}
use trace_server.Base.Int.{ℤ, pos, ltb_ℤ}
use trace_server.Queue.{Wakeup, item_alloc}
use trace_server.Socket.{fd_close, close_fd}
use trace_server.Pool.{
  Callbacks, Job, JobLayout, Tpool, PoolAct, queue_act, notify, worker_add_job, tpool_add_job,
}
use trace_server.Pool.Dispatch.{IsReady, IsPool, Dispatched, tpool_add_job-Dispatched, not_negative}
use trace_server.Server.{ServerAct, pool_act, socket_act, closes, distribute_job}
use trace_server.Server.Events.{World, ev_accept_callback, client_accept_max_count}

module _ (J : JobLayout) (stack : Job) (ws : List Wakeup) (cb : Callbacks) (m : ℕ)
    (m_pos : 0 < m) where
  -- The connection was handed over, or it was closed and no worker knows of it.
  pub record Accepted (t : Tpool) (fd : ℤ) (ok : Bool) (w : World)
      (o : Option (World × List ServerAct)) : Type 0 where
    pub after : Tpool
    pub acts : List ServerAct
    pub returned : o ≡ some (record w { tpool = some after }, acts)
    pub handed :
        ok ≡ true
        → (pool_acts : List PoolAct) × Dispatched J stack ws cb m m_pos t fd
            (some (true, some after, pool_acts))
          × (acts ≡ map pool_act pool_acts)
    pub refused : ok ≡ false → (acts ≡ socket_act (close_fd fd) ∷ []) × (after.workers ≡ t.workers)

  -- A job that cannot be allocated is not queued.
  tpool_add_job-refused :
      (t : Tpool) (fd : ℤ)
      → IsPool m t
      → ltb_ℤ (pos 0) fd ≡ true
      → (after : Tpool) × (tpool_add_job J false true stack ws (some t) fd cb
          ≡ some (false, some after, []))
        × (after.workers ≡ t.workers)
  unfolding tpool_add_job worker_add_job item_alloc
  tpool_add_job-refused t fd h fd_pos =
      let i : ℕ = t.current_worker % t.worker_size in
      let lt : i < length t.workers =
        subst (λ n. i < n) h.size_eq (mod-lt t.current_worker h.size_pos) in
      let (w, at) = get_elem?_lem t.workers i lt in
      let r : IsReady m w = h.ready i w at in
      (
        record t { current_worker = (t.current_worker + 1) % 2 ^ 32 },
        rw (fd_pos, at, not_negative fd fd_pos, r.write_pos, r.has_queue) refl,
        refl,
      )

  -- `ev_accept_callback` of a valid descriptor, in a pool that can take jobs, where the copy of the job
  -- succeeds: if there are not too many connections and the calls for the descriptor and the job's item
  -- succeed, the job is dispatched to the worker whose turn it is and the descriptor is left open; otherwise
  -- the descriptor is closed, once, and no worker's queue changes.
  pub ev_accept_callback-Accepted :
      (nonblocking_ok calloc_ok : Bool) (t : Tpool) (fd : ℤ) (w : World)
      → w.tpool ≡ some t
      → IsPool m t
      → ltb_ℤ (pos 0) fd ≡ true
      → Accepted t fd
          (not (ltb_ℤ (pos client_accept_max_count) w.connected_count)
            && (nonblocking_ok && calloc_ok))
          w
          (ev_accept_callback J fd nonblocking_ok calloc_ok true stack ws cb w)
  unfolding ev_accept_callback distribute_job
  ev_accept_callback-Accepted nonblocking_ok calloc_ok t fd w has_pool h fd_pos =
      rw (not_negative fd fd_pos) (
        go (ltb_ℤ (pos client_accept_max_count) w.connected_count) nonblocking_ok calloc_ok w.tpool
          has_pool)
    where
      closed : closes fd ≡ socket_act (close_fd fd) ∷ []
      closed = rw (fd_close, fd_pos) refl

      refuse :
          (p : Option Tpool) (ok : Bool) (after : Tpool) (o : Option (World × List ServerAct))
          → ok ≡ false
          → after.workers ≡ t.workers
          → o ≡ some (record w { tpool = some after }, closes fd)
          → Accepted t fd ok (record w { tpool = p }) o
      refuse p ok after o e same returned = record {
        after = after;
        acts = closes fd;
        returned = returned;
        handed = λ f. absurd (let g = sym e ∙ f in cc);
        refused = λ _. (closed, same);
      }

      go :
          (too_many nb ca : Bool) (p : Option Tpool)
          → p ≡ some t
          → Accepted t fd
              (not too_many && (nb && ca))
              (record w { tpool = p })
              (if too_many
                then some (record w { tpool = p }, closes fd)
                else if not nb
                then some (record w { tpool = p }, closes fd)
                else (distribute_job J ca true stack ws p fd cb >>= λ (ok, t', acts). some (
                  record w { tpool = t' },
                  map pool_act acts ++ (if not ok then closes fd else []),
                )))
      go true nb ca p e =
          refuse p false t _ refl refl (ap (λ q. some (record w { tpool = q }, closes fd)) e)
      go false false ca p e =
          refuse p false t _ refl refl (ap (λ q. some (record w { tpool = q }, closes fd)) e)
      go false true false p e =
          let (after, returned, same) = tpool_add_job-refused t fd h fd_pos in
          refuse p false after _ refl same (rw (e, returned) refl)
      go false true true p e =
          let d = tpool_add_job-Dispatched J stack ws cb m m_pos t fd h fd_pos in
          let sent : List PoolAct = map queue_act d.acts ++ (notify d.worker.write_fd ∷ []) in
          record {
            after = d.after;
            acts = map pool_act sent ++ [];
            returned = rw (e, d.returned) refl;
            handed = λ _. (
              sent,
              subst (Dispatched J stack ws cb m m_pos t fd) d.returned d,
              append-nil (map pool_act sent),
            );
            refused = λ f. absurd (cc);
          }
