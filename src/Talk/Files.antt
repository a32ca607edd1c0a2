-- ===== src/Talk/Files.antt =====
-- The store of src/sky_log.c and src/skylog_record.c over a file system, which fills the interface of the state
-- machine. What the clock and calloc give is by the number of the call; a fault is kept in the store.
use trace_server.Base.{ℕ, ◌+◌, Bool, true, Option, none, some}
use trace_server.File.Paths.{FileSystem, Disk}
use trace_server.SkyLog.{Skylog}
use trace_server.SkyLog.Record.{Opening, SkylogRecord}
use trace_server.SkyLog.Save.{skylog_save, skylog_save_finished}
use trace_server.Talk.{SkylogStore}

module _ (F : FileSystem) where
  pub record FileStore : Type 0 where
    pub disk : Disk F
    pub saved : SkylogRecord
    pub calls : ℕ
    pub faulted : Bool

  -- What each call of `skylog_save` is given: for its attempts, and for the record.
  abbrev pub Givens : Type 0
  Givens = ℕ → (ℕ → Opening) × Opening

  -- What a call makes of the store.
  abbrev pub settle_save :
      FileStore
      → Skylog
      → Option (Bool × Skylog × SkylogRecord × Disk F)
      → Bool × Skylog × FileStore
  settle_save w log none = (true, log, record w { faulted = true })
  settle_save w log (some (ret, log', saved, disk)) =
      (ret, log', record w { disk = disk; saved = saved; calls = w.calls + 1 })

  unfoldable pub files : Givens → SkylogStore FileStore
  unfolding skylog_save skylog_save_finished
  files given = record {
    save = λ w log bytes len.
        settle_save w log
          (skylog_save F (given w.calls).0 (given w.calls).1 w.disk w.saved log bytes len);
    save_finished = λ w log.
        let closed = skylog_save_finished F w.disk log in (closed.0, record w { disk = closed.1 });
  }
