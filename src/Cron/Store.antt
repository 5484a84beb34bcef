-- ===== src/Cron/Store.antt =====
-- `loadStore`, `saveStoreUnsafe`, `Load` and `NewCronService` of pkg/cron/service.go.
use picoclawnim.Base.{false, Option, none, some, []}
use picoclawnim.Cron.Types.{
  CronStore, File, missing, unreadable, garbled, holds, WriteOutcome, written, refused, truncated,
  Error, read_failed, parse_failed, write_failed, CronService,
}

abbrev pub empty_store : CronStore
empty_store = record { version = 1; jobs = [] }

-- The store is replaced by the empty one before the file is read, so an error leaves it empty.
unfoldable pub load_file : File → CronStore × Option Error
load_file missing = (empty_store, none)
load_file unreadable = (empty_store, some read_failed)
load_file garbled = (empty_store, some parse_failed)
load_file (holds st) = (st, none)

unfoldable pub load_store : CronService → CronService × Option Error
unfolding load_file
load_store s = let (st, e) = load_file s.disk in (record s { store = st }, e)

unfoldable pub save_store : WriteOutcome → CronService → CronService × Option Error
save_store written s = (record s { disk = holds s.store }, none)
save_store refused s = (s, some write_failed)
save_store truncated s = (record s { disk = garbled }, some write_failed)

-- The error of the load is dropped.
unfoldable pub new_cron_service : File → CronService
unfolding load_store
new_cron_service f =
    (load_store
      (record { disk = f; store = empty_store; running = false; stop_closed = false; loops = 0 })).0
