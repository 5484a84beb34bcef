-- ===== src/Cron/Ids.antt =====
-- The identifiers of the stored jobs stay distinct, whatever the clients and the loop do.
use picoclawnim.Base.{Option, Str}
use picoclawnim.Base.Int.{ℤ}
use picoclawnim.Cron.Types.{jobs_of}
use picoclawnim.Cron.Run.{
  System, Step, ticks, finishes, adds, removes, enables, starts, stops, loads, Reach, here, next,
}
use picoclawnim.Cron.Effects.{jobs-add_job}
use picoclawnim.Cron.Distinct.{Distinct, remove_job-Distinct}
use picoclawnim.Cron.Filed.{
  jobs_in, load_store-stored, disk-load_store, remove_job-filed, finish_job-Distinct,
  enable_job-Distinct, check_jobs-Distinct, claimed-Distinct, check_jobs-filed, finish_job-filed,
  added-Distinct, add_job-filed, enable_job-filed, start-Distinct, stop-keeps,
}

-- The stored jobs have distinct identifiers, those of the file have, and those that the loop has in
-- flight.
pub record AreDistinct (s : System) : Type 0 where
  pub stored : Distinct (jobs_of s.service)
  pub filed : Distinct (jobs_in s.service.disk)
  pub flying : Distinct s.in_flight

module _ (next_tick : Str → ℤ → Option ℤ) where
  pub Step-AreDistinct : {s t : System} → Step next_tick s t → AreDistinct s → AreDistinct t
  Step-AreDistinct (ticks s now w) d = record {
    stored = check_jobs-Distinct next_tick now w s d.stored;
    filed = check_jobs-filed next_tick now w s d.stored d.filed;
    flying = claimed-Distinct next_tick now w s d.stored;
  }
  Step-AreDistinct (finishes s j rest out a b c w w') d = record {
    stored = finish_job-Distinct next_tick j.id out a b c w w' s d.stored;
    filed = finish_job-filed next_tick j.id out a b c w w' s d.stored d.filed;
    flying = d.flying.1;
  }
  Step-AreDistinct (adds s fl id now w name sched msg deliver channel to f g) d = record {
    stored =
        rw jobs-add_job
          (added-Distinct next_tick s id now name sched msg deliver channel to d.stored f);
    filed = add_job-filed next_tick id now w name sched msg deliver channel to s d.stored f d.filed;
    flying = d.flying;
  }
  Step-AreDistinct (removes s fl id w) d = record {
    stored = remove_job-Distinct id w s d.stored;
    filed = remove_job-filed id w s d.stored d.filed;
    flying = d.flying;
  }
  Step-AreDistinct (enables s fl id on a b w) d = record {
    stored = enable_job-Distinct next_tick id on a b w s d.stored;
    filed = enable_job-filed next_tick id on a b w s d.stored d.filed;
    flying = d.flying;
  }
  Step-AreDistinct (starts s fl now w) d =
      let (stored, filed) = start-Distinct next_tick now w s d.stored d.filed in
      record { stored = stored; filed = filed; flying = d.flying }
  Step-AreDistinct (stops s t fl e) d =
      let (same, file) = stop-keeps next_tick s t e in
      record { stored = rw same d.stored; filed = rw file d.filed; flying = d.flying }
  Step-AreDistinct (loads s fl) d = record {
    stored = load_store-stored s d.filed;
    filed = rw disk-load_store d.filed;
    flying = d.flying;
  }

  -- Whatever clients and the loop do, in any interleaving, with `Start`, `Stop` and `Load` among it,
  -- with fresh identifiers for new jobs and whatever becomes of the writes: from a system whose
  -- stored jobs have distinct identifiers, as have the jobs of its file and those in flight, all
  -- three stay so.
  pub Reach-AreDistinct : {s t : System} → AreDistinct s → Reach next_tick s t → AreDistinct t
  Reach-AreDistinct d here = d
  Reach-AreDistinct d (next r st) = Step-AreDistinct st (Reach-AreDistinct d r)
