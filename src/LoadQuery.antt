-- ===== src/LoadQuery.antt =====
-- scheduler/LoadQuery.cc: the load of a broker, as a client asks for it.
use arl_hierarchical_multisc.Base.{ℕ}
use arl_hierarchical_multisc.Base.Effect.{M, pure}
use arl_hierarchical_multisc.ResourceManager.{ResourceManager}
use arl_hierarchical_multisc.StateDb.{StateDb}
use arl_hierarchical_multisc.Scheduler.{Scheduler, basic, batch_queue}
use arl_hierarchical_multisc.Scheduler.Basic.{
  get_number_free_resources, get_number_queued_jobs, get_number_queued_jobs_all_users,
  get_number_used_resources, get_number_total_resources,
}

pub record LoadQuery : Type 0 where
  pub number_free_resources : ℕ
  pub number_queued_jobs : ℕ
  pub number_queued_jobs_all_users : ℕ
  pub number_used_resources : ℕ
  pub number_total_resources : ℕ

-- The getters of the batch queue scheduler run PBS programs: `pbs` is what they report.
unfoldable pub execute :
    {W : Type 0} → M W LoadQuery → Scheduler → ResourceManager → StateDb → M W LoadQuery
execute pbs (basic speculative) m db = pure (record {
  number_free_resources = get_number_free_resources m;
  number_queued_jobs = get_number_queued_jobs db;
  number_queued_jobs_all_users = get_number_queued_jobs_all_users db;
  number_used_resources = get_number_used_resources db;
  number_total_resources = get_number_total_resources db;
})
execute pbs batch_queue m db = pbs
