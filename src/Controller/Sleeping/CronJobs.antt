-- ===== src/Controller/Sleeping/CronJobs.antt =====
-- What waking gives back to a cron job that was put to sleep.
use kronos_core.Base.{◌≡◌, some, Bool, true, false, [], arith, ap, sym, ◌∙◌}
use kronos_core.Base.Outcome.{ok}
use kronos_core.Base.Effect.{
  Reply, reply, refused, bind-ok, from_reply-ok, bind-run, read-run, read, attempt-ok, pure,
  attempt, write,
}
use kronos_core.Cluster.{Codec, Cluster, CronJob, StatusResource, status}
use kronos_core.Objects.Resources.{
  new_status_resource, get_cron_job, update_status_client, sleep_status, put_to_sleep, wake,
  failed_name,
}

abbrev resource : CronJob → Bool → StatusResource
resource job b = new_status_resource job.kind job.name job.namespace b

with_suspend :
    (job : CronJob) (b : Bool) → job.suspend ≡ some b → (record job { suspend = some b }) ≡ job
with_suspend job b e = ap (λ s. record job { suspend = s }) (sym e)

module _ {codec : Codec} (cluster : Cluster codec) where
  -- What the controller relies on of the API: after an update that is accepted, a reading call
  -- replies the cron job that was sent.
  abbrev pub ReadsWritesJobs : Type 0
  ReadsWritesJobs =
      (job : CronJob) (st st' : cluster.State)
      → cluster.update_cron_job job st ≡ (reply tt, st')
      → cluster.get_cron_job job.name job.namespace st' ≡ reply job

  update_status_client_lem :
      ReadsWritesJobs
      → (job : CronJob) (b : Bool) (st st' : cluster.State) → job.kind ≡ "CronJob"
      → cluster.get_cron_job job.name job.namespace st ≡ reply job
      → update_status_client cluster (resource job b) st ≡ (ok tt, st')
      → cluster.get_cron_job job.name job.namespace st' ≡ reply (record job { suspend = some b })
  unfolding update_status_client get_cron_job new_status_resource
  update_status_client_lem laws job b st st' k got e =
      let job' = record job { suspend = some b } in
      let replies = read (cluster.get_cron_job job.name job.namespace) in
      let opened : get_cron_job cluster (resource job b) st ≡ (ok job', st) =
        bind-run replies (λ found. pure (record found { suspend = some b })) st job st
          (read-run (cluster.get_cron_job job.name job.namespace) st got) in
      let sent : cluster.update_cron_job job' st ≡ (reply tt, st') =
        from_reply-ok (cluster.update_cron_job job' st) (
          sym (
            bind-run (get_cron_job cluster (resource job b))
              (λ found. write (cluster.update_cron_job found)) st job' st opened)
          ∙ rw (k, update_status_client) at e) in
      laws job' st st' sent

  -- The update that putting a cron job to sleep makes, where no failure is reported.
  put_to_sleep_update :
      (job : CronJob) (st st' : cluster.State)
      → put_to_sleep cluster (status (resource job false)) st ≡ (ok [], st')
      → update_status_client cluster (resource job true) st ≡ (ok tt, st')
  unfolding put_to_sleep sleep_status new_status_resource
  put_to_sleep_update job st st' e =
      let (result, st₁, tried, rest) =
        bind-ok (attempt (sleep_status cluster (resource job false)))
          (λ result. pure (failed_name cluster job.name result)) st [] st' e in
      reported result tried rest
    where
      reported :
          {st₁ : cluster.State} (result : Reply Bool)
          → attempt (sleep_status cluster (resource job false)) st ≡ (ok result, st₁)
          → pure (failed_name cluster job.name result) st₁ ≡ (ok [], st')
          → update_status_client cluster (resource job true) st ≡ (ok tt, st')
      reported {st₁} (reply n) tried rest =
          let went = attempt-ok (sleep_status cluster (resource job false)) st n st₁ tried in
          let (done, st₂, updated, left) =
            bind-ok (update_status_client cluster (resource job true)) (λ _. pure false) st n st₁
              went in
          let same : st₂ ≡ st' = ground arith in rw (← same) updated
      reported (refused x) tried rest = absurd (ground arith)

  -- Where a reading call replies what was written, a cron job that is put to sleep with no failure
  -- reported, and is then woken without an error, is read as it was before: one that was suspended
  -- stays so.
  pub wake-put_to_sleep_job :
      ReadsWritesJobs
      → (job : CronJob) (b : Bool) (st st₁ st₂ : cluster.State) → job.kind ≡ "CronJob"
      → job.suspend ≡ some b
      → cluster.get_cron_job job.name job.namespace st ≡ reply job
      → put_to_sleep cluster (status (resource job b)) st ≡ (ok [], st₁)
      → wake cluster (status (resource job b)) st₁ ≡ (ok tt, st₂)
      → cluster.get_cron_job job.name job.namespace st₂ ≡ reply job
  unfolding put_to_sleep wake new_status_resource
  wake-put_to_sleep_job laws job true st st₁ st₂ k suspend got slept woken =
      let same : st₁ ≡ st = ground arith in
      update_status_client_lem laws job true st st₂ k got (rw same at woken)
      ∙ ap reply (with_suspend job true suspend)
  wake-put_to_sleep_job laws job false st st₁ st₂ k suspend got slept woken =
      let asleep =
        update_status_client_lem laws job true st st₁ k got
          (put_to_sleep_update job st st₁ slept) in
      update_status_client_lem laws (record job { suspend = some true }) false st₁ st₂ k asleep
        woken
      ∙ ap reply (with_suspend job false suspend)
