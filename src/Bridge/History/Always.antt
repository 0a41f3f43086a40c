-- ===== src/Bridge/History/Always.antt =====
-- What holds after every history.
use link_suffix.Base.{sym, subst}
use link_suffix.Bridge.{Store, Env}
use link_suffix.Bridge.Manifest.Recovery.{manifest-jobs}
use link_suffix.Bridge.Invariant.{IsValid}
use link_suffix.Bridge.Lease.Valid.{lease_bridge_jobs-IsValid}
use link_suffix.Bridge.Ack.Valid.{acknowledge-IsValid}
use link_suffix.Bridge.Renew.Valid.{renew-IsValid}
use link_suffix.Bridge.Enqueue.Valid.{enqueue-IsValid, queue_latest-IsValid, pause-IsValid}
use link_suffix.Bridge.Targets.Valid.{enable_target-IsValid, delete_bridge_target-IsValid}
use link_suffix.Bridge.Shards.Retired.{register-jobs, delete_bridge_shard-jobs}
use link_suffix.Bridge.Shards.Completion.{complete_bridge_invocation}
use link_suffix.Bridge.History.{Step, History}

Step-IsValid : (env : Env) (s t : Store) → Step env s t → IsValid env s.jobs → IsValid env t.jobs
unfolding complete_bridge_invocation
Step-IsValid env s t (Step.lease r uuid token now ls e) v =
    lease_bridge_jobs-IsValid env r uuid token now s t ls v e
Step-IsValid env s t (Step.acknowledge now a o e) v = acknowledge-IsValid env now a s t o v e
Step-IsValid env s _ (Step.renew now shard_id worker leases) v =
    renew-IsValid env now shard_id worker leases s v
Step-IsValid env s t (Step.enqueue c uuid now j e) v = enqueue-IsValid env c uuid now s t j v e
Step-IsValid env s t (Step.queue_latest record_id uuid now q e) v =
    queue_latest-IsValid env record_id uuid now s t q v e
Step-IsValid env s t (Step.pause record_id now e) v = pause-IsValid env record_id now s t tt v e
Step-IsValid env s t (Step.enable record_id now e) v =
    enable_target-IsValid env record_id now s t v e
Step-IsValid env s t (Step.delete_target target_id record_id o e) v =
    delete_bridge_target-IsValid env target_id record_id s t o v e
Step-IsValid env s t (Step.register now shard_id token manager id m e) v =
    subst (IsValid env) (sym (register-jobs env now s t shard_id token manager id m e)) v
Step-IsValid env s t (Step.delete_shard now fresh shard_id confirmed already e) v =
    subst (IsValid env)
      (sym (delete_bridge_shard-jobs env now fresh shard_id confirmed s t already e)) v
Step-IsValid env s t (Step.manifest cfg o now shard_id m e) v =
    subst (IsValid env) (manifest-jobs env cfg o now shard_id s t m e) v
Step-IsValid env s _ (Step.complete now shard_id invocation status) v = v

-- Whatever history starts with valid jobs ends with valid jobs: no two rows have one key or one target
-- and capture, no campaign has two leases at once, no job has more attempts than it is given, and each
-- lease names its worker, its token's hash and its end.
pub History-IsValid :
    (env : Env) (s t : Store) → History env s t → IsValid env s.jobs → IsValid env t.jobs
History-IsValid env s _ History.start v = v
History-IsValid env s u (History.then_step {t = t} h k) v =
    Step-IsValid env t u k (History-IsValid env s t h v)
