-- ===== src/Bridge/History.antt =====
-- The life of the store of web/lib/script-bridge-store.ts: a history is a sequence of transactions, each one
-- a call of an operation that succeeds, in any order and with any inputs.
pub mod Always
use link_suffix.Base.{ℕ, ◌≡◌, Bool, List, [], Option, String}
use link_suffix.Bridge.{Store, Target, Job, Env}
use link_suffix.Bridge.Results.{Result, ok}
use link_suffix.Bridge.Prepare.{Request}
use link_suffix.Bridge.Window.{Schedule}
use link_suffix.Bridge.Manifest.{Options, Manifest, bridge_shard_manifest}
use link_suffix.Bridge.Lease.{Lease, lease_bridge_jobs}
use link_suffix.Bridge.Ack.{Report, Outcome, acknowledge_bridge_job}
use link_suffix.Bridge.Renew.{renew_bridge_leases}
use link_suffix.Bridge.Enqueue.{
  Captured, Queued, enqueue_capture, queue_latest_bridge_capture, pause_target,
}
use link_suffix.Bridge.Targets.{enable_target, delete_bridge_target}
use link_suffix.Bridge.Shards.{register_bridge_shard}
use link_suffix.Bridge.Shards.Completion.{complete_bridge_invocation}
use link_suffix.Bridge.Shards.Deletion.{delete_bridge_shard}

pub data Step (env : Env) : Store → Store → Type 0 where
  lease :
      {s t : Store} (r : Request) (uuid token : ℕ → String) (now : ℕ) (ls : List Lease)
      → lease_bridge_jobs env r uuid token now s ≡ ok (t, ls)
      → Step env s t
  acknowledge :
      {s t : Store} (now : ℕ) (a : Report) (o : Outcome)
      → acknowledge_bridge_job env now a s ≡ ok (t, o)
      → Step env s t
  renew :
      {s : Store} (now : ℕ) (shard_id worker : String) (leases : List (String × String))
      → Step env s (renew_bridge_leases env now shard_id worker leases s).0
  enqueue :
      {s t : Store} (c : Captured) (uuid : String) (now : ℕ) (j : Option Job)
      → enqueue_capture env c uuid now s ≡ ok (t, j)
      → Step env s t
  queue_latest :
      {s t : Store} (record_id uuid : String) (now : ℕ) (q : Queued)
      → queue_latest_bridge_capture record_id uuid now s ≡ ok (t, q)
      → Step env s t
  pause :
      {s t : Store} (record_id : String) (now : ℕ)
      → pause_target record_id now s ≡ ok (t, tt)
      → Step env s t
  enable :
      {s t : Store} (record_id : String) (now : ℕ)
      → enable_target record_id now s ≡ ok t
      → Step env s t
  delete_target :
      {s t : Store} (target_id record_id : String) (o : Option Target)
      → delete_bridge_target target_id record_id s ≡ ok (t, o)
      → Step env s t
  register :
      {s t : Store} (now : ℕ) (shard_id token manager id m : String)
      → register_bridge_shard env now shard_id token manager s ≡ ok (t, (id, m))
      → Step env s t
  delete_shard :
      {s t : Store} (now : ℕ) (fresh shard_id confirmed : String) (already : Bool)
      → delete_bridge_shard env now fresh shard_id confirmed s ≡ ok (t, already)
      → Step env s t
  manifest :
      {s t : Store} (cfg : Schedule) (o : Options) (now : ℕ) (shard_id : String) (m : Manifest)
      → bridge_shard_manifest env cfg o now shard_id s ≡ ok (t, m)
      → Step env s t
  complete :
      {s : Store} (now : ℕ) (shard_id invocation status : String)
      → Step env s (complete_bridge_invocation now shard_id invocation status s).0

-- Any number of steps.
pub data History (env : Env) : Store → Store → Type 0 where
  start : {s : Store} → History env s s
  then_step : {s t u : Store} → History env s t → Step env t u → History env s u
