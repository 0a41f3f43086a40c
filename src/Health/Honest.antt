-- ===== src/Health/Honest.antt =====
-- A campaign is shown as healthy only if nothing known speaks against it.
use link_suffix.Base.{◌≡◌, true, false, Option, arith, holds_text}
use link_suffix.Health.{
  healthy, ShardInput, CampaignInput, Options, connected, worker_connection, campaign_health,
}

-- What a healthy tone stands for.
pub record IsHonest (o : Options) (c : CampaignInput) (sh : Option ShardInput) : Type 0 where
  pub on : c.enabled ≡ true
  pub contact : worker_connection o sh ≡ connected
  pub in_time : holds_text c.newest_update_state "delayed" ≡ false
  pub no_retry : holds_text c.newest_update_state "retrying" ≡ false
  pub alive : holds_text c.latest_job_state "dead" ≡ false
  pub no_failure : holds_text c.latest_job_state "failed" ≡ false
  pub no_alarm : holds_text c.delivery_health "attention" ≡ false

-- A campaign is shown in the healthy tone only if it is enabled, its worker has polled within the time allowed,
-- its newest update is neither delayed nor being retried, its latest job is neither dead nor failed, and its
-- delivery health is not "attention": a connection's loss or a current failure is never hidden.
pub campaign_health-IsHonest :
    (o : Options) (c : CampaignInput) (sh : Option ShardInput)
    → (campaign_health o c sh).tone ≡ healthy
    → IsHonest o c sh
unfolding campaign_health
campaign_health-IsHonest o c sh h = record {
  on = ground arith;
  contact = ground arith;
  in_time = ground arith;
  no_retry = ground arith;
  alive = ground arith;
  no_failure = ground arith;
  no_alarm = ground arith;
}
