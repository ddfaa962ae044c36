-- ===== src/Scheduler/Sample.antt =====
-- A route with two targets and three credentials, for the tests of the scheduler.
use bablo.Prelude.{ℕ, ℤ, pos, true, false, Option, none, some, List, [], ◌∷◌, codes, itoa}
use bablo.Scheduler.Model.{
  success, Strategy, approved, official_api, active, Capabilities, Target, QuotaPolicy, Request,
  Decision, QuotaSnapshot, PoolMember, Candidate,
}
use bablo.Scheduler.Ports.{Options}
use bablo.Scheduler.Coordinator.{new_memory}
use bablo.Scheduler.InMemory.{World, Outside}

abbrev pub no_capabilities : Capabilities
no_capabilities = record {
  chat = false;
  responses = false;
  messages = false;
  stream = false;
  tools = false;
  vision = false;
  reasoning = false;
}

abbrev pub chat_only : Capabilities
chat_only = record no_capabilities { chat = true }

abbrev pub target_of : ℕ → ℤ → Target
target_of id priority = record {
  id = id;
  target_no = pos 1;
  credential_pool_id = id;
  provider_id = 70;
  provider_resource_type = official_api;
  provider_commercial_allowed = true;
  upstream_model_id = codes "m";
  protocol = codes "openai";
  capabilities = chat_only;
  provider_model_enabled = true;
  review_status = approved;
  pool_enabled = true;
  priority = priority;
  weight = pos 1;
  effective_commercial_allowed = true;
  enabled = true;
}

abbrev pub snapshot_of : Option ℤ → Option ℤ → QuotaSnapshot
snapshot_of remaining reset_at = record {
  found = true;
  remaining = remaining;
  reset_at = reset_at;
  observed_at = some (pos 900);
}

abbrev pub member_of : ℕ → ℤ → PoolMember
member_of credential weight = record {
  credential_id = credential;
  member_priority = pos 0;
  member_weight = weight;
  enabled = true;
  provider_enabled = true;
  status = active;
  max_concurrency = pos 1;
  region = [];
  proxy_ref = [];
  cooldown_until = none;
  quota = snapshot_of (some (pos 50)) (some (pos 5000));
}

abbrev pub candidate_with : ℕ → ℤ → ℕ → ℤ → Candidate
candidate_with target priority credential weight = record {
  target = target_of target priority;
  member = member_of credential weight;
  combined_weight = weight;
  decision_index = 0;
}

abbrev pub fresh_quota : QuotaPolicy
fresh_quota = record {
  enabled = true;
  window_kind = codes "day";
  required_tokens = pos 10;
  max_age = pos 0;
  require_fresh = true;
}

abbrev pub request_with : Strategy → Request
request_with strategy = record {
  request_id = codes " r1 ";
  request_record_id = none;
  attempt_no = pos 0;
  decision_no = pos 0;
  resolution = record {
    version_id = 5;
    route_id = 6;
    candidates = target_of 1 (pos 2) ∷ target_of 2 (pos 1) ∷ [];
  };
  protocol = codes "openai ";
  required_capabilities = chat_only;
  region = [];
  proxy_ref = [];
  require_proxy = false;
  quota = fresh_quota;
  strategy = strategy;
  affinity_key = codes "user";
  now = pos 0;
}

abbrev pub options : Options
options = record {
  lease_ttl = pos 30;
  affinity_ttl = pos 300;
  cursor_ttl = pos 3600;
  quota_max_age = pos 120;
}

-- All pools have the same two members; decisions are kept in a list.
abbrev pub outside : Outside (List Decision)
outside = record {
  uuid_text = itoa;
  affinity_state_key = λ key. key;
  new_owner = λ log. (codes "owner", log);
  clock = λ log. pos 1000;
  load_pool_members =
      λ pool quota model log. success (member_of 11 (pos 3) ∷ member_of 12 (pos 2) ∷ []);
  record_decision = λ request decision log. (success tt, decision ∷ log);
}

abbrev pub start : World (List Decision)
start = record { memory = new_memory; rest = [] }
