-- ===== src/Mcp/Quota/Purge.antt =====
-- `purge_usage`: the events of a tenant that are older than the retention, with their charges, and
-- its old rejections.
use text.Mathlib.Text.{◌==◌ as str_eq}
use code_mate.Lists.{length}
use code_mate.Lists.{member}
use code_mate.Mcp.Quota.Usage.{day, Database, Charge, Rejection, Event}
use code_mate.Prelude.{
  zero, [], none, if◌then◌else◌, ◌&&◌, ltb, ◌*◌, ◌∷◌, true, max, suc, List, Bool, ◌-◌, some, String,
  ℕ, Option,
}

-- `retention_days or settings.mcp_quota_retention_days`
abbrev pub days_or : Option ℕ → ℕ → ℕ
days_or none setting = setting
days_or (some zero) setting = setting
days_or (some (suc n)) setting = suc n

unfoldable pub purge_cutoff : ℕ → Option ℕ → ℕ → ℕ
purge_cutoff setting retention_days now = now - max 30 (days_or retention_days setting) * day

-- `lease_expires_at IS NULL OR lease_expires_at < now`
abbrev pub is_unleased : Option ℕ → ℕ → Bool
is_unleased none now = true
is_unleased (some t) now = ltb t now

-- The rows of `event_ids`.
abbrev pub is_purged : String → ℕ → ℕ → Event → Bool
is_purged tenant_id cutoff now e =
    str_eq e.tenant_id tenant_id && ltb e.created_at cutoff && is_unleased e.lease_expires_at now

unfoldable pub purged_ids : (Event → Bool) → List Event → List String
purged_ids test [] = []
purged_ids test (e ∷ es) = let rest = purged_ids test es in if test e then e.id ∷ rest else rest

-- `delete(MCPQuotaCharge).where(event_id IN …)`
unfoldable pub delete_charges : List String → List Charge → List Charge
unfolding member
delete_charges ids [] = []
delete_charges ids (ch ∷ chs) =
    let rest = delete_charges ids chs in if member ch.event_id ids then rest else ch ∷ rest

-- `delete(MCPQuotaEvent).where(id IN …)`
unfoldable pub delete_events : List String → List Event → List Event
unfolding member
delete_events ids [] = []
delete_events ids (e ∷ es) =
    let rest = delete_events ids es in if member e.id ids then rest else e ∷ rest

abbrev pub is_old_rejection : String → ℕ → Rejection → Bool
is_old_rejection tenant_id cutoff r = str_eq r.tenant_id tenant_id && ltb r.created_at cutoff

unfoldable pub delete_rejections : (Rejection → Bool) → List Rejection → List Rejection
delete_rejections test [] = []
delete_rejections test (r ∷ rs) =
    let rest = delete_rejections test rs in if test r then rest else r ∷ rest

unfoldable pub count_rejections : (Rejection → Bool) → List Rejection → ℕ
count_rejections test [] = 0
count_rejections test (r ∷ rs) =
    let rest = count_rejections test rs in if test r then suc rest else rest

-- What is returned, but for the tenant and the flag that it was given.
pub record Purge : Type 0 where
  pub retention_days : ℕ
  pub cutoff : ℕ
  pub events : ℕ
  pub rejections : ℕ

unfoldable pub purge_usage : ℕ → String → Option ℕ → Bool → ℕ → Database → Purge × Database
unfolding purge_cutoff purged_ids delete_charges delete_events delete_rejections count_rejections
    length
purge_usage setting tenant_id retention_days dry_run now db =
    let cutoff = purge_cutoff setting retention_days now in
    let old = purged_ids (is_purged tenant_id cutoff now) db.events in
    let is_old = is_old_rejection tenant_id cutoff in
    (
      record {
        retention_days = max 30 (days_or retention_days setting);
        cutoff = cutoff;
        events = length old;
        rejections = count_rejections is_old db.rejections;
      },
      if dry_run then db else record {
        events = delete_events old db.events;
        charges = delete_charges old db.charges;
        rejections = delete_rejections is_old db.rejections;
      },
    )
