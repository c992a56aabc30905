-- ===== src/Mcp/Quota/Counters.antt =====
-- One turn of the second loop of REDIS_RESERVE_SCRIPT, after the tests of the first.
use code_mate.Mcp.Quota.Usage.{second}
use code_mate.Mcp.Quota.Check.{exceeds}
use code_mate.Mcp.Quota.Policy.{Limits}
use code_mate.Dict.{lookup-insert_self, Dict, lookup, insert}
use code_mate.Mcp.Quota.Script.{
  day_or_zero, count_or_zero, count_keys, is_counted, check_member, PolicyKeys, DayHash, check_keys,
  Arguments,
}
use code_mate.Lists.{length}
use code_mate.Prelude.{
  refl, ◌*◌, ◌+◌, arith, suc, none, is_some, some, true, false, [], ◌∷◌, String, ℕ, ◌≡◌,
}

length-insert :
    (k : String) (v : ℕ) (d : Dict ℕ)
    → is_some (lookup k d) ≡ false
    → length (insert k v d) ≡ suc (length d)
unfolding length insert lookup
length-insert k v [] h = refl
length-insert k v ((j, w) ∷ d) h = ground (arith, length-insert k v d)

abbrev minute_calls : Arguments → PolicyKeys → ℕ
minute_calls a k = count_or_zero (lookup a.minute_key k.minutes)

abbrev day_of : Arguments → PolicyKeys → DayHash
day_of a k = day_or_zero (lookup a.day_key k.days)

abbrev run_calls : Arguments → PolicyKeys → ℕ
run_calls a k = count_or_zero (lookup a.run_key k.runs)

-- Each counter of a policy has grown by this call, and is within its limit.
pub record IsCounted (a : Arguments) (l : Limits) (before after : PolicyKeys) : Type 0 where
  pub in_minute : minute_calls a after ≡ minute_calls a before + 1
  pub in_day : (day_of a after).calls ≡ (day_of a before).calls + 1
  pub cost_in_day : (day_of a after).cost ≡ (day_of a before).cost + a.cost
  pub in_run : run_calls a after ≡ run_calls a before + 1
  pub is_marked : is_some (lookup a.idem_key after.idems) ≡ true
  pub minute_bound : exceeds l.rate_limit_per_minute (minute_calls a after) ≡ false
  pub day_bound : exceeds l.daily_call_limit (day_of a after).calls ≡ false
  pub cost_bound : exceeds l.daily_cost_limit (day_of a after).cost ≡ false
  pub run_bound : exceeds l.run_call_limit (run_calls a after) ≡ false

-- No counter of a policy has changed.
abbrev pub IsUncounted : PolicyKeys → PolicyKeys → Type 0
IsUncounted before after =
    (after.minutes ≡ before.minutes)
    × (after.days ≡ before.days)
    × (after.runs ≡ before.runs)
    × (after.idems ≡ before.idems)

-- What the script promises of the keys of a policy before and after it.
pub record IsBounded (a : Arguments) (l : Limits) (before after : PolicyKeys) : Type 0 where
  pub counted : is_counted a before ≡ false → IsCounted a l before after
  pub uncounted : is_counted a before ≡ true → IsUncounted before after
  pub leased : lookup a.member after.concurrency ≡ some a.lease_expiry
  pub bound :
      is_some (lookup a.member before.concurrency) ≡ false
      → (length after.concurrency ≡ suc (length before.concurrency))
        × (exceeds l.concurrent_limit (length after.concurrency) ≡ false)

module _ (ttl : ℕ → ℕ) (a : Arguments) where
  count_keys-IsCounted :
      (l : Limits) (k : PolicyKeys)
      → check_keys ttl a l k ≡ none
      → is_counted a k ≡ false
      → IsCounted a l k (count_keys a k)
  unfolding check_keys check_member count_keys
  count_keys-IsCounted l k h new =
      let day = day_or_zero (lookup a.day_key k.days) in
      let minutes =
        lookup-insert_self a.minute_key
          (count_or_zero (lookup a.minute_key k.minutes) + 1, a.now + 120 * second) k.minutes in
      let days =
        lookup-insert_self a.day_key
          (record { calls = day.calls + 1; cost = day.cost + a.cost }, a.now + 172800 * second)
          k.days in
      let runs =
        lookup-insert_self a.run_key
          (count_or_zero (lookup a.run_key k.runs) + 1, a.now + 691200 * second) k.runs in
      let idems = lookup-insert_self a.idem_key ("1", a.now + 691200 * second) k.idems in
      rw new (record {
        in_minute = rw minutes refl;
        in_day = rw days refl;
        cost_in_day = rw days refl;
        in_run = rw runs refl;
        is_marked = rw idems refl;
        minute_bound = rw minutes (ground arith);
        day_bound = rw days (ground arith);
        cost_bound = rw days (ground arith);
        run_bound = rw runs (ground arith);
      })

  count_keys-IsUncounted : (k : PolicyKeys) → is_counted a k ≡ true → IsUncounted k (count_keys a k)
  unfolding count_keys
  count_keys-IsUncounted k old = rw old (refl, refl, refl, refl)

  pub count_keys-IsBounded :
      (l : Limits) (k : PolicyKeys) → check_keys ttl a l k ≡ none → IsBounded a l k (count_keys a k)
  unfolding check_keys check_member count_keys
  count_keys-IsBounded l k h = record {
    counted = count_keys-IsCounted l k h;
    uncounted = count_keys-IsUncounted k;
    leased = ground (arith, lookup-insert_self a.member a.lease_expiry k.concurrency);
    bound = λ absent.
        let longer = length-insert a.member a.lease_expiry k.concurrency absent in
        (ground (arith, longer), ground (arith, absent, h, longer));
  }
