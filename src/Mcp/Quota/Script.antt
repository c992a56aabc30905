-- ===== src/Mcp/Quota/Script.antt =====
-- REDIS_RESERVE_SCRIPT, which Redis runs as one step, on the keys of each policy. The keys with one
-- policy's prefix are one record. A limit of -1 is none here.
use Prim.Native.Nat.{◌/◌}
use code_mate.Prelude.{
  ℕ, ◌+◌, ◌-◌, ◌*◌, String, Bool, not, ◌&&◌, ◌||◌, Option, none, some, List, [], ◌∷◌, max, min, ltb,
  is_some, if◌then◌else◌,
}
use code_mate.Lists.{length}
use code_mate.Dict.{Dict, lookup, insert, keep}
use code_mate.Mcp.Quota.Policy.{Limits}
use code_mate.Mcp.Quota.Usage.{second}
use code_mate.Mcp.Quota.Check.{Denial, or_denied, exceeds}

-- The hash `…:day:…`
pub record DayHash : Type 0 where
  pub calls : ℕ
  pub cost : ℕ

-- The keys of one policy. Every value has the time at which its key expires; `concurrency` is a
-- sorted set, its members with their scores.
pub record PolicyKeys : Type 0 where
  pub minutes : Dict (ℕ × ℕ)
  pub days : Dict (DayHash × ℕ)
  pub runs : Dict (ℕ × ℕ)
  pub idems : Dict (String × ℕ)
  pub concurrency : Dict ℕ
  pub concurrency_expires_at : ℕ

abbrev pub no_keys : PolicyKeys
no_keys = record {
  minutes = [];
  days = [];
  runs = [];
  idems = [];
  concurrency = [];
  concurrency_expires_at = 0;
}

abbrev pub is_alive {ℓ} : {A : Type ℓ} → ℕ → A × ℕ → Bool
is_alive now (v, expiry) = ltb now expiry

-- The keys of a policy as a command at a time finds them.
unfoldable pub expire_keys : ℕ → PolicyKeys → PolicyKeys
unfolding keep
expire_keys now k = record {
  minutes = keep (is_alive now) k.minutes;
  days = keep (is_alive now) k.days;
  runs = keep (is_alive now) k.runs;
  idems = keep (is_alive now) k.idems;
  concurrency = if ltb now k.concurrency_expires_at then k.concurrency else [];
  concurrency_expires_at = k.concurrency_expires_at;
}

unfoldable pub expire_policies : ℕ → Dict PolicyKeys → Dict PolicyKeys
unfolding expire_keys
expire_policies now [] = []
expire_policies now ((id, k) ∷ d) = (id, expire_keys now k) ∷ expire_policies now d

abbrev pub keys_or_none : Option PolicyKeys → PolicyKeys
keys_or_none none = no_keys
keys_or_none (some k) = k

-- The keys of one policy.
abbrev pub keys_of : String → Dict PolicyKeys → PolicyKeys
keys_of id d = keys_or_none (lookup id d)

-- What the KEYS and the ARGV of a call say, but for the list of policies.
pub record Arguments : Type 0 where
  pub now : ℕ
  pub now_ms : ℕ
  pub lease_expiry : ℕ
  pub member : String
  pub cost : ℕ
  pub already_counted : Bool
  pub minute_key : String
  pub day_key : String
  pub run_key : String
  pub idem_key : String

-- `ZREMRANGEBYSCORE … -inf now_ms`
unfoldable pub prune : ℕ → PolicyKeys → PolicyKeys
prune now_ms k = record k { concurrency = keep (ltb now_ms) k.concurrency }

-- `GET … or '0'`
abbrev pub count_or_zero : Option (ℕ × ℕ) → ℕ
count_or_zero none = 0
count_or_zero (some (n, expiry)) = n

abbrev pub no_day : DayHash
no_day = record { calls = 0; cost = 0 }

-- `HGET … or '0'`, both fields
abbrev pub day_or_zero : Option (DayHash × ℕ) → DayHash
day_or_zero none = no_day
day_or_zero (some (h, expiry)) = h

abbrev pub expiry_of {ℓ} : {A : Type ℓ} → Option (A × ℕ) → Option ℕ
expiry_of none = none
expiry_of (some (v, expiry)) = some expiry

-- `counted`
abbrev pub is_counted : Arguments → PolicyKeys → Bool
is_counted a k = a.already_counted || is_some (lookup a.idem_key k.idems)

unfoldable pub min_score : Dict ℕ → Option ℕ
min_score [] = none
min_score ((m, score) ∷ d) = elim (min_score d) [
  | none ↦ some score
  | some other ↦ some (min score other)
]

-- `math.max(1, math.ceil((score - now_ms) / 1000))`, or 1 where there is no member
abbrev pub member_retry : ℕ → Option ℕ → ℕ
member_retry now_ms none = 1
member_retry now_ms (some score) = max 1 ((score - now_ms + 999) / 1000)

-- One turn of the first loop: it returns, or it goes on.
abbrev pub return_or :
    ℕ
    → Option Denial
    → Dict PolicyKeys
    → Option (ℕ × Denial) × Dict PolicyKeys
    → Option (ℕ × Denial) × Dict PolicyKeys
return_or i (some x) d rest = (some (i, x), d)
return_or i none d rest = rest

-- `ttl` is how Redis rounds the time that a key has left.
module _ (ttl : ℕ → ℕ) where
  -- `math.max(1, TTL …)`; the TTL of a missing key is -2.
  abbrev pub key_retry : ℕ → Option ℕ → ℕ
  key_retry now none = 1
  key_retry now (some expiry) = max 1 (ttl (expiry - now))

  -- The last test of the loop: the concurrency of a member that has no lease.
  unfoldable pub check_member : Arguments → Limits → PolicyKeys → Option Denial
  unfolding min_score
  check_member a l k =
      or_denied
        (not (is_some (lookup a.member k.concurrency))
          && exceeds l.concurrent_limit (length k.concurrency + 1))
        "concurrent_limit" (some (member_retry a.now_ms (min_score k.concurrency))) none

  -- The tests of the first loop on the keys of one policy.
  unfoldable pub check_keys : Arguments → Limits → PolicyKeys → Option Denial
  unfolding check_member
  check_keys a l k =
      let day = lookup a.day_key k.days in
      let day_retry = some (key_retry a.now (expiry_of day)) in
      let concurrency = check_member a l k in
      if is_counted a k
      then concurrency
      else or_denied
          (exceeds l.rate_limit_per_minute (count_or_zero (lookup a.minute_key k.minutes) + 1))
          "rate_limit_per_minute"
          (some (key_retry a.now (expiry_of (lookup a.minute_key k.minutes))))
          (or_denied (exceeds l.daily_call_limit ((day_or_zero day).calls + 1)) "daily_call_limit"
            day_retry
            (or_denied (exceeds l.daily_cost_limit ((day_or_zero day).cost + a.cost))
              "daily_cost_limit" day_retry
              (or_denied (exceeds l.run_call_limit (count_or_zero (lookup a.run_key k.runs) + 1))
                "run_call_limit" (some 0) concurrency)))

  -- The first loop: the index of the policy that denies the call, from 1, and the keys as they are.
  unfoldable pub check_loop :
      ℕ
      → Arguments
      → List (String × Limits)
      → Dict PolicyKeys
      → Option (ℕ × Denial) × Dict PolicyKeys
  unfolding check_keys prune
  check_loop i a [] d = (none, d)
  check_loop i a ((id, l) ∷ ps) d =
      let k = prune a.now_ms (keys_of id d) in
      let pruned = insert id k d in
      let rest = check_loop (i + 1) a ps pruned in return_or i (check_keys a l k) pruned rest

-- The commands of the second loop that count a call.
abbrev pub count_call : Arguments → PolicyKeys → PolicyKeys
count_call a k =
    let day = day_or_zero (lookup a.day_key k.days) in
    record k {
      minutes =
          insert a.minute_key
            (count_or_zero (lookup a.minute_key k.minutes) + 1, a.now + 120 * second) k.minutes;
      days =
          insert a.day_key
            (record { calls = day.calls + 1; cost = day.cost + a.cost }, a.now + 172800 * second)
            k.days;
      runs =
          insert a.run_key (count_or_zero (lookup a.run_key k.runs) + 1, a.now + 691200 * second)
            k.runs;
      idems = insert a.idem_key ("1", a.now + 691200 * second) k.idems;
    }

-- One turn of the second loop.
unfoldable pub count_keys : Arguments → PolicyKeys → PolicyKeys
count_keys a k =
    let c = if is_counted a k then k else count_call a k in
    record c {
      concurrency = insert a.member a.lease_expiry c.concurrency;
      concurrency_expires_at = a.now + 691200 * second;
    }

unfoldable pub count_loop : Arguments → List (String × Limits) → Dict PolicyKeys → Dict PolicyKeys
unfolding count_keys
count_loop a [] d = d
count_loop a ((id, l) ∷ ps) d = count_loop a ps (insert id (count_keys a (keys_of id d)) d)

-- What the script returns.
pub data Answer : Type 0 where
  accepted : Answer
  refused : ℕ → Denial → Answer

abbrev pub quota_reconciling : Answer
quota_reconciling =
    refused 0 (record { reason = "quota_reconciling"; retry_after_seconds = some 1 })

abbrev pub after_checks :
    Arguments
    → List (String × Limits)
    → Option (ℕ × Denial) × Dict PolicyKeys
    → Answer × Dict PolicyKeys
after_checks a ps (some (i, x), d) = (refused i x, d)
after_checks a ps (none, d) = (accepted, count_loop a ps d)

-- The whole script; `is_reconciling` is `EXISTS KEYS[1]`.
unfoldable pub reserve_script :
    (ℕ → ℕ) → Bool → Arguments → List (String × Limits) → Dict PolicyKeys → Answer × Dict PolicyKeys
unfolding check_loop
reserve_script ttl is_reconciling a ps d =
    if is_reconciling then (quota_reconciling, d) else after_checks a ps (check_loop ttl 1 a ps d)
