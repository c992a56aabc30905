-- ===== src/Mcp/Quota/ScriptExamples.antt =====
-- The script of a reservation at two calls of one policy, the second one call too many.
use code_mate.Mcp.Quota.Atomic.{refused_changes_nothing}
use code_mate.Mcp.Quota.ScriptLimits.{script-IsBounded, AreDistinctIds, script_ids}
use code_mate.Dict.{insert, lookup, keep, Dict}
use code_mate.Lists.{length, All, member}
use code_mate.Mcp.Quota.Script.{
  refused, accepted, min_score, keys_of, PolicyKeys, prune, Arguments, count_keys, count_loop,
  check_member, check_keys, check_loop, reserve_script,
}
use code_mate.Mcp.Quota.Check.{Denial}
use code_mate.Mcp.Quota.Payload.{one}
use code_mate.Mcp.Quota.Policy.{Limits}
use code_mate.Mcp.Quota.Counters.{IsBounded}
use code_mate.Prelude.{List, refl, false, ◌∷◌, [], some, String, ◌≡◌}
use code_mate.Mcp.Quota.Examples.{limits, in_seconds, start}

-- The script on the keys after the first call, and on none.
abbrev script_limits : List (String × Limits)
script_limits = ("p1", limits) ∷ []

abbrev first_arguments : Arguments
first_arguments = record {
  now = start;
  now_ms = 1700000000000;
  lease_expiry = 1700000180000;
  member = "e1";
  cost = one;
  already_counted = false;
  minute_key = "12:00";
  day_key = "day";
  run_key = "run1";
  idem_key = "k1";
}

abbrev second_arguments : Arguments
second_arguments = record first_arguments { member = "e2"; idem_key = "k2" }

abbrev keys_after : Dict PolicyKeys
keys_after = (reserve_script in_seconds false first_arguments script_limits []).1

abbrev full : Denial
full = record { reason = "concurrent_limit"; retry_after_seconds = some 180 }

second_refused :
    (reserve_script in_seconds false second_arguments script_limits keys_after).0 ≡ refused 1 full
unfolding reserve_script check_loop check_keys check_member prune count_loop count_keys keep lookup
    insert length min_score
second_refused = refl

refused_changes_nothing_example :
    prune 1700000000000
      (keys_of "p1" (reserve_script in_seconds false second_arguments script_limits keys_after).1)
    ≡ prune 1700000000000 (keys_of "p1" keys_after)
refused_changes_nothing_example =
    refused_changes_nothing in_seconds second_arguments false script_limits keys_after 1 full
      second_refused "p1"

one-AreDistinctIds : AreDistinctIds script_limits
unfolding member script_ids
one-AreDistinctIds = (refl, tt)

first_accepted : (reserve_script in_seconds false first_arguments script_limits []).0 ≡ accepted
unfolding reserve_script check_loop check_keys check_member prune count_loop count_keys keep lookup
    insert length
first_accepted = refl

script-IsBounded_example :
    All
      (λ q.
        IsBounded first_arguments q.1
          (prune 1700000000000 (keys_of q.0 []))
          (keys_of q.0 (reserve_script in_seconds false first_arguments script_limits []).1))
      script_limits
script-IsBounded_example =
    script-IsBounded in_seconds first_arguments false script_limits [] one-AreDistinctIds
      first_accepted
