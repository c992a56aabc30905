-- ===== src/Mcp/Circuit/Safety.antt =====
-- What the circuit breaker keeps out, over every interleaving of its methods.
use code_mate.Prelude.{
  ◌+◌, ◌≤◌, ◌<◌, ◌≡◌, refl, String, true, false, is_some, List, [], ◌∷◌, max, arith,
}
use code_mate.Json.{Json}
use code_mate.Mcp.Circuit.Health.{Health, Settings, opened, closed}
use code_mate.Mcp.Circuit.Methods.{before_execution_at, is_half_open, reject, admit, start_trial}
use code_mate.Mcp.Circuit.Steps.{
  Call, executes, succeeds, fails, probes, controls, registers, step, run, admits, admissions,
  requests, IsUncontrolled,
}

-- What holds of a row between two calls.
pub record IsConsistent (c : Settings) (h : Health) : Type 0 where
  pub manual_is_open : h.manual_open ≡ true → h.circuit_state ≡ opened
  pub cooldown : h.circuit_state ≡ opened → h.manual_open ≡ false → is_some h.cooldown_until ≡ true
  pub trial_iff : is_some h.half_open_trial_id ≡ is_half_open h.circuit_state
  pub lease_iff : is_some h.half_open_lease_expires_at ≡ is_half_open h.circuit_state
  pub not_opened : h.circuit_state ≡ closed → is_some h.opened_at ≡ false
  pub below_threshold :
      c.circuit_breaker_enabled ≡ true
      → h.circuit_state ≡ closed
      → h.consecutive_failures < max 1 c.circuit_failure_threshold
  pub failed_probes_bound : h.failed_probes ≤ h.total_probes

module _ (print : Json → String) (c : Settings) where
  -- Every method, on every branch, keeps the invariant of the row: a manually opened circuit is
  -- open, an automatically opened one has a cooldown, a trial and its lease stand exactly while the
  -- circuit is half open, and a closed circuit has seen fewer failures in a row than the threshold.
  pub step-IsConsistent :
      (k : Call) (h : Health) → IsConsistent c h → IsConsistent c (step print c k h)
  unfolding step before_execution_at reject admit start_trial
  step-IsConsistent (executes now id) h v = ground arith
  step-IsConsistent (succeeds now latency) h v = ground arith
  step-IsConsistent (fails now error latency) h v = ground arith
  step-IsConsistent (probes now true latency result error) h v = ground arith
  step-IsConsistent (probes now false latency result error) h v = ground arith
  step-IsConsistent (controls now action expected) h v = ground arith
  step-IsConsistent (registers now url) h v = ground arith

  step-manual :
      (k : Call) (ks : List Call) (h : Health)
      → IsUncontrolled (k ∷ ks)
      → c.circuit_breaker_enabled ≡ true
      → h.circuit_state ≡ opened
      → h.manual_open ≡ true
      → (admits print c k h ≡ 0)
        × ((step print c k h).circuit_state ≡ opened)
        × ((step print c k h).manual_open ≡ true)
        × IsUncontrolled ks
  unfolding step admits before_execution_at reject admit start_trial
  step-manual (executes now id) ks h u on o m = ground arith
  step-manual (succeeds now latency) ks h u on o m = ground arith
  step-manual (fails now error latency) ks h u on o m = ground arith
  step-manual (probes now true latency result error) ks h u on o m = ground arith
  step-manual (probes now false latency result error) ks h u on o m = ground arith
  step-manual (registers now url) ks h u on o m = ground arith
  step-manual (controls now action expected) ks h u on o m = elim u [ ]

  -- A circuit that an operator has opened stays open and lets no request through, whatever succeeds,
  -- fails or is probed and however long it takes, until an operator controls it again; the
  -- conditions are an enabled circuit breaker and a row that satisfies the invariant.
  pub manual_rejects :
      (ks : List Call) (h : Health)
      → IsConsistent c h
      → c.circuit_breaker_enabled ≡ true
      → h.manual_open ≡ true
      → IsUncontrolled ks
      → (admissions print c ks h ≡ 0) × ((run print c ks h).manual_open ≡ true)
  manual_rejects [] h v on m u = (refl, m)
  manual_rejects (k ∷ ks) h v on m u =
      let (none_now, still_open, still_manual, rest) =
        step-manual k ks h u on (v.manual_is_open m) m in
      let (none_later, end) =
        manual_rejects ks (step print c k h) (step-IsConsistent k h v) on still_manual rest in
      (omega (arith, none_now, none_later), end)

  step-counts :
      (k : Call) (ks : List Call) (h : Health)
      → IsUncontrolled (k ∷ ks)
      → ((step print c k h).total_requests ≡ h.total_requests + admits print c k h)
        × ((step print c k h).total_requests + (step print c k h).circuit_rejections + requests ks
            ≡ h.total_requests + h.circuit_rejections + requests (k ∷ ks))
        × IsUncontrolled ks
  unfolding step admits before_execution_at reject admit start_trial
  step-counts (executes now id) ks h u = ground arith
  step-counts (succeeds now latency) ks h u = ground arith
  step-counts (fails now error latency) ks h u = ground arith
  step-counts (probes now true latency result error) ks h u = ground arith
  step-counts (probes now false latency result error) ks h u = ground arith
  step-counts (registers now url) ks h u = ground arith
  step-counts (controls now action expected) ks h u = elim u [ ]

  -- While no operator resets the counters, `total_requests` counts exactly the requests that were let
  -- through, and together with `circuit_rejections` it counts every request.
  requests_counted :
      (ks : List Call) (h : Health)
      → IsUncontrolled ks
      → ((run print c ks h).total_requests ≡ h.total_requests + admissions print c ks h)
        × ((run print c ks h).total_requests + (run print c ks h).circuit_rejections
            ≡ h.total_requests + h.circuit_rejections + requests ks)
  requests_counted [] h u = (omega arith, omega arith)
  requests_counted (k ∷ ks) h u =
      let (let_through, counted, rest) = step-counts k ks h u in
      let (later_through, later_counted) = requests_counted ks (step print c k h) rest in
      (omega (arith, let_through, later_through), omega (arith, counted, later_counted))
