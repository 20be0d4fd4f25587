-- ===== src/Agent/Prober/Outcomes.antt =====
-- What the results of a round of probes say.
use hakuraku.Prelude.{
  ℕ, ◌≡◌, ◌≢◌, ◌⊎◌, inl, inr, refl, true, false, List, [], ◌∷◌, Option, none, some, Text, Result,
  ok, err,
}
use hakuraku.Core.Error.{ProbeError, timeout, connection_refused, dns_failure, io, display_probe}
use hakuraku.Core.Proto.{ProbeResult}
use hakuraku.Agent.Prober.{
  Network, Target, target_text, result_of, tcp_probe_inner, tcp_probe, probe_tcp_targets,
}

-- A success has no message, a failure has one and no latency.
abbrev pub IsConsistent : ProbeResult → Type 0
IsConsistent r =
    ((r.success ≡ true) × (r.error_message ≡ []))
    ⊎ ((r.success ≡ false) × (r.latency_us ≡ 0) × (r.error_message ≢ []))

display_probe-ne-nil : (e : ProbeError) → display_probe e ≢ []
unfolding display_probe
display_probe-ne-nil (timeout target ms) h = cc
display_probe-ne-nil (connection_refused target) h = cc
display_probe-ne-nil (dns_failure host detail) h = cc
display_probe-ne-nil (io e) h = cc

result_of-IsConsistent :
    (target : Text) (r : Result ProbeError ℕ) → IsConsistent (result_of target r)
unfolding result_of
result_of-IsConsistent target (ok n) = inl (refl, refl)
result_of-IsConsistent target (err e) = inr (refl, refl, display_probe-ne-nil e)

result_of-target : (target : Text) (r : Result ProbeError ℕ) → (result_of target r).target ≡ target
unfolding result_of
result_of-target target (ok n) = refl
result_of-target target (err e) = refl

-- The results stand in the targets' order, one for each.
abbrev pub IsAnswered : List (Target × Option Text) → List ProbeResult → Type 0
IsAnswered [] [] = Unit
IsAnswered [] (r ∷ rs) = ⊥
IsAnswered (t ∷ ts) [] = ⊥
IsAnswered (((host, port, ms), some e) ∷ ts) (r ∷ rs) =
    (r.success ≡ false) × IsConsistent r × IsAnswered ts rs
IsAnswered (((host, port, ms), none) ∷ ts) (r ∷ rs) =
    (r.target ≡ target_text host port) × IsConsistent r × IsAnswered ts rs

module _ {A : Type 0} (net : Network A) where
  -- A round of probes gives one result for each target, in their order. The result of a task that
  -- finished names its target; the result of another is a failure. A success has no error message,
  -- and a failure has one and no latency.
  pub probe_tcp_targets-IsAnswered :
      (ts : List (Target × Option Text)) → IsAnswered ts (probe_tcp_targets net ts)
  unfolding probe_tcp_targets tcp_probe
  probe_tcp_targets-IsAnswered [] = tt
  probe_tcp_targets-IsAnswered (((host, port, ms), none) ∷ ts) = (
    result_of-target _ (tcp_probe_inner net (target_text host port) ms),
    result_of-IsConsistent _ (tcp_probe_inner net (target_text host port) ms),
    probe_tcp_targets-IsAnswered ts,
  )
  probe_tcp_targets-IsAnswered (((host, port, ms), some e) ∷ ts) =
      (refl, inr (refl, refl, λ h. cc), probe_tcp_targets-IsAnswered ts)
