-- ===== src/Agent/Prober/Tests.antt =====
-- A round of two probes.
use hakuraku.Prelude.{ℕ, List, [], ◌∷◌, Option, none, some, Text, codes, ok}
use hakuraku.Agent.Prober.{Network, connected, Target, probe_tcp_targets}
use hakuraku.Agent.Prober.Outcomes.{IsAnswered, probe_tcp_targets-IsAnswered}

abbrev net : Network ℕ
net = record { to_socket_addrs = λ s. ok (7 ∷ []); connect = λ a ms. connected 1500 }

abbrev targets : List (Target × Option Text)
targets = ((codes "a", 80, 1000), none) ∷ ((codes "b", 81, 1000), some (codes "gone")) ∷ []

probe_tcp_targets-IsAnswered_example : IsAnswered targets (probe_tcp_targets net targets)
probe_tcp_targets-IsAnswered_example = probe_tcp_targets-IsAnswered net targets
