-- ===== src/Server/Metrics/Tests.antt =====
-- A registry that is the list of its names.
use hakuraku.Prelude.{
  ◌≡◌, refl, true, false, Bool, Bool-cases, inl, inr, List, [], ◌∷◌, Text, codes, text_eq,
  text_eq_iff, ok, err, All, if◌then◌else◌,
}
use hakuraku.Server.Metrics.{
  Metric, Use, error_counted, online_set, request_counted, metric_of, Prometheus, Statics, is_made,
  performs,
}
use hakuraku.Server.Metrics.Registration.{IsPrometheus, Absent, IsRegistered, performs-IsRegistered}

abbrev stands : Text → List Text → Bool
stands t [] = false
stands t (u ∷ us) = if text_eq t u then true else stands t us

abbrev listed : Prometheus (List Text) Text
listed = record {
  make = λ o. ok o.name;
  register = λ r c. if stands c r then err (codes "AlreadyReg") else ok (c ∷ r);
}

stands-Absent : (t : Text) (us : List Text) → Absent t us → stands t us ≡ false
stands-Absent t [] h = refl
stands-Absent t (u ∷ us) h = elim (Bool-cases (text_eq t u)) [
  | inl e ↦ absurd (h.0 ((text_eq_iff t u).0 e))
  | inr e ↦ rw e (stands-Absent t us h.1)
]

abbrev listed_laws : IsPrometheus listed
listed_laws = record {
  name_of = λ c. c;
  names = λ r. r;
  makes = λ o h. (o.name, refl, refl);
  registers = λ r c h. (c ∷ r, rw (stands-Absent c r h) refl, refl);
}

abbrev fresh : Statics (List Text)
fresh = record { made = []; registry = [] }

abbrev used : List Use
used =
    error_counted (codes "get_node") ∷ online_set ∷ request_counted (codes "/ws") (codes "200") ∷ []

performs-IsRegistered_example :
    (s' : Statics (List Text)) × (performs listed used fresh ≡ ok s')
    × All (λ u. is_made (metric_of u) s'.made ≡ true) used
    × ((x : Metric) → is_made x [] ≡ true → is_made x s'.made ≡ true)
    × IsRegistered listed listed_laws s'
performs-IsRegistered_example = performs-IsRegistered listed listed_laws used fresh (refl, tt)
