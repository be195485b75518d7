-- ===== src/Node/Probe/Witnesses.antt =====
-- probe.go at a detector of three nodes.
use minidist.Base.{◌≡◌, ◌≤◌, ◌⊎◌, refl, Bool, true, false, none, [], ◌∷◌, length, ◌||◌}
use minidist.Base.Text.{Text, text_eq}
use minidist.Base.Assoc.{text_eq_inst}
use minidist.Base.Sets.{contains}
use minidist.Node.Detector.{FailureDetector, new_failure_detector}
use minidist.Node.Cluster.Agreement.{tracks}
use minidist.Node.Probe.{random_members, random_probe_target, probe_once}
use minidist.Node.Probe.Choice.{random_members_bounds}
use minidist.Node.Probe.Outcome.{judged, probe_once-cases}

abbrev a : Text
a = 97 ∷ []

abbrev b : Text
b = 98 ∷ []

abbrev c : Text
c = 99 ∷ []

abbrev detector : FailureDetector
detector = new_failure_detector 5 100 (a ∷ b ∷ c ∷ []) a

-- `a` and `b` do not reach each other.
abbrev reaches : Text → Text → Bool
reaches p q = text_eq p c || text_eq q c

random_members_bounds_example :
    (length (random_members (λ xs. xs) a detector 1 (b ∷ [])) ≤ 1)
    × ((m : Text)
        → contains (random_members (λ xs. xs) a detector 1 (b ∷ [])) m ≡ true
        → (tracks detector m ≡ true) × (text_eq a m ≡ false) × (contains (b ∷ []) m ≡ false))
random_members_bounds_example =
    random_members_bounds (λ xs. xs) (λ xs m. refl) a detector 1 (b ∷ [])

probe_once-cases_example :
    ((random_probe_target (λ xs. xs) a detector ≡ none)
      × (probe_once reaches (λ xs. xs) (λ xs. xs) a 6 detector detector ≡ detector))
    ⊎ ((target : Text) × (tracks detector target ≡ true)
        × (text_eq a target ≡ false)
        × (probe_once reaches (λ xs. xs) (λ xs. xs) a 6 detector detector
            ≡ judged reaches
                (λ xs. xs)
                (λ xs. xs)
                (λ xs m. refl)
                (λ xs m. refl)
                a
                6
                detector
                target
                detector))
probe_once-cases_example =
    probe_once-cases reaches (λ xs. xs) (λ xs. xs) (λ xs m. refl) (λ xs m. refl) a 6 detector
      detector
