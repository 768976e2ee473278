-- ===== src/Getters/Aggregators/Laws.antt =====
-- What `getPairsTokenAggregator` gives, and when it fails.
use lender.Common.{String, ◌≡◌, List, map, some}
use lender.Common.Dict.{Dict, lookup}
use lender.Failure.{Failure}

-- Every asset of the list has an aggregator, and these are the pairs.
abbrev Paired : Dict String → Dict String → List (String × String) → Type 0
Paired assets aggregators pairs =
    (map (λ p. p.0) pairs ≡ map (λ e. e.1) assets)
    × (map (λ p. some (p.1)) pairs ≡ map (λ e. lookup (e.0) aggregators) assets)
