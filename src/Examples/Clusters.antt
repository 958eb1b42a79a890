-- ===== src/Examples/Clusters.antt =====
-- The theorems on the clusters of findings, at sample data.
use mathlib.Core.Path.{subst}
use recompile.Base.Sort.{sort_by}
use recompile.Base.{
  text_eq, unwrap_or, keep, if◌then◌else◌, count, any, Bool, ℕ, ◌+◌, ◌*◌, ◌/◌, ◌^◌, ◌≡◌, refl, ◌++◌,
  ◌==◌, true, false, pos, Option, none, some, List, [], ◌∷◌, codes, leb, ltb, max, arith, All,
  length, is_some, opt_map, u64_mod, ◌%◌, ◌<◌, not, ◌&&◌,
}
use recompile.Base.Order.{text_cmp, nat_ord, text_ord}
use recompile.Base.Dict.{alter, get}
use recompile.Base.Tally.{counter}
use recompile.Base.Sets.{insert}
use recompile.Base.Hex.{lower_hex}
use recompile.Rules.Event.{Finding, AnomalyClass}
use recompile.Rules.Config.{default_config}
use recompile.Rules.Clusters.{ClusterManager, new_manager, add_finding}
use recompile.Rules.Clusters.Valid.{IsValid, Keeps, add_finding-IsValid}
use recompile.Rules.Clusters.Merging.{add_finding-Counts, Counts, lost_hits}
use recompile.Rules.Report.{ClusteringStats, get_stats, get_all_findings}
use recompile.Rules.Report.Totals.{get_stats_agree, of_class}
use recompile.Rules.Engine.{simple_finding, new_engine}
use recompile.Examples.Rules.{plain, plain-Iterates, plain-Permutes, clocks, copy_finding}

abbrev fresh_manager : ClusterManager ℕ
fresh_manager = (new_engine (default_config plain)).cluster_manager

fresh_manager-IsValid : IsValid fresh_manager
unfolding new_engine new_manager default_config
fresh_manager-IsValid = record {
  sorted = tt;
  single = tt;
  bounded = omega arith;
  ranked = omega arith;
}

fresh_room : length fresh_manager.clusters < fresh_manager.config.max_clusters
unfolding new_engine new_manager default_config
fresh_room = omega arith

fresh_small : All (λ e. e.1.hit_count + 1 < 2 ^ 32) fresh_manager.clusters
unfolding new_engine new_manager default_config
fresh_small = tt

add_finding-Counts_example :
    Counts plain fresh_manager
      (lost_hits plain fresh_manager copy_finding)
      (add_finding plain fresh_manager copy_finding [] (some 5))
add_finding-Counts_example =
    add_finding-Counts plain plain-Iterates fresh_manager copy_finding [] 5 fresh_manager-IsValid
      fresh_room fresh_small

-- Two clusters with a finding each.
abbrev other_finding : Finding
other_finding = record copy_finding {
  id = codes "F-other";
  class = AnomalyClass.double_free;
  timestamp = 6;
}

added :
    (manager : ClusterManager ℕ) × (add_finding plain fresh_manager copy_finding [] (some 5)
      ≡ some (manager, none))
unfolding add_finding new_engine new_manager get default_config alter text_cmp
    recompile.Base.Decimal.decimal simple_finding lower_hex recompile.Rules.Clusters.new_cluster
added = (_, refl)

added_twice :
    (manager : ClusterManager ℕ) × (add_finding plain added.0 other_finding [] (some 6)
      ≡ some (manager, none))
unfolding add_finding added recompile.Rules.Likeness.calculate_similarity
    recompile.Base.Sets.insert_all recompile.Base.FileNames.split_at
    recompile.Rules.Likeness.generate_fingerprint recompile.Rules.Likeness.class_name insert
added_twice = (_, refl)

filled-IsValid : IsValid added_twice.0
filled-IsValid =
    let once = subst (Keeps plain) added.1 (
      add_finding-IsValid plain plain-Iterates fresh_manager copy_finding [] 5
        fresh_manager-IsValid) in
    subst (Keeps plain) added_twice.1
      (add_finding-IsValid plain plain-Iterates added.0 other_finding [] 6 once)

listed : (findings : List Finding) × (get_all_findings plain added_twice.0 clocks ≡ some findings)
unfolding get_all_findings
listed = (_, refl)

two_clusters_test : (length added_twice.0.clusters ≡ 2) × (length listed.0 ≡ 2)
unfolding added_twice listed sort_by
two_clusters_test = (refl, refl)

get_stats_agree_example :
    (stats : ClusteringStats ℕ) × (get_stats plain added_twice.0 ≡ some stats)
    × (stats.total_findings ≡ stats.total_clusters)
    × (stats.total_findings ≡ length listed.0)
    × ((p : Finding → Bool)
        → count p listed.0 ≡ count (λ e. any p e.1.findings) added_twice.0.clusters)
    × ((k : ℕ) → counter k stats.findings_by_class ≡ of_class k listed.0 % u64_mod)
get_stats_agree_example =
    get_stats_agree plain plain-Iterates plain-Permutes added_twice.0 clocks listed.0 filled-IsValid
      listed.1
