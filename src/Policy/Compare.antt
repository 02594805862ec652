-- ===== src/Policy/Compare.antt =====
-- internal/policy/profile.go, `Compare`: is a candidate a permitted improvement of the library's file?
pub mod Upgrades
use sonarr_remediator.Base.{
  ℤ, pos, negsuc, ◌-int◌, ltb_ℤ, leb_ℤ, String, Bool, true, false, ◌&&◌, ◌||◌, not, Option, List,
  ◌==◌, ◌!=◌, string_eq, int_eq, if◌then◌else◌, lookup, Result, ok, err, ◌>>=◌, ◌>>◌, refuse,
  or_fail, int_at, bool_at,
}
use sonarr_remediator.Sonarr.{NamedId, Quality, EpisodeFile, Profile}
use sonarr_remediator.Policy.Profile.{
  Rank, profile_ranks, valid_quality, quality_id, revision_compare, score,
}

-- The results of `Compare`: how the candidate stands to the file, whether it may replace it, and why.
pub record Comparison : Type 0 where
  pub order : ℤ
  pub upgrade : Bool
  pub why : String

abbrev pub verdict : ℤ → Bool → String → Comparison
verdict order upgrade why = record { order = order; upgrade = upgrade; why = why }

abbrev pub known_propers : String → Bool
known_propers propers =
    propers == "preferAndUpgrade" || propers == "doNotUpgrade" || propers == "doNotPrefer"

-- What the ladder of tests reads, once everything is known.
pub record Standing : Type 0 where
  pub propers : String
  pub cutoff : ℤ
  pub new : Rank
  pub old : Rank
  pub revision : ℤ
  pub same_quality : Bool
  pub new_score : ℤ
  pub old_score : ℤ

abbrev pub equal_reason : String
equal_reason = "equal or upgrade cutoff/minimum improvement not met"

-- The end of the ladder, for a candidate that is no worse and that the profile wants.
unfoldable pub permitted_improvement : Profile → Standing → Comparison
permitted_improvement p s =
    let prefers = s.propers != "doNotPrefer" in
    if ltb_ℤ s.old.order s.new.order
    then (if ltb_ℤ s.old.order s.cutoff
        then verdict (pos 1) true "strict quality improvement"
        else verdict (pos 1) false "quality cutoff already met")
    else if ltb_ℤ (pos 0) s.revision && s.same_quality && s.propers == "preferAndUpgrade"
    then verdict (pos 1) true "strict revision improvement"
    else if ltb_ℤ s.old_score s.new_score
        && ltb_ℤ s.old_score (int_at p.cutoff_score)
        && leb_ℤ (int_at p.min_upgrade_score) (s.new_score -int s.old_score)
    then verdict (pos 1) true "strict custom format improvement"
    else if ltb_ℤ (pos 0) s.revision && prefers
    then verdict (pos 1) false "revision improvement is not permitted by proper policy"
    else verdict (pos 1) false "custom format cutoff/minimum improvement not met"

unfoldable pub compare_standing : Profile → Standing → Comparison
compare_standing p s =
    let ordinal = s.new.order == s.old.order in
    let prefers = s.propers != "doNotPrefer" in
    if ltb_ℤ s.new.order s.old.order
    then verdict (negsuc 0) false "candidate has inferior quality"
    else if ordinal && prefers && ltb_ℤ s.revision (pos 0)
    then verdict (negsuc 0) false "candidate has inferior revision"
    else if ordinal && ltb_ℤ s.new_score s.old_score
    then verdict (negsuc 0) false "candidate has inferior custom format score"
    else if ordinal && s.new_score == s.old_score && (not prefers || s.revision == pos 0)
    then verdict (pos 0) false equal_reason
    else if not s.new.allowed || ltb_ℤ s.new_score (int_at p.min_score)
    then verdict (pos 1) false "candidate does not meet allowed quality/minimum score"
    else if not (bool_at p.upgrade_allowed)
    then verdict (pos 1) false
        "upgrades disabled; conservative gate also preserves revision upgrades"
    else permitted_improvement p s

-- The lookups and checks above the ladder.
unfoldable pub standing :
    Quality → Option (List NamedId) → Option ℤ → EpisodeFile → Profile → String → Result Standing
standing q formats reported old p propers = elim (profile_ranks p) [
  | err _ ↦ err "incomplete quality/profile information"
  | ok r ↦ do
    refuse (not (valid_quality q) || not (valid_quality old.quality))
        "incomplete quality/profile information"
    refuse (not (known_propers propers)) "unknown proper/repack preference"
    n ← or_fail (lookup (quality_id q) r.ranks) "unknown quality in current profile"
    o ← or_fail (lookup (quality_id old.quality) r.ranks) "unknown quality in current profile"
    ns ← score p formats reported
    os ← score p old.formats old.score
    ok (record {
      propers = propers;
      cutoff = r.cutoff;
      new = n;
      old = o;
      revision = revision_compare q old.quality;
      same_quality = quality_id q == quality_id old.quality;
      new_score = ns;
      old_score = os;
    })
]

unfoldable pub compare :
    Quality → Option (List NamedId) → Option ℤ → EpisodeFile → Profile → String → Comparison
compare q formats reported old p propers = elim (standing q formats reported old p propers) [
  | err e ↦ verdict (pos 0) false e
  | ok s ↦ compare_standing p s
]
