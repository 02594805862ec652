-- ===== src/Policy/Profile.antt =====
-- internal/policy/profile.go: quality profiles, custom-format scores, and the comparison of a
-- candidate with the file in the library. A pointer is read by `int_at` and the like only behind the
-- test that it is set.
use sonarr_remediator.Base.{
  ℤ, pos, negsuc, ◌+int◌, ltb_ℤ, leb_ℤ, ℕ, suc, Bool, false, ◌&&◌, ◌||◌, not, Option, none, some,
  List, [], ◌∷◌, ◌==◌, ◌!=◌, string_eq, int_eq, if◌then◌else◌, is_empty, Dict, lookup, insert,
  contains, Result, ok, err, ◌>>=◌, ◌>>◌, refuse, or_fail, elements, is_none, int_at, bool_at,
}
use sonarr_remediator.Sonarr.{
  NamedId, Quality, EpisodeFile, ProfileItem, item_id, item_quality, item_allowed, item_items,
  FormatItem, Profile,
}

-- The position of a quality in the profile, and whether it is wanted.
pub record Rank : Type 0 where
  pub order : ℤ
  pub allowed : Bool

-- The maps that the loops of `profileRanks` fill.
pub record Ranks : Type 0 where
  pub ranks : Dict ℤ Rank
  pub cutoff : ℤ

profile_incomplete : Profile → Bool
profile_incomplete p =
    is_none p.upgrade_allowed
    || is_none p.cutoff
    || is_none p.cutoff_score
    || is_none p.min_score
    || is_none p.min_upgrade_score
    || ltb_ℤ (int_at p.min_upgrade_score) (pos 0)
    || is_none p.items
    || is_none p.format_items

abbrev named_id : Option NamedId → ℤ
named_id none = pos 0
named_id (some n) = n.id

-- The inner loop: the qualities of one item, at position `i`.
rank_children : ℤ → ℤ → Bool → Ranks → List ProfileItem → Result Ranks
rank_children cutoff i allowed r [] = ok r
rank_children cutoff i allowed r (child ∷ rest) =
    let id = named_id (item_quality child) in
    refuse
      (is_none (item_quality child)
        || is_none (item_allowed child)
        || not (is_empty (item_items child)))
      "unsupported quality group"
    >> refuse (not (is_none (lookup id r.ranks)) || ltb_ℤ id (pos 0)) "duplicate quality"
    >> rank_children cutoff i allowed
        (record {
          ranks =
              insert id (record { order = i; allowed = allowed && bool_at (item_allowed child) })
                r.ranks;
          cutoff = if id == cutoff then i else r.cutoff;
        })
        rest

-- A quality stands for itself, a group for its members.
children_of : ProfileItem → Result (List ProfileItem)
children_of item = do
  refuse (is_none (item_allowed item)) "missing quality permission"
  let single = not (is_none (item_quality item))
  refuse (single && not (is_empty (item_items item))) "contradictory quality group"
  let children = if single then item ∷ [] else item_items item
  refuse (is_empty children) "empty quality group"
  ok children

rank_item : ℤ → ℤ → Ranks → ProfileItem → Result Ranks
unfolding children_of rank_children
rank_item cutoff i r item = do
  children ← children_of item
  rank_children cutoff i (bool_at (item_allowed item))
      (record r {
        cutoff = if item_id item == cutoff && is_none (item_quality item) then i else r.cutoff;
      })
      children

rank_items : ℤ → ℕ → Ranks → List ProfileItem → Result Ranks
rank_items cutoff i r [] = ok r
rank_items cutoff i r (item ∷ rest) =
    rank_item cutoff (pos i) r item >>= λ r'. rank_items cutoff (suc i) r' rest

unfoldable pub profile_ranks : Profile → Result Ranks
unfolding profile_incomplete rank_item rank_items
profile_ranks p = do
  refuse (profile_incomplete p) "incomplete quality profile"
  r ← rank_items (int_at p.cutoff) 0 (record { ranks = []; cutoff = negsuc 0 }) (elements p.items)
  refuse (ltb_ℤ r.cutoff (pos 0)) "unknown quality cutoff"
  ok r

unfoldable pub valid_quality : Quality → Bool
valid_quality q = elim q.quality [
  | none ↦ false
  | some n ↦ ltb_ℤ (pos 0) n.id && elim q.revision [
    | none ↦ false
    | some r ↦
        not (is_none r.version)
        && leb_ℤ (pos 1) (int_at r.version)
        && not (is_none r.real)
        && leb_ℤ (pos 0) (int_at r.real)
        && not (is_none r.is_repack)
  ]
]

-- `q.Quality.ID`, `*q.Revision.Real` and `*q.Revision.Version`, read of valid qualities only.
abbrev pub quality_id : Quality → ℤ
quality_id q = named_id q.quality

abbrev pub real_of : Quality → ℤ
real_of q = elim q.revision [ none ↦ pos 0 | some r ↦ int_at r.real ]

abbrev pub version_of : Quality → ℤ
version_of q = elim q.revision [ none ↦ pos 0 | some r ↦ int_at r.version ]

unfoldable pub revision_compare : Quality → Quality → ℤ
revision_compare a b =
    if ltb_ℤ (real_of b) (real_of a)
    then pos 1
    else if ltb_ℤ (real_of a) (real_of b)
    then negsuc 0
    else if ltb_ℤ (version_of b) (version_of a)
    then pos 1
    else if ltb_ℤ (version_of a) (version_of b)
    then negsuc 0
    else pos 0

-- The loop that fills `weights`.
unfoldable pub format_weights : Dict ℤ ℤ → List FormatItem → Result (Dict ℤ ℤ)
format_weights weights [] = ok weights
format_weights weights (f ∷ rest) =
    refuse (leb_ℤ f.format (pos 0) || is_none f.score) "invalid custom format profile"
    >> refuse (not (is_none (lookup f.format weights))) "duplicate custom format weight"
    >> format_weights (insert f.format (int_at f.score) weights) rest

-- The loop that sums the weights of a file's formats.
unfoldable pub sum_formats : Dict ℤ ℤ → List ℤ → ℤ → List NamedId → Result ℤ
sum_formats weights seen sum [] = ok sum
sum_formats weights seen sum (f ∷ rest) =
    refuse (is_none (lookup f.id weights) || contains seen f.id)
      "unknown or duplicate custom format"
    >> sum_formats weights (f.id ∷ seen) (sum +int int_at (lookup f.id weights)) rest

unfoldable pub score : Profile → Option (List NamedId) → Option ℤ → Result ℤ
unfolding format_weights sum_formats
score p formats reported = do
  refuse (is_none reported || is_none formats) "missing custom format data"
  weights ← format_weights [] (elements p.format_items)
  sum ← sum_formats weights [] (pos 0) (elements formats)
  refuse (sum != int_at reported) "custom format score contradicts current profile"
  ok sum

-- A known file that the profile does not want is `ok false`; missing data is an error.
unfoldable pub current_acceptable : EpisodeFile → Profile → Result Bool
unfolding valid_quality
current_acceptable f p = elim (profile_ranks p) [
  | err _ ↦ err "incomplete current file/profile information"
  | ok r ↦ do
    refuse (not (valid_quality f.quality) || f.path == "")
        "incomplete current file/profile information"
    rank ← or_fail (lookup (quality_id f.quality) r.ranks) "unknown current file quality"
    s ← score p f.formats f.score
    ok (rank.allowed && leb_ℤ (int_at p.min_score) s)
]

abbrev is_ok_true : Result Bool → Bool
is_ok_true (ok b) = b
is_ok_true (err _) = false

unfoldable pub acceptable : EpisodeFile → Profile → Bool
acceptable f p = is_ok_true (current_acceptable f p)

-- `ValidateProfile`: `new(int)` points to a zero.
unfoldable pub validate_profile : Profile → Result (Unit {0})
validate_profile p = do r ← profile_ranks p; s ← score p (some []) (some (pos 0)); ok tt
