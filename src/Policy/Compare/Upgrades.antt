-- ===== src/Policy/Compare/Upgrades.antt =====
-- When `Compare` permits a replacement, and that two files never replace one another.
use sonarr_remediator.Base.{
  ℤ, pos, ◌-int◌, ◌≤ℤ◌, ◌<ℤ◌, ◌≡◌, refl, ◌↔◌, ◌⊎◌, inl, inr, String, Option, List, true, false,
  string_eq, string_beq_iff, Bool-cases, int_eq, int_beq_iff, eq_of_parts, Result, ok, err, int_at,
  bool_at, arith, Result-cases,
}
use sonarr_remediator.Sonarr.{NamedId, Quality, EpisodeFile, Profile}
use sonarr_remediator.Policy.Profile.{revision_compare}
use sonarr_remediator.Policy.Compare.{
  Standing, permitted_improvement, compare_standing, standing, compare,
}

-- A better quality below the cutoff; the same quality in a later revision that the policy upgrades to;
-- a better score below the score cutoff, by the profile's minimum, and no worse revision.
abbrev pub BetterQuality : Standing → Type 0
BetterQuality s = (s.old.order <ℤ s.new.order) × (s.old.order <ℤ s.cutoff)

abbrev pub BetterRevision : Standing → Type 0
BetterRevision s =
    (s.new.order ≡ s.old.order)
    × (pos 0 <ℤ s.revision)
    × (s.same_quality ≡ true)
    × (s.propers ≡ "preferAndUpgrade")
    × (s.old_score ≤ℤ s.new_score)

abbrev pub BetterScore : Profile → Standing → Type 0
BetterScore p s =
    (s.new.order ≡ s.old.order)
    × ((s.propers ≡ "doNotPrefer") ⊎ (pos 0 ≤ℤ s.revision))
    × (s.old_score <ℤ s.new_score)
    × (s.old_score <ℤ int_at p.cutoff_score)
    × (int_at p.min_upgrade_score ≤ℤ s.new_score -int s.old_score)

abbrev pub Gain : Profile → Standing → Type 0
Gain p s = BetterQuality s ⊎ BetterRevision s ⊎ BetterScore p s

-- What the candidate must meet besides.
pub record IsPermitted (p : Profile) (s : Standing) : Type 0 where
  pub wanted : s.new.allowed ≡ true
  pub scored : int_at p.min_score ≤ℤ s.new_score
  pub upgrades : bool_at p.upgrade_allowed ≡ true

compare_standing-IsPermitted :
    (p : Profile) (s : Standing) → (compare_standing p s).upgrade ≡ true → IsPermitted p s
unfolding compare_standing
compare_standing-IsPermitted p s h = ground arith

-- What a candidate that reaches the end of the ladder has passed.
abbrev NoWorse : Standing → Type 0
NoWorse s =
    (s.old.order ≤ℤ s.new.order)
    × (s.new.order ≡ s.old.order → (s.propers ≡ "doNotPrefer") ⊎ (pos 0 ≤ℤ s.revision))
    × (s.new.order ≡ s.old.order → s.old_score ≤ℤ s.new_score)

compare_standing-NoWorse :
    (p : Profile) (s : Standing)
    → (compare_standing p s).upgrade ≡ true
    → NoWorse s × ((permitted_improvement p s).upgrade ≡ true)
unfolding compare_standing
compare_standing-NoWorse p s h =
    ground (arith, int_beq_iff s.new.order s.old.order, string_beq_iff s.propers "doNotPrefer")

NoWorse-Gain :
    (p : Profile) (s : Standing) → NoWorse s → (permitted_improvement p s).upgrade ≡ true → Gain p s
unfolding permitted_improvement
NoWorse-Gain p s n h = ground (
  arith,
  eq_of_parts s.new.order s.old.order,
  string_beq_iff s.propers "doNotPrefer",
  string_beq_iff s.propers "preferAndUpgrade",
)

preferred_differ : (t : String) → t ≡ "preferAndUpgrade" → t ≡ "doNotPrefer" → ⊥
preferred_differ t e f = cc

Gain-permitted_improvement :
    (p : Profile) (s : Standing) → Gain p s → (permitted_improvement p s).upgrade ≡ true
unfolding permitted_improvement
Gain-permitted_improvement p s (inl g) = ground (arith, string_beq_iff s.propers "preferAndUpgrade")
Gain-permitted_improvement p s (inr (inl g)) =
    ground (arith, string_beq_iff s.propers "preferAndUpgrade")
Gain-permitted_improvement p s (inr (inr g)) =
    ground (arith, string_beq_iff s.propers "preferAndUpgrade")

Gain-compare_standing :
    (p : Profile) (s : Standing)
    → IsPermitted p s
    → Gain p s
    → compare_standing p s ≡ permitted_improvement p s
unfolding compare_standing
Gain-compare_standing p s w (inl g) = ground (
  arith,
  int_beq_iff s.new.order s.old.order,
  int_beq_iff s.new_score s.old_score,
  int_beq_iff s.revision (pos 0),
  string_beq_iff s.propers "doNotPrefer",
  string_beq_iff s.propers "preferAndUpgrade",
  preferred_differ s.propers,
)
Gain-compare_standing p s w (inr (inl g)) = ground (
  arith,
  int_beq_iff s.new.order s.old.order,
  int_beq_iff s.new_score s.old_score,
  int_beq_iff s.revision (pos 0),
  string_beq_iff s.propers "doNotPrefer",
  string_beq_iff s.propers "preferAndUpgrade",
  preferred_differ s.propers,
)
Gain-compare_standing p s w (inr (inr g)) = ground (
  arith,
  int_beq_iff s.new.order s.old.order,
  int_beq_iff s.new_score s.old_score,
  int_beq_iff s.revision (pos 0),
  string_beq_iff s.propers "doNotPrefer",
  string_beq_iff s.propers "preferAndUpgrade",
  preferred_differ s.propers,
)

Gain-upgrade :
    (p : Profile) (s : Standing)
    → IsPermitted p s
    → Gain p s
    → (compare_standing p s).upgrade ≡ true
Gain-upgrade p s w g = rw (Gain-compare_standing p s w g) (Gain-permitted_improvement p s g)

-- The specification of the flag that `Compare` returns.
abbrev pub IsUpgrade : Profile → Result Standing → Type 0
IsUpgrade p (err _) = ⊥
IsUpgrade p (ok s) = IsPermitted p s × Gain p s

-- `Compare` permits a replacement exactly when the data is complete, the candidate meets the profile
-- and it is a gain.
pub compare-IsUpgrade :
    (q : Quality) (formats : Option (List NamedId)) (reported : Option ℤ) (old : EpisodeFile)
    (p : Profile) (propers : String)
    → ((compare q formats reported old p propers).upgrade ≡ true)
      ↔ IsUpgrade p (standing q formats reported old p propers)
unfolding compare
compare-IsUpgrade q formats reported old p propers =
    elim (Result-cases (standing q formats reported old p propers)) [
      | inr (e, h) ↦ rw (h, compare) (λ u. cc, λ n. absurd n)
      | inl (s, h) ↦
          rw (h, compare)
            (
              λ u. (
                compare_standing-IsPermitted p s u,
                let n = compare_standing-NoWorse p s u in NoWorse-Gain p s n.0 n.1,
              ),
              λ g. Gain-upgrade p s g.0 g.1,
            )
    ]

revision_compare-asymm :
    (a b : Quality) → pos 0 <ℤ revision_compare a b → pos 0 ≤ℤ revision_compare b a → ⊥
unfolding revision_compare
revision_compare-asymm a b h k = ground arith

-- A standing and that of the same two files the other way round.
abbrev Swapped : Standing → Standing → Type 0
Swapped s t =
    (t.new.order ≡ s.old.order)
    × (t.old.order ≡ s.new.order)
    × (t.new_score ≡ s.old_score)
    × (t.old_score ≡ s.new_score)
    × (t.propers ≡ s.propers)
    × (pos 0 <ℤ s.revision → pos 0 ≤ℤ t.revision → ⊥)
    × (pos 0 <ℤ t.revision → pos 0 ≤ℤ s.revision → ⊥)

Gain-asymm : (p : Profile) (s t : Standing) → Swapped s t → Gain p s → Gain p t → ⊥
Gain-asymm p s t w (inl g) h = ground arith
Gain-asymm p s t w (inr (inl g)) h = ground (arith, preferred_differ s.propers)
Gain-asymm p s t w (inr (inr g)) h = ground (arith, preferred_differ s.propers)

standing-Swapped :
    (q : Quality) (formats : Option (List NamedId)) (reported : Option ℤ) (old new : EpisodeFile)
    (p : Profile) (propers : String) (s t : Standing)
    → new.quality ≡ q
    → new.formats ≡ formats
    → new.score ≡ reported
    → standing q formats reported old p propers ≡ ok s
    → standing old.quality old.formats old.score new p propers ≡ ok t
    → Swapped s t
unfolding standing
standing-Swapped q formats reported old new p propers s t e e' e'' hs ht =
    ground (arith, revision_compare-asymm q old.quality, revision_compare-asymm old.quality q)

IsUpgrade-asymm :
    (p : Profile) (r r' : Result Standing)
    → ((s t : Standing) → r ≡ ok s → r' ≡ ok t → Swapped s t)
    → IsUpgrade p r
    → IsUpgrade p r'
    → ⊥
IsUpgrade-asymm p (err _) r' w u v = u
IsUpgrade-asymm p (ok s) (err _) w u v = v
IsUpgrade-asymm p (ok s) (ok t) w u v = Gain-asymm p s t (w s t refl refl) u.1 v.1

-- Two files never replace one another under the same profile and policy: if the candidate may replace the
-- file, the file may not replace the candidate.
pub compare-asymm :
    (new old : EpisodeFile) (p : Profile) (propers : String)
    → (compare new.quality new.formats new.score old p propers).upgrade ≡ true
    → (compare old.quality old.formats old.score new p propers).upgrade ≡ false
compare-asymm new old p propers u =
    elim (Bool-cases (compare old.quality old.formats old.score new p propers).upgrade) [
      | inr n ↦ n
      | inl v ↦ absurd (
          IsUpgrade-asymm p (standing new.quality new.formats new.score old p propers)
            (standing old.quality old.formats old.score new p propers)
            (λ s t.
              standing-Swapped new.quality new.formats new.score old new p propers s t refl refl
                refl)
            ((compare-IsUpgrade new.quality new.formats new.score old p propers).0 u)
            ((compare-IsUpgrade old.quality old.formats old.score new p propers).0 v))
    ]
