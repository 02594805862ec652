-- ===== src/Policy/Rejected/Collecting.antt =====
-- What the loops of `RejectedCleanup` establish when they run to their ends.
use sonarr_remediator.Base.{
  ℤ, pos, ltb_ℤ, ◌≡◌, refl, ◌⊎◌, inl, inr, String, Bool, true, false, ◌&&◌, ◌||◌, not, List, [],
  ◌∷◌, ◌==◌, int_eq, string_eq, string_beq_iff, contains, is_empty, any, elements, int_at, All,
  All-append, arith, Bool-cases,
}
use sonarr_remediator.Sonarr.{QueueRow, Preview, Episode, Rejection}
use sonarr_remediator.Config.{Config}
use sonarr_remediator.Policy.Observation.{InScope, KnownInScope, RowInScope}
use sonarr_remediator.Policy.Fingerprint.{series_at}
use sonarr_remediator.Policy.Unexpected.{is_unexpected_episode}
use sonarr_remediator.Policy.Rejected.{
  Targets, Walk, halted, going, ◌>>=◌, add_new, add_target, collect_rows, collect_episodes,
  collect_rejections, Collected, Inspection, file_refused, collect_file, collect_files,
}

pub >>=-eq-going {ℓ κ} :
    {A : Type ℓ} {B : Type κ} (m : Walk A) (f : A → Walk B) {b : B}
    → (m >>= f) ≡ going b
    → (a : A) × (m ≡ going a) × (f a ≡ going b)
>>=-eq-going (going a) f h = (a, refl, h)
>>=-eq-going (halted t) f h = cc

pub Walk-cases {ℓ} :
    {A : Type ℓ} (r : Walk A) → ((a : A) × (r ≡ going a)) ⊎ ((t : Targets) × (r ≡ halted t))
Walk-cases (going a) = inl (a, refl)
Walk-cases (halted t) = inr (t, refl)

pub going-injective {ℓ} : {A : Type ℓ} {a b : A} → going a ≡ going b → a ≡ b
going-injective h = cc

add_new-All {κ} :
    (P : ℤ → Type κ) (id : ℤ) (ids : List ℤ) → P id → All P ids → All P (add_new id ids)
unfolding add_new
add_new-All P id ids h a = elim (Bool-cases (contains ids id)) [
  | inl y ↦ rw y a
  | inr n ↦ rw n (All-append P ids (id ∷ []) a (h, tt))
]

add_target-InScope :
    (c : Config) (t t' : Targets) (series episode : ℤ)
    → add_target c t series episode ≡ going t'
    → All (InScope c) t.series_ids
    → All (InScope c) t'.series_ids × KnownInScope c series
unfolding add_target
add_target-InScope c t t' series episode h a =
    ground (arith, add_new-All (InScope c) series t.series_ids)

pub collect_rows-InScope :
    (c : Config) (download : String) (rows : List QueueRow) (t t' : Targets) (k k' : Bool)
    → collect_rows c download (t, k) rows ≡ going (t', k')
    → All (InScope c) t.series_ids
    → All (InScope c) t'.series_ids × All (RowInScope c download) rows
unfolding collect_rows
collect_rows-InScope c download [] t t' k k' h a = ground arith
collect_rows-InScope c download (q ∷ rows) t t' k k' h a =
    elim (Walk-cases (add_target c t (int_at q.series_id) (int_at q.episode_id))) [
      | inr (t1, e) ↦ absurd (ground arith)
      | inl (t1, e) ↦
          let (a1, scoped) =
            add_target-InScope c t t1 (int_at q.series_id) (int_at q.episode_id) e a in
          let k1 = k || ltb_ℤ (pos 0) (int_at q.series_id) in
          let rest = collect_rows-InScope c download rows t1 t' k1 k' (ground arith) a1 in
          (
            rest.0,
            ((ground (arith, string_beq_iff q.download_id download), ground arith, scoped), rest.1),
          )
    ]

collect_episodes-InScope :
    (c : Config) (eps : List Episode) (t t' : Targets)
    → collect_episodes c t eps ≡ going t'
    → All (InScope c) t.series_ids
    → All (InScope c) t'.series_ids × All (λ (ep : Episode). KnownInScope c ep.series_id) eps
unfolding collect_episodes
collect_episodes-InScope c [] t t' h a = ground arith
collect_episodes-InScope c (ep ∷ eps) t t' h a =
    let (t1, e, h1) =
      >>=-eq-going (add_target c t ep.series_id ep.id) (λ x. collect_episodes c x eps) h in
    let (a1, scoped) = add_target-InScope c t t1 ep.series_id ep.id e a in
    let rest = collect_episodes-InScope c eps t1 t' h1 a1 in (rest.0, (scoped, rest.1))

collect_rejections-rejected :
    (t : Targets) (rs : List Rejection) (r m r' m' : Bool)
    → collect_rejections t (r, m) rs ≡ going (r', m')
    → r' ≡ (r || not (is_empty rs))
unfolding collect_rejections
collect_rejections-rejected t [] r m r' m' h = ground arith
collect_rejections-rejected t (x ∷ rs) r m r' m' h = ground (
  arith,
  collect_rejections-rejected t rs true
      (m || (x.kind == "permanent" && is_unexpected_episode x.reason)) r' m',
)

-- A previewed file of the download that names no series out of scope.
abbrev pub FileInScope : Config → String → Preview → Type 0
FileInScope c download f =
    (f.download_id ≡ download)
    × KnownInScope c (series_at f.series)
    × All (λ (ep : Episode). KnownInScope c ep.series_id) f.episodes

file_refused-download :
    (w : Inspection) (a : Collected) (f : Preview)
    → file_refused w a f ≡ false
    → f.download_id ≡ w.download
unfolding file_refused
file_refused-download w a f h = ground (arith, string_beq_iff f.download_id w.download)

collect_file-InScope :
    (c : Config) (w : Inspection) (a a' : Collected) (f : Preview)
    → collect_file c w a f ≡ going a'
    → All (InScope c) a.targets.series_ids
    → All (InScope c) a'.targets.series_ids
      × FileInScope c w.download f
      × (a'.rejected ≡ (a.rejected || not (is_empty (elements f.rejections))))
unfolding collect_file
collect_file-InScope c w a a' f h k =
    elim (Walk-cases (add_target c a.targets (series_at f.series) (pos 0))) [
      | inr (t, e) ↦ absurd (ground arith)
      | inl (t, e) ↦ elim (Walk-cases (collect_episodes c t f.episodes)) [
        | inr (t', e') ↦ absurd (ground arith)
        | inl (t', e') ↦
            elim (Walk-cases
              (collect_rejections t' (a.rejected, a.mismatch) (elements f.rejections))) [
                | inr (t'', e'') ↦ absurd (ground arith)
                | inl (flags, e'') ↦
                    let (k1, known) =
                      add_target-InScope c a.targets t (series_at f.series) (pos 0) e k in
                    let (k2, eps) = collect_episodes-InScope c f.episodes t t' e' k1 in
                    let r =
                      collect_rejections-rejected t' (elements f.rejections) a.rejected a.mismatch
                        flags.0 flags.1 e'' in
                    let same : a'.targets ≡ t' = ground arith in
                    (
                      rw same k2,
                      (file_refused-download w a f (ground arith), known, eps),
                      ground arith,
                    )
              ]
      ]
    ]

pub collect_files-InScope :
    (c : Config) (w : Inspection) (fs : List Preview) (a a' : Collected)
    → collect_files c w a fs ≡ going a'
    → All (InScope c) a.targets.series_ids
    → All (InScope c) a'.targets.series_ids
      × All (FileInScope c w.download) fs
      × (a'.rejected
          ≡ (a.rejected || any (λ (f : Preview). not (is_empty (elements f.rejections))) fs))
unfolding collect_files
collect_files-InScope c w [] a a' h k = let e = going-injective h in (rw (← e) k, tt, ground arith)
collect_files-InScope c w (f ∷ fs) a a' h k =
    let (a1, h1, h2) = >>=-eq-going (collect_file c w a f) (λ x. collect_files c w x fs) h in
    let (k1, here, r1) = collect_file-InScope c w a a1 f h1 k in
    let (k2, rest, r2) = collect_files-InScope c w fs a1 a' h2 k1 in
    (k2, (here, rest), ground arith)
