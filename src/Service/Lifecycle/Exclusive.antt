-- ===== src/Service/Lifecycle/Exclusive.antt =====
-- No two pending attempts share a download or an episode.
use sonarr_remediator.Base.{
  ℤ, ◌≡◌, refl, ◌⊎◌, inl, inr, String, Bool, true, false, Option, none, some, List, [], ◌∷◌, ◌++◌,
  map, keep, any, Dict, All, All-append, All-map, All-keep, Time, arith, Bool-cases, Result, ok,
  err,
}
use sonarr_remediator.Config.{Config}
use sonarr_remediator.Control.{Request}
use sonarr_remediator.Control.Report.{Report}
use sonarr_remediator.Policy.Observation.{Decision}
use sonarr_remediator.State.{intent, Attempt, is_pending, Data}
use sonarr_remediator.State.Retention.{prune}
use sonarr_remediator.State.Receipts.{recover, recover_attempt}
use sonarr_remediator.Service.Gate.Open.{Apart, gate-Passed}
use sonarr_remediator.Service.Attempts.{
  intended_attempt, reserve, response, expire_attempt, expire_pending, recommend,
  recommended_before, recommended_attempt, overdue,
}
use sonarr_remediator.Service.Verify.Outcomes.{verify}
use sonarr_remediator.Service.Verify.Outcomes.Identity.{verify-IsSame}
use sonarr_remediator.Service.Lifecycle.{
  Step, reserves, responds, verifies, expires, restarts, prunes, recommends, Reach, here, next,
}

-- If both are pending they have no download and no episode in common.
abbrev pub Compatible : Attempt → Attempt → Type 0
Compatible b a =
    is_pending a ≡ true → is_pending b ≡ true → Apart b.download_id b.decision.episode_ids a

abbrev pub Exclusive : List Attempt → Type 0
Exclusive [] = Unit
Exclusive (a ∷ rest) = All (λ b. Compatible b a) rest × Exclusive rest

Exclusive-append :
    (rest : List Attempt) (b : Attempt)
    → Exclusive rest
    → All (Compatible b) rest
    → Exclusive (rest ++ b ∷ [])
Exclusive-append [] b x h = (tt, tt)
Exclusive-append (a ∷ rest) b x h =
    (All-append (λ y. Compatible y a) rest (b ∷ []) x.0 (h.0, tt), Exclusive-append rest b x.1 h.1)

-- A change that keeps downloads and decisions and makes nothing pending.
abbrev Mild : (Attempt → Attempt) → Type 0
Mild f =
    (a : Attempt)
    → ((f a).download_id ≡ a.download_id)
      × ((f a).decision ≡ a.decision)
      × (is_pending (f a) ≡ true → is_pending a ≡ true)

Compatible-Mild :
    (f : Attempt → Attempt) → Mild f → (b a : Attempt) → Compatible b a → Compatible (f b) (f a)
Compatible-Mild f m b a h p q =
    let (id, ds, back) = m b in
    let (id', ds', back') = m a in rw (id, ds, id', ds') (h (back' p) (back q))

Exclusive-map :
    (f : Attempt → Attempt)
    → Mild f
    → (rest : List Attempt) → Exclusive rest
    → Exclusive (map f rest)
Exclusive-map f m [] x = tt
Exclusive-map f m (a ∷ rest) x = (each rest x.0, Exclusive-map f m rest x.1)
  where
    each :
        (ys : List Attempt)
        → All (λ b. Compatible b a) ys
        → All (λ b. Compatible b (f a)) (map f ys)
    each [] h = tt
    each (b ∷ ys) h = (Compatible-Mild f m b a h.0, each ys h.1)

Exclusive-keep :
    (p : Attempt → Bool) (rest : List Attempt) → Exclusive rest → Exclusive (keep p rest)
Exclusive-keep p [] x = tt
Exclusive-keep p (a ∷ rest) x = elim (Bool-cases (p a)) [
  | inl y ↦ rw y (All-keep (λ b. Compatible b a) p rest x.0, Exclusive-keep p rest x.1)
  | inr n ↦ rw n (Exclusive-keep p rest x.1)
]

expire_attempt-Mild : (now : Time) → Mild (expire_attempt now)
unfolding expire_attempt overdue is_pending
expire_attempt-Mild now a = ground arith

recover_attempt-Mild : Mild recover_attempt
unfolding recover_attempt is_pending
recover_attempt-Mild a = ground arith

response-Mild :
    (r : Result ℤ) (a : Attempt)
    → a.outcome ≡ intent
    → ((response r a).download_id ≡ a.download_id)
      × ((response r a).decision ≡ a.decision)
      × (is_pending (response r a) ≡ true → is_pending a ≡ true)
unfolding response is_pending
response-Mild (ok n) a h = ground arith
response-Mild (err e) a h = ground arith

-- One attempt changes mildly.
Exclusive-change :
    (rest later : List Attempt) (a b : Attempt)
    → b.download_id ≡ a.download_id
    → b.decision ≡ a.decision
    → (is_pending b ≡ true → is_pending a ≡ true)
    → Exclusive (rest ++ a ∷ later)
    → Exclusive (rest ++ b ∷ later)
Exclusive-change [] later a b i d back x = (behind later x.0, x.1)
  where
    behind : (ys : List Attempt) → All (λ y. Compatible y a) ys → All (λ y. Compatible y b) ys
    behind [] h = tt
    behind (y ∷ ys) h = (λ p q. rw (i, d) (h.0 (back p) q), behind ys h.1)
Exclusive-change (c ∷ rest) later a b i d back x =
    (before rest x.0, Exclusive-change rest later a b i d back x.1)
  where
    before :
        (ys : List Attempt)
        → All (λ z. Compatible z c) (ys ++ a ∷ later)
        → All (λ z. Compatible z c) (ys ++ b ∷ later)
    before [] h = (λ p q. rw (i, d) (h.0 p (back q)), h.1)
    before (y ∷ ys) h = (h.0, before ys h.1)

-- What a reservation appends is what the gate was asked about.
reserve-appends :
    (manual : Option (Request × Report)) (s t : Data) (id title : String) (d : Decision)
    (now : Time) (files : Dict ℤ ℤ)
    → reserve manual s id title d now files ≡ ok t
    → (a : Attempt) × (a.download_id ≡ id) × (a.decision ≡ d) × (t.attempts ≡ s.attempts ++ a ∷ [])
unfolding reserve intended_attempt
reserve-appends none s t id title d now files h =
    (intended_attempt none s id title d now files, refl, refl, ground arith)
reserve-appends (some m) s t id title d now files h =
    (intended_attempt (some m.0) s id title d now files, refl, refl, ground arith)

recommend-appends :
    (s : Data) (id : String) (d : Decision) (now : Time)
    → ((recommend s id d now).attempts ≡ s.attempts)
      ⊎ ((a : Attempt) × (is_pending a ≡ false)
          × ((recommend s id d now).attempts ≡ s.attempts ++ a ∷ []))
unfolding recommend recommended_attempt intended_attempt is_pending
recommend-appends s id d now = elim (Bool-cases (any (recommended_before id d) s.attempts)) [
  | inl y ↦ inl (ground arith)
  | inr n ↦ inr (recommended_attempt s id d now, refl, ground arith)
]

-- What is not pending is compatible with everything.
idle-Compatible :
    (a : Attempt) → is_pending a ≡ false → (rest : List Attempt) → All (Compatible a) rest
idle-Compatible a h [] = tt
idle-Compatible a h (b ∷ rest) = (λ p q. absurd cc, idle-Compatible a h rest)

-- A step keeps pending attempts apart.
pub Step-Exclusive :
    {c : Config} {s t : Data} → Step c s t → Exclusive s.attempts → Exclusive t.attempts
unfolding prune expire_pending recover
Step-Exclusive {s} (reserves override manual id title d now later parent files t g r) x =
    let (a, i, ds, e) = reserve-appends manual s t id title d later files r in
    rw e (
      Exclusive-append s.attempts a x (
        All-map _ (Compatible a) s.attempts (λ b p live _. rw (i, ds) (p.0 live))
          (gate-Passed _ override id d now parent s g).1))
Step-Exclusive {s} (responds earlier a r e h) x =
    let (i, ds, back) = response-Mild r a h in
    Exclusive-change earlier [] a (response r a) i ds back (rw e at x)
Step-Exclusive {c} {s} (verifies client queue now earlier a later e live) x =
    let (n, i, ds) = verify-IsSame client c s queue now a in
    Exclusive-change earlier later a (verify client c s queue now a).attempt i ds (λ _. live)
      (rw e at x)
Step-Exclusive {s} (expires now) x =
    Exclusive-map (expire_attempt now) (expire_attempt-Mild now) s.attempts x
Step-Exclusive {s} (restarts now identity) x =
    Exclusive-map recover_attempt recover_attempt-Mild s.attempts x
Step-Exclusive {s} (prunes now retention cooldown) x = Exclusive-keep _ s.attempts x
Step-Exclusive {s} (recommends id d now) x = elim (recommend-appends s id d now) [
  | inl e ↦ rw e x
  | inr (a, dry, e) ↦ rw e (Exclusive-append s.attempts a x (idle-Compatible a dry s.attempts))
]

-- In every store that the steps reach (reservations behind the gate, responses, verification, deadlines,
-- restarts, pruning and dry runs) from one whose pending attempts share no download and no episode, no
-- two pending attempts share a download or an episode.
pub Reach-Exclusive :
    {c : Config} {s t : Data} → Reach c s t → Exclusive s.attempts → Exclusive t.attempts
Reach-Exclusive here x = x
Reach-Exclusive (next r st) x = Step-Exclusive st (Reach-Exclusive r x)
