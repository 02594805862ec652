-- ===== src/Service/Search/Justified.antt =====
-- When a replacement is searched for.
use sonarr_remediator.Base.{
  ℤ, Time, ◌≡◌, refl, sym, ap, subst, ◌∙◌, inl, inr, Bool, true, false, ◌||◌, not, Option, none,
  some, List, [], ◌∷◌, ◌++◌, ◌!=◌, string_eq, is_none, is_empty, any, lookup, sort_ints,
  sort_ints-All, All, All-append, arith, Bool-cases, Option-cases, Result, ok, Result-cases,
}
use sonarr_remediator.Sonarr.{QueueRow, Episode, EpisodeFile, Profile, Series}
use sonarr_remediator.Config.{Config}
use sonarr_remediator.Control.{Request}
use sonarr_remediator.Control.Report.{Report}
use sonarr_remediator.Policy.Observation.{
  Decision, series_allowed, client_allowed, competing, InScope,
}
use sonarr_remediator.State.{Issue, Attempt, Operation, Data}
use sonarr_remediator.Service.Gate.{gate}
use sonarr_remediator.Service.Attempts.{has_pending, reserve}
use sonarr_remediator.Service.Client.{Client, current}
use sonarr_remediator.Service.Execute.{overrides}
use sonarr_remediator.Service.Search.{
  find_attempt, is_remove_unusable, is_verified, is_searched, Wanted, excluded, unread, chosen,
  is_missing, search_targets, Sought, refused, failed_read, missing_issue, found, search_of,
  seek_targets, seek_after, search_decision, title_of, search_after, search_step,
}

-- The episode has been read, lies in scope, is monitored, and lacks an acceptable file.
abbrev pub IsMissing : Config → Client → ℤ → Type 0
IsMissing c client id =
    (state : Episode × EpisodeFile × Profile) × (s : Series) × (current client id ≡ ok state)
    × InScope c state.0.series_id
    × (client.series state.0.series_id ≡ ok s)
    × (is_missing s state ≡ true)

chosen-injective : {xs ys : List ℤ} → chosen xs ≡ chosen ys → xs ≡ ys
chosen-injective h = cc

search_targets-IsMissing :
    (c : Config) (client : Client) (ids done targets : List ℤ)
    → search_targets c client done ids ≡ chosen targets
    → All (IsMissing c client) done
    → All (IsMissing c client) targets
unfolding search_targets
search_targets-IsMissing c client [] done targets h a = rw (sym (chosen-injective h)) a
search_targets-IsMissing c client (id ∷ rest) done targets h a =
    elim (Result-cases (current client id)) [
      | inr (e, k) ↦ absurd (ground arith)
      | inl (now, k) ↦ elim (Bool-cases (series_allowed c now.0.series_id)) [
        | inr n ↦ absurd (ground arith)
        | inl scope ↦ elim (Result-cases (client.series now.0.series_id)) [
          | inr (e, r) ↦ absurd (ground arith)
          | inl (s, r) ↦ elim (Bool-cases (is_none s.monitored)) [
            | inl y ↦ absurd (ground arith)
            | inr m ↦ elim (Bool-cases (is_missing s now)) [
              | inr n ↦
                  search_targets-IsMissing c client rest done targets
                    (sym (rw (k, scope, r, m, n, search_targets) refl) ∙ h) a
              | inl y ↦
                  search_targets-IsMissing c client rest (done ++ id ∷ []) targets
                    (sym (rw (k, scope, r, m, y, search_targets) refl) ∙ h)
                    (All-append (IsMissing c client) done (id ∷ []) a
                      ((now, s, k, scope, r, y), tt))
            ]
          ]
        ]
      ]
    ]

module _ (c : Config) (client : Client) (manual : Option (Request × Report)) (cancelled : Bool)
    (now : Time) where
  -- What a search rests on.
  abbrev pub IsJustified : Data → Operation → List ℤ → Type 0
  IsJustified s op ids =
      (parent : Attempt) × (queue : List QueueRow) × (i : Issue) × (find_attempt op.removal_id
          s.attempts
        ≡ some parent)
      × ((is_remove_unusable parent.kind ≡ true) × (is_verified parent.outcome ≡ true))
      × (any (is_searched op.download_id) s.attempts ≡ false)
      × (has_pending op.download_id s ≡ false)
      × ((c.cleanup.enabled ≡ true) × (c.cleanup.replacement_search ≡ true))
      × (client.queue ≡ ok queue)
      × (lookup op.download_id s.issues ≡ some i)
      × (any (λ (r : QueueRow). not (client_allowed c r.download_client)) i.rows ≡ false)
      × ((targets : List ℤ) × (ids ≡ sort_ints targets)
          × (is_empty targets ≡ false)
          × All (IsMissing c client) ids
          × (competing queue "" targets ≡ false)
          × (gate c (overrides manual) op.download_id (search_of parent targets) now op.removal_id s
              ≡ none))

  -- A search decision names the episodes of a search of the parent.
  unfoldable pub IsTargeted : Data → Operation → Attempt → List QueueRow → Decision → Type 0
  IsTargeted s op parent queue d =
      (targets : List ℤ) × (d ≡ search_of parent targets)
      × (is_empty targets ≡ false)
      × All (IsMissing c client) targets
      × (competing queue "" targets ≡ false)
      × (gate c (overrides manual) op.download_id (search_of parent targets) now op.removal_id s
          ≡ none)

  seek_targets-IsTargeted :
      (s : Data) (op : Operation) (parent : Attempt) (queue : List QueueRow) (w : Wanted)
      (d : Decision)
      → w ≡ search_targets c client [] op.episode_ids
      → seek_targets c client manual cancelled now s op parent queue w ≡ found d
      → IsTargeted s op parent queue d
  unfolding seek_targets IsTargeted
  seek_targets-IsTargeted s op parent queue (excluded why) d e h = absurd (ground arith)
  seek_targets-IsTargeted s op parent queue (unread why) d e h = absurd (ground arith)
  seek_targets-IsTargeted s op parent queue (chosen targets) d e h =
      elim (Option-cases
        (gate c (overrides manual) op.download_id (search_of parent targets) now op.removal_id s)) [
          | inr (why, g) ↦ absurd (ground arith)
          | inl g ↦ (
            targets,
            ground arith,
            ground arith,
            search_targets-IsMissing c client op.episode_ids [] targets (sym e) tt,
            ground arith,
            g,
          )
        ]

  -- A search decision comes after the checks of the history, the queue and the issue.
  unfoldable pub IsSought : Data → Operation → Attempt → Decision → Type 0
  IsSought s op parent d =
      (queue : List QueueRow) × (i : Issue) × (any (is_searched op.download_id) s.attempts ≡ false)
      × (client.queue ≡ ok queue)
      × (lookup op.download_id s.issues ≡ some i)
      × (any (λ (r : QueueRow). not (client_allowed c r.download_client)) i.rows ≡ false)
      × IsTargeted s op parent queue d

  seek_after-IsSought :
      (s : Data) (op : Operation) (parent : Attempt) (d : Decision)
      → seek_after c client manual cancelled now s op parent ≡ found d
      → IsSought s op parent d
  unfolding seek_after IsSought
  seek_after-IsSought s op parent d h =
      elim (Bool-cases (any (is_searched op.download_id) s.attempts)) [
        | inl y ↦ absurd (ground arith)
        | inr fresh ↦ elim (Result-cases client.queue) [
          | inr (e, q) ↦ absurd (ground arith)
          | inl (queue, q) ↦ elim (Option-cases (lookup op.download_id s.issues)) [
            | inl n ↦ absurd (ground arith)
            | inr (i, l) ↦
                elim (Bool-cases
                  (any (λ (r : QueueRow). not (client_allowed c r.download_client)) i.rows)) [
                    | inl y ↦ absurd (ground arith)
                    | inr allowed ↦ (
                      queue,
                      i,
                      fresh,
                      q,
                      l,
                      allowed,
                      seek_targets-IsTargeted s op parent queue
                          (search_targets c client [] op.episode_ids) d refl (ground arith),
                    )
                  ]
          ]
        ]
      ]

  -- The removal behind a search.
  unfoldable pub IsParent : Data → Operation → Decision → Type 0
  IsParent s op d =
      (parent : Attempt) × (find_attempt op.removal_id s.attempts ≡ some parent)
      × (is_remove_unusable parent.kind ≡ true)
      × (is_verified parent.outcome ≡ true)
      × (has_pending op.download_id s ≡ false)
      × (c.cleanup.enabled ≡ true)
      × (c.cleanup.replacement_search ≡ true)
      × IsSought s op parent d

  pub search_decision-IsParent :
      (s : Data) (op : Operation) (d : Decision)
      → search_decision c client manual cancelled now s op ≡ found d
      → IsParent s op d
  unfolding search_decision IsParent
  search_decision-IsParent s op d h =
      elim (Bool-cases (not c.cleanup.enabled || not c.cleanup.replacement_search)) [
        | inl y ↦ absurd (ground arith)
        | inr permitted ↦
            elim (Bool-cases (s.status.read_failure != "" || has_pending op.download_id s)) [
              | inl y ↦ absurd (ground arith)
              | inr quiet ↦ elim (Option-cases (find_attempt op.removal_id s.attempts)) [
                | inl n ↦ absurd (ground arith)
                | inr (parent, p) ↦
                    elim (Bool-cases
                      (not (is_remove_unusable parent.kind) || not (is_verified parent.outcome))) [
                        | inl y ↦ absurd (ground arith)
                        | inr evidence ↦ (
                          parent,
                          p,
                          ground arith,
                          ground arith,
                          ground arith,
                          ground arith,
                          ground arith,
                          seek_after-IsSought s op parent d
                              (sym (rw (permitted, quiet, p, evidence, search_decision) refl) ∙ h),
                        )
                      ]
              ]
            ]
      ]

  IsParent-IsJustified :
      (s : Data) (op : Operation) (d : Decision) → IsParent s op d → IsJustified s op d.episode_ids
  unfolding IsParent IsSought IsTargeted
  IsParent-IsJustified s op d p =
      let (parent, at, unusable, done, quiet, enabled, search, sought) = p in
      let (queue, i, fresh, q, l, allowed, targeted) = sought in
      let (targets, e, some_left, missing, apart, opened) = targeted in
      (
        parent,
        queue,
        i,
        at,
        (unusable, done),
        fresh,
        quiet,
        (enabled, search),
        q,
        l,
        allowed,
        (
          targets,
          ap (λ (x : Decision). x.episode_ids) e,
          some_left,
          subst (λ (x : Decision). All (IsMissing c client) x.episode_ids) (sym e)
              (sort_ints-All (IsMissing c client) targets missing),
          apart,
          opened,
        ),
      )

module _ (c : Config) (client : Client) (submit : List ℤ → Result ℤ)
    (manual : Option (Request × Report)) (cancelled : Bool) (now later : Time) where
  search_after-sent :
      (s : Data) (op : Operation) (w : Sought) (ids : List ℤ)
      → (search_after c client submit manual cancelled now later s op w).sent ≡ some ids
      → (d : Decision) × (w ≡ found d) × (ids ≡ d.episode_ids)
  unfolding search_after
  search_after-sent s op (refused left) ids h = absurd (ground arith)
  search_after-sent s op (failed_read e) ids h = absurd (ground arith)
  search_after-sent s op (missing_issue e) ids h = absurd (ground arith)
  search_after-sent s op (found d) ids h =
      elim (Result-cases
        (reserve manual s op.download_id (title_of (lookup op.download_id s.issues)) d later [])) [
          | inr (e, r) ↦ absurd (ground arith)
          | inl (t, r) ↦ (d, refl, ground arith)
        ]

  -- A search command is sent only after a verified removal of an unusable download that the settings let be
  -- searched for, when no search for the download was recorded and none of its attempts is pending; it names
  -- at least one episode, and every one of them has been read, lies in scope, is monitored and lacks an
  -- acceptable file; no other download of a fresh queue competes for them, and the gate is open.
  pub search_step-IsJustified :
      (s : Data) (op : Operation) (ids : List ℤ)
      → (search_step c client submit manual cancelled now later s op).sent ≡ some ids
      → IsJustified c client manual cancelled now s op ids
  unfolding search_step
  search_step-IsJustified s op ids h =
      let (d, e, same) =
        search_after-sent s op (search_decision c client manual cancelled now s op) ids h in
      subst (IsJustified c client manual cancelled now s op) (sym same) (
        IsParent-IsJustified c client manual cancelled now s op d
          (search_decision-IsParent c client manual cancelled now s op d e))
