-- ===== src/Service/Verify/Outcomes/Sound.antt =====
-- What a verified attempt rests on.
use sonarr_remediator.Service.Verify.Counting.{Done, Counted, verify_episodes-Counted}
use sonarr_remediator.Service.Verify.Outcomes.Removals.{Removed, Fair, check_removal-Fair}
use sonarr_remediator.Base.{
  pos, Time, ltb_ℤ, ◌≡◌, refl, sym, ◌∙◌, ap, subst, inl, inr, Bool, true, false, ◌&&◌, List, [],
  is_empty, nat_eq, string_eq, All, arith, Bool-cases, ok, Result-cases,
}
use sonarr_remediator.Sonarr.{QueueRow, Command, History}
use sonarr_remediator.Config.{Config}
use sonarr_remediator.Policy.Observation.{
  Kind, import, remove_redundant, remove_unusable, remove_blocked, search, no_action, defer,
  other_kind,
}
use sonarr_remediator.State.{Attempt, Data}
use sonarr_remediator.Service.Gate.{is_settled}
use sonarr_remediator.Service.Client.{Client}
use sonarr_remediator.Service.Verify.{command_failed, Progress, halted, moved, verify_episodes}
use sonarr_remediator.Service.Verify.Outcomes.{
  Checked, stopped, checked, conclude_import, import_command, check_import, check_search,
  check_kind, completed, conclude, deferred, conclude_checked, verify,
}

-- What must have been read for the attempt to count as a success.
abbrev pub Proven : Client → List QueueRow → Attempt → Time → Kind → Type 0
Proven client queue a now import =
    (events : List History) × (client.history a.download_id ≡ ok events)
    × (is_empty a.decision.episode_ids ≡ false)
    × All (Done client a events now) a.decision.episode_ids
Proven client queue a now remove_redundant = Removed client queue a now
Proven client queue a now remove_unusable = Removed client queue a now
Proven client queue a now remove_blocked = Removed client queue a now
Proven client queue a now search =
    (a.ack ≡ true)
    × ((cmd : Command) × (client.command a.command_id ≡ ok cmd)
        × (command_failed "EpisodeSearch" "search" cmd ≡ ok false))
Proven client queue a now _ = ⊥

conclude_import-Fair :
    (client : Client) (queue : List QueueRow) (a : Attempt) (now : Time) (events : List History)
    (known_failed : Bool) (p : Progress)
    → client.history a.download_id ≡ ok events
    → Counted client a events now a.decision.episode_ids [] p
    → Fair a (Proven client queue a now import) (conclude_import a known_failed p)
unfolding conclude_import
conclude_import-Fair client queue a now events known_failed (halted seen e) h k = refl
conclude_import-Fair client queue a now events known_failed (moved seen found) h k =
    (ground arith, λ done. (events, h, ground arith, k.1 (ground arith)))

check_import-Fair :
    (client : Client) (queue : List QueueRow) (a : Attempt) (now : Time)
    → Fair a (Proven client queue a now import) (check_import client a now)
unfolding check_import
check_import-Fair client queue a now = elim (Result-cases (import_command client a)) [
  | inr (e, h) ↦ rw (h, check_import) refl
  | inl (known_failed, h) ↦ elim (Result-cases (client.history a.download_id)) [
    | inr (e, k) ↦ rw (h, k, check_import) refl
    | inl (events, k) ↦
        subst (Fair a (Proven client queue a now import)) (rw (h, k, check_import) refl) (
          conclude_import-Fair client queue a now events known_failed
            (verify_episodes client a events now a.decision.episode_ids a.verified_episodes []) k
            (verify_episodes-Counted client a events now a.decision.episode_ids a.verified_episodes
              []))
  ]
]

check_search-Fair :
    (client : Client) (queue : List QueueRow) (a : Attempt) (now : Time)
    → Fair a (Proven client queue a now search) (check_search client a)
unfolding check_search
check_search-Fair client queue a now = elim (Bool-cases (a.ack && ltb_ℤ (pos 0) a.command_id)) [
  | inr n ↦ rw (n, check_search) (λ s. s, λ h. absurd (differ h))
  | inl y ↦ elim (Result-cases (client.command a.command_id)) [
    | inr (e, h) ↦ rw (y, h, check_search) refl
    | inl (cmd, h) ↦ elim (Result-cases (command_failed "EpisodeSearch" "search" cmd)) [
      | inr (e, k) ↦ rw (y, h, k, check_search) refl
      | inl (known_failed, k) ↦
          rw (y, h, k, check_search)
            (λ s. s, λ c. (ground arith, (cmd, refl, k ∙ ap ok (ground arith))))
    ]
  ]
]
  where
    differ : false ≡ true → ⊥
    differ e = cc

check_kind-Fair :
    (client : Client) (queue : List QueueRow) (a : Attempt) (now : Time) (k : Kind)
    → Fair a (Proven client queue a now k) (check_kind client queue a now k)
unfolding check_kind
check_kind-Fair client queue a now import = check_import-Fair client queue a now
check_kind-Fair client queue a now remove_redundant = check_removal-Fair client queue a now
check_kind-Fair client queue a now remove_unusable = check_removal-Fair client queue a now
check_kind-Fair client queue a now remove_blocked = check_removal-Fair client queue a now
check_kind-Fair client queue a now search = check_search-Fair client queue a now
check_kind-Fair client queue a now no_action = (λ s. s, λ h. cc)
check_kind-Fair client queue a now defer = (λ s. s, λ h. cc)
check_kind-Fair client queue a now (other_kind t) = (λ s. s, λ h. cc)

conclude_complete :
    (c : Config) (d : Data) (now : Time) (b : Attempt) (complete known_failed : Bool)
    → is_settled b.outcome ≡ false
    → is_settled (conclude c d now b complete known_failed).attempt.outcome ≡ true
    → complete ≡ true
unfolding conclude completed
conclude_complete c d now b complete known_failed n s = ground arith

deferred-unsettled :
    (now : Time) (b : Attempt)
    → is_settled b.outcome ≡ false
    → is_settled (deferred now b).outcome ≡ false
unfolding deferred
deferred-unsettled now b n = ground arith

conclude_checked-Fair :
    (c : Config) (d : Data) (now : Time) (a : Attempt) (P : Type 0) (r : Checked)
    → is_settled a.outcome ≡ false
    → Fair a P r
    → is_settled (conclude_checked c d now r).attempt.outcome ≡ true
    → P
unfolding conclude_checked
conclude_checked-Fair c d now a P (stopped b e) n f s =
    absurd (differ (sym s ∙ deferred-unsettled now b (ap is_settled f ∙ n)))
  where
    differ : true ≡ false → ⊥
    differ e = cc
conclude_checked-Fair c d now a P (checked b complete known_failed) n f s = f.1 (
    conclude_complete c d now b complete known_failed
      (unsettled (is_settled b.outcome) (is_settled a.outcome) f.0 n) s)
  where
    unsettled : (x y : Bool) → (x ≡ true → y ≡ true) → y ≡ false → x ≡ false
    unsettled x y g m = ground arith

-- Verification makes an attempt that was no success one only on evidence read in the same pass: for an
-- import, there is an episode, and each has an acceptable file now, a new one that an event since the
-- attempt brought from the submitted path, or its old one where none was submitted; for a removal, it
-- was acknowledged and the download has left the queue, and the blocklist has its entries if that was
-- asked for, or either was recorded before; for a search, the acknowledged command is known and has
-- not failed.
pub verify-Proven :
    (client : Client) (c : Config) (d : Data) (queue : List QueueRow) (now : Time) (a : Attempt)
    → is_settled a.outcome ≡ false
    → is_settled (verify client c d queue now a).attempt.outcome ≡ true
    → Proven client queue a now a.kind
unfolding verify
verify-Proven client c d queue now a n s =
    conclude_checked-Fair c d now a (Proven client queue a now a.kind)
      (check_kind client queue a now a.kind) n (check_kind-Fair client queue a now a.kind) s
