-- ===== src/Service/Verify/Outcomes/Identity.antt =====
-- Verification changes neither the id, nor the download, nor the decision of an attempt.
use sonarr_remediator.Base.{
  ◌≡◌, refl, ◌∙◌, inl, inr, Bool, ◌&&◌, not, List, Time, arith, Bool-cases, Result-cases, ltb_ℤ,
  pos, ◌>>=◌,
}
use sonarr_remediator.Sonarr.{QueueRow}
use sonarr_remediator.Config.{Config}
use sonarr_remediator.Policy.Observation.{
  Kind, import, remove_redundant, remove_unusable, remove_blocked, search, no_action, defer,
  other_kind,
}
use sonarr_remediator.State.{Attempt, Data}
use sonarr_remediator.Service.Client.{Client}
use sonarr_remediator.Service.Verify.{command_failed, Progress, halted, moved}
use sonarr_remediator.Service.Verify.Outcomes.{
  Checked, stopped, checked, conclude_import, import_command, check_import, conclude_removal,
  check_blocklist, note_removal, check_removal, check_search, check_kind, completed, conclude,
  deferred, conclude_checked, verify,
}

abbrev pub IsSame : Attempt → Attempt → Type 0
IsSame a b = (b.id ≡ a.id) × (b.download_id ≡ a.download_id) × (b.decision ≡ a.decision)

abbrev Follows : Attempt → Checked → Type 0
Follows a (stopped b e) = IsSame a b
Follows a (checked b complete known_failed) = IsSame a b

Follows-trans : (a b : Attempt) (r : Checked) → IsSame a b → Follows b r → Follows a r
Follows-trans a b (stopped x e) (i, d, p) (j, d', p') = (j ∙ i, d' ∙ d, p' ∙ p)
Follows-trans a b (checked x complete known_failed) (i, d, p) (j, d', p') = (j ∙ i, d' ∙ d, p' ∙ p)

conclude_import-Follows :
    (a : Attempt) (known_failed : Bool) (p : Progress)
    → Follows a (conclude_import a known_failed p)
unfolding conclude_import
conclude_import-Follows a known_failed (halted seen e) = (refl, refl, refl)
conclude_import-Follows a known_failed (moved seen found) =
    (ground arith, ground arith, ground arith)

check_import-Follows :
    (client : Client) (a : Attempt) (now : Time) → Follows a (check_import client a now)
unfolding check_import
check_import-Follows client a now = elim (Result-cases (import_command client a)) [
  | inr (e, h) ↦ rw (h, check_import) (refl, refl, refl)
  | inl (known_failed, h) ↦ elim (Result-cases (client.history a.download_id)) [
    | inr (e, k) ↦ rw (h, k, check_import) (refl, refl, refl)
    | inl (events, k) ↦ rw (h, k, check_import) (conclude_import-Follows a known_failed _)
  ]
]

conclude_removal-Follows : (a : Attempt) → Follows a (conclude_removal a)
unfolding conclude_removal
conclude_removal-Follows a = (ground arith, ground arith, ground arith)

check_blocklist-Follows :
    (client : Client) (a : Attempt) (now : Time) → Follows a (check_blocklist client a now)
unfolding check_blocklist
check_blocklist-Follows client a now = elim (Result-cases (client.history a.download_id)) [
  | inr (e, h) ↦ rw (h, check_blocklist) (refl, refl, refl)
  | inl (events, h) ↦ elim (Result-cases client.blocklist) [
    | inr (e, k) ↦ rw (h, k, check_blocklist) (refl, refl, refl)
    | inl (entries, k) ↦
        rw (h, k, check_blocklist) (conclude_removal-Follows (record a { blocklist_verified = _ }))
  ]
]

note_removal-IsSame : (queue : List QueueRow) (a : Attempt) → IsSame a (note_removal queue a)
unfolding note_removal
note_removal-IsSame queue a = (ground arith, ground arith, ground arith)

check_removal-Follows :
    (client : Client) (queue : List QueueRow) (a : Attempt) (now : Time)
    → Follows a (check_removal client queue a now)
unfolding check_removal
check_removal-Follows client queue a now =
    let b = note_removal queue a in
    let same = note_removal-IsSame queue a in
    elim (Bool-cases (b.decision.blocklist && b.removal_verified && not b.blocklist_verified)) [
      | inl y ↦
          rw (y, check_removal)
            (Follows-trans a b (check_blocklist client b now) same
              (check_blocklist-Follows client b now))
      | inr n ↦
          rw (n, check_removal)
            (Follows-trans a b (conclude_removal b) same (conclude_removal-Follows b))
    ]

check_search-Follows : (client : Client) (a : Attempt) → Follows a (check_search client a)
unfolding check_search
check_search-Follows client a = elim (Bool-cases (a.ack && ltb_ℤ (pos 0) a.command_id)) [
  | inr n ↦ rw (n, check_search) (refl, refl, refl)
  | inl y ↦
      elim (Result-cases
        (client.command a.command_id >>= command_failed "EpisodeSearch" "search")) [
          | inr (e, h) ↦ rw (y, h, check_search) (refl, refl, refl)
          | inl (known_failed, h) ↦ rw (y, h, check_search) (refl, refl, refl)
        ]
]

check_kind-Follows :
    (client : Client) (queue : List QueueRow) (a : Attempt) (now : Time) (k : Kind)
    → Follows a (check_kind client queue a now k)
unfolding check_kind
check_kind-Follows client queue a now import = check_import-Follows client a now
check_kind-Follows client queue a now remove_redundant = check_removal-Follows client queue a now
check_kind-Follows client queue a now remove_unusable = check_removal-Follows client queue a now
check_kind-Follows client queue a now remove_blocked = check_removal-Follows client queue a now
check_kind-Follows client queue a now search = check_search-Follows client a
check_kind-Follows client queue a now no_action = (refl, refl, refl)
check_kind-Follows client queue a now defer = (refl, refl, refl)
check_kind-Follows client queue a now (other_kind t) = (refl, refl, refl)

conclude-IsSame :
    (c : Config) (d : Data) (now : Time) (b : Attempt) (complete known_failed : Bool)
    → IsSame b (conclude c d now b complete known_failed).attempt
unfolding conclude completed
conclude-IsSame c d now b complete known_failed = (ground arith, ground arith, ground arith)

deferred-IsSame : (now : Time) (b : Attempt) → IsSame b (deferred now b)
unfolding deferred
deferred-IsSame now b = (ground arith, ground arith, ground arith)

conclude_checked-IsSame :
    (c : Config) (d : Data) (now : Time) (a : Attempt) (r : Checked)
    → Follows a r
    → IsSame a (conclude_checked c d now r).attempt
unfolding conclude_checked
conclude_checked-IsSame c d now a (stopped b e) (i, p, q) =
    let (j, p', q') = deferred-IsSame now b in (j ∙ i, p' ∙ p, q' ∙ q)
conclude_checked-IsSame c d now a (checked b complete known_failed) (i, p, q) =
    let (j, p', q') = conclude-IsSame c d now b complete known_failed in (j ∙ i, p' ∙ p, q' ∙ q)

pub verify-IsSame :
    (client : Client) (c : Config) (d : Data) (queue : List QueueRow) (now : Time) (a : Attempt)
    → IsSame a (verify client c d queue now a).attempt
unfolding verify
verify-IsSame client c d queue now a =
    conclude_checked-IsSame c d now a (check_kind client queue a now a.kind)
      (check_kind-Follows client queue a now a.kind)
