-- ===== src/Service/Verify/Outcomes/Removals.antt =====
-- What a verified removal rests on.
use sonarr_remediator.Base.{
  Time, ◌≡◌, refl, sym, ◌∙◌, ap, ◌⊎◌, inl, inr, true, false, ◌&&◌, not, List, any, ◌==◌, nat_eq,
  string_eq, arith, Bool-cases, ok, Result-cases,
}
use sonarr_remediator.Sonarr.{QueueRow, History, Blocklist}
use sonarr_remediator.State.{Attempt}
use sonarr_remediator.Service.Gate.{is_settled}
use sonarr_remediator.Service.Client.{Client}
use sonarr_remediator.Service.Verify.{is_blocklisted}
use sonarr_remediator.Service.Verify.Outcomes.{
  Checked, stopped, checked, conclude_removal, check_blocklist, note_removal, check_removal,
}

-- A removal that is complete.
abbrev pub Removed : Client → List QueueRow → Attempt → Time → Type 0
Removed client queue a now =
    ((a.removal_verified ≡ true)
      ⊎ ((a.ack ≡ true) × (any (λ (q : QueueRow). q.download_id == a.download_id) queue ≡ false)))
    × ((a.decision.blocklist ≡ false)
        ⊎ (a.blocklist_verified ≡ true)
        ⊎ ((events : List History) × (entries : List Blocklist) × (client.history a.download_id
              ≡ ok events)
            × (client.blocklist ≡ ok entries)
            × (is_blocklisted (note_removal queue a) events entries now ≡ true)))

-- A result that makes no attempt a success, and is complete only if `P` holds.
abbrev pub Fair : Attempt → Type 0 → Checked → Type 0
Fair a P (stopped b e) = b.outcome ≡ a.outcome
Fair a P (checked b complete known_failed) =
    (is_settled b.outcome ≡ true → is_settled a.outcome ≡ true) × (complete ≡ true → P)

Fair-map :
    (a b : Attempt) (P Q : Type 0) (r : Checked)
    → b.outcome ≡ a.outcome
    → (P → Q)
    → Fair b P r
    → Fair a Q r
Fair-map a b P Q (stopped x e) same f k = k ∙ same
Fair-map a b P Q (checked x complete known_failed) same f k =
    (λ s. sym (ap is_settled same) ∙ k.0 s, λ h. f (k.1 h))

conclude_removal-Fair :
    (b : Attempt)
    → Fair b
        ((b.removal_verified ≡ true)
          × ((b.decision.blocklist ≡ false) ⊎ (b.blocklist_verified ≡ true)))
        (conclude_removal b)
unfolding conclude_removal
conclude_removal-Fair b = (ground arith, λ h. (ground arith, ground arith))

-- What the queue shows of the removal.
note_removal-Shown :
    (queue : List QueueRow) (a : Attempt)
    → ((note_removal queue a).outcome ≡ a.outcome)
      × ((note_removal queue a).download_id ≡ a.download_id)
      × ((note_removal queue a).decision ≡ a.decision)
      × ((note_removal queue a).blocklist_verified ≡ a.blocklist_verified)
      × ((note_removal queue a).removal_verified ≡ true
          → (a.removal_verified ≡ true)
            ⊎ ((a.ack ≡ true)
                × (any (λ (q : QueueRow). q.download_id == a.download_id) queue ≡ false)))
unfolding note_removal
note_removal-Shown queue a =
    (ground arith, ground arith, ground arith, ground arith, λ h. ground arith)

check_blocklist-Fair :
    (client : Client) (b : Attempt) (now : Time)
    → Fair b
        ((b.removal_verified ≡ true)
          × ((b.decision.blocklist ≡ false)
              ⊎ ((events : List History) × (entries : List Blocklist) × (client.history
                      b.download_id
                    ≡ ok events)
                  × (client.blocklist ≡ ok entries)
                  × (is_blocklisted b events entries now ≡ true))))
        (check_blocklist client b now)
unfolding check_blocklist
check_blocklist-Fair client b now = elim (Result-cases (client.history b.download_id)) [
  | inr (e, h) ↦ rw (h, check_blocklist) refl
  | inl (events, h) ↦ elim (Result-cases client.blocklist) [
    | inr (e, k) ↦ rw (h, k, check_blocklist) refl
    | inl (entries, k) ↦
        rw (h, k, check_blocklist)
          (Fair-map b (record b { blocklist_verified = is_blocklisted b events entries now }) _ _
            (conclude_removal
              (record b { blocklist_verified = is_blocklisted b events entries now }))
            refl
            (λ g. (g.0, elim g.1 [ inl n ↦ inl n | inr y ↦ inr (events, entries, refl, refl, y) ]))
            (conclude_removal-Fair
              (record b { blocklist_verified = is_blocklisted b events entries now })))
  ]
]

pub check_removal-Fair :
    (client : Client) (queue : List QueueRow) (a : Attempt) (now : Time)
    → Fair a (Removed client queue a now) (check_removal client queue a now)
unfolding check_removal
check_removal-Fair client queue a now =
    let b = note_removal queue a in
    let (out, id, ds, bl, shown) = note_removal-Shown queue a in
    elim (Bool-cases (b.decision.blocklist && b.removal_verified && not b.blocklist_verified)) [
      | inl y ↦
          rw (y, check_removal)
            (Fair-map a b _ _ (check_blocklist client b now) out
              (λ g. (
                shown g.0,
                elim g.1 [
                  | inl n ↦ inl (rw ds at n)
                  | inr (events, entries, h, k, e) ↦ inr (inr (events, entries, rw id at h, k, e))
                ],
              ))
              (check_blocklist-Fair client b now))
      | inr n ↦
          rw (n, check_removal)
            (Fair-map a b _ _ (conclude_removal b) out
              (λ g.
                (shown g.0, elim g.1 [ inl m ↦ inl (rw ds at m) | inr e ↦ inr (inl (sym bl ∙ e)) ]))
              (conclude_removal-Fair b))
    ]
