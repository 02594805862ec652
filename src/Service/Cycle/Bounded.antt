-- ===== src/Service/Cycle/Bounded.antt =====
-- What a whole cycle sends, and what it leaves in the store.
use sonarr_remediator.Base.{
  pos, ◌≤ℤ◌, max_ℤ, ℕ, suc, Time, Duration, ◌≡◌, refl, sym, ◌∙◌, ap, subst, inl, inr, arith, Bool,
  true, false, ◌&&◌, not, string_eq, String, Option, none, some, Bool-cases, Result-cases, Result,
  ok, err, List, [], ◌∷◌, ◌++◌, length, Dict, is_none, has_substring, sort_strings,
}
use sonarr_remediator.Sonarr.{QueueRow}
use sonarr_remediator.Config.{Config}
use sonarr_remediator.Policy.Observation.{Observation}
use sonarr_remediator.Policy.Fingerprint.{Digest}
use sonarr_remediator.State.{Attempt, is_pending, Data}
use sonarr_remediator.State.Retention.{update_status, aggregate_status}
use sonarr_remediator.Service.Client.{Client}
use sonarr_remediator.Service.Verify.Outcomes.{verify}
use sonarr_remediator.Service.Execute.{overrides}
use sonarr_remediator.Service.Lifecycle.{here, next, verifies, expires, prunes}
use sonarr_remediator.Service.Lifecycle.Exclusive.{Exclusive, Reach-Exclusive}
use sonarr_remediator.Service.Scan.{download_ids, publish, failed}
use sonarr_remediator.Service.Manual.{Run}
use sonarr_remediator.Service.Plan.{
  Planned, Round, Planning, decisions, plan_candidates, candidates, plan_operations,
  sorted_operations,
}
use sonarr_remediator.Service.Perform.{World, Performed, perform_plans}
use sonarr_remediator.Service.Perform.Bounded.{perform_plans-IsBounded}
use sonarr_remediator.Service.Cycle.{
  observe_groups, note_failure, put_verification, verify_attempts, Cycled, Reads, start_report,
  attach, executes, give_up, finish_cycle, carry_out, plan_cycle, observed_cycle, reported_cycle,
  read_cycle, cycle,
}
use sonarr_remediator.Service.Cycle.Kept.{
  zero-le-max_ℤ, IsSmall, plan_candidates-IsKept, plan_operations-IsKept,
}

verify_attempts-Exclusive :
    (client : Client) (c : Config) (queue : List QueueRow) (now : Time)
    (earlier later : List Attempt) (s : Data)
    → s.attempts ≡ earlier ++ later
    → Exclusive s.attempts
    → Exclusive (verify_attempts client c queue now earlier later s).attempts
unfolding verify_attempts
verify_attempts-Exclusive client c queue now earlier [] s e h = h
verify_attempts-Exclusive client c queue now earlier (a ∷ later) s e h =
    elim (Bool-cases (is_pending a)) [
      | inr n ↦
          rw (n, verify_attempts)
            (verify_attempts-Exclusive client c queue now (earlier ++ a ∷ []) later s
              (e ∙ sym (append-assoc earlier (a ∷ []) later)) h)
      | inl y ↦
          let v = verify client c s queue now a in
          let t = put_verification earlier later v s in
          let stepped =
            Reach-Exclusive {c = c} (next here (verifies client queue now earlier a later e y)) h in
          let same : (note_failure v.error t).attempts ≡ t.attempts =
            attempts-note_failure v.error t in
          rw (y, verify_attempts)
            (verify_attempts-Exclusive client c queue now (earlier ++ v.attempt ∷ []) later
              (note_failure v.error t) (same ∙ sym (append-assoc earlier (v.attempt ∷ []) later))
              (subst Exclusive (sym same) stepped))
    ]
  where
    attempts-note_failure :
        (e : Option String) (t : Data) → (note_failure e t).attempts ≡ t.attempts
    attempts-note_failure none t = refl
    attempts-note_failure (some e) t = refl

    append-assoc : (xs ys zs : List Attempt) → (xs ++ ys) ++ zs ≡ xs ++ (ys ++ zs)
    append-assoc [] ys zs = refl
    append-assoc (x ∷ xs) ys zs = ap (λ rest. x ∷ rest) (append-assoc xs ys zs)

failed-Exclusive :
    (c : Config) (now : Time) (e : String) (s : Data)
    → Exclusive s.attempts
    → Exclusive (failed now e s).attempts
unfolding failed update_status aggregate_status
failed-Exclusive c now e s h = Reach-Exclusive {c = c} {s = s} (next here (expires now)) h

length-attach :
    (worlds : ℕ → World) (n : ℕ) (plans : List Planned)
    → length (attach worlds n plans) ≡ length (decisions plans)
unfolding attach
length-attach worlds n [] = refl
length-attach worlds n (p ∷ rest) = omega (arith, length-attach worlds (suc n) rest)

module _ (digest : Digest) (c : Config) (show : Duration → String) (too_large : Run → Bool)
    (worlds : ℕ → World) (w : Reads) (previous : Time) where
  abbrev pub IsBounded : Data → Cycled → Type 0
  IsBounded s done =
      (pos (length done.sent) ≤ℤ max_ℤ (pos 0) c.limits.mutations_per_scan)
      × (Exclusive s.attempts → Exclusive (done.store).attempts)

  finish_cycle-IsBounded :
      (s : Data) (done : Performed)
      → pos (length done.sent) ≤ℤ max_ℤ (pos 0) c.limits.mutations_per_scan
      → (Exclusive s.attempts → Exclusive (done.store).attempts)
      → IsBounded s (finish_cycle digest c show too_large worlds w previous done)
  unfolding finish_cycle update_status aggregate_status
  finish_cycle-IsBounded s done few h = elim (Bool-cases (is_none done.error)) [
    | inl y ↦
        rw (y, finish_cycle)
          (
            few,
            λ apart.
                Reach-Exclusive {c = c} {s = done.store}
                  (next here (prunes w.now c.history_retention c.limits.episode_cooldown))
                  (h apart),
          )
    | inr n ↦ rw (n, finish_cycle) (few, h)
  ]

  carry_out-IsBounded :
      (s : Data) (p : Planning)
      → IsSmall c (p.round).plans
      → (Exclusive s.attempts → Exclusive ((p.round).store).attempts)
      → IsBounded s (carry_out digest c show too_large worlds w previous p)
  unfolding carry_out
  carry_out-IsBounded s p small h =
      let r = p.round in
      let zero = zero-le-max_ℤ c.limits.mutations_per_scan in
      elim (Bool-cases (not (is_none p.error))) [
        | inl y ↦ rw (y, carry_out) (zero, h)
        | inr n ↦ elim (Bool-cases (not (is_none r.run) && too_large r.run)) [
          | inl y ↦ rw (n, y, carry_out) (zero, h)
          | inr m ↦ elim (Bool-cases (executes r.run)) [
            | inr x ↦
                rw (n, m, x, carry_out)
                  (finish_cycle-IsBounded s
                    (record { store = r.store; run = r.run; sent = []; error = none }) zero h)
            | inl x ↦
                let (sent, keeps) =
                  perform_plans-IsBounded digest c r.store r.run (attach worlds 0 r.plans) in
                rw (n, m, x, carry_out)
                  (finish_cycle-IsBounded s
                    (perform_plans digest c r.store r.run (attach worlds 0 r.plans))
                    (omega (arith, sent, length-attach worlds 0 r.plans, small))
                    (λ apart. keeps (h apart)))
          ]
        ]
      ]

  give_up-IsBounded :
      (s t : Data) (run : Run) (e : String)
      → t.attempts ≡ s.attempts
      → IsBounded s (give_up digest c show too_large worlds w previous t run e)
  give_up-IsBounded s t run e same = (
    zero-le-max_ℤ c.limits.mutations_per_scan,
    λ apart. failed-Exclusive c w.now e t (subst Exclusive (sym same) apart),
  )

  plan_cycle-IsBounded :
      (s t : Data) (queue : List QueueRow) (observations : Dict String Observation) (run : Run)
      → t.attempts ≡ s.attempts
      → IsBounded s (plan_cycle digest c show too_large worlds w previous queue observations t run)
  unfolding plan_cycle
  plan_cycle-IsBounded s t queue observations run same =
      let u = verify_attempts w.client c queue w.now [] t.attempts t in
      let verified : Exclusive s.attempts → Exclusive u.attempts = λ apart.
        verify_attempts-Exclusive w.client c queue w.now [] t.attempts t refl
          (subst Exclusive (sym same) apart) in
      elim (Result-cases (start_report c u w.now queue run)) [
        | inr (e, r) ↦ rw (r, plan_cycle) (zero-le-max_ℤ c.limits.mutations_per_scan, verified)
        | inl (started, r) ↦
            let first : Round = record { store = u; run = started; plans = [] } in
            let is =
              candidates digest c show w.cancelled w.now observations (overrides started) u in
            let planned = plan_candidates digest c show w.cancelled w.now observations first is in
            let one =
              plan_candidates-IsKept digest c show w.cancelled w.now observations first is in
            let ops = sorted_operations (planned.store).operations in
            let two = plan_operations-IsKept c w.now w.looks 0 planned ops in
            rw (r, plan_cycle)
              (carry_out-IsBounded s (plan_operations c w.now w.looks 0 planned ops)
                (two.0 (one.0 (zero-le-max_ℤ c.limits.mutations_per_scan)))
                (λ apart. two.1 (one.1 (verified apart))))
      ]

  observed_cycle-IsBounded :
      (version : String) (queue : List QueueRow) (s : Data) (run : Run)
      → (read : Result (Dict String Observation)) (late : Bool)
      → IsBounded s
          (observed_cycle digest c show too_large worlds w previous version queue s run read late)
  unfolding observed_cycle publish
  observed_cycle-IsBounded version queue s run (err e) late = give_up-IsBounded s _ run e refl
  observed_cycle-IsBounded version queue s run (ok observations) true =
      give_up-IsBounded s _ run _ refl
  observed_cycle-IsBounded version queue s run (ok observations) false =
      plan_cycle-IsBounded s (publish digest c previous w.now observations s version queue) queue
        observations run refl

  reported_cycle-IsBounded :
      (version : String) (queue : List QueueRow) (s : Data) (run : Run) (started : Result Run)
      → IsBounded s
          (reported_cycle digest c show too_large worlds w previous version queue s run started)
  unfolding reported_cycle
  reported_cycle-IsBounded version queue s run (err e) =
      (zero-le-max_ℤ c.limits.mutations_per_scan, λ apart. apart)
  reported_cycle-IsBounded version queue s run (ok started) =
      observed_cycle-IsBounded version queue s started
        (observe_groups w.client started queue (sort_strings (download_ids queue))) w.late

  read_cycle-IsBounded :
      (s : Data) (run : Run) (version : Result String) (queue : Result (List QueueRow))
      → IsBounded s (read_cycle digest c show too_large worlds w previous s run version queue)
  unfolding read_cycle
  read_cycle-IsBounded s run (err e) queue =
      elim (Bool-cases (has_substring e "unsupported Sonarr version")) [
        | inl y ↦ rw (y, read_cycle) (zero-le-max_ℤ c.limits.mutations_per_scan, λ apart. apart)
        | inr n ↦ rw (n, read_cycle) (give_up-IsBounded s s run e refl)
      ]
  read_cycle-IsBounded s run (ok version) (err e) = give_up-IsBounded s s run e refl
  read_cycle-IsBounded s run (ok version) (ok queue) =
      reported_cycle-IsBounded version queue s run (start_report c s w.now queue run)

  -- A cycle, whatever Sonarr answers and however it ends, sends at most as many mutations and searches as
  -- the settings allow for a scan (none, if they allow a negative number), and if no two pending attempts
  -- of the store share a download or an episode, then afterwards none do either.
  pub cycle-IsBounded :
      (s : Data) (run : Run) → IsBounded s (cycle digest c show too_large worlds w previous s run)
  unfolding cycle
  cycle-IsBounded s run = read_cycle-IsBounded s run w.version (w.client).queue
