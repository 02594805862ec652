-- ===== src/Client/Reads/Sent.antt =====
-- What leaves the client, and what an acknowledgement says.
use sonarr_remediator.Base.{
  ℤ, pos, leb_ℤ, ◌<ℤ◌, ℕ, ltb, ◌≤◌, ◌≡◌, refl, sym, ◌∙◌, ap, inl, inr, String, Bool, true, false,
  ◌||◌, not, ||-eq-false, arith, Bool-cases, Result, ok, ok-injective, >>=-eq-ok,
}
use sonarr_remediator.Sonarr.{Command}
use sonarr_remediator.Client.{
  Body, Exchange, unreachable, answered, is_success, max_response, receive, request, decode,
  acknowledge,
}
use sonarr_remediator.Client.Reads.{check_command, submit, remove}

-- An exchange that gives a result: Sonarr answered with a success and a complete body within the limit.
abbrev pub IsSuccess {ℓ κ} :
    {T : Type ℓ} {R : Type κ} → (Body T → Result R) → Exchange T → R → Type (ℓ ⊔ κ)
IsSuccess {T = T} finish x r =
    (status : ℤ) × (size : ℕ) × (body : Body T) × (x ≡ answered status false size body)
    × (is_success status ≡ true)
    × (size ≤ max_response)
    × (finish body ≡ ok r)

below_limit : (size : ℕ) → ltb max_response size ≡ false → size ≤ max_response
below_limit size h = ground arith

receive-IsSuccess {ℓ κ} :
    (api_error : ℤ → String → String) {T : Type ℓ} {R : Type κ} (finish : Body T → Result R)
    (x : Exchange T) (r : R)
    → receive api_error finish x ≡ ok r
    → IsSuccess finish x r
unfolding receive
receive-IsSuccess api_error finish unreachable r h = absurd (ground arith)
receive-IsSuccess api_error finish (answered status cut size body) r h =
    elim (Bool-cases (not (is_success status))) [
      | inl y ↦ absurd (ground arith)
      | inr n ↦ elim (Bool-cases (cut || ltb max_response size)) [
        | inl y ↦ absurd (ground arith)
        | inr m ↦
            let (whole, small) = ||-eq-false cut (ltb max_response size) m in
            (
              status,
              size,
              body,
              ap (λ b. answered status b size body) whole,
              ground arith,
              below_limit size small,
              sym (rw (n, m, receive) refl) ∙ h,
            )
      ]
    ]

check_command-id :
    (cmd got : Command) → check_command got ≡ ok cmd → (got ≡ cmd) × (pos 0 <ℤ cmd.id)
unfolding check_command
check_command-id cmd got h = elim (Bool-cases (leb_ℤ got.id (pos 0))) [
  | inl y ↦ absurd (ground arith)
  | inr n ↦
      let same : got ≡ cmd = ok-injective (sym (rw (n, check_command) refl) ∙ h) in
      (same, rw (sym same) (ground arith))
]

-- A client sends a mutation exactly if it is not for a dry run. A mutation that is acknowledged was sent,
-- and Sonarr answered it with a success and a complete body; a command has a positive id.
pub mutations-IsSuccess :
    (api_error : ℤ → String → String) (dry_run : Bool) (x : Exchange Command)
    (y : Exchange (Unit {0}))
    → ((submit api_error dry_run x).0 ≡ not dry_run)
      × ((remove api_error dry_run y).0 ≡ not dry_run)
      × ((cmd : Command)
          → (submit api_error dry_run x).1 ≡ ok cmd
          → (dry_run ≡ false) × (pos 0 <ℤ cmd.id) × IsSuccess decode x cmd)
      × ((u : Unit {0})
          → (remove api_error dry_run y).1 ≡ ok u
          → (dry_run ≡ false) × IsSuccess acknowledge y u)
unfolding submit remove request
mutations-IsSuccess api_error true x y =
    (refl, refl, λ cmd h. absurd (ground arith), λ u h. absurd (ground arith))
mutations-IsSuccess api_error false x y = (
  refl,
  refl,
  λ cmd h.
      let (got, e, c) = >>=-eq-ok (receive api_error decode x) check_command h in
      let (same, positive) = check_command-id cmd got c in
      (refl, positive, receive-IsSuccess api_error decode x cmd (e ∙ ap ok same)),
  λ u h. (refl, receive-IsSuccess api_error acknowledge y u h),
)
